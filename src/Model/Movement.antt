-- ===== src/Model/Movement.antt =====
-- Game::CalculateNewDogPosition and Game::UpdateDogsPosition of src/model.cpp. What the code asks of
-- boost::geometry is the parameter `Boost`.
pub mod OnRoad
pub mod Heading
use mathlib.Core.List.{Perm}
use backend_for_browser_game.Base.{
  ℕ, ℤ, ◌≡◌, Bool, true, false, ◌&&◌, ◌||◌, List, [], ◌∷◌, any_of, copy_if, get_elem?, set, Result,
  ok, err, undefined, or_fail, ◌>>=◌, if◌then◌else◌,
}
use backend_for_browser_game.Double.{Double, nought}
use backend_for_browser_game.Geom.{Point2D, Vec2D, eq_pt}
use backend_for_browser_game.Collision.{GathererProvider, Gatherer, add_gatherer}
use backend_for_browser_game.Model.Road.{
  Box, Road, Direction, none_dir, east, west, north, south, is_point_on_road, find_stop_point,
}
use backend_for_browser_game.Model.GameMap.{GameMap}
use backend_for_browser_game.Model.Dog.{
  Dog, active, inactive, set_speed, set_position, set_status, update_inactivity_time,
  reset_inactivity_timer,
}
use backend_for_browser_game.Model.Session.{GameSession, DogHeap}

abbrev pub Entry : Type 0 → Type 0
Entry D = Box D × Road D

-- boost::geometry: does a segment meet a box, does a box hold a point, how far apart are two points,
-- and the query of an r-tree.
pub record Boost (D : Type 0) : Type 0 where
  pub intersects : Point2D D → Point2D D → Box D → Bool
  pub within : Point2D D → Box D → Bool
  pub distance : Point2D D → Point2D D → D
  pub query : (Entry D → Bool) → List (Entry D) → List (Entry D)

-- A query returns the entries that satisfy its predicate, in any order.
pub record IsRTree {D : Type 0} (boost : Boost D) : Type 0 where
  pub query-perm :
      (p : Entry D → Bool) (es : List (Entry D)) → Perm (boost.query p es) (copy_if p es)

module _ {D : Type 0} ⦃d : Double D⦄ where
  -- The loop over the roads: the candidate that is farthest from where the dog stands.
  unfoldable pub best_stop :
      Boost D → Point2D D → Point2D D → Direction → List (Entry D) → Point2D D → D → Point2D D
  best_stop boost from to dir [] stop max_distance = stop
  best_stop boost from to dir (e ∷ es) stop max_distance =
      let candidate = find_stop_point from to e.1 dir in
      let dist = boost.distance from candidate in
      let better = is_point_on_road from e.1 && d.lt max_distance dist in
      best_stop boost from to dir es (if better then candidate else stop)
        (if better then dist else max_distance)

  abbrev pub stands : Dog D → Bool
  stands g = elim g.direction [
    | none_dir ↦ true
    | _ ↦ d.lt (d.abs g.speed.x) d.epsilon && d.lt (d.abs g.speed.y) d.epsilon
  ]

  abbrev pub target_of : Dog D → D → Point2D D
  target_of g dt = record {
    x = d.add g.position.x (d.mul g.speed.x dt);
    y = d.add g.position.y (d.mul g.speed.y dt);
  }

  abbrev pub halt : Vec2D D
  halt = record { x = d.of_int (ℤ.pos 0); y = d.of_int (ℤ.pos 0) }

  abbrev pub relevant : Boost D → Dog D → D → List (Entry D) → List (Entry D)
  relevant boost g dt roads =
      boost.query
        (λ e. boost.intersects g.position (target_of g dt) e.0 || boost.within g.position e.0) roads

  -- The part behind the guards, for a list of roads that is known.
  unfoldable pub move_along : Boost D → Dog D → D → List (Entry D) → Point2D D × Dog D
  move_along boost g dt [] = (g.position, g)
  move_along boost g dt (e ∷ es) =
      if any_of (λ (r : Entry D). is_point_on_road (target_of g dt) r.1) (e ∷ es)
      then (target_of g dt, g)
      else (
        best_stop boost g.position (target_of g dt) g.direction (e ∷ es) g.position d.min_positive,
        set_speed g halt,
      )

  -- The new position, and the dog with the speed that the call leaves it.
  unfoldable pub calculate_new_dog_position :
      Boost D → Dog D → D → List (Entry D) → Point2D D × Dog D
  calculate_new_dog_position boost g dt roads =
      if stands g then (g.position, g) else move_along boost g dt (relevant boost g dt roads)

  -- The body of the loop: the dog at its new place, with its timer, and what the collision detector
  -- is told of it.
  unfoldable pub move_dog : Boost D → D → List (Entry D) → Dog D → Dog D × Gatherer D
  move_dog boost dt roads g =
      let old = g.position in
      let (new, g₁) = calculate_new_dog_position boost g dt roads in
      let g₂ = set_position g₁ new in
      let seen : Gatherer D = record {
        start_pos = old;
        end_pos = new;
        width = g₂.width;
        gatherer_id = g₂.id;
      } in
      (
        (if eq_pt old new
            then update_inactivity_time (set_status g₂ inactive) dt
            else reset_inactivity_timer (set_status g₂ active)),
        seen,
      )

  unfoldable pub update_dogs :
      Boost D
      → D
      → List (Entry D)
      → List ℕ
      → DogHeap D
      → GathererProvider D
      → Result (DogHeap D × GathererProvider D)
  update_dogs boost dt roads [] heap provider = ok (heap, provider)
  update_dogs boost dt roads (a ∷ rest) heap provider =
      or_fail (get_elem? heap a) undefined >>= λ g.
      let (g', seen) = move_dog boost dt roads g in
      update_dogs boost dt roads rest (set heap a g') (add_gatherer provider seen)

  -- Game::UpdateDogsPosition: the time is in milliseconds, the speeds are in units a second.
  unfoldable pub update_dogs_position :
      Boost D
      → GameMap D
      → GameSession D
      → ℤ
      → DogHeap D
      → GathererProvider D
      → Result (DogHeap D × GathererProvider D)
  update_dogs_position boost m s time_delta_ms heap provider =
      update_dogs boost (d.div (d.of_int time_delta_ms) (d.decimal 1000 0)) m.road_rtree s.dogs heap
        provider
