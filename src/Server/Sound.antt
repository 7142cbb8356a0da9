-- ===== src/Server/Sound.antt =====
-- What holds of the maps, sessions and dogs of the server between its operations.
use backend_for_browser_game.Base.{
  ℕ, ◌≡◌, refl, sym, ap, ◌∙◌, true, List, [], ◌∷◌, All, map, all_of, get_elem?, Bytes, some, ok,
  arith, ◌&&◌,
}
use backend_for_browser_game.Double.{Double, ◌≼◌, nought, IsFinite}
use backend_for_browser_game.Model.Road.{Road}
use backend_for_browser_game.Model.Road.Stop.{is_straight}
use backend_for_browser_game.Model.GameMap.{GameMap}
use backend_for_browser_game.Model.Session.{GameSession, DogHeap}
use backend_for_browser_game.Model.World.{World, Game, find_map, map_at, table_find}
use backend_for_browser_game.Model.Movement.OnRoad.{all_straight}
use backend_for_browser_game.Model.Movement.Heading.{IsPlacedAt}
use backend_for_browser_game.Model.Gather.{has}
use backend_for_browser_game.Server.Shrink.{Within, Shrinks}

module _ {D : Type 0} ⦃d : Double D⦄ where
  -- A map that can be played on: roads along the axes, a tree that holds them, and a speed.
  pub record IsFine (m : GameMap D) : Type 0 where
    pub straight : all_of is_straight m.roads ≡ true
    pub indexed : m.road_rtree ≡ map (λ (r : Road D). (r.bounding_box, r)) m.roads
    pub speed_low : nought ≼ m.dog_speed
    pub speed_finite : IsFinite m.dog_speed

  all_straight_entries :
      (rs : List (Road D))
      → all_straight (map (λ (r : Road D). (r.bounding_box, r)) rs) ≡ all_of is_straight rs
  all_straight_entries [] = refl
  all_straight_entries (r ∷ rs) = ap (λ b. is_straight r && b) (all_straight_entries rs)

  pub IsFine-all_straight : (m : GameMap D) → IsFine m → all_straight m.road_rtree ≡ true
  IsFine-all_straight m v = rw v.indexed (all_straight_entries m.roads ∙ v.straight)

  abbrev pub HasFineMaps : Game D → Type 0
  HasFineMaps g = (k : ℕ) (m : GameMap D) → get_elem? g.maps k ≡ some m → IsFine m

  -- The dogs of a session are all at home on its map, and on its roads.
  pub record IsHosted (home : ℕ → ℕ) (w : World D) (s : GameSession D) : Type 0 where
    pub place : ℕ
    pub ground_map : GameMap D
    pub has_place : s.map ≡ some place
    pub at_place : get_elem? w.game.maps place ≡ some ground_map
    pub settled :
        (b : ℕ) → has s.dogs b ≡ true → (home b ≡ place) × IsPlacedAt ground_map.road_rtree w.dogs b

  -- `home` is the map that each dog belongs to. Sessions of the table exist, and play on the map of
  -- their id.
  pub record IsSound (home : ℕ → ℕ) (w : World D) : Type 0 where
    pub fine : HasFineMaps w.game
    pub hosted : (a : ℕ) (s : GameSession D) → get_elem? w.sessions a ≡ some s → IsHosted home w s
    pub listed :
        (id : Bytes) (a : ℕ)
        → table_find w.game.sessions id ≡ some a
        → (s : GameSession D) × (get_elem? w.sessions a ≡ some s) × (s.map ≡ find_map w.game id)

  -- The parts of the game that only joining changes.
  pub record SameTables (g g' : Game D) : Type 0 where
    pub same_maps : g'.maps ≡ g.maps
    pub same_index : g'.map_id_to_index ≡ g.map_id_to_index
    pub same_table : g'.sessions ≡ g.sessions

  pub SameTables-refl : (g : Game D) → SameTables g g
  SameTables-refl g = record { same_maps = refl; same_index = refl; same_table = refl }

  -- Who is on a road of its map stays on one.
  abbrev pub StaysHome : (ℕ → ℕ) → World D → DogHeap D → Type 0
  StaysHome home w heap =
      (m : GameMap D) (b : ℕ)
      → get_elem? w.game.maps (home b) ≡ some m
      → IsPlacedAt m.road_rtree w.dogs b
      → IsPlacedAt m.road_rtree heap b

  pub IsHosted-move :
      (home : ℕ → ℕ) (w w' : World D) (s s' : GameSession D)
      → w'.game.maps ≡ w.game.maps
      → Within s s'
      → StaysHome home w w'.dogs
      → IsHosted home w s
      → IsHosted home w' s'
  IsHosted-move home w w' s s' same v stays h = record {
    place = h.place;
    ground_map = h.ground_map;
    has_place = v.same_map ∙ h.has_place;
    at_place = rw same h.at_place;
    settled = λ b e.
        let (at, on) = h.settled b (v.no_more b e) in
        (at, stays h.ground_map b (rw at h.at_place) on);
  }

  -- An operation that keeps the tables, shrinks the sessions and keeps dogs on their roads.
  pub move-IsSound :
      (home : ℕ → ℕ) (w w' : World D)
      → SameTables w.game w'.game
      → Shrinks w.sessions w'.sessions
      → StaysHome home w w'.dogs
      → IsSound home w
      → IsSound home w'
  unfolding find_map
  move-IsSound home w w' t shrinks stays v = record {
    fine = λ k m e. v.fine k m (ap (λ ms. get_elem? ms k) (sym t.same_maps) ∙ e);
    hosted = λ a s' e.
        let (s, f, sub) = shrinks.back a s' e in
        IsHosted-move home w w' s s' t.same_maps sub stays (v.hosted a s f);
    listed = λ id a e.
        let (s, f, on) = v.listed id a (ap (λ x. table_find x id) (sym t.same_table) ∙ e) in
        let (s', g, sub) = shrinks.forth a s f in
        (s', g, sub.same_map ∙ on ∙ ap (λ x. table_find x id) (sym t.same_index));
  }

  -- The map of a session, as the code looks it up.
  pub hosted_map :
      (home : ℕ → ℕ) (w : World D) (s : GameSession D)
      → (h : IsHosted home w s) → map_at w.game s.map ≡ ok h.ground_map
  unfolding map_at
  hosted_map home w s h = rw (h.has_place) (rw h.at_place refl)

-- What holds of all that a list has.
pub All-has : (P : ℕ → Type 0) (xs : List ℕ) → ((b : ℕ) → has xs b ≡ true → P b) → All P xs
All-has P [] h = tt
All-has P (x ∷ xs) h = (h x (ground arith), All-has P xs (λ b e. h b (ground (arith, e))))
