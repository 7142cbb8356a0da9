-- ===== src/Application/Actions.antt =====
-- Player::MakeAction and the spawn points of src/application.cpp, and the roads.
use backend_for_browser_game.Base.{
  pos, ◌||◌, ◌≡◌, refl, ap, ◌∙◌, subst, true, List, [], ◌∷◌, get_elem?, map, any_of, all_of, Bytes,
  ok, undefined, or_fail, or_fail-eq-ok, >>=-eq-ok, arith,
}
use backend_for_browser_game.Double.{Double, IsIeee, ◌≼◌, nought, IsFinite}
use backend_for_browser_game.Geom.{Point2D}
use backend_for_browser_game.Model.Road.{Point, Road, is_point_on_road}
use backend_for_browser_game.Model.Road.Stop.{is_straight}
use backend_for_browser_game.Model.GameMap.{GameMap}
use backend_for_browser_game.Model.GameMap.RandomPoint.{
  as_point_2d, get_random_point_on_road_lem, start-on_road,
}
use backend_for_browser_game.Model.Dog.{
  Dog, set_speed, set_direction, set_status, reset_inactivity_timer,
}
use backend_for_browser_game.Model.Movement.{Entry}
use backend_for_browser_game.Model.Movement.OnRoad.{on_some_road}
use backend_for_browser_game.Model.Movement.Heading.{IsPlaced}
use backend_for_browser_game.Model.World.{SpawnMode, random, fix}
use backend_for_browser_game.Application.{steer, Chance, spawn_point}

module _ {D : Type 0} ⦃d : Double D⦄ (laws : IsIeee D) where
  open laws use {of_int_zero, of_int-IsFinite, neg_nonpos, decimal_nonneg}

  -- A dog of the roads stays where it is under any action, and its new speed fits its new direction,
  -- if the speed of the map is not negative.
  pub steer-IsPlaced :
      (roads : List (Entry D)) (speed : D) (move : Bytes) (g : Dog D)
      → nought ≼ speed
      → IsFinite speed
      → IsPlaced roads g
      → IsPlaced roads (steer speed move g)
  unfolding steer set_speed set_direction set_status reset_inactivity_timer
  steer-IsPlaced roads speed move g s f v =
      let zero_fin : IsFinite (d.of_int (pos 0)) = of_int-IsFinite (pos 0) in
      let (low, neg_fin) = neg_nonpos speed s f in ground (arith, zero_fin, low, neg_fin, v.on_road)

  module _ (m : GameMap D) where
    -- The tree holds the roads of the map.
    abbrev pub IsIndexed : Type 0
    IsIndexed = m.road_rtree ≡ map (λ (r : Road D). (r.bounding_box, r)) m.roads

    any_of-entries :
        (p : Point2D D) (rs : List (Road D))
        → on_some_road (map (λ (r : Road D). (r.bounding_box, r)) rs) p
          ≡ any_of (is_point_on_road p) rs
    any_of-entries p [] = refl
    any_of-entries p (r ∷ rs) = ap (λ b. is_point_on_road p r || b) (any_of-entries p rs)

    -- Where a new dog is put, at random or at the start of the first road, it stands on a road.
    pub spawn_point-on_road :
        (mode : SpawnMode) (c : Chance) (p : Point)
        → all_of is_straight m.roads ≡ true
        → IsIndexed
        → spawn_point mode m c ≡ ok p
        → on_some_road m.road_rtree (as_point_2d p) ≡ true
    unfolding spawn_point
    spawn_point-on_road random c p s tree h = rw tree (
        any_of-entries (as_point_2d p) m.roads
        ∙ get_random_point_on_road_lem laws m c.road_draw c.x_draw c.y_draw p s h)
    spawn_point-on_road fix c p s tree h =
        let (r, e, q) = >>=-eq-ok (or_fail (get_elem? m.roads 0) undefined) _ h in
        let at = or_fail-eq-ok (get_elem? m.roads 0) undefined e in
        let same : r.start ≡ p = ground (arith, q) in
        rw tree (
          any_of-entries (as_point_2d p) m.roads
          ∙ subst (λ x. any_of (is_point_on_road (as_point_2d x)) m.roads ≡ true) same
              (start-on_road laws m.roads 0 r at s))
