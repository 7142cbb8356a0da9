-- ===== src/Model/Tests.antt =====
-- Runs of the model on the sample game, and its theorems there.
use backend_for_browser_game.Base.{
  All, min_ℤ, max_ℤ, ◌+ℤ◌, ◌-ℤ◌, ◌*ℤ◌, ◌≡◌, refl, true, [], ◌∷◌, ok,
}
use backend_for_browser_game.Double.Milli.{Milli, milli_double, Milli-IsIeee}
use backend_for_browser_game.Collision.{empty_provider, GathererProvider}
use backend_for_browser_game.Model.Road.{east, is_point_on_road, find_stop_point, in_band}
use backend_for_browser_game.Model.Road.Stop.{is_straight, find_stop_point-on_road}
use backend_for_browser_game.Model.Session.{DogHeap}
use backend_for_browser_game.Model.Movement.{
  calculate_new_dog_position, update_dogs, move_along, best_stop,
}
use backend_for_browser_game.Model.Movement.Heading.{IsPlaced, IsPlacedAt, update_dogs-IsPlaced}
use backend_for_browser_game.Model.Samples.{
  milli, at, main_road, town, sample_boost, sample_boost-IsRTree, rex, sleepy,
}

-- After half a second the dog has run one and a half units.
abbrev half : Milli
half = milli 500

moved_half :
    (calculate_new_dog_position sample_boost rex half town.road_rtree).0
    ≡ record { x = milli 2500; y = milli 0 }
unfolding calculate_new_dog_position move_along is_point_on_road in_band ◌+ℤ◌ ◌-ℤ◌ ◌*ℤ◌ min_ℤ max_ℤ
moved_half = refl

-- After five seconds it is stopped at the end of the road.
stopped :
    (calculate_new_dog_position sample_boost rex (milli 5000) town.road_rtree).0
    ≡ record { x = milli 10400; y = milli 0 }
unfolding calculate_new_dog_position move_along is_point_on_road in_band best_stop find_stop_point
    ◌+ℤ◌ ◌-ℤ◌ ◌*ℤ◌ min_ℤ max_ℤ
stopped = refl

find_stop_point-on_road_example :
    is_point_on_road (find_stop_point (at 1 0) (at 16 0) main_road east) main_road ≡ true
find_stop_point-on_road_example =
    find_stop_point-on_road Milli-IsIeee (at 1 0) (at 16 0) main_road east
      (unfold is_straight in refl) (refl)
      (unfold is_point_on_road in_band ◌+ℤ◌ ◌-ℤ◌ ◌*ℤ◌ min_ℤ max_ℤ in refl)

pub rex-IsPlaced : IsPlaced town.road_rtree rex
unfolding is_point_on_road in_band ◌+ℤ◌ ◌-ℤ◌ ◌*ℤ◌ min_ℤ max_ℤ
rex-IsPlaced = record { on_road = refl; finite_x = refl; finite_y = refl; faces = refl }

pub sleepy-IsPlaced : IsPlaced town.road_rtree sleepy
unfolding is_point_on_road in_band ◌+ℤ◌ ◌-ℤ◌ ◌*ℤ◌ min_ℤ max_ℤ
sleepy-IsPlaced = record { on_road = refl; finite_x = refl; finite_y = refl; faces = refl }

update_dogs-IsPlaced_example :
    (r : DogHeap Milli × GathererProvider Milli) × (update_dogs sample_boost half town.road_rtree
        (0 ∷ 1 ∷ [])
        (rex ∷ sleepy ∷ [])
        empty_provider
      ≡ ok r)
    × All (IsPlacedAt town.road_rtree r.0) (0 ∷ 1 ∷ [])
update_dogs-IsPlaced_example =
    update_dogs-IsPlaced Milli-IsIeee sample_boost sample_boost-IsRTree half (refl, refl)
      town.road_rtree (0 ∷ 1 ∷ []) (rex ∷ sleepy ∷ []) empty_provider (unfold is_straight in refl)
      ((rex, refl, rex-IsPlaced), ((sleepy, refl, sleepy-IsPlaced), tt))
