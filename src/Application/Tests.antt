-- ===== src/Application/Tests.antt =====
-- Joining and acting in the sample world, and the theorems about it there.
use backend_for_browser_game.Base.{
  any_of, pos, ◌+ℤ◌, ◌-ℤ◌, ◌≡◌, refl, true, [], ◌∷◌, some, ok, Bytes,
}
use backend_for_browser_game.Double.Milli.{Milli, milli_double, Milli-IsIeee}
use backend_for_browser_game.Model.Road.{is_point_on_road}
use backend_for_browser_game.Model.Road.Stop.{is_straight}
use backend_for_browser_game.Model.GameMap.{get_random_point_on_road, uniform}
use backend_for_browser_game.Model.GameMap.RandomPoint.{as_point_2d, get_random_point_on_road_lem}
use backend_for_browser_game.Model.Movement.OnRoad.{on_some_road}
use backend_for_browser_game.Model.Movement.Heading.{IsPlaced}
use backend_for_browser_game.Model.World.{Player, random}
use backend_for_browser_game.Application.{
  Chance, spawn_point, steer, key_l, find_player_by_token, find_players_in_session,
}
use backend_for_browser_game.Application.Actions.{steer-IsPlaced, spawn_point-on_road}
use backend_for_browser_game.Application.Sessions.{Selects, find_players_in_session_lem}
use backend_for_browser_game.Model.Samples.{milli, town, rex, world, player_of}
use backend_for_browser_game.Model.Tests.{rex-IsPlaced}

steer-IsPlaced_example : IsPlaced town.road_rtree (steer (milli 3000) key_l rex)
steer-IsPlaced_example =
    steer-IsPlaced Milli-IsIeee town.road_rtree (milli 3000) key_l rex refl refl rex-IsPlaced

abbrev pub chance : Chance
chance = record {
  road_draw = 3;
  x_draw = 15;
  y_draw = 8;
  uuid = [];
  token = [];
  now = pos 0;
  garbage = pos 0;
}

-- Fifteen, counted round a road of eleven places, is four.
drawn : spawn_point random town chance ≡ ok (record { x = pos 4; y = pos 0 })
unfolding spawn_point get_random_point_on_road uniform ◌+ℤ◌ ◌-ℤ◌
drawn = refl

spawn_point-on_road_example :
    on_some_road town.road_rtree (as_point_2d (record { x = pos 4; y = pos 0 })) ≡ true
spawn_point-on_road_example =
    spawn_point-on_road Milli-IsIeee town random chance (record { x = pos 4; y = pos 0 })
      (unfold is_straight in refl) refl drawn

abbrev token_c : Bytes
token_c = b'c' ∷ []

abbrev token_a : Bytes
token_a = b'a' ∷ []

find_players_in_session_lem_example :
    Selects
      (λ (p : Player). p.session ≡ some 0)
      world.players
      (find_players_in_session world.players token_a)
    × (find_player_by_token (find_players_in_session world.players token_a) token_a
        ≡ some (player_of 0 token_a))
find_players_in_session_lem_example =
    find_players_in_session_lem world.players token_a (player_of 0 token_a)
      (unfold find_player_by_token in refl)

somewhere : get_random_point_on_road town 3 15 8 ≡ ok (record { x = pos 4; y = pos 0 })
unfolding get_random_point_on_road uniform ◌+ℤ◌ ◌-ℤ◌
somewhere = refl

get_random_point_on_road_lem_example :
    any_of (is_point_on_road (as_point_2d {D = Milli} (record { x = pos 4; y = pos 0 }))) town.roads
    ≡ true
get_random_point_on_road_lem_example =
    get_random_point_on_road_lem Milli-IsIeee town 3 15 8 (record { x = pos 4; y = pos 0 })
      (unfold is_straight in refl) somewhere
