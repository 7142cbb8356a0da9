-- ===== src/Main/Tests.antt =====
-- A timer that ticks twice, and a server that has started from a file with one map.
use backend_for_browser_game.Base.{
  zero, suc, ℕ, pos, ◌+◌, ◌*◌, ◌≤◌, ◌≡◌, refl, subst, true, false, [], ◌∷◌, length, get_elem?, some,
  none, Result, ok, err, runtime_error, arith,
}
use backend_for_browser_game.Double.{nought, ◌≼◌, IsFinite}
use backend_for_browser_game.Double.Milli.{Milli, milli_double, Milli-IsIeee}
use backend_for_browser_game.Collision.Sorting.{sort_events}
use backend_for_browser_game.Model.Gather.{has}
use backend_for_browser_game.Serialization.{Fresh}
use backend_for_browser_game.Loader.{
  road_of, add_roads, add_buildings, add_offices, add_loot_values, load_parts, load_map, load_maps,
  add_loot_generator_config, load_document, new_game, load_game,
}
use backend_for_browser_game.Handlers.MapJson.{road_json, roads_to_json}
use backend_for_browser_game.Loader.Tests.{json, doubles, fresh}
use backend_for_browser_game.Model.World.{
  World, Player, set_game_mode, set_dog_spawn_mode, set_save_period, add_map, set_loot_generator,
  map_at, find_map, add_dog_to_session, session_for,
}
use backend_for_browser_game.Model.Session
use backend_for_browser_game.Model.GameMap
use backend_for_browser_game.Model.GameMap.{GameMap}
use backend_for_browser_game.Model.Session.{GameSession}
use backend_for_browser_game.Model.Samples.{game, town, town_id, sample_boost, sample_boost-IsRTree}
use backend_for_browser_game.Application.Tests.{chance}
use backend_for_browser_game.Application.{join_game, spawn_point, enter, add_player}
use backend_for_browser_game.Server.Steps.{joining, here, next}
use backend_for_browser_game.Server.Invariant.{StandsOnRoad}
use backend_for_browser_game.Main.{
  Ticker, start_ticker, schedule_tick, ticks, Args, configure, load_saved, prepare,
  parse_command_line, first_world,
}
use backend_for_browser_game.Main.Start.{HasFineSpeeds, prepare-StandsOnRoad}
use backend_for_browser_game.Main.Ticks.{total, ticks_bounds}

abbrev ticker : Ticker
ticker = start_ticker 0

ticks_bounds_example :
    (total (ticks ticker (1500000 ∷ 3200000 ∷ [])) * 1000000 ≤ 3200000)
    × (3200000 ≤ total (ticks ticker (1500000 ∷ 3200000 ∷ [])) * 1000000 + 2 * 999999)
    × (length (ticks ticker (1500000 ∷ 3200000 ∷ [])) ≡ 2)
unfolding start_ticker schedule_tick
ticks_bounds_example = ticks_bounds ticker (1500000 ∷ 3200000 ∷ []) (omega arith, (omega arith, tt))

abbrev args : Args
args = record {
  tick_period = pos 0;
  config_file_path = [];
  www_root_path = [];
  randomize_spawn_points = false;
  game_test_mode = true;
  state_file_path = [];
  save_state_period = pos 0;
  save_state_period_set = false;
}

abbrev no_fresh : ℕ → Fresh
no_fresh n = record { uuid = []; garbage = pos 0 }

abbrev prepared : Result (World Milli)
prepared = prepare json doubles args fresh (some []) no_fresh none

abbrev world_of : Result (World Milli) → World Milli
world_of (ok w) = w
world_of (err e) = first_world game

abbrev started : World Milli
started = world_of prepared

prepares : prepared ≡ ok started
unfolding prepare load_saved configure set_game_mode set_dog_spawn_mode set_save_period new_game
    load_game load_document add_loot_generator_config load_maps load_map load_parts add_roads
    roads_to_json road_json road_of add_buildings add_offices add_loot_values add_map
    set_loot_generator
prepares = refl

abbrev first_map : GameMap Milli
first_map = elim started.game.maps [ [] ↦ town | m ∷ ms ↦ m ]

fast : HasFineSpeeds started.game
unfolding prepare load_saved configure set_game_mode set_dog_spawn_mode set_save_period new_game
    load_game load_document add_loot_generator_config load_maps load_map load_parts add_roads
    roads_to_json road_json road_of add_buildings add_offices add_loot_values add_map
    set_loot_generator GameMap.build_road_rtree GameMap.add_loot_value GameMap.set_loot_types_count
    GameMap.add_road GameMap.set_bag_capacity GameMap.set_dog_speed
fast zero m h =
    let same : first_map ≡ m = ground (arith, h) in
    subst (λ (x : GameMap Milli). (nought ≼ x.dog_speed) × IsFinite x.dog_speed) same (refl, refl)
fast (suc k) m h = cc

abbrev joined : Result (World Milli × Player)
joined = join_game started [] town_id chance

abbrev joined_of : Result (World Milli × Player) → World Milli × Player
joined_of (ok r) = r
joined_of (err e) = (started, record { session = some 0; dog = some 0; token = []; id = 0 })

abbrev session_of : World Milli → GameSession Milli
session_of w = elim w.sessions [
  | [] ↦ record { map = none; dogs = []; loot = []; session_id = 0 }
  | s ∷ ss ↦ s
]

abbrev playing : GameSession Milli
playing = session_of (joined_of joined).0

joins :
    (joined ≡ ok (joined_of joined))
    × (get_elem? (joined_of joined).0.sessions 0 ≡ some playing)
    × (has playing.dogs 0 ≡ true)
unfolding prepare load_saved configure set_game_mode set_dog_spawn_mode set_save_period new_game
    load_game load_document add_loot_generator_config load_maps load_map load_parts add_roads
    roads_to_json road_json road_of add_buildings add_offices add_loot_values add_map
    set_loot_generator join_game map_at find_map spawn_point enter add_dog_to_session session_for
    add_player Session.add_dog Session.new_session GameMap.add_loot_value
    GameMap.set_loot_types_count GameMap.add_road GameMap.set_bag_capacity GameMap.set_dog_speed
    GameMap.new_map GameMap.build_road_rtree
joins = (refl, refl, refl)

prepare-StandsOnRoad_example : StandsOnRoad (joined_of joined).0 playing 0
prepare-StandsOnRoad_example =
    prepare-StandsOnRoad json doubles Milli-IsIeee sample_boost sample_boost-IsRTree sort_events
      args fresh (some []) no_fresh none started (joined_of joined).0 0 playing 0
      (unfold new_game in refl) (unfold new_game in refl) refl prepares fast
      (next started started (joined_of joined).0 (here started)
        (joining started (joined_of joined).0 (joined_of joined).1 [] town_id chance joins.0))
      joins.1 joins.2

-- Without a path of the configuration the command line is refused.
no_config :
    parse_command_line
      (record {
        help = false;
        tick_period = none;
        config_file = none;
        www_root = some [];
        randomize_spawn_points = false;
        state_file = none;
        save_state_period = none;
      })
      (pos 0)
      (pos 0)
    ≡ err runtime_error
unfolding parse_command_line
no_config = refl
