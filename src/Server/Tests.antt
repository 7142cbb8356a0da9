-- ===== src/Server/Tests.antt =====
-- A dog joins an empty server, and the timer ticks.
use backend_for_browser_game.Base.{
  zero, suc, ℤ, subst, pos, ◌+ℤ◌, ◌-ℤ◌, ◌*ℤ◌, min_ℤ, max_ℤ, ◌≡◌, refl, Bool, false, [], ◌∷◌,
  get_elem?, some, none, Result, ok, err, Bytes, arith,
}
use backend_for_browser_game.Double.Milli.{Milli, milli_double, Milli-IsIeee}
use backend_for_browser_game.Collision.Sorting.{sort_events}
use backend_for_browser_game.Model.Session.{GameSession}
use backend_for_browser_game.Model.Road.Stop.{is_straight}
use backend_for_browser_game.Model.World.{
  World, Player, map_at, find_map, get_current_time, set_loot_generator, add_dog_to_session,
  session_for,
}
use backend_for_browser_game.Geom.{eq_pt}
use backend_for_browser_game.Collision.{
  find_gather_events, add_item, add_gatherer, is_collected, try_collect_point,
}
use backend_for_browser_game.Collision.Sorting.{sort_events}
use backend_for_browser_game.LootGen.{generate, raw_probability}
use backend_for_browser_game.Model.Road.{is_point_on_road, in_band, find_stop_point}
use backend_for_browser_game.Model.GameMap.{get_loot_value, get_random_point_on_road, uniform}
use backend_for_browser_game.Model.Loot.{new_loot}
use backend_for_browser_game.Model.Dog.{
  new_dog, set_join_time, set_direction, get_loot_count_in_bag, add_loot, release_loot, score_bag,
  reset_inactivity_timer, set_position, set_speed, set_status, update_inactivity_time,
}
use backend_for_browser_game.Model.Movement.{
  update_dogs_position, update_dogs, best_stop, calculate_new_dog_position, move_along, move_dog,
}
use backend_for_browser_game.Model.Spawn.{update_loot, spawn_loot, get_random_id}
use backend_for_browser_game.Model.Gather.{
  add_office_items, gather_loot, gather_events, add_loot_items, digits_value, gather_event,
  handle_event, reach_item, stoul, take_loot,
}
use backend_for_browser_game.Model.Retire.{
  drop_player, leave_session, record_of, remove_inactive_dogs, remove_player_from_game_by_dog_id,
  retire_dog, retire_dogs, sweep, take_player,
}
use backend_for_browser_game.Model.Tick.{
  update, update_sessions, save_due, update_session, play_session,
}
use backend_for_browser_game.Model.Session
use backend_for_browser_game.Application.{
  join_game, spawn_point, enter, add_player, make_action, steer, key_r, find_player_by_token,
}
use backend_for_browser_game.Application.Tests.{chance}
use backend_for_browser_game.Json.{Json}
use backend_for_browser_game.Handlers.Api.{Request, post, succeed, joined}
use backend_for_browser_game.Json.{codes}
use backend_for_browser_game.Handlers.Game.{handle, handle_game, join_game_response}
use backend_for_browser_game.Handlers.Text.{url_decode}
use backend_for_browser_game.Handlers.Records.{cut}
use backend_for_browser_game.Handlers.Tests.{echo, inputs}
use backend_for_browser_game.Model.Samples.{
  at, milli, sample_boost, sample_boost-IsRTree, town, town_id, game, world,
}
use backend_for_browser_game.Server.Sound.{HasFineMaps, IsFine}
use backend_for_browser_game.Server.Steps.{Reach, joining, acting, ticking, here, next}
use backend_for_browser_game.Server.Invariant.{Nonnegative, StandsOnRoad, Reach-StandsOnRoad}
use backend_for_browser_game.Server.Answers.{IsExplained}
use backend_for_browser_game.Server.Requests.{handle-Reach}

abbrev empty : World Milli
empty = record world {
  game = record game { sessions = [] };
  sessions = [];
  dogs = [];
  players = [];
}

fine : HasFineMaps game
unfolding is_straight
fine zero m h =
    let same : town ≡ m = ground (arith, h) in
    subst IsFine same
      (record { straight = refl; indexed = refl; speed_low = refl; speed_finite = refl })
fine (suc k) m h = cc

abbrev player : Player
player = record { session = some 0; dog = some 0; token = []; id = 2 }

abbrev world_of : Result (World Milli × Player) → World Milli
world_of (ok (w, p)) = w
world_of (err e) = empty

abbrev joined_world : World Milli
joined_world = world_of (join_game empty town_id town_id chance)

joins : join_game empty town_id town_id chance ≡ ok (joined_world, player)
unfolding join_game map_at find_map spawn_point enter add_dog_to_session session_for add_player
joins = refl

abbrev steered_world : World Milli
steered_world = record joined_world {
  dogs = elim joined_world.dogs [ [] ↦ [] | g ∷ gs ↦ steer (milli 3000) key_r g ∷ gs ];
}

steers :
    (find_player_by_token joined_world.players [] ≡ some player)
    × (make_action joined_world player key_r ≡ ok steered_world)
unfolding find_player_by_token make_action join_game map_at find_map spawn_point enter
    add_dog_to_session session_for add_player Session.add_dog Session.new_session
steers = (refl, refl)

abbrev after : Result (World Milli × Bool) → World Milli
after (ok (w, saving)) = w
after (err e) = empty

abbrev ticked_world : World Milli
ticked_world = after (update sample_boost sort_events steered_world inputs.outside (pos 1000))

abbrev playing : GameSession Milli
playing = record {
  map = some 0;
  dogs = 0 ∷ [];
  loot = record { type_id = 0; id = 6; position = at 0 0; width = milli 0; value = 10 } ∷ [];
  session_id = 1;
}

ticks :
    (update sample_boost sort_events steered_world inputs.outside (pos 1000)
      ≡ ok (ticked_world, false))
    × (get_elem? ticked_world.sessions 0 ≡ some playing)
unfolding ◌*ℤ◌ ◌-ℤ◌ ◌+ℤ◌ max_ℤ min_ℤ eq_pt find_gather_events add_item add_gatherer is_collected
    try_collect_point sort_events generate raw_probability is_point_on_road in_band find_stop_point
    get_loot_value get_random_point_on_road uniform new_loot get_loot_count_in_bag add_loot
    release_loot score_bag reset_inactivity_timer set_position set_speed set_status
    update_inactivity_time update_dogs_position update_dogs best_stop calculate_new_dog_position
    move_along move_dog update_loot spawn_loot get_random_id add_office_items gather_loot
    gather_events add_loot_items digits_value gather_event handle_event reach_item stoul take_loot
    drop_player leave_session record_of remove_inactive_dogs remove_player_from_game_by_dog_id
    retire_dog retire_dogs sweep take_player map_at get_current_time set_loot_generator
    update_session play_session Session.add_loot Session.gather_loot Session.remove_dog join_game
    find_map spawn_point enter add_dog_to_session session_for add_player Session.add_dog
    Session.new_session make_action update update_sessions save_due steer new_dog set_join_time
    set_direction
ticks = (refl, refl)

Reach-StandsOnRoad_example : StandsOnRoad ticked_world playing 0
Reach-StandsOnRoad_example =
    Reach-StandsOnRoad Milli-IsIeee sample_boost sample_boost-IsRTree sort_events empty ticked_world
      0 playing 0 fine refl refl
      (next empty steered_world ticked_world
        (next empty joined_world steered_world
          (next empty empty joined_world (here empty)
            (joining empty joined_world player town_id town_id chance joins))
          (acting joined_world steered_world player [] key_r steers.0 steers.1))
        (ticking steered_world ticked_world inputs.outside (pos 1000) false (omega arith) ticks.0))
      ticks.1 refl

-- A reader to which every text is a second, as a number.
abbrev seconds : Json Bytes
seconds = record echo { as_int64 = λ s. some (pos 1000) }

seconds-Nonnegative : (v : Bytes) (t : ℤ) → seconds.as_int64 v ≡ some t → Nonnegative t
seconds-Nonnegative v t h =
    let same : pos 1000 ≡ t = ground (arith, h) in subst Nonnegative same (omega arith)

abbrev ask_join : Request
ask_join = record {
  method = post;
  target = codes "/api/v1/game/join";
  authorization = none;
  content_type = none;
  body = town_id;
}

answers :
    handle seconds sample_boost sort_events empty inputs ask_join
    ≡ ok (joined_world, succeed (joined [] 2))
unfolding handle url_decode cut handle_game join_game_response join_game map_at find_map spawn_point
    enter add_dog_to_session session_for add_player
answers = refl

handle-Reach_example :
    IsExplained seconds sample_boost sort_events empty inputs ask_join joined_world
      (succeed (joined [] 2))
    × Reach sample_boost sort_events Nonnegative empty joined_world
handle-Reach_example =
    handle-Reach seconds sample_boost sort_events Nonnegative seconds-Nonnegative empty inputs
      ask_join joined_world (succeed (joined [] 2)) answers
