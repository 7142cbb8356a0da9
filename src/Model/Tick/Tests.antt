-- ===== src/Model/Tick/Tests.antt =====
-- One tick of the sample session.
use backend_for_browser_game.Base.{
  true, pos, ◌*ℤ◌, ◌-ℤ◌, ◌+ℤ◌, max_ℤ, min_ℤ, ◌≡◌, refl, Result, ok, err, arith,
}
use backend_for_browser_game.Double.Milli.{Milli, milli_double, Milli-IsIeee}
use backend_for_browser_game.Geom.{eq_pt}
use backend_for_browser_game.Collision.{
  find_gather_events, add_item, add_gatherer, is_collected, try_collect_point,
}
use backend_for_browser_game.Collision.Sorting.{sort_events}
use backend_for_browser_game.LootGen.{generate, raw_probability}
use backend_for_browser_game.Model.Road.{is_point_on_road, in_band, find_stop_point}
use backend_for_browser_game.Model.GameMap.{get_loot_value, get_random_point_on_road, uniform}
use backend_for_browser_game.Model.Loot.{new_loot}
use backend_for_browser_game.Model.Dog.{
  get_loot_count_in_bag, add_loot, release_loot, score_bag, reset_inactivity_timer, set_position,
  set_speed, set_status, update_inactivity_time,
}
use backend_for_browser_game.Model.Movement.{
  update_dogs_position, update_dogs, best_stop, calculate_new_dog_position, move_along, move_dog,
}
use backend_for_browser_game.Model.Spawn.{update_loot, spawn_loot, get_random_id}
use backend_for_browser_game.Model.Gather.{
  add_office_items, gather_loot, gather_events, add_loot_items, digits_value, gather_event,
  handle_event, reach_item, stoul, take_loot,
}
use backend_for_browser_game.Model.Retire.{
  drop_player, leave_session, record_of, remove_inactive_dogs, remove_player_from_game_by_dog_id,
  retire_dog, retire_dogs, sweep, take_player,
}
use backend_for_browser_game.Model.World.{map_at, get_current_time, set_loot_generator, World}
use backend_for_browser_game.Model.Tick.{update_session, play_session, Outside}
use backend_for_browser_game.Model.Session
use backend_for_browser_game.Model.Movement.Heading.{IsPlacedAt}
use backend_for_browser_game.Model.Road.Stop.{is_straight}
use backend_for_browser_game.Model.Tick.Roads.{update_session-IsPlaced}
use backend_for_browser_game.Model.Tests.{rex-IsPlaced, sleepy-IsPlaced}
use backend_for_browser_game.Model.Samples.{
  milli, sample_boost, sample_boost-IsRTree, rex, sleepy, session, town, world,
}

abbrev outside : Outside Milli
outside = record {
  draws = λ a k. 0;
  random = milli 1000;
  clock = λ a k. record { now = pos 0; saves = true };
}

abbrev end_of : Result (World Milli) → World Milli
end_of (ok w) = w
end_of (err e) = world

-- The first dog runs for a second, and the second dog retires.
abbrev ticked : Result (World Milli)
ticked = update_session sample_boost sort_events world outside (pos 1000) 0

ends : ticked ≡ ok (end_of ticked)
unfolding ◌*ℤ◌ ◌-ℤ◌ ◌+ℤ◌ max_ℤ min_ℤ eq_pt find_gather_events add_item add_gatherer is_collected
    try_collect_point sort_events generate raw_probability is_point_on_road in_band find_stop_point
    get_loot_value get_random_point_on_road uniform new_loot get_loot_count_in_bag add_loot
    release_loot score_bag reset_inactivity_timer set_position set_speed set_status
    update_inactivity_time update_dogs_position update_dogs best_stop calculate_new_dog_position
    move_along move_dog update_loot spawn_loot get_random_id add_office_items gather_loot
    gather_events add_loot_items digits_value gather_event handle_event reach_item stoul take_loot
    drop_player leave_session record_of remove_inactive_dogs remove_player_from_game_by_dog_id
    retire_dog retire_dogs sweep take_player map_at get_current_time set_loot_generator
    update_session play_session Session.add_loot Session.gather_loot Session.remove_dog
ends = refl

update_session-IsPlaced_example : IsPlacedAt town.road_rtree (end_of ticked).dogs 0
update_session-IsPlaced_example =
    update_session-IsPlaced Milli-IsIeee sample_boost sample_boost-IsRTree sort_events world
      (end_of ticked) outside (pos 1000) 0 session town (omega arith) refl (unfold map_at in refl)
      (unfold is_straight in refl)
      ((rex, refl, rex-IsPlaced), ((sleepy, refl, sleepy-IsPlaced), tt)) ends 0
      (rex, refl, rex-IsPlaced)
