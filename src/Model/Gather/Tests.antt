-- ===== src/Model/Gather/Tests.antt =====
-- Gathering in the sample session, and the theorems about it there.
use backend_for_browser_game.Base.{
  ◌*ℤ◌, ◌-ℤ◌, ◌+ℤ◌, length, ◌+◌, ◌≡◌, refl, List, [], ◌∷◌, ok, u32, arith,
}
use backend_for_browser_game.Double.Milli.{Milli, milli_double, Milli-IsIeee}
use backend_for_browser_game.Collision.{
  try_collect_point, is_collected, add_item, find_gather_events, GathererProvider, Gatherer,
  GatheringEvent, loot, office,
}
use backend_for_browser_game.Model.Dog.{get_loot_count_in_bag, add_loot, release_loot, score_bag}
use backend_for_browser_game.Model.Session.{GameSession, DogHeap}
use backend_for_browser_game.Model.Session
use backend_for_browser_game.Model.Gather.{
  add_office_items, add_loot_items, Gathering, gather_loot, gather_events, gather_event,
  handle_event, reach_item, take_loot,
}
use backend_for_browser_game.Model.Gather.Value.{loot_value, heap_value, gather_loot-points}
use backend_for_browser_game.Model.Gather.Capacity.{Fits, gather_loot-Fits}
use backend_for_browser_game.Model.Gather.Total.{gather_loot-ok}
use backend_for_browser_game.Model.Gather.Places.{IsIdle, gather_loot-IsIdle}
use backend_for_browser_game.Collision.Sorting.{sort_events, sort_events-IsSort}
use backend_for_browser_game.Geom.{eq_pt}
use backend_for_browser_game.Model.Samples.{milli, at, rex, sleepy, session, coin, gem, visit}

abbrev dogs : DogHeap Milli
dogs = rex ∷ sleepy ∷ []

-- The coin, the gem, for which the bag has no room, and an office.
abbrev events : List (GatheringEvent Milli)
events = visit 0 loot ∷ visit 5 loot ∷ visit 2 office ∷ []

abbrev scored : Gathering Milli
scored = record {
  session = record session { loot = gem ∷ [] };
  dogs = record rex { score = 30 } ∷ sleepy ∷ [];
  collected = 0 ∷ [];
}

gathered : gather_loot 1 events session dogs ≡ ok scored
unfolding gather_loot gather_events gather_event handle_event reach_item take_loot
    Session.gather_loot get_loot_count_in_bag add_loot release_loot score_bag
gathered = refl

gather_loot-points_example :
    u32 (loot_value (gem ∷ []) + heap_value (record rex { score = 30 } ∷ sleepy ∷ []))
    ≡ u32 (loot_value (coin ∷ gem ∷ []) + heap_value dogs)
gather_loot-points_example = gather_loot-points 1 events session dogs scored gathered

gather_loot-Fits_example : Fits 1 (record rex { score = 30 } ∷ sleepy ∷ [])
gather_loot-Fits_example =
    gather_loot-Fits 1 events session dogs scored (omega arith) gathered
      (omega arith, (omega arith, tt))

gather_loot-ok_example : (r : Gathering Milli) × (gather_loot 1 events session dogs ≡ ok r)
gather_loot-ok_example =
    gather_loot-ok 1 events session dogs (omega arith, (omega arith, (omega arith, tt)))
      (omega arith, (omega arith, tt))

-- Once the coin is gone, the gem lies at place 0 and has the id 5. The first dog passes it.
abbrev left : GameSession Milli
left = record session { loot = gem ∷ [] }

abbrev walker : Gatherer Milli
walker = record { start_pos = at 1 0; end_pos = at 6 0; width = milli 600; gatherer_id = 0 }

abbrev shown : GathererProvider Milli
shown = record {
  items = record { position = at 3 0; width = milli 0; item_id = 5; item_type = loot } ∷ [];
  gatherers = walker ∷ [];
}

shows :
    add_office_items [] (add_loot_items left.loot (record { items = []; gatherers = walker ∷ [] }))
    ≡ ok shown
unfolding add_office_items add_loot_items add_item
shows = refl

-- The visit is found, and nothing comes of it.
passed :
    (length (find_gather_events sort_events shown) ≡ 1)
    × (gather_loot 3 (find_gather_events sort_events shown) left dogs
        ≡ ok (record { session = left; dogs = dogs; collected = [] }))
unfolding find_gather_events sort_events is_collected try_collect_point eq_pt gather_loot
    gather_events gather_event ◌+ℤ◌ ◌-ℤ◌ ◌*ℤ◌
passed = (refl, refl)

gather_loot-IsIdle_example :
    IsIdle left dogs (record { session = left; dogs = dogs; collected = [] })
gather_loot-IsIdle_example =
    gather_loot-IsIdle sort_events (sort_events-IsSort Milli-IsIeee) 3 [] (walker ∷ []) shown left
      dogs (record { session = left; dogs = dogs; collected = [] }) (omega arith, tt) shows passed.1
