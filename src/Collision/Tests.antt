-- ===== src/Collision/Tests.antt =====
-- Runs of the collision detector, and the theorems about it at one provider.
use backend_for_browser_game.Base.{
  ℕ, pos, ◌+ℤ◌, ◌-ℤ◌, ◌*ℤ◌, ◌*◌, ◌≡◌, ◌↔◌, refl, true, [], ◌∷◌, all_of, map, some,
}
use backend_for_browser_game.Double.Milli.{Milli, Milli-IsIeee, milli_double}
use backend_for_browser_game.Geom.{Point2D, eq_pt}
use backend_for_browser_game.Collision.{
  GathererProvider, GatheringEvent, Item, Gatherer, loot, office, find_gather_events, event_of,
  is_collected, try_collect_point,
}
use backend_for_browser_game.Collision.Order.{IsSorted, is_timely, find_gather_events-IsSorted}
use backend_for_browser_game.Collision.Events.{In}
use backend_for_browser_game.Collision.Passing.{IsPassing, find_gather_events_iff}
use backend_for_browser_game.Collision.Sorting.{sort_events, sort_events-IsSort}

abbrev at : ℕ → ℕ → Point2D Milli
at x y = record { x = some (pos (1000 * x)); y = some (pos (1000 * y)) }

abbrev far_item : Item Milli
far_item = record { position = at 8 0; width = some (pos 0); item_id = 7; item_type = loot }

abbrev near_item : Item Milli
near_item = record { position = at 2 0; width = some (pos 500); item_id = 9; item_type = office }

abbrev other_item : Item Milli
other_item = record { position = at 5 5; width = some (pos 0); item_id = 11; item_type = loot }

abbrev runner : Gatherer Milli
runner = record { start_pos = at 0 0; end_pos = at 10 0; width = some (pos 600); gatherer_id = 3 }

-- The two items on the way, the farther one first in the provider, and one away from it.
abbrev provider : GathererProvider Milli
provider = record { items = far_item ∷ near_item ∷ other_item ∷ []; gatherers = runner ∷ [] }

-- The nearer item is passed first.
passed :
    map (λ (e : GatheringEvent Milli). e.item_id) (find_gather_events sort_events provider)
    ≡ 1 ∷ 0 ∷ []
unfolding find_gather_events sort_events is_collected try_collect_point eq_pt ◌+ℤ◌ ◌-ℤ◌ ◌*ℤ◌
passed = refl

find_gather_events-IsSorted_example :
    IsSorted (find_gather_events sort_events provider)
    × (all_of is_timely (find_gather_events sort_events provider) ≡ true)
find_gather_events-IsSorted_example =
    find_gather_events-IsSorted Milli-IsIeee sort_events provider (sort_events-IsSort Milli-IsIeee)

find_gather_events_iff_example :
    ∥ In (event_of 0 0 runner far_item) (find_gather_events sort_events provider) ∥₁
    ↔ ∥ IsPassing provider (event_of 0 0 runner far_item) ∥₁
find_gather_events_iff_example =
    find_gather_events_iff sort_events provider (event_of 0 0 runner far_item)
      (sort_events-IsSort Milli-IsIeee)
