-- ===== src/Loader/Tests.antt =====
-- A reader and a maker of JSON values, and a file with one map.
use mathlib.Core.Option
use backend_for_browser_game.Base.{
  ℤ, pos, negsuc, ◌*ℤ◌, ◌+ℤ◌, ◌-ℤ◌, min_ℤ, max_ℤ, ◌≡◌, refl, ap, inl, Bool, true, false, List, [],
  ◌∷◌, find_if, str_eq, Bytes, Option, some, none, Result, ok, err, arith,
}
use backend_for_browser_game.Json.{Json, Doubles, Maker, IsFaithful, codes}
use backend_for_browser_game.Double.Milli.{Milli, milli_double}
use backend_for_browser_game.Model.Road.{horizontal_road, build_bounding_box}
use backend_for_browser_game.Model.GameMap.{GameMap, Rectangle}
use backend_for_browser_game.Model.World.{Game, test, fix, add_map, set_loot_generator}
use backend_for_browser_game.Loader.{
  LootTypesStorage, road_of, add_roads, add_buildings, add_offices, add_loot_values, load_parts,
  load_map, load_maps, add_loot_generator_config, load_document, new_game, load_game,
}
use backend_for_browser_game.Loader.Games.{IsLoaded, load_game-IsLoaded}
use backend_for_browser_game.Loader.RoundTrip.{IsMade, IsBuilding, add_roads-roads_to_json}
use backend_for_browser_game.Handlers.MapJson.{road_json, roads_to_json, buildings_to_json}
use backend_for_browser_game.Model.Samples.{main_road, town, game, milli}

-- The items of an array and the members of an object are chains.
pub data Value : Type 0 where
  nil : Value
  number : ℤ → Value
  real : Milli → Value
  text : Bytes → Value
  array : Value → Value
  item : Value → Value → Value
  object : Value → Value
  member : Bytes → Value → Value → Value

abbrev items : Value → List Value
items (item v rest) = v ∷ items rest
items _ = []

abbrev chain : List Value → Value
chain [] = nil
chain (v ∷ vs) = item v (chain vs)

abbrev members : Value → List (Bytes × Value)
members (member k v rest) = (k, v) ∷ members rest
members _ = []

abbrev link : List (Bytes × Value) → Value
link [] = nil
link ((k, v) ∷ ms) = member k v (link ms)

items-chain : (vs : List Value) → items (chain vs) ≡ vs
items-chain [] = refl
items-chain (v ∷ vs) = ap (λ ws. v ∷ ws) (items-chain vs)

members-link : (ms : List (Bytes × Value)) → members (link ms) ≡ ms
members-link [] = refl
members-link ((k, v) ∷ ms) = ap (λ ns. (k, v) ∷ ns) (members-link ms)

abbrev members_of : Value → List (Bytes × Value)
members_of (object v) = members v
members_of _ = []

abbrev is_object : Value → Bool
is_object (object v) = true
is_object _ = false

abbrev text_of : Value → Option Bytes
text_of (text s) = some s
text_of _ = none

abbrev number_of : Value → Option ℤ
number_of (number n) = some n
number_of _ = none

abbrev array_of : Value → Option (List Value)
array_of (array v) = some (items v)
array_of _ = none

abbrev real_of : Value → Option Milli
real_of (real x) = some x
real_of _ = none

abbrev make : Maker Value
make = record {
  of_int = number;
  of_string = text;
  of_array = λ vs. array (chain vs);
  of_object = λ ms. object (link ms);
}

abbrev second : Value
second = real (milli 1000)

-- A reader that finds the same document in every text.
abbrev pub document : Value
document = make.of_object (
    (
      codes "lootGeneratorConfig",
      make.of_object ((codes "period", second) ∷ (codes "probability", second) ∷ []),
    )
    ∷ (
      codes "maps",
      make.of_array (
          make.of_object (
            (codes "id", text (codes "t"))
            ∷ (codes "name", text (codes "t"))
            ∷ (codes "roads", make.of_array (roads_to_json make town))
            ∷ (codes "buildings", array nil)
            ∷ (codes "offices", array nil)
            ∷ (
              codes "lootTypes",
              make.of_array (make.of_object ((codes "value", number (pos 10)) ∷ []) ∷ []),
            )
            ∷ [])
          ∷ []),
    )
    ∷ [])

abbrev pub json : Json Value
json = record {
  parse = λ s. some document;
  is_object = is_object;
  member = λ v key.
      Option.map (λ (m : Bytes × Value). m.1)
        (find_if (λ (m : Bytes × Value). str_eq m.0 key) (members_of v));
  as_string = text_of;
  as_int64 = number_of;
  as_array = array_of;
}

abbrev pub doubles : Doubles Value Milli
doubles = record { as_double = real_of }

faithful : IsFaithful json make
faithful = record {
  as_int64_of_int = λ n. refl;
  as_string_of_string = λ s. refl;
  as_array_of_array = λ vs. ap some (items-chain vs);
  is_object_of_object = λ ms. refl;
  member_of_object = λ ms key.
      ap
        (λ ns.
          Option.map (λ (m : Bytes × Value). m.1)
            (find_if (λ (m : Bytes × Value). str_eq m.0 key) ns))
        (members-link ms);
}

main_road-IsMade : IsMade main_road
unfolding horizontal_road build_bounding_box ◌*ℤ◌ ◌+ℤ◌ ◌-ℤ◌ min_ℤ max_ℤ
main_road-IsMade = record {
  made = inl refl;
  start_x = (omega arith, omega arith);
  start_y = (omega arith, omega arith);
  end_x = (omega arith, omega arith);
  end_y = (omega arith, omega arith);
}

abbrev bare : GameMap Milli
bare = record town { roads = []; road_rtree = [] }

abbrev house : Rectangle
house = record {
  position = record { x = pos 2; y = negsuc 3 };
  size = record { width = pos 5; height = pos 6 };
}

abbrev built : GameMap Milli
built = record town { buildings = house ∷ [] }

house-IsBuilding : IsBuilding house
house-IsBuilding = (
  (omega arith, omega arith),
  (omega arith, omega arith),
  (omega arith, omega arith),
  (omega arith, omega arith),
)

add_roads-roads_to_json_example :
    (add_roads json bare (roads_to_json make built) ≡ ok (record bare { roads = main_road ∷ [] }))
    × (add_buildings json bare (buildings_to_json make built)
        ≡ ok (record bare { buildings = house ∷ [] }))
add_roads-roads_to_json_example =
    add_roads-roads_to_json json make faithful built bare (main_road-IsMade, tt)
      (house-IsBuilding, tt)

abbrev pub fresh : Game Milli
fresh = new_game test fix (pos 0) (pos 0)

abbrev pub loaded : Result (Game Milli × LootTypesStorage Value)
loaded = load_game json doubles fresh (some [])

abbrev pub game_of :
    Result (Game Milli × LootTypesStorage Value) → Game Milli × LootTypesStorage Value
game_of (ok g) = g
game_of (err e) = (game, [])

loads : loaded ≡ ok (game_of loaded)
unfolding new_game load_game load_document add_loot_generator_config load_maps load_map load_parts
    add_roads roads_to_json road_json road_of add_buildings add_offices add_loot_values add_map
    set_loot_generator
loads = refl

load_game-IsLoaded_example : IsLoaded (game_of loaded).0
load_game-IsLoaded_example =
    load_game-IsLoaded json doubles fresh (game_of loaded).0 (game_of loaded).1 (some [])
      (unfold new_game in refl) loads
