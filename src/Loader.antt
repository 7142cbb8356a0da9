-- ===== src/Loader.antt =====
-- src/json_loader.cpp and src/extra_data.cpp: the game that a configuration file describes. The file
-- is its content, `none` if it cannot be opened, and the storage of loot types stands beside the game.
pub mod Maps
pub mod Games
pub mod RoundTrip
pub mod Tests
use backend_for_browser_game.Base.{
  ℕ, suc, ℤ, pos, negsuc, ◌+◌, ◌-◌, ◌%◌, ◌^◌, ltb, Bool, false, List, [], ◌∷◌, length, find_if,
  str_eq, Bytes, Option, some, none, Result, ok, err, or_fail, runtime_error, ◌>>=◌, if◌then◌else◌,
}
use mathlib.Core.Option
use backend_for_browser_game.Json.{Json, Doubles, codes, read, c_str}
use backend_for_browser_game.Double.{Double}
use backend_for_browser_game.LootGen.{new_generator}
use backend_for_browser_game.Model.Road.{Point, Road, horizontal_road, vertical_road}
use backend_for_browser_game.Model.GameMap.{
  GameMap, Rectangle, new_map, new_office, set_dog_speed, set_bag_capacity, set_loot_types_count,
  add_road, add_building, add_office, add_loot_value,
}
use backend_for_browser_game.Model.World.{
  Game, GameMode, SpawnMode, add_map, set_loot_generator, set_dog_retirement_time,
}

-- The conversions of 64-bit numbers to int and to uint32_t, which wrap around.
unfoldable pub to_int : ℤ → ℤ
to_int (pos n) = let r = n % 2 ^ 32 in if ltb r (2 ^ 31) then pos r else negsuc (2 ^ 32 - 1 - r)
to_int (negsuc n) = let r = n % 2 ^ 32 in if ltb r (2 ^ 31) then negsuc r else pos (2 ^ 32 - 1 - r)

unfoldable pub to_u32 : ℤ → ℕ
to_u32 (pos n) = n % 2 ^ 32
to_u32 (negsuc n) = 2 ^ 32 - 1 - n % 2 ^ 32

-- LootTypesStorage: the loot types of each map, as they stand in the file.
abbrev pub LootTypesStorage : Type 0 → Type 0
LootTypesStorage J = List (Bytes × List J)

module _ {J : Type 0} where
  unfoldable pub add_loot_types : LootTypesStorage J → Bytes → List J → LootTypesStorage J
  add_loot_types storage id types = (id, types) ∷ storage

  unfoldable pub get_loot_types : LootTypesStorage J → Bytes → List J
  get_loot_types storage id = elim (find_if (λ (e : Bytes × List J). str_eq e.0 id) storage) [
    | none ↦ []
    | some e ↦ e.1
  ]

module _ {D : Type 0} ⦃d : Double D⦄ where
  -- A game as its constructor leaves it; the members without a default are arguments.
  unfoldable pub new_game : GameMode → SpawnMode → ℤ → ℤ → Game D
  new_game mode spawn interval timer = record {
    maps = [];
    map_id_to_index = [];
    game_mode = mode;
    dog_spawn_mode = spawn;
    loot_generator = none;
    save_file_path = [];
    save_interval = interval;
    save_test_timer = timer;
    save_enabled = false;
    dog_retirement_time_seconds = d.decimal 60 0;
    start_time = pos 0;
    accumulated_time = pos 0;
    sessions = [];
  }

-- Any exception leaves LoadGame as a runtime_error.
abbrev pub caught : {A : Type 0} → Result A → Result A
caught (ok x) = ok x
caught (err e) = err runtime_error

module _ {J : Type 0} (json : Json J) where
  abbrev pub int_at : J → Bytes → Result ℤ
  int_at v key = read (json.member v key) json.as_int64 >>= λ n. ok (to_int n)

  abbrev pub text_at : J → Bytes → Result Bytes
  text_at v key = read (json.member v key) json.as_string >>= λ s. ok (c_str s)

  abbrev pub array_at : J → Bytes → Result (List J)
  array_at v key = read (json.member v key) json.as_array

  abbrev pub object_of : J → Result J
  object_of v = if json.is_object v then ok v else err runtime_error

  module _ {D : Type 0} ⦃d : Double D⦄ where
    -- A road is horizontal if it has a member `x1`.
    unfoldable pub road_of : J → Option J → Result (Road D)
    road_of v (some x) = do
      x0 ← int_at v (codes "x0")
      y0 ← int_at v (codes "y0")
      x1 ← read (some x) json.as_int64
      ok (horizontal_road (record { x = x0; y = y0 }) (to_int x1))
    road_of v none = do
      x0 ← int_at v (codes "x0")
      y0 ← int_at v (codes "y0")
      y1 ← int_at v (codes "y1")
      ok (vertical_road (record { x = x0; y = y0 }) y1)

    unfoldable pub add_roads : GameMap D → List J → Result (GameMap D)
    add_roads m [] = ok m
    add_roads m (v ∷ vs) = object_of v >>= λ o.
        road_of o (json.member o (codes "x1")) >>= λ r. add_roads (add_road m r) vs

  unfoldable pub building_of : J → Result Rectangle
  building_of v = do
    x ← int_at v (codes "x")
    y ← int_at v (codes "y")
    w ← int_at v (codes "w")
    h ← int_at v (codes "h")
    ok (record { position = record { x = x; y = y }; size = record { width = w; height = h } })

  module _ {D : Type 0} where
    unfoldable pub add_buildings : GameMap D → List J → Result (GameMap D)
    add_buildings m [] = ok m
    add_buildings m (v ∷ vs) =
        object_of v >>= λ o. building_of o >>= λ b. add_buildings (add_building m b) vs

    unfoldable pub add_loot_values : GameMap D → List J → Result (GameMap D)
    add_loot_values m [] = ok m
    add_loot_values m (v ∷ vs) = object_of v >>= λ o.
        read (json.member o (codes "value")) json.as_int64 >>= λ n.
        add_loot_values (add_loot_value m (to_u32 n)) vs

  module _ {D : Type 0} ⦃d : Double D⦄ where
    unfoldable pub add_offices : GameMap D → List J → Result (GameMap D)
    add_offices m [] = ok m
    add_offices m (v ∷ vs) = do
      o ← object_of v
      x ← int_at o (codes "x")
      y ← int_at o (codes "y")
      dx ← int_at o (codes "offsetX")
      dy ← int_at o (codes "offsetY")
      id ← text_at o (codes "id")
      m' ← add_office m (new_office id (record { x = x; y = y }) (record { dx = dx; dy = dy }))
      add_offices m' vs

  module _ {D : Type 0} ⦃d : Double D⦄ (doubles : Doubles J D) where
    -- What an optional member says, or a default.
    abbrev pub double_or : Option J → D → Result D
    double_or none x = ok x
    double_or (some v) x = read (some v) doubles.as_double

    abbrev pub int_or : Option J → ℤ → Result ℤ
    int_or none n = ok n
    int_or (some v) n = read (some v) json.as_int64 >>= λ k. ok (to_int k)

    -- Roads, buildings, offices and loot types; the loot types come back too.
    unfoldable pub load_parts : GameMap D → J → Result (GameMap D × List J)
    load_parts ready o = do
      roads ← array_at o (codes "roads")
      with_roads ← add_roads ready roads
      buildings ← array_at o (codes "buildings")
      with_buildings ← add_buildings with_roads buildings
      offices ← array_at o (codes "offices")
      with_offices ← add_offices with_buildings offices
      types ← array_at o (codes "lootTypes")
      let counted = set_loot_types_count with_offices (to_int (pos (length types)))
      valued ← add_loot_values counted types
      ok (valued, types)

    -- The body of the loop over the maps, up to AddMap. What the
    -- constructor of a map leaves open is set before the map is used, so its value does not matter.
    unfoldable pub load_map : D → ℤ → J → Result (GameMap D × List J)
    load_map default_dog_speed default_bag_capacity v = do
      o ← object_of v
      dog_speed ← double_or (json.member o (codes "dogSpeed")) default_dog_speed
      bag_capacity ← int_or (json.member o (codes "bagCapacity")) default_bag_capacity
      id ← text_at o (codes "id")
      name ← text_at o (codes "name")
      let made = new_map id name dog_speed 0 (pos 0)
      let ready = set_bag_capacity (set_dog_speed made dog_speed) (to_u32 bag_capacity)
      load_parts ready o

    unfoldable pub load_maps :
        D → ℤ → List J → Game D → LootTypesStorage J → Result (Game D × LootTypesStorage J)
    load_maps speed capacity [] g storage = ok (g, storage)
    load_maps speed capacity (v ∷ vs) g storage = do
      loaded ← load_map speed capacity v
      g' ← add_map g loaded.0
      load_maps speed capacity vs g' (add_loot_types storage (loaded.0).id loaded.1)

    -- `at`, which throws where there is no such member.
    abbrev pub at_key : J → Bytes → Result J
    at_key v key = or_fail (json.member v key) runtime_error

    unfoldable pub add_loot_generator_config : Game D → J → Result (Game D)
    add_loot_generator_config g v = do
      config ← at_key v (codes "lootGeneratorConfig")
      o ← object_of config
      period ← read (json.member o (codes "period")) doubles.as_double
      probability ← read (json.member o (codes "probability")) doubles.as_double
      ok (
          set_loot_generator g
            (some (new_generator (d.truncate (d.mul period (d.decimal 1000 0))) probability)))

    abbrev pub set_retirement : Game D → Option J → Result (Game D)
    set_retirement g none = ok g
    set_retirement g (some v) =
        read (some v) doubles.as_double >>= λ t. ok (set_dog_retirement_time g t)

    unfoldable pub load_document : Game D → J → Result (Game D × LootTypesStorage J)
    load_document game v = do
      o ← object_of v
      arr_maps ← array_at o (codes "maps")
      default_dog_speed ← double_or (json.member o (codes "defaultDogSpeed")) (d.decimal 1 0)
      timed ← set_retirement game (json.member o (codes "dogRetirementTime"))
      default_bag_capacity ← int_or (json.member o (codes "defaultBagCapacity")) (pos 3)
      ready ← add_loot_generator_config timed o
      load_maps default_dog_speed default_bag_capacity arr_maps ready []

    unfoldable pub load_game : Game D → Option Bytes → Result (Game D × LootTypesStorage J)
    load_game game file = caught (do
      content ← or_fail file runtime_error
      document ← or_fail (json.parse content) runtime_error
      load_document game document)
