-- ===== src/Model/GameMap.antt =====
-- `class Map` of src/model.h and src/model.cpp, with its buildings and offices. The hash table
-- `warehouse_id_to_index_` is an association list. What a constructor leaves uninitialised is an
-- argument of the model's constructor, which may be anything.
pub mod RandomPoint
use backend_for_browser_game.Base.{
  ℕ, ℤ, pos, neg_part, pos_part, ltb_ℤ, ◌+ℤ◌, ◌-ℤ◌, ◌+◌, ◌%◌, Bool, List, [], ◌∷◌, ◌++◌, map,
  get_elem?, length, any_of, str_eq, ltb, Bytes, Option, some, none, Result, ok, err,
  invalid_argument, undefined, or_fail, ◌>>=◌, if◌then◌else◌,
}
use backend_for_browser_game.Double.{Double}
use backend_for_browser_game.Model.Road.{Point, Box, Road}

pub record Size : Type 0 where
  pub width : ℤ
  pub height : ℤ

pub record Rectangle : Type 0 where
  pub position : Point
  pub size : Size

pub record Offset : Type 0 where
  pub dx : ℤ
  pub dy : ℤ

pub record Office (D : Type 0) : Type 0 where
  pub id : Bytes
  pub position : Point
  pub offset : Offset
  pub width : D

pub record GameMap (D : Type 0) : Type 0 where
  pub id : Bytes
  pub name : Bytes
  pub roads : List (Road D)
  pub buildings : List Rectangle
  pub dog_speed : D
  pub bag_capacity : ℕ
  pub warehouse_id_to_index : List (Bytes × ℕ)
  pub offices : List (Office D)
  pub road_rtree : List (Box D × Road D)
  pub loot_types_count : ℤ
  pub loot_value : List ℕ

-- std::uniform_int_distribution over [lo, hi], driven by one draw of the generator; an empty range
-- is undefined behaviour.
unfoldable pub uniform : ℤ → ℤ → ℕ → Result ℤ
uniform lo hi draw =
    if ltb_ℤ hi lo then err undefined else ok (lo +ℤ pos (draw % (pos_part (hi -ℤ lo) + 1)))

module _ {D : Type 0} ⦃d : Double D⦄ where
  unfoldable pub new_office : Bytes → Point → Offset → Office D
  new_office id position offset = record {
    id = id;
    position = position;
    offset = offset;
    width = d.decimal 5 1;
  }

module _ {D : Type 0} where
  -- The speed, the capacity and the count of loot types are whatever the memory holds.
  unfoldable pub new_map : Bytes → Bytes → D → ℕ → ℤ → GameMap D
  new_map id name speed capacity count = record {
    id = id;
    name = name;
    roads = [];
    buildings = [];
    dog_speed = speed;
    bag_capacity = capacity;
    warehouse_id_to_index = [];
    offices = [];
    road_rtree = [];
    loot_types_count = count;
    loot_value = [];
  }

  unfoldable pub add_building : GameMap D → Rectangle → GameMap D
  add_building m b = record m { buildings = m.buildings ++ (b ∷ []) }

  unfoldable pub set_dog_speed : GameMap D → D → GameMap D
  set_dog_speed m s = record m { dog_speed = s }

  unfoldable pub set_bag_capacity : GameMap D → ℕ → GameMap D
  set_bag_capacity m c = record m { bag_capacity = c }

  unfoldable pub set_loot_types_count : GameMap D → ℤ → GameMap D
  set_loot_types_count m c = record m { loot_types_count = c }

  unfoldable pub add_loot_value : GameMap D → ℕ → GameMap D
  add_loot_value m v = record m { loot_value = m.loot_value ++ (v ∷ []) }

  unfoldable pub add_office : GameMap D → Office D → Result (GameMap D)
  add_office m o =
      if any_of (λ e. str_eq e.0 o.id) m.warehouse_id_to_index
      then err invalid_argument
      else ok (record m {
        offices = m.offices ++ (o ∷ []);
        warehouse_id_to_index = m.warehouse_id_to_index ++ ((o.id, length m.offices) ∷ []);
      })

  unfoldable pub add_road : GameMap D → Road D → GameMap D
  add_road m r = record m { roads = m.roads ++ (r ∷ []) }

  -- One entry for each road, under its bounding box. The order in the tree is that of the queries.
  unfoldable pub build_road_rtree : GameMap D → GameMap D
  build_road_rtree m = record m {
    road_rtree = m.road_rtree ++ map (λ (r : Road D). (r.bounding_box, r)) m.roads;
  }

  -- A road and then a point between its ends, by three draws.
  unfoldable pub get_random_point_on_road : GameMap D → ℕ → ℕ → ℕ → Result Point
  get_random_point_on_road m i a b = uniform (pos 0) (pos (length m.roads) -ℤ pos 1) i >>= λ k.
      or_fail (get_elem? m.roads (pos_part k)) undefined >>= λ r.
      let x1 = r.start.x in
      let x2 = r.finish.x in
      let y1 = r.start.y in
      let y2 = r.finish.y in
      (if ltb_ℤ x2 x1 then uniform x2 x1 a else uniform x1 x2 a) >>= λ x.
      (if ltb_ℤ y2 y1 then uniform y2 y1 b else uniform y1 y2 b) >>= λ y.
      ok (record { x = x; y = y })

  unfoldable pub get_loot_value : GameMap D → ℕ → Result ℕ
  get_loot_value m i =
      if ltb i (length m.loot_value)
      then or_fail (get_elem? m.loot_value i) undefined
      else err invalid_argument
