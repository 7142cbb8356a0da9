-- ===== src/Model/Samples.antt =====
-- A small game for the tests: a map of one road, loot and two dogs, over numbers of three decimal
-- places.
use mathlib.Core.List.Perm
use backend_for_browser_game.Base.{ℕ, pos, negsuc, ◌*◌, Bool, ◌&&◌, [], ◌∷◌, copy_if, some, Bytes}
use backend_for_browser_game.Double.Milli.{Milli, milli_double}
use backend_for_browser_game.Geom.{Point2D}
use backend_for_browser_game.Collision.{GatheringEvent, ItemType}
use backend_for_browser_game.Model.Road.{Point, Road, east, Box}
use backend_for_browser_game.Model.GameMap.{GameMap}
use backend_for_browser_game.Model.Loot.{Loot}
use backend_for_browser_game.Model.Dog.{Dog, active}
use backend_for_browser_game.Model.Session.{GameSession}
use backend_for_browser_game.Model.World.{World, Player, Game, test, fix}
use backend_for_browser_game.Model.Movement.{Boost, IsRTree}

abbrev pub milli : ℕ → Milli
milli n = some (pos n)

abbrev pub at : ℕ → ℕ → Point2D Milli
at x y = record { x = milli (1000 * x); y = milli (1000 * y) }

abbrev pub origin : Point
origin = record { x = pos 0; y = pos 0 }

-- From (0, 0) to (10, 0), with its box.
abbrev pub main_road : Road Milli
main_road = record {
  start = origin;
  finish = record { x = pos 10; y = pos 0 };
  bounding_box = record {
    min_corner = record { x = milli 0; y = some (negsuc 399) };
    max_corner = record { x = milli 10000; y = milli 400 };
  };
}

abbrev pub town_id : Bytes
town_id = b't' ∷ []

abbrev pub town : GameMap Milli
town = record {
  id = town_id;
  name = town_id;
  roads = main_road ∷ [];
  buildings = [];
  dog_speed = milli 3000;
  bag_capacity = 1;
  warehouse_id_to_index = [];
  offices = [];
  road_rtree = (main_road.bounding_box, main_road) ∷ [];
  loot_types_count = pos 1;
  loot_value = 10 ∷ [];
}

-- Tests of points and segments by their coordinates, a distance along the axes, and a query that
-- keeps the order.
abbrev inside : Point2D Milli → Box Milli → Bool
inside p b =
    milli_double.le b.min_corner.x p.x
    && milli_double.le p.x b.max_corner.x
    && milli_double.le b.min_corner.y p.y
    && milli_double.le p.y b.max_corner.y

abbrev pub sample_boost : Boost Milli
sample_boost = record {
  intersects = λ p q b. inside p b;
  within = inside;
  distance = λ p q.
      milli_double.add (milli_double.abs (milli_double.sub p.x q.x))
        (milli_double.abs (milli_double.sub p.y q.y));
  query = copy_if;
}

pub sample_boost-IsRTree : IsRTree sample_boost
sample_boost-IsRTree = record { query-perm = λ p es. Perm.refl (copy_if p es) }

abbrev pub coin : Loot Milli
coin = record { type_id = 0; id = 0; position = at 2 0; width = milli 0; value = 10 }

abbrev pub gem : Loot Milli
gem = record { type_id = 0; id = 5; position = at 3 0; width = milli 0; value = 7 }

-- A dog that runs east at three units a second.
abbrev pub rex : Dog Milli
rex = record {
  id = 4;
  dog_name = b'R' ∷ [];
  position = at 1 0;
  speed = record { x = milli 3000; y = milli 0 };
  direction = east;
  bag = [];
  width = milli 600;
  score = 20;
  join_time = pos 100;
  inactivity_time = milli 0;
  status = active;
  uuid = b'r' ∷ [];
}

-- A dog that has not moved for a minute.
abbrev pub sleepy : Dog Milli
sleepy = record rex { id = 5; position = at 5 0; inactivity_time = milli 60000; uuid = b's' ∷ [] }

abbrev pub session : GameSession Milli
session = record { map = some 0; dogs = 0 ∷ 1 ∷ []; loot = coin ∷ gem ∷ []; session_id = 0 }

-- The first dog passes the item at a place.
abbrev pub visit : ℕ → ItemType → GatheringEvent Milli
visit i type = record {
  item_id = i;
  gatherer_id = 0;
  sq_distance = milli 0;
  time = milli 500;
  item_type = type;
}

abbrev pub player_of : ℕ → Bytes → Player
player_of a token = record { session = some 0; dog = some a; token = token; id = a }

abbrev pub game : Game Milli
game = record {
  maps = town ∷ [];
  map_id_to_index = (town_id, 0) ∷ [];
  game_mode = test;
  dog_spawn_mode = fix;
  loot_generator =
      some
        (record { base_interval = pos 1000; probability = milli 500; time_without_loot = pos 0 });
  save_file_path = [];
  save_interval = pos 0;
  save_test_timer = pos 0;
  save_enabled = Bool.false;
  dog_retirement_time_seconds = milli 15000;
  start_time = pos 0;
  accumulated_time = pos 5100;
  sessions = (town_id, 0) ∷ [];
}

abbrev pub world : World Milli
world = record {
  game = game;
  sessions = session ∷ [];
  dogs = rex ∷ sleepy ∷ [];
  players = player_of 0 (b'a' ∷ []) ∷ player_of 1 (b'b' ∷ []) ∷ [];
  dog_counter = 6;
  loot_counter = 6;
  session_counter = 1;
  player_counter = 2;
  records = [];
}
