-- ===== src/Model/World.antt =====
-- The state of the server: `class Game` of src/model.h, the players and the static counters of
-- src/application.h, and the objects that shared pointers reach. Sessions and dogs lie on heaps, and
-- an address is a place there.
use backend_for_browser_game.Base.{
  ℕ, ℤ, pos, ◌+ℤ◌, ◌-ℤ◌, ◌==◌, Bool, true, false, List, [], ◌∷◌, ◌++◌, length, get_elem?, set,
  any_of, find_if, str_eq, Bytes, Option, some, none, Result, ok, err, invalid_argument,
  runtime_error, undefined, or_fail, ◌>>=◌, if◌then◌else◌,
}
use mathlib.Core.Option
use backend_for_browser_game.Double.{Double}
use backend_for_browser_game.LootGen.{LootGenerator}
use backend_for_browser_game.Model.GameMap.{GameMap, build_road_rtree}
use backend_for_browser_game.Model.Session.{GameSession, DogHeap, new_session}
use backend_for_browser_game.Model.Session

pub data GameMode : Type 0 where
  normal test : GameMode

pub data SpawnMode : Type 0 where
  random fix : SpawnMode

-- A value that is inserted into the table of retired players.
pub record PlayerRecord : Type 0 where
  pub id_uuid : Bytes
  pub name : Bytes
  pub score : ℕ
  pub play_time_ms : ℕ

-- `class Player`: the addresses of its session and its dog, `none` for a null pointer.
pub record Player : Type 0 where
  pub session : Option ℕ
  pub dog : Option ℕ
  pub token : Bytes
  pub id : ℕ

-- `sessions` maps the id of a map to the address of its session.
pub record Game (D : Type 0) : Type 0 where
  pub maps : List (GameMap D)
  pub map_id_to_index : List (Bytes × ℕ)
  pub game_mode : GameMode
  pub dog_spawn_mode : SpawnMode
  pub loot_generator : Option (LootGenerator D)
  pub save_file_path : Bytes
  pub save_interval : ℤ
  pub save_test_timer : ℤ
  pub save_enabled : Bool
  pub dog_retirement_time_seconds : D
  pub start_time : ℤ
  pub accumulated_time : ℤ
  pub sessions : List (Bytes × ℕ)

pub record World (D : Type 0) : Type 0 where
  pub game : Game D
  pub sessions : List (GameSession D)
  pub dogs : DogHeap D
  pub players : List Player
  pub dog_counter : ℕ
  pub loot_counter : ℕ
  pub session_counter : ℕ
  pub player_counter : ℕ
  -- The calls of Database::SaveRecord, the oldest first.
  pub records : List PlayerRecord

-- A hash table from texts.
abbrev pub table_find : List (Bytes × ℕ) → Bytes → Option ℕ
table_find t k = Option.map (λ (e : Bytes × ℕ). e.1) (find_if (λ e. str_eq e.0 k) t)

module _ {D : Type 0} ⦃d : Double D⦄ where
  unfoldable pub add_map : Game D → GameMap D → Result (Game D)
  add_map g m =
      if any_of (λ e. str_eq e.0 m.id) g.map_id_to_index
      then err invalid_argument
      else ok (record g {
        maps = g.maps ++ (build_road_rtree m ∷ []);
        map_id_to_index = g.map_id_to_index ++ ((m.id, length g.maps) ∷ []);
      })

module _ {D : Type 0} where
  unfoldable pub find_map : Game D → Bytes → Option ℕ
  find_map g id = table_find g.map_id_to_index id

  -- The map that a pointer points to.
  unfoldable pub map_at : Game D → Option ℕ → Result (GameMap D)
  map_at g none = err undefined
  map_at g (some i) = or_fail (get_elem? g.maps i) undefined

  unfoldable pub find_session_by_id : World D → ℕ → Option ℕ
  find_session_by_id w id =
      Option.map (λ (e : Bytes × ℕ). e.1)
        (find_if
          (λ e. elim (get_elem? w.sessions e.1) [ none ↦ false | some s ↦ s.session_id == id ])
          w.game.sessions)

  unfoldable pub set_game_mode : Game D → Bool → Game D
  set_game_mode g test_mode = record g { game_mode = if test_mode then test else normal }

  unfoldable pub set_dog_spawn_mode : Game D → Bool → Game D
  set_dog_spawn_mode g random_spawn = record g {
    dog_spawn_mode = if random_spawn then random else fix;
  }

  unfoldable pub set_save_file_path : Game D → Bytes → Game D
  set_save_file_path g path = record g { save_file_path = path }

  -- `none` is a null pointer, which changes nothing.
  unfoldable pub set_loot_generator : Game D → Option (LootGenerator D) → Game D
  set_loot_generator g none = g
  set_loot_generator g (some l) = record g { loot_generator = some l }

  unfoldable pub get_loot_generator : Game D → Result (LootGenerator D)
  get_loot_generator g = or_fail g.loot_generator runtime_error

  unfoldable pub set_save_period : Game D → ℤ → Game D
  set_save_period g period = record g {
    save_interval = period;
    save_test_timer = pos 0;
    save_enabled = true;
  }

  unfoldable pub set_dog_retirement_time : Game D → D → Game D
  set_dog_retirement_time g t = record g { dog_retirement_time_seconds = t }

  unfoldable pub add_test_time : Game D → ℤ → Game D
  add_test_time g delta = elim g.game_mode [
    | test ↦ record g { accumulated_time = g.accumulated_time +ℤ delta }
    | normal ↦ g
  ]

  unfoldable pub set_start_time : Game D → ℤ → Game D
  set_start_time g t = record g { start_time = t }

  -- `now` is what the steady clock shows.
  unfoldable pub get_current_time : Game D → ℤ → ℤ
  get_current_time g now = elim g.game_mode [
    | test ↦ g.accumulated_time
    | normal ↦ now -ℤ g.start_time
  ]

  -- The session of the map, made at need, takes the dog at an address.
  unfoldable pub session_for : World D → Bytes → ℕ × World D
  session_for w map_id = elim (table_find w.game.sessions map_id) [
    | some a ↦ (a, w)
    | none ↦
        let (s, counter) = new_session w.session_counter (find_map w.game map_id) in
        let a = length w.sessions in
        (
          a,
          record w {
            game = record (w.game) { sessions = (map_id, a) ∷ w.game.sessions };
            sessions = w.sessions ++ (s ∷ []);
            session_counter = counter;
          },
        )
  ]

  unfoldable pub add_dog_to_session : World D → ℕ → Bytes → Result (World D × ℕ)
  add_dog_to_session w dog map_id =
      let (a, w') = session_for w map_id in
      or_fail (get_elem? w'.sessions a) undefined >>= λ s.
      ok (record w' { sessions = set w'.sessions a (Session.add_dog s dog) }, a)
