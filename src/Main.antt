-- ===== src/Main.antt =====
-- src/main.cpp: the timer of ticks, the command line, and how the game is made ready. The library of
-- options, the clock and the files are parameters; threads and signals are left out.
pub mod Ticks
pub mod Start
pub mod Tests
use backend_for_browser_game.Base.{
  ℕ, zero, suc, ℤ, pos, ◌+◌, ◌-◌, ◌*◌, ◌/◌, ◌%◌, Bool, true, false, ◌&&◌, not, List, [], ◌∷◌, Bytes,
  Option, some, none, Result, ok, err, runtime_error, or_fail, ◌>>=◌, if◌then◌else◌,
}
use backend_for_browser_game.Json.{Json, Doubles}
use backend_for_browser_game.Double.{Double}
use backend_for_browser_game.Model.World.{
  World, Game, set_save_file_path, set_dog_spawn_mode, set_game_mode, set_save_period,
}
use backend_for_browser_game.Serialization.{Fresh}
use backend_for_browser_game.Serialization.Archive.{SaveFile, load_state}
use backend_for_browser_game.Loader.{load_game}

-- `class Ticker`. The steady clock shows nanoseconds and never goes back; `waiting` is whether the timer
-- runs.
pub record Ticker : Type 0 where
  pub last_tick : ℕ
  pub waiting : Bool

unfoldable pub schedule_tick : Ticker → Ticker
schedule_tick t = record t { waiting = true }

unfoldable pub start_ticker : ℕ → Ticker
start_ticker now = schedule_tick (record { last_tick = now; waiting = false })

-- OnTick. The flag is whether the timer was cancelled; the handler gets whole milliseconds, and what it
-- throws is caught.
unfoldable pub on_tick : Ticker → Bool → ℕ → Ticker × Option ℕ
on_tick t true now = (record t { waiting = false }, none)
on_tick t false now = (
  schedule_tick (record { last_tick = now; waiting = false }),
  some ((now - t.last_tick) / 1000000),
)

-- One tick after another, at the times that the clock shows: what the handler gets.
unfoldable pub ticks : Ticker → List ℕ → List ℕ
ticks t [] = []
ticks t (now ∷ later) =
    let (t', delta) = on_tick t false now in
    let rest = ticks t' later in elim delta [ none ↦ rest | some d ↦ d ∷ rest ]

-- What boost::program_options finds; `none` for an option that is not there.
pub record Options : Type 0 where
  pub help : Bool
  pub tick_period : Option ℤ
  pub config_file : Option Bytes
  pub www_root : Option Bytes
  pub randomize_spawn_points : Bool
  pub state_file : Option Bytes
  pub save_state_period : Option ℤ

pub record Args : Type 0 where
  pub tick_period : ℤ
  pub config_file_path : Bytes
  pub www_root_path : Bytes
  pub randomize_spawn_points : Bool
  pub game_test_mode : Bool
  pub state_file_path : Bytes
  pub save_state_period : ℤ
  pub save_state_period_set : Bool

abbrev is_there : {A : Type 0} → Option A → Bool
is_there none = false
is_there (some x) = true

abbrev value_of : {A : Type 0} → Option A → A → A
value_of none x = x
value_of (some y) x = y

-- ParseCommandLine; nothing comes back for `--help`. Numbers that are not given are what the memory
-- holds.
unfoldable pub parse_command_line : Options → ℤ → ℤ → Result (Option Args)
parse_command_line o garbage garbage' =
    if o.help
    then ok none
    else (or_fail o.config_file runtime_error >>= λ config.
        or_fail o.www_root runtime_error >>= λ root. ok (
          some (record {
            tick_period = value_of o.tick_period garbage;
            config_file_path = config;
            www_root_path = root;
            randomize_spawn_points = o.randomize_spawn_points;
            game_test_mode = not (is_there o.tick_period);
            state_file_path = value_of o.state_file [];
            save_state_period = value_of o.save_state_period garbage';
            save_state_period_set = is_there o.state_file && is_there o.save_state_period;
          })))

module _ {D : Type 0} where
  -- The state of a program that begins.
  abbrev pub first_world : Game D → World D
  first_world g = record {
    game = g;
    sessions = [];
    dogs = [];
    players = [];
    dog_counter = 0;
    loot_counter = 0;
    session_counter = 0;
    player_counter = 0;
    records = [];
  }

  -- The settings of the command line.
  unfoldable pub configure : Args → World D → World D
  configure args w =
      let modes =
        set_game_mode (set_dog_spawn_mode w.game args.randomize_spawn_points) args.game_test_mode in
      record w {
        game =
            if args.save_state_period_set
            then set_save_period modes args.save_state_period
            else modes;
      }

module _ {D : Type 0} ⦃d : Double D⦄ where
  -- A state that was saved is loaded if there is a path for it and a file at it.
  unfoldable pub load_saved : Args → (ℕ → Fresh) → Option (SaveFile D) → World D → Result (World D)
  load_saved args fresh saved w = elim args.state_file_path [
    | [] ↦ ok w
    | c ∷ path ↦
        let named = record w { game = set_save_file_path w.game (c ∷ path) } in
        elim saved [ none ↦ ok named | some f ↦ load_state named fresh f ]
  ]

module _ {J : Type 0} (json : Json J) {D : Type 0} ⦃d : Double D⦄ (doubles : Doubles J D) where
  -- The game as main makes it ready, before the server starts.
  unfoldable pub prepare :
      Args → Game D → Option Bytes → (ℕ → Fresh) → Option (SaveFile D) → Result (World D)
  prepare args game config fresh saved = do
    loaded ← load_game json doubles game config
    w ← load_saved args fresh saved (first_world loaded.0)
    ok (configure args w)
