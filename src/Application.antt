-- ===== src/Application.antt =====
-- src/application.h and src/application.cpp: players, their actions, and how one joins. Random tokens
-- and uuids, and what the clock shows, are arguments.
pub mod Sessions
pub mod Actions
pub mod Tests
use backend_for_browser_game.Base.{
  ℕ, ℤ, pos, ◌+◌, ◌==◌, Bool, true, false, List, [], ◌∷◌, ◌++◌, length, get_elem?, set, copy_if,
  find_if, str_eq, Bytes, u32, Option, some, none, Result, ok, err, undefined, or_fail, ◌>>=◌,
  if◌then◌else◌,
}
use backend_for_browser_game.Double.{Double, nought}
use backend_for_browser_game.Geom.{Point2D}
use backend_for_browser_game.Model.Road.{Point, Road, Direction, north, south, west, east, none_dir}
use backend_for_browser_game.Model.GameMap.{GameMap, get_random_point_on_road}
use backend_for_browser_game.Model.Loot.{Loot}
use backend_for_browser_game.Model.Dog.{
  Dog, DogStatus, active, new_dog, set_speed, set_direction, set_status, set_join_time,
  reset_inactivity_timer,
}
use backend_for_browser_game.Model.Session.{GameSession}
use backend_for_browser_game.Model.World.{
  World, Player, SpawnMode, random, fix, find_map, map_at, get_current_time, add_dog_to_session,
}
use backend_for_browser_game.Model.Retire.{dog_at}

-- The texts of the four keys.
abbrev pub key_u : Bytes
key_u = b'U' ∷ []

abbrev pub key_d : Bytes
key_d = b'D' ∷ []

abbrev pub key_l : Bytes
key_l = b'L' ∷ []

abbrev pub key_r : Bytes
key_r = b'R' ∷ []

unfoldable pub find_player_by_token : List Player → Bytes → Option Player
find_player_by_token players token = find_if (λ (p : Player). str_eq p.token token) players

abbrev pub same_session : Option ℕ → Option ℕ → Bool
same_session none none = true
same_session none (some b) = false
same_session (some a) none = false
same_session (some a) (some b) = a == b

-- The players that share a session with one of them.
abbrev pub players_beside : List Player → Option Player → List Player
players_beside players none = []
players_beside players (some q) = copy_if (λ (p : Player). same_session p.session q.session) players

unfoldable pub find_players_in_session : List Player → Bytes → List Player
find_players_in_session players token = players_beside players (find_player_by_token players token)

module _ {D : Type 0} ⦃d : Double D⦄ where
  abbrev heading : Dog D → D → D → Direction → Dog D
  heading g x y dir = set_direction (set_speed g (record { x = x; y = y })) dir

  -- The dog that an action leaves, at the speed of the map.
  unfoldable pub steer : D → Bytes → Dog D → Dog D
  steer speed move g =
      let still = d.of_int (pos 0) in
      let turned =
        if str_eq move key_u
        then heading g still (d.neg speed) north
        else if str_eq move key_d
        then heading g still speed south
        else if str_eq move key_l
        then heading g (d.neg speed) still west
        else if str_eq move key_r
        then heading g speed still east
        else heading g still still none_dir in
      reset_inactivity_timer (set_status turned active)

module _ {D : Type 0} where
  abbrev pub session_at : World D → Option ℕ → Result (GameSession D)
  session_at w none = err undefined
  session_at w (some a) = or_fail (get_elem? w.sessions a) undefined

  -- A write through a pointer to a dog.
  abbrev pub set_dog : World D → Option ℕ → Dog D → World D
  set_dog w none g = w
  set_dog w (some a) g = record w { dogs = set w.dogs a g }

module _ {D : Type 0} ⦃d : Double D⦄ where
  -- Player::MakeAction
  unfoldable pub make_action : World D → Player → Bytes → Result (World D)
  make_action w p move = do
    s ← session_at w p.session
    m ← map_at w.game s.map
    g ← dog_at w.dogs p.dog
    ok (set_dog w p.dog (steer m.dog_speed move g))

module _ {D : Type 0} where
  -- Players::AddPlayer and the constructor of Player. The player comes back.
  unfoldable pub add_player : World D → Bytes → ℕ → ℕ → World D × Player
  add_player w token session dog =
      let p : Player = record {
        session = some session;
        dog = some dog;
        token = token;
        id = w.player_counter;
      } in
      (record w { players = w.players ++ (p ∷ []); player_counter = u32 (w.player_counter + 1) }, p)

  unfoldable pub find_loot_in_session : World D → Bytes → Result (List (Loot D))
  find_loot_in_session w token = elim (find_player_by_token w.players token) [
    | none ↦ ok []
    | some q ↦ session_at w q.session >>= λ s. ok s.loot
  ]

-- What a request to join draws at random and reads from the clock: three draws for a place on a road,
-- a uuid, a token, the time, and what the memory of a new dog holds.
pub record Chance : Type 0 where
  pub road_draw : ℕ
  pub x_draw : ℕ
  pub y_draw : ℕ
  pub uuid : Bytes
  pub token : Bytes
  pub now : ℤ
  pub garbage : ℤ

module _ {D : Type 0} ⦃d : Double D⦄ where
  -- Where the new dog stands: anywhere on a road, or at the start of the first.
  unfoldable pub spawn_point : SpawnMode → GameMap D → Chance → Result Point
  spawn_point random m c = get_random_point_on_road m c.road_draw c.x_draw c.y_draw
  spawn_point fix m c = or_fail (get_elem? m.roads 0) undefined >>= λ r. ok r.start

  -- The new dog goes to the heap, to the session of the map, and to a new player.
  unfoldable pub enter : World D → Bytes → Bytes → Chance → Point2D D → Result (World D × Player)
  enter w user_name map_id c place =
      let (g, counter) = new_dog w.dog_counter c.uuid c.garbage user_name place in
      let joined = set_join_time g (get_current_time w.game c.now) in
      let a = length w.dogs in
      add_dog_to_session (record w { dogs = w.dogs ++ (joined ∷ []); dog_counter = counter }) a
        map_id
      >>= λ (w', s). ok (add_player w' c.token s a)

  -- JoinGameUseCase::execute
  unfoldable pub join_game : World D → Bytes → Bytes → Chance → Result (World D × Player)
  join_game w user_name map_id c = do
    m ← map_at w.game (find_map w.game map_id)
    p ← spawn_point w.game.dog_spawn_mode m c
    enter w user_name map_id c (record { x = d.of_int p.x; y = d.of_int p.y })
