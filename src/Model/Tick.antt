-- ===== src/Model/Tick.antt =====
-- Game::Update of src/model.cpp: one tick of the game.
pub mod Roads
pub mod Tests
use backend_for_browser_game.Base.{
  ℕ, ℤ, pos, ◌+ℤ◌, ◌&&◌, leb_ℤ, Bool, List, [], ◌∷◌, get_elem?, set, Bytes, some, Result, ok,
  undefined, or_fail, ◌>>=◌, if◌then◌else◌,
}
use backend_for_browser_game.Double.{Double}
use backend_for_browser_game.Collision.{GatheringEvent, empty_provider, find_gather_events}
use backend_for_browser_game.Model.Session.{GameSession}
use backend_for_browser_game.Model.World.{World, Game, map_at, set_loot_generator}
use backend_for_browser_game.Model.Movement.{Boost, update_dogs_position}
use backend_for_browser_game.Model.Spawn.{Draws, update_loot}
use backend_for_browser_game.Model.Gather.{add_loot_items, add_office_items, gather_loot}
use backend_for_browser_game.Model.Retire.{Round, remove_inactive_dogs}

-- What a tick reads from outside, for the session at an address: random draws, the value of the loot
-- generator's random function, and what the rounds of RemoveInactiveDogs meet.
pub record Outside (D : Type 0) : Type 0 where
  pub draws : ℕ → Draws
  pub random : D
  pub clock : ℕ → ℕ → Round

module _ {D : Type 0} ⦃d : Double D⦄ (boost : Boost D)
    (sort : List (GatheringEvent D) → List (GatheringEvent D)) where
  -- The part of the loop's body that moves dogs, makes loot and gathers it.
  unfoldable pub play_session : World D → Outside D → ℤ → ℕ → GameSession D → Result (World D)
  play_session w outside time_delta a s = do
    m ← map_at w.game s.map
    moved ← update_dogs_position boost m s time_delta w.dogs empty_provider
    generator ← or_fail w.game.loot_generator undefined
    spawned ← update_loot m generator outside.random (outside.draws a) s time_delta w.loot_counter
    let provider = add_loot_items (spawned.0).loot moved.1
    offices ← add_office_items m.offices provider
    gathered ← gather_loot m.bag_capacity (find_gather_events sort offices) spawned.0 moved.0
    ok (record w {
      game = set_loot_generator w.game (some spawned.1);
      sessions = set w.sessions a gathered.session;
      dogs = gathered.dogs;
      loot_counter = spawned.2;
    })

  -- The body of the loop over the sessions.
  unfoldable pub update_session : World D → Outside D → ℤ → ℕ → Result (World D)
  update_session w outside time_delta a = do
    s ← or_fail (get_elem? w.sessions a) undefined
    w' ← play_session w outside time_delta a s
    remove_inactive_dogs w' (outside.clock a) a

  unfoldable pub update_sessions : World D → Outside D → ℤ → List (Bytes × ℕ) → Result (World D)
  update_sessions w outside time_delta [] = ok w
  update_sessions w outside time_delta ((id, a) ∷ rest) =
      update_session w outside time_delta a >>= λ w'. update_sessions w' outside time_delta rest

  -- The timer of the saves. The flag is whether SaveState is called.
  unfoldable pub save_due : Game D → ℤ → Bool × Game D
  save_due g time_delta =
      let timer = g.save_test_timer +ℤ time_delta in
      let due = g.save_enabled && leb_ℤ g.save_interval timer in
      (due, record g { save_test_timer = if due then pos 0 else timer })

  -- Game::Update. What SaveState writes is a function of the state that comes back; if it throws, so
  -- does the call.
  unfoldable pub update : World D → Outside D → ℤ → Result (World D × Bool)
  update w outside time_delta = do
    w' ← update_sessions w outside time_delta w.game.sessions
    let saving = save_due w'.game time_delta
    ok (record w' { game = saving.1 }, saving.0)
