-- ===== src/Model/Retire.antt =====
-- Game::RemoveInactiveDogs of src/model.cpp, with Players::RemovePlayerFromGameByDogId of
-- src/application.cpp.
pub mod Active
pub mod Records
pub mod Tests
use backend_for_browser_game.Base.{
  ℕ, zero, suc, ℤ, pos, negsuc, ◌+◌, ◌-◌, ◌%◌, ◌^◌, ◌-ℤ◌, ◌==◌, Bool, true, false, List, [], ◌∷◌,
  ◌++◌, get_elem?, set, copy_if, remove_if, Option, some, none, Result, ok, err, runtime_error,
  undefined, ◌≡◌, sym, >>=-eq-ok, or_fail-eq-ok, ok-inj, Bool-cases, inl, inr, arith, or_fail,
  ◌>>=◌, if◌then◌else◌,
}
use backend_for_browser_game.Double.{Double}
use backend_for_browser_game.Model.Dog.{Dog}
use backend_for_browser_game.Model.Session.{GameSession, DogHeap}
use backend_for_browser_game.Model.Session
use backend_for_browser_game.Model.World.{World, Player, PlayerRecord, get_current_time}

-- What a round of the loop over the inactive dogs meets outside: the clock, and whether the database
-- takes the record.
pub record Round : Type 0 where
  pub now : ℤ
  pub saves : Bool

-- static_cast<std::uint64_t>
abbrev pub to_u64 : ℤ → ℕ
to_u64 (pos n) = n % 2 ^ 64
to_u64 (negsuc n) = 2 ^ 64 - suc (n % 2 ^ 64)

module _ {D : Type 0} where
  -- What a pointer to a dog points to.
  abbrev pub dog_at : DogHeap D → Option ℕ → Result (Dog D)
  dog_at heap none = err undefined
  dog_at heap (some a) = or_fail (get_elem? heap a) undefined

  -- The first player whose dog has the id, and the others.
  unfoldable pub take_player : DogHeap D → ℕ → List Player → Result (Option Player × List Player)
  take_player heap id [] = ok (none, [])
  take_player heap id (p ∷ ps) =
      let rest = take_player heap id ps in
      dog_at heap p.dog >>= λ g.
      if g.id == id then ok (some p, ps) else (rest >>= λ (found, others). ok (found, p ∷ others))

  -- The dog leaves the session of the player.
  unfoldable pub leave_session : World D → ℕ → Option ℕ → Result (List (GameSession D))
  leave_session w id none = err undefined
  leave_session w id (some a) = or_fail (get_elem? w.sessions a) undefined >>= λ s.
      ok (set w.sessions a (Session.remove_dog w.dogs s id))

  unfoldable pub drop_player : World D → ℕ → Option Player × List Player → Result (World D)
  drop_player w id (none, ps) = ok w
  drop_player w id (some p, ps) =
      leave_session w id p.session >>= λ ss. ok (record w { sessions = ss; players = ps })

  unfoldable pub remove_player_from_game_by_dog_id : World D → ℕ → Result (World D)
  remove_player_from_game_by_dog_id w id = take_player w.dogs id w.players >>= drop_player w id

  unfoldable pub record_of : Dog D → ℤ → PlayerRecord
  record_of g time = record {
    id_uuid = g.uuid;
    name = g.dog_name;
    score = g.score;
    play_time_ms = to_u64 (time -ℤ g.join_time);
  }

  -- SaveRecord, which throws if the database does.
  unfoldable pub save_record : World D → Bool → PlayerRecord → Result (World D)
  save_record w false r = err runtime_error
  save_record w true r = ok (record w { records = w.records ++ (r ∷ []) })

  -- One round of the loop over the inactive dogs: the dog's record is saved, then its player goes.
  unfoldable pub retire_dog : World D → Round → ℕ → Result (World D)
  retire_dog w round a = do
    g ← or_fail (get_elem? w.dogs a) undefined
    saved ← save_record w round.saves (record_of g (get_current_time w.game round.now))
    remove_player_from_game_by_dog_id saved g.id

  -- A round that throws nothing found its dog, and saved the record.
  pub retire_dog_lem :
      (w w' : World D) (round : Round) (a : ℕ)
      → retire_dog w round a ≡ ok w'
      → let new = λ (g : Dog D). record_of g (get_current_time w.game round.now) in
        (g : Dog D) × (get_elem? w.dogs a ≡ some g)
        × (remove_player_from_game_by_dog_id (record w { records = w.records ++ (new g ∷ []) }) g.id
            ≡ ok w')
  unfolding retire_dog save_record
  retire_dog_lem w w' round a h =
      let (g, p, q) = >>=-eq-ok (or_fail (get_elem? w.dogs a) undefined) _ h in
      let new = record_of g (get_current_time w.game round.now) in
      let (saved, r, t) = >>=-eq-ok (save_record w round.saves new) _ q in
      elim (Bool-cases round.saves) [
        | inr n ↦ absurd (ground (arith, rw n at r))
        | inl y ↦
            let same : saved ≡ record w { records = w.records ++ (new ∷ []) } =
              sym (ok-inj (rw y at r)) in
            (g, or_fail-eq-ok (get_elem? w.dogs a) undefined p, rw (← same) t)
      ]

  -- `clock k` is what the k-th round meets.
  unfoldable pub retire_dogs : World D → (ℕ → Round) → ℕ → List ℕ → Result (World D)
  retire_dogs w clock k [] = ok w
  retire_dogs w clock k (a ∷ rest) =
      retire_dog w (clock k) a >>= λ w'. retire_dogs w' clock (k + 1) rest

module _ {D : Type 0} ⦃d : Double D⦄ where
  -- dog->GetInactivityTime() >= GetDogRetirementTime()
  abbrev pub is_inactive : D → DogHeap D → ℕ → Bool
  is_inactive limit heap a = elim (get_elem? heap a) [
    | none ↦ false
    | some g ↦ d.le limit g.inactivity_time
  ]

  -- dogs.erase(std::remove_if(…), …)
  unfoldable pub sweep : D → World D → ℕ → GameSession D → World D
  sweep limit w a s = record w {
    sessions = set w.sessions a (record s { dogs = remove_if (is_inactive limit w.dogs) s.dogs });
  }

  unfoldable pub remove_inactive_dogs : World D → (ℕ → Round) → ℕ → Result (World D)
  remove_inactive_dogs w clock a =
      let limit = w.game.dog_retirement_time_seconds in
      or_fail (get_elem? w.sessions a) undefined >>= λ s.
      retire_dogs w clock 0 (copy_if (is_inactive limit w.dogs) s.dogs) >>= λ w'.
      or_fail (get_elem? w'.sessions a) undefined >>= λ s'. ok (sweep limit w' a s')
