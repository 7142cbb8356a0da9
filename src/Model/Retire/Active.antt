-- ===== src/Model/Retire/Active.antt =====
-- RemoveInactiveDogs of src/model.cpp and the dogs of sessions.
use mathlib.Core.Option
use backend_for_browser_game.Base.{
  ℕ, ◌+◌, ◌==◌, ==_iff, ◌≡◌, refl, sym, ap, ◌∙◌, subst, inl, inr, Bool, true, not, List, [], ◌∷◌,
  ◌++◌, get_elem?, get_elem?-set, set, all_of, copy_if, remove_if, erase_first, Option, some, none,
  ok, undefined, or_fail, or_fail-eq-ok, >>=-eq-ok, arith, Bool-cases, Option-cases,
}
use backend_for_browser_game.Double.{Double}
use backend_for_browser_game.Model.Dog.{Dog}
use backend_for_browser_game.Model.Session.{GameSession, DogHeap, has_id}
use backend_for_browser_game.Model.Session
use backend_for_browser_game.Model.World.{World, Player, get_current_time}
use backend_for_browser_game.Model.Retire.{
  Round, retire_dog_lem, take_player, leave_session, drop_player, remove_player_from_game_by_dog_id,
  record_of, retire_dog, retire_dogs, is_inactive, sweep, remove_inactive_dogs,
}

module _ {A : Type 0} (p q : A → Bool) where
  -- To erase something that would be removed anyhow changes nothing in what remains.
  remove_if-erase_first :
      (xs : List A)
      → ((x : A) → q x ≡ true → p x ≡ true)
      → remove_if p (erase_first q xs) ≡ remove_if p xs
  remove_if-erase_first [] h = refl
  remove_if-erase_first (x ∷ xs) h = ground (arith, h x, remove_if-erase_first xs h)

remove_if_idem :
    {A : Type 0} (p : A → Bool) (xs : List A) → remove_if p (remove_if p xs) ≡ remove_if p xs
remove_if_idem p [] = refl
remove_if_idem p (x ∷ xs) = ground (arith, remove_if_idem p xs)

all_of-remove_if :
    {A : Type 0} (p : A → Bool) (xs : List A) → all_of (λ x. not (p x)) (remove_if p xs) ≡ true
all_of-remove_if p [] = refl
all_of-remove_if p (x ∷ xs) = ground (arith, all_of-remove_if p xs)

module _ {D : Type 0} where
  -- Ids tell dogs apart.
  abbrev pub HasUniqueIds : DogHeap D → Type 0
  HasUniqueIds heap =
      (a b : ℕ) (g h : Dog D)
      → get_elem? heap a ≡ some g
      → get_elem? heap b ≡ some h
      → g.id ≡ h.id
      → a ≡ b

module _ {D : Type 0} ⦃d : Double D⦄ (limit : D) where
  abbrev pub active_dogs : DogHeap D → GameSession D → List ℕ
  active_dogs heap s = remove_if (is_inactive limit heap) s.dogs

  -- The active dogs of the session at an address.
  abbrev pub active_at : World D → ℕ → Option (List ℕ)
  active_at w k = Option.map (active_dogs w.dogs) (get_elem? w.sessions k)

  -- What a round of the loop keeps.
  record Keeps (w w' : World D) : Type 0 where
    same_dogs : w'.dogs ≡ w.dogs
    same_active : (k : ℕ) → active_at w' k ≡ active_at w k

  remove_dog-active :
      (heap : DogHeap D) (s : GameSession D) (a : ℕ) (g : Dog D)
      → HasUniqueIds heap
      → get_elem? heap a ≡ some g
      → is_inactive limit heap a ≡ true
      → active_dogs heap (Session.remove_dog heap s g.id) ≡ active_dogs heap s
  unfolding Session.remove_dog
  remove_dog-active heap s a g u e old =
      remove_if-erase_first (is_inactive limit heap) (has_id heap g.id) s.dogs named
    where
      named : (b : ℕ) → has_id heap g.id b ≡ true → is_inactive limit heap b ≡ true
      named b h = elim (Option-cases (get_elem? heap b)) [
        | inl gone ↦ ground (arith, gone)
        | inr (x, at) ↦ let same : b ≡ a = u b a x g at e (ground (arith, at)) in rw same old
      ]

  leave_session-active :
      (w : World D) (a : ℕ) (g : Dog D) (p : Option ℕ) (ss : List (GameSession D))
      → HasUniqueIds w.dogs
      → get_elem? w.dogs a ≡ some g
      → is_inactive limit w.dogs a ≡ true
      → leave_session w g.id p ≡ ok ss
      → (k : ℕ) → Option.map (active_dogs w.dogs) (get_elem? ss k) ≡ active_at w k
  unfolding leave_session
  leave_session-active w a g none ss u e old h k = cc
  leave_session-active w a g (some b) ss u e old h k =
      let (s, p, q) = >>=-eq-ok (or_fail (get_elem? w.sessions b) undefined) _ h in
      let at = or_fail-eq-ok (get_elem? w.sessions b) undefined p in
      let new = Session.remove_dog w.dogs s g.id in
      let same : set w.sessions b new ≡ ss = ground (arith, q) in
      rw (← same, get_elem?-set w.sessions b k new at)
        (elim (Bool-cases (b == k)) [
          | inl hit ↦
              let here : b ≡ k = (==_iff b k).0 hit in
              rw (hit, ← here, at) (ap some (remove_dog-active w.dogs s a g u e old))
          | inr miss ↦ rw miss
        ])

  drop_player-Keeps :
      (w w' : World D) (a : ℕ) (g : Dog D) (found : Option Player × List Player)
      → HasUniqueIds w.dogs
      → get_elem? w.dogs a ≡ some g
      → is_inactive limit w.dogs a ≡ true
      → drop_player w g.id found ≡ ok w'
      → Keeps w w'
  unfolding drop_player
  drop_player-Keeps w w' a g (none, ps) u e old h =
      let same : w ≡ w' = ground arith in
      subst (Keeps w) same (record { same_dogs = refl; same_active = λ k. refl })
  drop_player-Keeps w w' a g (some p, ps) u e old h =
      let (ss, q, r) = >>=-eq-ok (leave_session w g.id p.session) _ h in
      let same : record w { sessions = ss; players = ps } ≡ w' = ground (arith, r) in
      subst (Keeps w) same (record {
        same_dogs = refl;
        same_active = leave_session-active w a g p.session ss u e old q;
      })

  retire_dog-Keeps :
      (w w' : World D) (round : Round) (a : ℕ)
      → HasUniqueIds w.dogs
      → is_inactive limit w.dogs a ≡ true
      → retire_dog w round a ≡ ok w'
      → Keeps w w'
  unfolding remove_player_from_game_by_dog_id
  retire_dog-Keeps w w' round a u old h =
      let (g, at, q) = retire_dog_lem w w' round a h in
      let saved : World D = record w {
        records = w.records ++ (record_of g (get_current_time w.game round.now) ∷ []);
      } in
      let (found, r, s) =
        >>=-eq-ok (take_player w.dogs g.id w.players) (drop_player saved g.id) q in
      let kept = drop_player-Keeps saved w' a g found u at old s in
      record { same_dogs = kept.same_dogs; same_active = kept.same_active }

  retire_dogs-Keeps :
      (w w' : World D) (clock : ℕ → Round) (k : ℕ) (dogs : List ℕ)
      → HasUniqueIds w.dogs
      → all_of (is_inactive limit w.dogs) dogs ≡ true
      → retire_dogs w clock k dogs ≡ ok w'
      → Keeps w w'
  unfolding retire_dogs
  retire_dogs-Keeps w w' clock k [] u old h =
      let same : w ≡ w' = ground arith in
      subst (Keeps w) same (record { same_dogs = refl; same_active = λ k. refl })
  retire_dogs-Keeps w w' clock k (a ∷ rest) u old h =
      let (mid, p, q) = >>=-eq-ok (retire_dog w (clock k) a) _ h in
      let first = retire_dog-Keeps w mid (clock k) a u (ground arith) p in
      let later =
        retire_dogs-Keeps mid w' clock (k + 1) rest (subst HasUniqueIds (sym first.same_dogs) u)
          (subst (λ h. all_of (is_inactive limit h) rest ≡ true) (sym first.same_dogs)
            (ground arith))
          q in
      record {
        same_dogs = later.same_dogs ∙ first.same_dogs;
        same_active = λ k. later.same_active k ∙ first.same_active k;
      }

copy_if_all : {A : Type 0} (p : A → Bool) (xs : List A) → all_of p (copy_if p xs) ≡ true
copy_if_all p [] = refl
copy_if_all p (x ∷ xs) = ground (arith, copy_if_all p xs)

module _ {D : Type 0} ⦃d : Double D⦄ where
  abbrev pub dogs_at : World D → ℕ → Option (List ℕ)
  dogs_at w a = Option.map (λ (s : GameSession D). s.dogs) (get_elem? w.sessions a)

  sweep_lem :
      (limit : D) (w : World D) (a : ℕ) (s : GameSession D)
      → get_elem? w.sessions a ≡ some s
      → ((k : ℕ) → active_at limit (sweep limit w a s) k ≡ active_at limit w k)
        × (dogs_at (sweep limit w a s) a ≡ active_at limit w a)
  unfolding sweep
  sweep_lem limit w a s at = (
    λ k. rw (get_elem?-set w.sessions a k left at) (elim (Bool-cases (a == k)) [
      | inl hit ↦
          rw (hit, ← (==_iff a k).0 hit, at)
            (ap some (remove_if_idem (is_inactive limit w.dogs) s.dogs))
      | inr miss ↦ rw miss
    ]),
    rw (get_elem?-set w.sessions a a left at, (==_iff a a).1 refl, at),
  )
    where
      left : GameSession D
      left = record s { dogs = remove_if (is_inactive limit w.dogs) s.dogs }

  -- If ids tell dogs apart, the call leaves the session exactly its active dogs, in their order; in
  -- every session the active dogs stay as they were, and no dog itself changes.
  pub remove_inactive_dogs-active :
      (w w' : World D) (clock : ℕ → Round) (a : ℕ)
      → HasUniqueIds w.dogs
      → remove_inactive_dogs w clock a ≡ ok w'
      → let limit = w.game.dog_retirement_time_seconds in
        (w'.dogs ≡ w.dogs)
        × ((k : ℕ) → active_at limit w' k ≡ active_at limit w k)
        × (dogs_at w' a ≡ active_at limit w a)
  unfolding remove_inactive_dogs
  remove_inactive_dogs-active w w' clock a u h =
      let limit = w.game.dog_retirement_time_seconds in
      let (s, p, q) = >>=-eq-ok (or_fail (get_elem? w.sessions a) undefined) _ h in
      let old = copy_if (is_inactive limit w.dogs) s.dogs in
      let (mid, r, t) = >>=-eq-ok (retire_dogs w clock 0 old) _ q in
      let (s', f, v) = >>=-eq-ok (or_fail (get_elem? mid.sessions a) undefined) _ t in
      swept mid s' (retire_dogs-Keeps limit w mid clock 0 old u (copy_if_all _ s.dogs) r)
        (or_fail-eq-ok (get_elem? mid.sessions a) undefined f) (ground (arith, v))
    where
      swept :
          (mid : World D) (s' : GameSession D)
          → Keeps w.game.dog_retirement_time_seconds w mid
          → get_elem? mid.sessions a ≡ some s'
          → sweep w.game.dog_retirement_time_seconds mid a s' ≡ w'
          → (w'.dogs ≡ w.dogs)
            × ((k : ℕ)
                → active_at w.game.dog_retirement_time_seconds w' k
                  ≡ active_at w.game.dog_retirement_time_seconds w k)
            × (dogs_at w' a ≡ active_at w.game.dog_retirement_time_seconds w a)
      swept mid s' kept at same =
          let (others, own) = sweep_lem w.game.dog_retirement_time_seconds mid a s' at in
          subst
            (λ (x : World D).
              (x.dogs ≡ w.dogs)
              × ((k : ℕ)
                  → active_at w.game.dog_retirement_time_seconds x k
                    ≡ active_at w.game.dog_retirement_time_seconds w k)
              × (dogs_at x a ≡ active_at w.game.dog_retirement_time_seconds w a))
            same
            (
              unfold sweep in kept.same_dogs,
              λ k. others k ∙ kept.same_active k,
              own ∙ kept.same_active a,
            )
