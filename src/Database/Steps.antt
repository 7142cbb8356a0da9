-- ===== src/Database/Steps.antt =====
-- ConnectionPool of src/database.cpp as a state machine: threads take connections and give them back, in
-- any order.
use mathlib.Core.List.{Perm, perm_middle, append_assoc, append-nil}
use mathlib.Core.List.Perm
use backend_for_browser_game.Base.{
  ℕ, zero, suc, ◌+◌, ◌≡◌, refl, sym, ap, ◌∙◌, subst, subst₂, ◌⊎◌, inl, inr, List, [], ◌∷◌, ◌++◌,
  map, length, length-append, get_elem?, set, Option, some, none, ok, arith,
}
use backend_for_browser_game.Database.{ConnectionPool, new_pool, get_connection, return_connection}

-- The pool, and the connections that wrappers hold.
abbrev pub State : Type 0 → Type 0
State C = ConnectionPool C × List C

module _ {C : Type 0} where
  pub data Step : State C → State C → Type 0 where
    take :
        (p p' : ConnectionPool C) (held : List C) (c : C)
        → get_connection p ≡ some (some c, p')
        → Step (p, held) (p', c ∷ held)
    give :
        (p p' : ConnectionPool C) (xs ys : List C) (c : C)
        → return_connection p c ≡ ok p'
        → Step (p, xs ++ c ∷ ys) (p', xs ++ ys)

  pub data Reach (made : List C) : State C → Type 0 where
    start : Reach made (new_pool made, [])
    next : (s t : State C) → Reach made s → Step s t → Reach made t

  abbrev pub nulls : ℕ → List (Option C)
  nulls zero = []
  nulls (suc n) = none ∷ nulls n

  -- What is free, behind as many null pointers as there are connections in use.
  abbrev pub IsValid : List C → State C → Type 0
  IsValid made (p, held) =
      (free : List C) × (p
        ≡ record { pool = nulls (length held) ++ map some free; used_connections = length held })
      × Perm (held ++ free) made

  length_map : (cs : List C) → length (map some cs) ≡ length cs
  length_map [] = refl
  length_map (c ∷ cs) = ap suc (length_map cs)

  length_slots : (n : ℕ) (cs : List C) → length (nulls n ++ map some cs) ≡ n + length cs
  length_slots zero cs = omega (arith, length_map cs)
  length_slots (suc n) cs = omega (arith, length_slots n cs)

  slot_at :
      (n : ℕ) (c : C) (cs : List C) → get_elem? (nulls n ++ map some (c ∷ cs)) n ≡ some (some c)
  slot_at zero c cs = refl
  slot_at (suc n) c cs = slot_at n c cs

  slot_taken :
      (n : ℕ) (c : C) (cs : List C)
      → set (nulls n ++ map some (c ∷ cs)) n none ≡ nulls (suc n) ++ map some cs
  slot_taken zero c cs = refl
  slot_taken (suc n) c cs = ap (λ s. none ∷ s) (slot_taken n c cs)

  slot_given :
      (n : ℕ) (c : C) (cs : List C)
      → set (nulls (suc n) ++ map some cs) n (some c) ≡ nulls n ++ map some (c ∷ cs)
  slot_given zero c cs = refl
  slot_given (suc n) c cs = ap (λ s. none ∷ s) (slot_given n c cs)

  abbrev pool_of : ℕ → List C → ConnectionPool C
  pool_of n cs = record { pool = nulls n ++ map some cs; used_connections = n }

  get_none : (n : ℕ) → get_connection (pool_of n []) ≡ none
  unfolding get_connection
  get_none n = ground (arith, length_slots n [])

  get_some :
      (n : ℕ) (c : C) (cs : List C)
      → get_connection (pool_of n (c ∷ cs)) ≡ some (some c, pool_of (suc n) cs)
  unfolding get_connection
  get_some n c cs = ground (arith, length_slots n (c ∷ cs), slot_at n c cs, slot_taken n c cs)

  return_some :
      (n : ℕ) (c : C) (cs : List C)
      → return_connection (pool_of (suc n) cs) c ≡ ok (pool_of n (c ∷ cs))
  unfolding return_connection
  return_some n c cs = ground (arith, slot_given n c cs)

  take-IsValid :
      (made held : List C) (p p' : ConnectionPool C) (c : C)
      → IsValid made (p, held)
      → get_connection p ≡ some (some c, p')
      → IsValid made (p', c ∷ held)
  take-IsValid made held p p' c ([], e, h) q =
      let waits : get_connection p ≡ none = ap get_connection e ∙ get_none (length held) in
      absurd (ground (arith, waits, q))
  take-IsValid made held p p' c (f ∷ free, e, h) q =
      let (same, after) =
        same_taken (sym q ∙ ap get_connection e ∙ get_some (length held) f free) in
      (free, after, rw same (Perm.trans (Perm.symm (perm_middle held free)) h))
    where
      same_taken :
          {x : C} {r : ConnectionPool C}
          → ◌≡◌ {A = Option (Option C × ConnectionPool C)} (some (some c, p')) (some (some x, r))
          → (c ≡ x) × (p' ≡ r)
      same_taken k = (ground (arith, k), ground (arith, k))

  moved :
      (xs ys : List C) (c : C) (free : List C)
      → Perm ((xs ++ ys) ++ c ∷ free) ((xs ++ c ∷ ys) ++ free)
  moved xs ys c free = Perm.trans (perm_middle (xs ++ ys) free) (
      subst₂ (λ us vs. Perm (c ∷ us) vs) (sym (append_assoc xs ys free))
        (sym (append_assoc xs (c ∷ ys) free)) (Perm.symm (perm_middle xs (ys ++ free))))

  give-IsValid :
      (made xs ys : List C) (p p' : ConnectionPool C) (c : C)
      → IsValid made (p, xs ++ c ∷ ys)
      → return_connection p c ≡ ok p'
      → IsValid made (p', xs ++ ys)
  give-IsValid made xs ys p p' c (free, e, h) q =
      let n = length (xs ++ ys) in
      let more : length (xs ++ c ∷ ys) ≡ suc n =
        omega (arith, length-append xs (c ∷ ys), length-append xs ys) in
      let before : p ≡ pool_of (suc n) free = e ∙ ap (λ k. pool_of k free) more in
      let back : return_connection p c ≡ ok (pool_of n (c ∷ free)) =
        ap (λ r. return_connection r c) before ∙ return_some n c free in
      (c ∷ free, same_given (sym q ∙ back), Perm.trans (moved xs ys c free) h)
    where
      same_given : {r : ConnectionPool C} → ok p' ≡ ok r → p' ≡ r
      same_given k = ground (arith, k)

  -- Whatever order threads take and return connections in, the vector holds a null pointer for each
  -- connection in use and then those that are free, and held and free together are the ones made.
  pub Reach-IsValid : (made : List C) (st : State C) → Reach made st → IsValid made st
  unfolding new_pool
  Reach-IsValid made st start = (made, refl, Perm.refl made)
  Reach-IsValid made st (next s t r (take p p' held c q)) =
      take-IsValid made held p p' c (Reach-IsValid made s r) q
  Reach-IsValid made st (next s t r (give p p' xs ys c q)) =
      give-IsValid made xs ys p p' c (Reach-IsValid made s r) q

  -- In every state that threads can reach, a call either waits, and then all the connections are held,
  -- or it gets one, never a null pointer.
  pub Reach-progress :
      (made held : List C) (p : ConnectionPool C)
      → Reach made (p, held)
      → ((get_connection p ≡ none) × Perm held made)
        ⊎ ((c : C) × (p' : ConnectionPool C) × (get_connection p ≡ some (some c, p')))
  Reach-progress made held p r = got (Reach-IsValid made (p, held) r)
    where
      got :
          IsValid made (p, held)
          → ((get_connection p ≡ none) × Perm held made)
            ⊎ ((c : C) × (p' : ConnectionPool C) × (get_connection p ≡ some (some c, p')))
      got ([], e, h) = inl (
        ap get_connection e ∙ get_none (length held),
        subst (λ us. Perm us made) (append-nil held) h,
      )
      got (c ∷ free, e, h) =
          inr (
            c,
            pool_of (suc (length held)) free,
            ap get_connection e ∙ get_some (length held) c free,
          )

  -- In every state that threads can reach, each connection that is held can be returned: the assertion
  -- does not fail.
  pub Reach-return :
      (made xs ys : List C) (p : ConnectionPool C) (c : C)
      → Reach made (p, xs ++ c ∷ ys)
      → (p' : ConnectionPool C) × (return_connection p c ≡ ok p')
  Reach-return made xs ys p c r =
      let (free, e, h) = Reach-IsValid made (p, xs ++ c ∷ ys) r in
      let more : length (xs ++ c ∷ ys) ≡ suc (length (xs ++ ys)) =
        omega (arith, length-append xs (c ∷ ys), length-append xs ys) in
      (
        pool_of (length (xs ++ ys)) (c ∷ free),
        ap (λ r. return_connection r c) (e ∙ ap (λ n. pool_of n free) more)
            ∙ return_some (length (xs ++ ys)) c free,
      )
