-- ===== src/Application/Sessions.antt =====
-- Players of src/application.cpp: who is found by a token, and with whom.
use backend_for_browser_game.Base.{
  ℕ, ◌≡◌, refl, sym, subst, inl, inr, Bool, true, false, List, [], ◌∷◌, find_if, find_if_last,
  str_eq_refl, copy_if, any_of, str_eq, Bytes, Option, some, none, arith, Bool-cases,
}
use backend_for_browser_game.Model.World.{World, Player}
use backend_for_browser_game.Application.{
  add_player, find_player_by_token, find_players_in_session, same_session, players_beside,
}

module _ {D : Type 0} where
  -- A new player is found by its token, if no other player has it.
  pub find_player_by_token-add_player :
      (w : World D) (token : Bytes) (session dog : ℕ)
      → any_of (λ (p : Player). str_eq p.token token) w.players ≡ false
      → let (w', p) = add_player w token session dog in
        find_player_by_token w'.players token ≡ some p
  unfolding find_player_by_token add_player
  find_player_by_token-add_player w token session dog h =
      find_if_last (λ (p : Player). str_eq p.token token) w.players _ h (str_eq_refl token)

same_session_refl : (s : Option ℕ) → same_session s s ≡ true
same_session_refl none = refl
same_session_refl (some a) = ground arith

same_session-eq : (s t : Option ℕ) → same_session s t ≡ true → s ≡ t
same_session-eq none none h = refl
same_session-eq none (some b) h = cc
same_session-eq (some a) none h = cc
same_session-eq (some a) (some b) h = ground arith

-- The elements of a list for which something holds, in their order, and no others.
pub data Selects {A : Type 0} (P : A → Type 0) : List A → List A → Type 0 where
  nil : Selects P [] []
  keep : (x : A) (xs ys : List A) → P x → Selects P xs ys → Selects P (x ∷ xs) (x ∷ ys)
  skip : (x : A) (xs ys : List A) → ¬ (P x) → Selects P xs ys → Selects P (x ∷ xs) ys

copy_if-Selects :
    (s : Option ℕ) (ps : List Player)
    → Selects
        (λ (p : Player). p.session ≡ s)
        ps
        (copy_if (λ (p : Player). same_session p.session s) ps)
copy_if-Selects s [] = nil
copy_if-Selects s (p ∷ ps) = elim (Bool-cases (same_session p.session s)) [
  | inl y ↦ rw y (keep p ps _ (same_session-eq p.session s y) (copy_if-Selects s ps))
  | inr n ↦ rw n (skip p ps _ (λ h. other h n) (copy_if-Selects s ps))
]
  where
    other : p.session ≡ s → same_session p.session s ≡ false → ⊥
    other h n =
        let hit = subst (λ t. same_session p.session t ≡ true) h (same_session_refl p.session) in
        ground (arith, n, hit)

kept_here :
    (p : Player) (r : Player → Bool) (token : Bytes) (q : Player) (ps : List Player)
    → r p ≡ true
    → str_eq q.token token ≡ true
    → some q ≡ some p
    → find_if (λ (q : Player). str_eq q.token token) (copy_if r (q ∷ ps)) ≡ some p
kept_here p r token q ps y e h = let k : r q ≡ true = cc in rw k (rw e h)

kept_later :
    (p : Player) (r : Player → Bool) (token : Bytes) (q : Player) (ps : List Player)
    → str_eq q.token token ≡ false
    → find_if (λ (q : Player). str_eq q.token token) (copy_if r ps) ≡ some p
    → find_if (λ (q : Player). str_eq q.token token) (copy_if r (q ∷ ps)) ≡ some p
kept_later p r token q ps n h = elim (Bool-cases (r q)) [ inl y ↦ rw y (rw n h) | inr z ↦ rw z h ]

-- A filter that keeps who is found first does not change who is found.
kept :
    (p : Player) (r : Player → Bool) (token : Bytes) (ps : List Player)
    → r p ≡ true
    → find_if (λ (q : Player). str_eq q.token token) ps ≡ some p
    → find_if (λ (q : Player). str_eq q.token token) (copy_if r ps) ≡ some p
kept p r token [] y h = cc
kept p r token (q ∷ ps) y h = elim (Bool-cases (str_eq q.token token)) [
  | inl e ↦ kept_here p r token q ps y e (rw e at h)
  | inr n ↦ kept_later p r token q ps n (kept p r token ps y (rw n at h))
]

-- For a token that somebody holds, the players that are found are all the players of the holder's
-- session and no others, in their order, and the holder is the first of them that the token finds.
pub find_players_in_session_lem :
    (players : List Player) (token : Bytes) (q : Player)
    → find_player_by_token players token ≡ some q
    → Selects
        (λ (p : Player). p.session ≡ q.session)
        players
        (find_players_in_session players token)
      × (find_player_by_token (find_players_in_session players token) token ≡ some q)
unfolding find_players_in_session find_player_by_token
find_players_in_session_lem players token q h =
    subst
      (λ o.
        Selects (λ (p : Player). p.session ≡ q.session) players (players_beside players o)
        × (find_if (λ (p : Player). str_eq p.token token) (players_beside players o) ≡ some q))
      (sym h)
      (
        copy_if-Selects q.session players,
        kept q (λ (p : Player). same_session p.session q.session) token players
            (same_session_refl q.session) h,
      )
