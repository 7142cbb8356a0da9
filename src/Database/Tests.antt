-- ===== src/Database/Tests.antt =====
-- A pool of two connections: one is taken.
use mathlib.Core.List.{Perm}
use backend_for_browser_game.Base.{ℕ, ◌≡◌, refl, ◌⊎◌, List, [], ◌∷◌, some, none, ok}
use backend_for_browser_game.Database.{ConnectionPool, new_pool, get_connection, return_connection}
use backend_for_browser_game.Database.Steps.{
  take, Reach, start, next, IsValid, Reach-IsValid, Reach-progress, Reach-return,
}

abbrev made : List ℕ
made = 7 ∷ 8 ∷ []

abbrev one_taken : ConnectionPool ℕ
one_taken = record { pool = none ∷ some 8 ∷ []; used_connections = 1 }

taken : get_connection (new_pool made) ≡ some (some 7, one_taken)
unfolding new_pool get_connection
taken = refl

reached : Reach made (one_taken, 7 ∷ [])
reached =
    next (new_pool made, []) (one_taken, 7 ∷ []) start (take (new_pool made) one_taken [] 7 taken)

Reach-IsValid_example : IsValid made (one_taken, 7 ∷ [])
Reach-IsValid_example = Reach-IsValid made (one_taken, 7 ∷ []) reached

Reach-progress_example :
    ((get_connection one_taken ≡ none) × Perm (7 ∷ []) made)
    ⊎ ((c : ℕ) × (p' : ConnectionPool ℕ) × (get_connection one_taken ≡ some (some c, p')))
Reach-progress_example = Reach-progress made (7 ∷ []) one_taken reached

Reach-return_example : (p' : ConnectionPool ℕ) × (return_connection one_taken 7 ≡ ok p')
Reach-return_example = Reach-return made [] [] one_taken 7 reached
