-- ===== src/Base/Lists.antt =====
-- Lists by native numbers, under the library's names, and the `std` algorithms that the code calls.
use Prim.Native.Nat.{ℕ, zero, suc, ◌+◌, ◌<◌}
use mathlib.Core.Path.{◌≡◌, refl, ap, ◌∙◌}
use mathlib.Core.Logic.{◌⊎◌, inl, inr}
use mathlib.Core.Bool.{Bool, true, false, ◌&&◌, ◌||◌, not}
use mathlib.Core.List.{List, [], ◌∷◌, ◌++◌}
use mathlib.Core.Option.{Option, none, some}
use native.Mathlib.Omega.{arith}
use backend_for_browser_game.Base.Tests.{◌==◌, if◌then◌else◌}

module _ {ℓ} {A : Type ℓ} where
  abbrev pub length : List A → ℕ
  length [] = 0
  length (x ∷ xs) = suc (length xs)

  abbrev pub get_elem? : List A → ℕ → Option A
  get_elem? [] i = none
  get_elem? (x ∷ xs) zero = some x
  get_elem? (x ∷ xs) (suc i) = get_elem? xs i

  -- A write out of bounds changes nothing.
  abbrev pub set : List A → ℕ → A → List A
  set [] i v = []
  set (x ∷ xs) zero v = v ∷ xs
  set (x ∷ xs) (suc i) v = x ∷ set xs i v

  abbrev pub All {κ} : (A → Type κ) → List A → Type κ
  All P [] = Unit
  All P (x ∷ xs) = P x × All P xs

  -- std::any_of, std::all_of, std::find_if, std::copy_if, and erase with find_if or remove_if.
  abbrev pub any_of : (A → Bool) → List A → Bool
  any_of p [] = false
  any_of p (x ∷ xs) = p x || any_of p xs

  abbrev pub all_of : (A → Bool) → List A → Bool
  all_of p [] = true
  all_of p (x ∷ xs) = p x && all_of p xs

  abbrev pub find_if : (A → Bool) → List A → Option A
  find_if p [] = none
  find_if p (x ∷ xs) = if p x then some x else find_if p xs

  abbrev pub erase_first : (A → Bool) → List A → List A
  erase_first p [] = []
  erase_first p (x ∷ xs) = if p x then xs else x ∷ erase_first p xs

  abbrev pub copy_if : (A → Bool) → List A → List A
  copy_if p [] = []
  copy_if p (x ∷ xs) = if p x then x ∷ copy_if p xs else copy_if p xs

  abbrev pub remove_if : (A → Bool) → List A → List A
  remove_if p = copy_if (λ x. not (p x))

  pub length-append : (xs ys : List A) → length (xs ++ ys) ≡ length xs + length ys
  length-append [] ys = omega arith
  length-append (x ∷ xs) ys = omega (arith, length-append xs ys)

  pub All-append {κ} : (P : A → Type κ) (xs ys : List A) → All P xs → All P ys → All P (xs ++ ys)
  All-append P [] ys h k = k
  All-append P (x ∷ xs) ys (h, hs) k = (h, All-append P xs ys hs k)

  pub length-set : (xs : List A) (i : ℕ) (v : A) → length (set xs i v) ≡ length xs
  length-set [] i v = refl
  length-set (x ∷ xs) zero v = refl
  length-set (x ∷ xs) (suc i) v = ap suc (length-set xs i v)

-- Equality of texts, which are lists of bytes.
abbrev pub str_eq : List ℕ → List ℕ → Bool
str_eq [] [] = true
str_eq [] (y ∷ ys) = false
str_eq (x ∷ xs) [] = false
str_eq (x ∷ xs) (y ∷ ys) = (x == y) && str_eq xs ys

module _ {ℓ} {A : Type ℓ} where
  -- Reading after a write to a place that holds something.
  pub get_elem?-set :
      (xs : List A) (i j : ℕ) (v : A) {old : A}
      → get_elem? xs i ≡ some old
      → get_elem? (set xs i v) j ≡ (if i == j then some v else get_elem? xs j)
  get_elem?-set [] i j v h = cc
  get_elem?-set (x ∷ xs) zero zero v h = refl
  get_elem?-set (x ∷ xs) zero (suc j) v h = ground arith
  get_elem?-set (x ∷ xs) (suc i) zero v h = ground arith
  get_elem?-set (x ∷ xs) (suc i) (suc j) v h = get_elem?-set xs i j v h ∙ ground arith

module _ {ℓ} {A : Type ℓ} where
  pub get_elem?-append :
      (xs ys : List A) (i : ℕ) {x : A} → get_elem? xs i ≡ some x → get_elem? (xs ++ ys) i ≡ some x
  get_elem?-append [] ys i h = cc
  get_elem?-append (x ∷ xs) ys zero h = h
  get_elem?-append (x ∷ xs) ys (suc i) h = get_elem?-append xs ys i h

  pub get_elem?_last : (xs : List A) (x : A) → get_elem? (xs ++ (x ∷ [])) (length xs) ≡ some x
  get_elem?_last [] x = refl
  get_elem?_last (y ∷ xs) x = get_elem?_last xs x

  pub get_elem?-lt : (xs : List A) (i : ℕ) {x : A} → get_elem? xs i ≡ some x → i < length xs
  get_elem?-lt [] i h = cc
  get_elem?-lt (x ∷ xs) zero h = omega arith
  get_elem?-lt (x ∷ xs) (suc i) h = omega (arith, get_elem?-lt xs i h)

  -- What stands in a list with one more at its end is old or that one.
  pub get_elem?-append-cases :
      (xs : List A) (x : A) (i : ℕ) {y : A}
      → get_elem? (xs ++ (x ∷ [])) i ≡ some y
      → (get_elem? xs i ≡ some y) ⊎ ((i ≡ length xs) × (y ≡ x))
  get_elem?-append-cases [] x zero h = inr (refl, ground (arith, h))
  get_elem?-append-cases [] x (suc i) h = cc
  get_elem?-append-cases (z ∷ xs) x zero h = inl h
  get_elem?-append-cases (z ∷ xs) x (suc i) h = elim (get_elem?-append-cases xs x i h) [
    | inl old ↦ inl old
    | inr (e, f) ↦ inr (ap suc e, f)
  ]

pub str_eq-eq : (s t : List ℕ) → str_eq s t ≡ true → s ≡ t
str_eq-eq [] [] h = refl
str_eq-eq [] (y ∷ t) h = cc
str_eq-eq (x ∷ s) [] h = cc
str_eq-eq (x ∷ s) (y ∷ t) h = ground (arith, str_eq-eq s t)

pub str_eq_refl : (s : List ℕ) → str_eq s s ≡ true
str_eq_refl [] = refl
str_eq_refl (c ∷ s) = ground (arith, str_eq_refl s)

pub find_if_last :
    {A : Type 0} (p : A → Bool) (xs : List A) (x : A)
    → any_of p xs ≡ false
    → p x ≡ true
    → find_if p (xs ++ (x ∷ [])) ≡ some x
find_if_last p [] x n y = rw y
find_if_last p (z ∷ xs) x n y = ground (arith, find_if_last p xs x)

pub find_if-append :
    {A : Type 0} (p : A → Bool) (xs ys : List A) (x : A)
    → find_if p xs ≡ some x
    → find_if p (xs ++ ys) ≡ some x
find_if-append p [] ys x h = cc
find_if-append p (z ∷ xs) ys x h = ground (arith, find_if-append p xs ys x)
