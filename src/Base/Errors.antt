-- ===== src/Base/Errors.antt =====
-- Exceptions as values. `undefined` is undefined behaviour: a null or dangling pointer that is read,
-- an index out of range under `[]`, an empty range of random numbers.
use mathlib.Core.Path.{◌≡◌, refl, ap}
use mathlib.Core.Option.{Option, none, some}

pub data Error : Type 0 where
  invalid_argument out_of_range runtime_error undefined : Error

-- An exception or a value.
pub data Result {ℓ} (A : Type ℓ) : Type ℓ where
  err : Error → Result A
  ok : A → Result A

abbrev pub or_fail {ℓ} : {A : Type ℓ} → Option A → Error → Result A
or_fail none why = err why
or_fail (some x) why = ok x

module _ {ℓ} {A : Type ℓ} where
  abbrev value_or : A → Result A → A
  value_or x (ok y) = y
  value_or x (err e) = x

  pub ok-inj : {x y : A} → ok x ≡ ok y → x ≡ y
  ok-inj {x = x} h = ap (value_or x) h

module _ {ℓ κ} {A : Type ℓ} {B : Type κ} where
  infixl 5 ◌>>=◌
  abbrev pub ◌>>=◌ : Result A → (A → Result B) → Result B
  err why >>= next = err why
  ok x >>= next = next x

  -- A chain that succeeds succeeds at each of its two parts.
  pub >>=-eq-ok :
      (first : Result A) (next : A → Result B) {y : B}
      → (first >>= next) ≡ ok y
      → (x : A) × (first ≡ ok x) × (next x ≡ ok y)
  >>=-eq-ok (err why) next h = cc
  >>=-eq-ok (ok x) next h = (x, refl, h)

pub or_fail-eq-ok {ℓ} :
    {A : Type ℓ} (o : Option A) (e : Error) {a : A} → or_fail o e ≡ ok a → o ≡ some a
or_fail-eq-ok none e h = cc
or_fail-eq-ok (some x) e h = cc

pub >>=_assoc :
    {A B C : Type 0} (m : Result A) (f : A → Result B) (g : B → Result C)
    → ((m >>= f) >>= g) ≡ (m >>= λ x. f x >>= g)
>>=_assoc (err why) f g = refl
>>=_assoc (ok x) f g = refl
