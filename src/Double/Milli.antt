-- ===== src/Double/Milli.antt =====
-- A value for the parameter `Double`: numbers with three decimal places, as integers, and a NaN.
use backend_for_browser_game.Double.{Double, IsIeee}
use backend_for_browser_game.Base.{
  ℕ, zero, suc, ℤ, pos, negsuc, pos_part, ◌+ℤ◌, ◌-ℤ◌, ◌*ℤ◌, leb_ℤ, ltb_ℤ, eqb_ℤ, refl, Bool, true,
  false, ◌+◌, ◌*◌, ◌/◌, ◌^◌, Option, none, some, arith, if◌then◌else◌,
}

abbrev pub Milli : Type 0
Milli = Option ℤ

abbrev pub neg_ℤ : ℤ → ℤ
neg_ℤ (pos zero) = pos 0
neg_ℤ (pos (suc n)) = negsuc n
neg_ℤ (negsuc n) = pos (suc n)

-- Division of the absolute value, rounded towards zero.
abbrev pub quot : ℤ → ℕ → ℤ
quot (pos a) k = pos (a / k)
quot (negsuc a) k = neg_ℤ (pos (suc a / k))

abbrev lift₂ : (ℤ → ℤ → ℤ) → Milli → Milli → Milli
lift₂ f (some a) (some b) = some (f a b)
lift₂ f _ _ = none

abbrev test₂ : (ℤ → ℤ → Bool) → Milli → Milli → Bool
test₂ f (some a) (some b) = f a b
test₂ f _ _ = false

abbrev over : ℤ → ℤ → ℤ
over a (pos k) = quot a k
over a (negsuc k) = neg_ℤ (quot a (suc k))

abbrev scaled_div : ℤ → ℤ → Milli
scaled_div a b = if eqb_ℤ b (pos 0) then none else some (over (a *ℤ pos 1000) b)

abbrev div_milli : Milli → Milli → Milli
div_milli (some a) (some b) = scaled_div a b
div_milli _ _ = none

abbrev abs_milli : Milli → Milli
abs_milli none = none
abs_milli (some a) = some (if ltb_ℤ a (pos 0) then neg_ℤ a else a)

abbrev neg_milli : Milli → Milli
neg_milli none = none
neg_milli (some a) = some (neg_ℤ a)

abbrev finite_milli : Milli → Bool
finite_milli none = false
finite_milli (some a) = true

abbrev truncate_milli : Milli → ℤ
truncate_milli none = pos 0
truncate_milli (some a) = quot a 1000

abbrev round_milli : Milli → ℕ
round_milli none = 0
round_milli (some a) = (pos_part a + 500) / 1000

instance abbrev pub milli_double : Double Milli
milli_double = record {
  decimal = λ m k. some (pos (m * 1000 / 10 ^ k));
  of_int = λ a. some (a *ℤ pos 1000);
  add = lift₂ ◌+ℤ◌;
  sub = lift₂ ◌-ℤ◌;
  mul = lift₂ (λ a b. quot (a *ℤ b) 1000);
  div = div_milli;
  neg = neg_milli;
  abs = abs_milli;
  pow = λ a b. a;
  round_unsigned = round_milli;
  truncate = truncate_milli;
  le = test₂ leb_ℤ;
  lt = test₂ ltb_ℤ;
  eq = test₂ eqb_ℤ;
  epsilon = some (pos 1);
  min_positive = some (pos 1);
  is_finite = finite_milli;
}

pub Milli-IsIeee : IsIeee Milli
unfolding ◌+ℤ◌ ◌-ℤ◌ ◌*ℤ◌
Milli-IsIeee = record {
  number_of_le = λ x y h. ground arith;
  le_trans = λ x y z h k. ground arith;
  le_total = λ x y h k. ground arith;
  lt-eq-not-le = λ x y h k. ground arith;
  number_of_finite = λ x h. ground arith;
  finite_between = λ x y z h k f g. ground arith;
  decimal_nonneg = λ m k. (ground arith, refl);
  of_int_zero = ground arith;
  of_int-IsFinite = λ a. refl;
  of_int_mono = λ a b h. ground arith;
  offset-IsFinite = λ a m k h. (refl, refl);
  le_add = λ x y h k. ground arith;
  add_le = λ x y h k. ground arith;
  sub_le = λ x y h k f. ground arith;
  mul_nonneg = λ x y h k f g. ground arith;
  mul_nonpos = λ x y h k f g. ground arith;
  neg_nonpos = λ x h f. ground arith;
  div_nonneg = λ x m h f. ground arith;
}
