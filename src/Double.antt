-- ===== src/Double.antt =====
-- What the code does with a `double`: literals, conversions from integers, arithmetic, comparisons and
-- a few functions of <cmath>. The type is a parameter; `IsIeee` names the facts of IEEE 754
-- arithmetic that the proofs rely on.
pub mod Milli
use backend_for_browser_game.Base.{
  ℕ, suc, ℤ, pos, ◌≤ℤ◌, ◌^◌, ◌≡◌, ◌⊎◌, Bool, true, not, ◌≤◌, if◌then◌else◌,
}

pub record Double (D : Type 0) : Type 0 where
  -- `decimal m k` is the double nearest to m / 10^k.
  pub decimal : ℕ → ℕ → D
  pub of_int : ℤ → D
  pub add : D → D → D
  pub sub : D → D → D
  pub mul : D → D → D
  pub div : D → D → D
  pub neg : D → D
  pub abs : D → D
  pub pow : D → D → D
  -- static_cast<unsigned>(std::round(x))
  pub round_unsigned : D → ℕ
  -- static_cast<std::int64_t>(x)
  pub truncate : D → ℤ
  pub le : D → D → Bool
  pub lt : D → D → Bool
  pub eq : D → D → Bool
  -- std::numeric_limits<double>::epsilon() and min()
  pub epsilon : D
  pub min_positive : D
  -- std::isfinite: used in statements only.
  pub is_finite : D → Bool

module _ {D : Type 0} ⦃d : Double D⦄ where
  abbrev pub nought : D
  nought = d.decimal 0 0

  -- std::min and std::max, which test one way and so pass a NaN on in the first place.
  abbrev pub min_d : D → D → D
  min_d a b = if d.lt b a then b else a

  abbrev pub max_d : D → D → D
  max_d a b = if d.lt a b then b else a

  -- std::clamp
  abbrev pub clamp : D → D → D → D
  clamp v lo hi = if d.lt v lo then lo else if d.lt hi v then hi else v

  infix 4 ◌≼◌
  abbrev pub ◌≼◌ : D → D → Type 0
  x ≼ y = d.le x y ≡ true

  -- A NaN is the value that does not compare with itself.
  abbrev pub IsNumber : D → Type 0
  IsNumber x = x ≼ x

  abbrev pub IsFinite : D → Type 0
  IsFinite x = d.is_finite x ≡ true

-- Facts of IEEE 754: the order is total away from NaN, rounding is monotone, and sums and products of
-- finite values are numbers. `of_int` and `decimal` stand for the conversions of 64-bit integers and of
-- the literals of the code, which are finite.
pub record IsIeee (D : Type 0) ⦃d : Double D⦄ : Type 0 where
  pub number_of_le : (x y : D) → x ≼ y → IsNumber x × IsNumber y
  pub le_trans : (x y z : D) → x ≼ y → y ≼ z → x ≼ z
  pub le_total : (x y : D) → IsNumber x → IsNumber y → (x ≼ y) ⊎ (y ≼ x)
  pub lt-eq-not-le : (x y : D) → IsNumber x → IsNumber y → d.lt x y ≡ not (d.le y x)
  pub number_of_finite : (x : D) → IsFinite x → IsNumber x
  pub finite_between : (x y z : D) → x ≼ y → y ≼ z → IsFinite x → IsFinite z → IsFinite y
  pub decimal_nonneg : (m k : ℕ) → (nought ≼ d.decimal m k) × IsFinite (d.decimal m k)
  pub of_int_zero : d.of_int (pos 0) ≡ nought
  pub of_int-IsFinite : (a : ℤ) → IsFinite (d.of_int a)
  pub of_int_mono : (a b : ℤ) → a ≤ℤ b → d.of_int a ≼ d.of_int b
  -- An integer, moved by less than one.
  pub offset-IsFinite :
      (a : ℤ) (m k : ℕ)
      → m ≤ 10 ^ k
      → IsFinite (d.sub (d.of_int a) (d.decimal m k))
        × IsFinite (d.add (d.of_int a) (d.decimal m k))
  pub le_add : (x y : D) → nought ≼ y → IsFinite x → x ≼ d.add x y
  pub add_le : (x y : D) → y ≼ nought → IsFinite x → d.add x y ≼ x
  pub sub_le : (x y : D) → nought ≼ y → IsFinite x → IsFinite y → d.sub x y ≼ x
  pub mul_nonneg :
      (x y : D) → nought ≼ x → nought ≼ y → IsFinite x → IsFinite y → nought ≼ d.mul x y
  pub mul_nonpos :
      (x y : D) → x ≼ nought → nought ≼ y → IsFinite x → IsFinite y → d.mul x y ≼ nought
  pub neg_nonpos : (x : D) → nought ≼ x → IsFinite x → (d.neg x ≼ nought) × IsFinite (d.neg x)
  pub div_nonneg :
      (x : D) (m : ℕ)
      → nought ≼ x
      → IsFinite x
      → (nought ≼ d.div x (d.decimal (suc m) 0)) × IsFinite (d.div x (d.decimal (suc m) 0))
