-- ===== src/LootGen/Bounds.antt =====
-- LootGenerator::Generate of src/loot_generator.cpp: how much it makes, and its timer.
use backend_for_browser_game.Base.{
  ℕ, ℤ, pos, ◌+ℤ◌, ◌+◌, ◌≤◌, ◌≡◌, refl, ◌⊎◌, arith, ltb, if◌then◌else◌,
}
use backend_for_browser_game.Double.{Double, IsIeee, nought, clamp, ◌≼◌, IsNumber}
use backend_for_browser_game.LootGen.{LootGenerator, shortage, raw_probability, generate}

-- Rounding of a product: a part of a count, rounded, is no more than the count, and nothing of it is
-- nothing.
pub record IsRounding (D : Type 0) ⦃d : Double D⦄ : Type 0 where
  pub round_part :
      (n : ℕ) (p : D)
      → nought ≼ p
      → p ≼ d.decimal 1 0
      → d.round_unsigned (d.mul (d.of_int (pos n)) p) ≤ n
  pub one_nonneg : nought ≼ d.decimal 1 0

module _ {D : Type 0} ⦃d : Double D⦄ (laws : IsIeee D) (rounding : IsRounding D) where
  open laws use {number_of_le, lt-eq-not-le, le_total}

  clamp_bounds :
      (v : D)
      → IsNumber v
      → (nought ≼ clamp v nought (d.decimal 1 0)) × (clamp v nought (d.decimal 1 0) ≼ d.decimal 1 0)
  clamp_bounds v n =
      let (zero_num, one_num) = number_of_le nought (d.decimal 1 0) rounding.one_nonneg in
      ground (
        arith,
        rounding.one_nonneg,
        zero_num,
        one_num,
        n,
        lt-eq-not-le v nought n zero_num,
        lt-eq-not-le (d.decimal 1 0) v one_num n,
        le_total v nought n zero_num,
        le_total (d.decimal 1 0) v one_num n,
      )

  -- If the value that is clamped is a number, then what is made and what lies there together are no
  -- more than the looters, or nothing is made. The time without loot goes back to zero exactly when
  -- something is made, and else grows by the time passed.
  pub generate_bounds :
      (g : LootGenerator D) (time_delta : ℤ) (loot_count looter_count : ℕ) (random : D)
      → IsNumber (raw_probability g (g.time_without_loot +ℤ time_delta) random)
      → let (made, g') = generate g time_delta loot_count looter_count random in
        ((made ≡ 0) ⊎ (loot_count + made ≤ looter_count))
        × (g'.time_without_loot ≡ (if ltb 0 made then pos 0 else g.time_without_loot +ℤ time_delta))
        × (g'.base_interval ≡ g.base_interval)
        × (g'.probability ≡ g.probability)
  unfolding generate
  generate_bounds g time_delta loot_count looter_count random n =
      let raw = raw_probability g (g.time_without_loot +ℤ time_delta) random in
      let (low, high) = clamp_bounds raw n in
      let part =
        rounding.round_part (shortage loot_count looter_count) (clamp raw nought (d.decimal 1 0))
          low high in
      (fits part, refl, refl, refl)
    where
      fits :
          {made : ℕ}
          → made ≤ shortage loot_count looter_count
          → (made ≡ 0) ⊎ (loot_count + made ≤ looter_count)
      fits h = ground arith
