-- ===== src/LootGen.antt =====
-- src/loot_generator.h and src/loot_generator.cpp. Intervals are in milliseconds; the value of the
-- random generator is an argument of each call.
pub mod Bounds
pub mod Tests
use backend_for_browser_game.Base.{ℕ, ℤ, pos, ◌+ℤ◌, ◌-◌, ltb, if◌then◌else◌}
use backend_for_browser_game.Double.{Double, nought, clamp}

pub record LootGenerator (D : Type 0) : Type 0 where
  pub base_interval : ℤ
  pub probability : D
  pub time_without_loot : ℤ

-- What the loot lacks to be as much as the looters.
abbrev pub shortage : ℕ → ℕ → ℕ
shortage loot_count looter_count =
    if ltb looter_count loot_count then 0 else looter_count - loot_count

module _ {D : Type 0} ⦃d : Double D⦄ where
  unfoldable pub new_generator : ℤ → D → LootGenerator D
  new_generator base_interval probability = record {
    base_interval = base_interval;
    probability = probability;
    time_without_loot = pos 0;
  }

  -- The quotient of a duration in seconds, as a double, and one in milliseconds.
  abbrev pub ratio_of : ℤ → ℤ → D
  ratio_of time base =
      d.div (d.mul (d.div (d.of_int time) (d.decimal 1000 0)) (d.decimal 1000 0)) (d.of_int base)

  -- What is clamped to the range from 0 to 1.
  unfoldable pub raw_probability : LootGenerator D → ℤ → D → D
  raw_probability g time random =
      d.mul
        (d.sub (d.decimal 1 0)
          (d.pow (d.sub (d.decimal 1 0) g.probability) (ratio_of time g.base_interval)))
        random

  unfoldable pub generate : LootGenerator D → ℤ → ℕ → ℕ → D → ℕ × LootGenerator D
  generate g time_delta loot_count looter_count random =
      let time = g.time_without_loot +ℤ time_delta in
      let probability = clamp (raw_probability g time random) nought (d.decimal 1 0) in
      let generated_loot =
        d.round_unsigned (d.mul (d.of_int (pos (shortage loot_count looter_count))) probability) in
      (
        generated_loot,
        record g { time_without_loot = if ltb 0 generated_loot then pos 0 else time },
      )
