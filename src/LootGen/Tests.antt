-- ===== src/LootGen/Tests.antt =====
-- Numbers of three decimal places round as the generator relies on, and a run of it.
use backend_for_browser_game.Base.{
  ℕ, zero, suc, pos, pos_part, negsuc, ◌+ℤ◌, ◌-ℤ◌, ◌*ℤ◌, ◌+◌, ◌*◌, ◌/◌, ◌≤◌, ◌≡◌, refl, ◌⊎◌, some,
  none, ltb, arith, if◌then◌else◌,
}
use backend_for_browser_game.Double.{◌≼◌, nought}
use backend_for_browser_game.Double.Milli.{Milli, milli_double, quot, Milli-IsIeee}
use backend_for_browser_game.LootGen.{LootGenerator, generate, raw_probability}
use backend_for_browser_game.LootGen.Bounds.{IsRounding, generate_bounds}

part_le : (n a : ℕ) → a ≤ 1000 → n * a ≤ n * 1000
part_le zero a h = omega arith
part_le (suc n) a h = omega (arith, h, part_le n a h)

scaled : (n a : ℕ) → n * 1000 * a ≡ n * a * 1000
scaled zero a = omega arith
scaled (suc n) a = grind (arith, scaled n a)

-- The rounded quotient of a multiple of the scale.
part_rounds :
    (n a b : ℕ)
    → b ≡ n * a
    → b ≤ n * 1000
    → (pos_part (quot (pos n *ℤ pos 1000 *ℤ pos a) 1000) + 500) / 1000 ≤ n
unfolding ◌*ℤ◌
part_rounds n a b e h = ground (arith, scaled n a)

round_part_milli :
    (n : ℕ) (p : Milli)
    → nought {D = Milli} ≼ p
    → p ≼ milli_double.decimal 1 0
    → milli_double.round_unsigned (milli_double.mul (milli_double.of_int (pos n)) p) ≤ n
unfolding ◌*ℤ◌
round_part_milli n none h k = ground arith
round_part_milli n (some (negsuc a)) h k = ground arith
round_part_milli n (some (pos a)) h k =
    let bound : a ≤ 1000 = ground (arith, k) in part_rounds n a (n * a) refl (part_le n a bound)

Milli-IsRounding : IsRounding Milli
Milli-IsRounding = record { round_part = round_part_milli; one_nonneg = refl }

-- A generator that makes all that lacks: five looters and two pieces of loot.
abbrev sure : LootGenerator Milli
sure = record { base_interval = pos 1000; probability = some (pos 0); time_without_loot = pos 0 }

generate_bounds_example :
    let (made, g') = generate sure (pos 1000) 2 5 (milli_double.decimal 1 0) in
    ((made ≡ 0) ⊎ (2 + made ≤ 5))
    × (g'.time_without_loot ≡ (if ltb 0 made then pos 0 else pos 0 +ℤ pos 1000))
    × (g'.base_interval ≡ pos 1000)
    × (g'.probability ≡ some (pos 0))
generate_bounds_example =
    generate_bounds Milli-IsIeee Milli-IsRounding sure (pos 1000) 2 5 (milli_double.decimal 1 0)
      (unfold raw_probability ◌+ℤ◌ ◌-ℤ◌ ◌*ℤ◌ in refl)
