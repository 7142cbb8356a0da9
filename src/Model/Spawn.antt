-- ===== src/Model/Spawn.antt =====
-- Game::UpdateLoot of src/model.cpp.
use backend_for_browser_game.Base.{
  ℕ, zero, suc, ℤ, pos, pos_part, ◌+◌, ◌-ℤ◌, length, Result, ok, u32, ◌>>=◌,
}
use backend_for_browser_game.Double.{Double}
use backend_for_browser_game.LootGen.{LootGenerator, generate}
use backend_for_browser_game.Model.GameMap.{
  GameMap, uniform, get_random_point_on_road, get_loot_value,
}
use backend_for_browser_game.Model.Loot.{new_loot}
use backend_for_browser_game.Model.Session.{GameSession}
use backend_for_browser_game.Model.Session

-- The generators of random numbers, as the sequence of their draws.
abbrev pub Draws : Type 0
Draws = ℕ → ℕ

-- GetRandomId
unfoldable pub get_random_id : ℤ → ℕ → Result ℤ
get_random_id max_id draw = uniform (pos 0) max_id draw

module _ {D : Type 0} ⦃d : Double D⦄ where
  -- The loop: `n` rounds to go, from draw `k` on. A type that is negative goes to an index of 64 bits,
  -- out of every range; it does not come up, since a draw is at least 0.
  unfoldable pub spawn_loot :
      GameMap D → Draws → ℕ → ℕ → GameSession D → ℕ → Result (GameSession D × ℕ)
  spawn_loot m draws k zero s loot_counter = ok (s, loot_counter)
  spawn_loot m draws k (suc n) s loot_counter = do
    point ← get_random_point_on_road m (draws k) (draws (k + 1)) (draws (k + 2))
    loot_type ← get_random_id (m.loot_types_count -ℤ pos 1) (draws (k + 3))
    value ← get_loot_value m (pos_part loot_type)
    let made =
        new_loot loot_counter (pos_part loot_type)
          (record { x = d.of_int point.x; y = d.of_int point.y }) value
    spawn_loot m draws (k + 4) n (Session.add_loot s made.0) made.1

  -- The generator is told `time_delta` seconds, although the callers pass milliseconds; the conversion
  -- goes through a double.
  unfoldable pub update_loot :
      GameMap D
      → LootGenerator D
      → D
      → Draws
      → GameSession D
      → ℤ
      → ℕ
      → Result (GameSession D × LootGenerator D × ℕ)
  update_loot m generator random draws s time_delta loot_counter =
      let time_delta_ms = d.truncate (d.mul (d.of_int time_delta) (d.decimal 1000 0)) in
      let (made, generator') =
        generate generator time_delta_ms (u32 (length s.loot)) (u32 (length s.dogs)) random in
      spawn_loot m draws 0 made s loot_counter >>= λ (s', counter). ok (s', generator', counter)
