-- ===== src/Main/Ticks.antt =====
-- Ticker::OnTick of src/main.cpp: the time that the game is told, against that of the clock.
use backend_for_browser_game.Base.{
  false, ℕ, ◌+◌, ◌-◌, ◌*◌, ◌≤◌, ◌≡◌, refl, List, [], ◌∷◌, length, arith,
}
use backend_for_browser_game.Main.{Ticker, schedule_tick, on_tick, ticks}

abbrev pub total : List ℕ → ℕ
total [] = 0
total (d ∷ ds) = d + total ds

-- Times that never go back, from a first one on.
abbrev pub IsRising : ℕ → List ℕ → Type 0
IsRising from [] = Unit
IsRising from (now ∷ later) = (from ≤ now) × IsRising now later

-- The last of some times, or a first one.
abbrev pub last_of : ℕ → List ℕ → ℕ
last_of from [] = from
last_of from (now ∷ later) = last_of now later

last_of-le : (from : ℕ) (times : List ℕ) → IsRising from times → from ≤ last_of from times
last_of-le from [] h = omega arith
last_of-le from (now ∷ later) h = omega (arith, h.0, last_of-le now later h.1)

-- The sum of what the handler is told never runs ahead of the clock, and behind it by less than a
-- millisecond for each tick. Nothing but these fractions of a millisecond is lost.
pub ticks_bounds :
    (t : Ticker) (times : List ℕ)
    → IsRising t.last_tick times
    → let told = total (ticks t times) in
      let elapsed = last_of t.last_tick times - t.last_tick in
      (told * 1000000 ≤ elapsed)
      × (elapsed ≤ told * 1000000 + length times * 999999)
      × (length (ticks t times) ≡ length times)
unfolding ticks on_tick schedule_tick
ticks_bounds t [] h = (omega arith, omega arith, refl)
ticks_bounds t (now ∷ later) h =
    let next : Ticker = schedule_tick (record { last_tick = now; waiting = false }) in
    let (low, high, long) = ticks_bounds next later h.1 in
    let past = last_of-le now later h.1 in
    (omega (arith, low, high, h.0, past), omega (arith, low, high, h.0, past), omega (arith, long))
