-- ===== src/Prelude/Floats.antt =====
-- The product of a double, as mantissa / 2 ^ scale, and a natural number, as Python rounds it.
use boxmunge.Prelude.Tests.{ltb, if◌then◌else◌, ◌==◌}
use Prim.Native.Nat.{ℕ, zero, suc, ◌+◌, ◌-◌, ◌*◌, ◌/◌, ◌%◌, ◌^◌}
use mathlib.Core.Bool.{◌&&◌, ◌||◌}

-- By how many bits p is longer than the 53 that are kept, for p < 2 ^ (53 + fuel).
unfoldable pub excess : ℕ → ℕ → ℕ
excess zero p = 0
excess (suc fuel) p = if ltb p (2 ^ 53) then 0 else suc (excess fuel (p / 2))

-- To the nearest multiple of the unit, ties to the even one.
abbrev pub round_to : ℕ → ℕ → ℕ
round_to unit p =
    let low = p % unit in
    let up = ltb unit (2 * low) || (2 * low == unit && (p / unit) % 2 == 1) in
    if up then (p / unit + 1) * unit else (p / unit) * unit

-- mantissa / 2 ^ scale * n, in units of 1 / 2 ^ scale, for n < 2 ^ 64
unfoldable pub float_times : ℕ → ℕ → ℕ
unfolding excess
float_times mantissa n = let p = mantissa * n in round_to (2 ^ excess 64 p) p

-- math.ceil of a number in units of 1 / 2 ^ scale
abbrev pub ceil_of : ℕ → ℕ → ℕ
ceil_of scale p = (p + (2 ^ scale - 1)) / 2 ^ scale
