-- ===== src/Common/Delta.antt =====
-- The time differences of src/common.cpp.
use pingweave.Base.{ℕ, ◌+◌, ◌-◌, ◌%◌, ◌^◌, ◌≤◌, ◌<◌, ◌≡◌, ◌⊎◌, arith}
use pingweave.Common.{
  calc_time_delta_with_bitwrap, calc_time_delta_with_modulo, time_calc_modulo, uint64_max,
}

-- Between two readings of a counter that wraps behind `mask`, the difference is the number of
-- ticks from the first to the second: added to the first it gives the second, with at most one
-- wrap, and it never exceeds `mask`.
pub delta_bitwrap :
    (t1 t2 mask : ℕ)
    → mask ≤ uint64_max
    → t1 ≤ mask
    → t2 ≤ mask
    → let d = calc_time_delta_with_bitwrap t1 t2 mask in
      (d ≤ mask) × ((t1 + d ≡ t2) ⊎ (t1 + d ≡ t2 + mask + 1))
unfolding calc_time_delta_with_bitwrap
delta_bitwrap t1 t2 mask m h k = ground arith

-- The difference modulo 2 ^ 32 is below 2 ^ 32, and added to the first time it gives the second
-- modulo 2 ^ 32; it is the plain difference where that is not negative and below 2 ^ 32.
pub delta_modulo :
    (t1 t2 : ℕ)
    → let d = calc_time_delta_with_modulo t1 t2 time_calc_modulo in
      (d < 2 ^ 32) × ((t1 + d) % 2 ^ 32 ≡ t2 % 2 ^ 32) × (t1 ≤ t2 → t2 < t1 + 2 ^ 32 → d ≡ t2 - t1)
unfolding calc_time_delta_with_modulo
delta_modulo t1 t2 = omega arith

-- `d` is the time from `a` to `b`, on clocks that are read modulo 2 ^ 32.
abbrev pub IsElapsed : ℕ → ℕ → ℕ → Type 0
IsElapsed a b d = (d < 2 ^ 32) × ((a + d) % 2 ^ 32 ≡ b % 2 ^ 32)

pub modulo-IsElapsed : (a b : ℕ) → IsElapsed a b (calc_time_delta_with_modulo a b time_calc_modulo)
modulo-IsElapsed a b = let (small, reaches, _plain) = delta_modulo a b in (small, reaches)
