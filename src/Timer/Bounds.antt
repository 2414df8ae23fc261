-- ===== src/Timer/Bounds.antt =====
-- The arithmetic of kernel/timer.c and kernel/timer.h: what a time-out in milliseconds becomes, and
-- how the compare value follows the machine timer.
use tsukumo_core.Common.{ℕ, zero, suc, ◌+◌, ◌-◌, ◌*◌, ◌/◌, ◌^◌, ◌≤◌, ◌<◌, ◌≡◌, ◌⊎◌, arith}
use tsukumo_core.Timer.Clock.{tick_counts, ms_to_ticks, pass_loop, pass_elapsed_periods}

-- For a 32-bit time-out, tkmc_ms_to_ticks does not wrap: ten times its result is at least the
-- time-out and 10, is below the time-out and 20, and the result is below 2^31.
pub ms_to_ticks-bounds :
    (ms : ℕ)
    → ms < 2 ^ 32
    → (ms + 10 ≤ 10 * ms_to_ticks ms) × (10 * ms_to_ticks ms < ms + 20) × (ms_to_ticks ms < 2 ^ 31)
unfolding ms_to_ticks
ms_to_ticks-bounds ms lt = ground arith

-- The compare value `c` has been moved past `now` from `cmp` by `p` periods, and no further.
pub record IsCaughtUp (now cmp : ℕ) (r : ℕ × ℕ) : Type 0 where
  pub moved : r.0 ≡ cmp + tick_counts * r.1
  pub past : now < r.0
  pub tight : r.1 ≡ 0 ⊎ (r.0 ≤ now + tick_counts)

pass_loop-counted :
    (f now cmp periods : ℕ)
    → now + tick_counts < 2 ^ 64
    → cmp < 2 ^ 64
    → periods + (now + tick_counts - cmp) / tick_counts < 2 ^ 32
    → now < cmp + tick_counts * f
    → ((pass_loop f now cmp periods).0 + tick_counts * periods
        ≡ cmp + tick_counts * (pass_loop f now cmp periods).1)
      × (now < (pass_loop f now cmp periods).0)
      × (((pass_loop f now cmp periods).1 ≡ periods)
          ⊎ ((pass_loop f now cmp periods).0 ≤ now + tick_counts))
unfolding pass_loop
pass_loop-counted zero now cmp periods a b c d = ground arith
pass_loop-counted (suc f) now cmp periods a b c d =
    ground (arith, pass_loop-counted f now (cmp + tick_counts) (periods + 1))

-- Where the machine timer is at least a period away from its end, the compare value is a 64-bit
-- number and fewer than 2^32 periods have passed, the loop of pass_elapsed_periods ends: the
-- compare value has moved by exactly the counted periods, past the present and to the first edge
-- after it, or no period is counted.
pub pass_elapsed_periods-IsCaughtUp :
    (now cmp : ℕ)
    → now + tick_counts < 2 ^ 64
    → cmp < 2 ^ 64
    → (now + tick_counts - cmp) / tick_counts < 2 ^ 32
    → IsCaughtUp now cmp (pass_elapsed_periods now cmp)
unfolding pass_elapsed_periods
pass_elapsed_periods-IsCaughtUp now cmp a b c =
    let counted =
      pass_loop-counted (suc (now / tick_counts)) now cmp 0 a b (omega (arith, c)) (omega arith) in
    record { moved = omega (arith, counted.0); past = counted.1; tight = counted.2 }
