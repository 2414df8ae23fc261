-- ===== src/Timer/Clock.antt =====
-- kernel/timer.c: the tick count, the compare value, and kernel/timer.h's conversion. A call
-- reads the machine timer as one value, `mtime`: its loops take no time of their own.
use tsukumo_core.Common.{leb, ◌==◌, if◌then◌else◌, ℕ, zero, suc, ◌+◌, ◌/◌, ◌%◌, ◌^◌}
use tsukumo_core.Kernel.{Kernel}

-- One kernel tick in machine timer counts.
abbrev pub tick_counts : ℕ
tick_counts = 100000

-- tkmc_ms_to_ticks
unfoldable pub ms_to_ticks : ℕ → ℕ
ms_to_ticks ms = (ms / 10 + (if ms % 10 == 0 then 0 else 1) + 1) % 2 ^ 32

-- pass_elapsed_periods: the compare value moved past `now`, and the edges counted. `fuel` bounds
-- the rounds.
unfoldable pub pass_loop : ℕ → ℕ → ℕ → ℕ → ℕ × ℕ
pass_loop zero now cmp periods = (cmp, periods)
pass_loop (suc f) now cmp periods =
    let rest = pass_loop f now ((cmp + tick_counts) % 2 ^ 64) ((periods + 1) % 2 ^ 32) in
    if leb cmp now then rest else (cmp, periods)

unfoldable pub pass_elapsed_periods : ℕ → ℕ → ℕ × ℕ
pass_elapsed_periods now cmp = pass_loop (suc (now / tick_counts)) now cmp 0

-- tkmc_start_timer
unfoldable pub start_timer : Kernel → Kernel
start_timer k =
    let cmp = (k.mtime + tick_counts) % 2 ^ 64 in record k { s_mtimecmp = cmp; mtimecmp = cmp }
