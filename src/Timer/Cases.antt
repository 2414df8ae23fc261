-- ===== src/Timer/Cases.antt =====
-- The branches of the timer interrupt and of the waits of time alone.
use tsukumo_core.Common.{
  ◌==◌, Bool-cases, Option-cases, ℤ, pos_part, length, ℕ, suc, ◌-◌, ◌<◌, ◌≡◌, inl, inr, Bool, true,
  false, some, arith,
}
use tsukumo_core.Context.{di, ei}
use tsukumo_core.Kernel.{Er, e_ok, e_par, e_ctx, e_tmout, slp, dly, timer_queue, Kernel, set_tcb}
use tsukumo_core.Task.{yield_task}
use tsukumo_core.Task.Queue.{reschedule}
use tsukumo_core.Timer.{
  Call, returned, waiting, schedule_timer, wait_forever, expire_loop, timer_handler, tk_dly_tsk,
  tk_slp_tsk,
}
use tsukumo_core.Timer.Clock.{ms_to_ticks, pass_elapsed_periods}

-- The kernel with the compare value moved past the present.
abbrev pub compared : Kernel → Kernel
compared k =
    let cmp = (pass_elapsed_periods k.mtime k.s_mtimecmp).0 in
    record k { s_mtimecmp = cmp; mtimecmp = cmp }

abbrev pub elapsed : Kernel → ℕ
elapsed k = (pass_elapsed_periods k.mtime k.s_mtimecmp).1

abbrev pub expired : Kernel → Bool × Kernel
expired k = expire_loop (suc (length (k.heads.ring timer_queue))) (elapsed k) false (compared k)

pub timer_handler_cases {ℓ} :
    (P : Kernel → Type ℓ) (k : Kernel)
    → (elapsed k ≡ 0 → P k)
    → (0 < elapsed k → (expired k).0 ≡ true → P (reschedule (expired k).1))
    → (0 < elapsed k → (expired k).0 ≡ false → P (expired k).1)
    → P (timer_handler k)
unfolding timer_handler
timer_handler_cases P k early some_end none_ends = elim (Bool-cases (elapsed k == 0)) [
  | inl e ↦ rw e (early (ground arith))
  | inr e ↦ elim (Bool-cases (expired k).0) [
    | inl d ↦ rw (e, d) (some_end (ground arith) d)
    | inr d ↦ rw (e, d) (none_ends (ground arith) d)
  ]
]

pub tk_dly_tsk_cases :
    (P : Call Er → Type 0) (dlytm : ℕ) (k : Kernel)
    → P (returned e_ctx (ei k.mie (di k)))
    → (dlytm ≡ 0 → P (returned e_ok (yield_task (ei k.mie (di k)))))
    → ((i : ℕ)
        → k.current ≡ some i
        → P (waiting (ei k.mie (schedule_timer i (ms_to_ticks dlytm) dly (di k)))))
    → P (tk_dly_tsk dlytm k)
unfolding tk_dly_tsk
tk_dly_tsk_cases P dlytm k refuse yields waits = elim (Option-cases k.current) [
  | inl e ↦ ground arith
  | inr (i, e) ↦ ground (arith, waits i)
]

pub tk_slp_tsk_cases :
    (P : Call Er → Type 0) (tmout : ℤ) (k : Kernel)
    → P (returned e_par k)
    → ((e : Er) → P (returned e (ei k.mie (di k))))
    → ((i : ℕ)
        → k.current ≡ some i
        → 0 < (k.tcbs i).wupcnt
        → P (
            returned e_ok
              (ei k.mie (set_tcb i (record (k.tcbs i) { wupcnt = (k.tcbs i).wupcnt - 1 }) (di k)))))
    → ((i : ℕ)
        → k.current ≡ some i
        → P (waiting (ei k.mie (schedule_timer i (ms_to_ticks (pos_part tmout)) slp (di k)))))
    → ((i : ℕ) → k.current ≡ some i → P (waiting (ei k.mie (wait_forever i slp (di k)))))
    → P (tk_slp_tsk tmout k)
unfolding tk_slp_tsk
tk_slp_tsk_cases P tmout k bad same awake sleeps for_ever = elim (Option-cases k.current) [
  | inl e ↦ ground (arith, same e_ctx)
  | inr (i, e) ↦ ground (arith, same e_ctx, same e_tmout, awake i, sleeps i, for_ever i)
]
