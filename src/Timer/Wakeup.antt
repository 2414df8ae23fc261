-- ===== src/Timer/Wakeup.antt =====
-- Queued wakeups: tk_wup_tsk of kernel/task.c, called in an interrupt handler, and tk_slp_tsk of
-- kernel/timer.c.
use tsukumo_core.Common.{
  leb, if◌then◌else◌, ℤ, pos, ltb_ℤ, update, ℕ, ◌+◌, ◌-◌, ◌<◌, fun_ext, ◌≡◌, ap, ◌∙◌, Bool, true,
  false, ◌||◌, some, arith,
}
use tsukumo_core.Context.{di, ei, in_isr, can_block}
use tsukumo_core.Invariant.Defs.{Inv}
use tsukumo_core.Invariant.Switch.{IsRunnable, CurrentRuns}
use tsukumo_core.Kernel.{cfn_max_tskid, tk_wakeup_maxcnt, Er, e_ok, Tcb, Kernel, set_tcb}
use tsukumo_core.Kernel.Codes.{id_in_range, is_run, is_rdy, tmo_fevr}
use tsukumo_core.System.{enter_isr, exit_isr, perform}
use tsukumo_core.Task.{queue_wakeup, wup_by_state, tk_wup_tsk}
use tsukumo_core.Timer.{returned, tk_slp_tsk}

-- A sleep with a wakeup queued takes one wakeup off and returns at once.
slept :
    (i : ℕ) (tmout : ℤ) (k : Kernel)
    → k.current ≡ some i
    → can_block k.mie k ≡ true
    → 0 < (k.tcbs i).wupcnt
    → ltb_ℤ tmout tmo_fevr ≡ false
    → tk_slp_tsk tmout k
      ≡ returned e_ok
          (ei k.mie (set_tcb i (record (k.tcbs i) { wupcnt = (k.tcbs i).wupcnt - 1 }) (di k)))
unfolding tk_slp_tsk
slept i tmout k cur may pending valid =
    rw (cur, tk_slp_tsk) (ground (arith, cur, may, pending, valid))

-- The count that was raised and lowered.
taken :
    (i : ℕ) (k : Kernel)
    → can_block k.mie k ≡ true
    → let k' = set_tcb i (record (k.tcbs i) { wupcnt = (k.tcbs i).wupcnt + 1 }) k in
      ei k.mie (set_tcb i (record (k'.tcbs i) { wupcnt = (k'.tcbs i).wupcnt - 1 }) (di k')) ≡ k
taken i k may =
    let k' = set_tcb i (record (k.tcbs i) { wupcnt = (k.tcbs i).wupcnt + 1 }) k in
    let restored : update k'.tcbs i (record (k'.tcbs i) { wupcnt = (k'.tcbs i).wupcnt - 1 })
        ≡ k.tcbs =
      fun_ext λ j. ground arith in
    let enabled : (if k.mie then true else false) ≡ k.mie = ground (arith, may) in
    ap (λ (f : ℕ → Tcb). record k { tcbs = f; mie = if k.mie then true else false }) restored
    ∙ ap (λ (m : Bool). record k { mie = m }) enabled

-- A task that can run is ready or running.
runnable_state :
    (i : ℕ) (k : Kernel)
    → Inv k
    → IsRunnable k.tcbs k.heads k.waits i
    → (is_rdy (k.tcbs i).tskstat || is_run (k.tcbs i).tskstat) ≡ true
runnable_state i k v r =
    ground (arith, v.placed i r.in_table, r.in_table, r.ready.queued, r.ready.priority)

-- A wakeup for a task that can run, in a handler, is queued.
queued :
    (i : ℕ) (k : Kernel)
    → i < cfn_max_tskid
    → (is_rdy (k.tcbs i).tskstat || is_run (k.tcbs i).tskstat) ≡ true
    → in_isr k ≡ true
    → (k.tcbs i).wupcnt < tk_wakeup_maxcnt
    → wup_by_state i (di k)
      ≡ (e_ok, set_tcb i (record (k.tcbs i) { wupcnt = (k.tcbs i).wupcnt + 1 }) (di k))
unfolding wup_by_state queue_wakeup
queued i k lt able isr room = ground (arith, able, isr, room)

woken :
    (i : ℕ) (k : Kernel)
    → i < cfn_max_tskid
    → (is_rdy (k.tcbs i).tskstat || is_run (k.tcbs i).tskstat) ≡ true
    → in_isr k ≡ true
    → (k.tcbs i).wupcnt < tk_wakeup_maxcnt
    → tk_wup_tsk (pos (i + 1)) k
      ≡ (e_ok, ei k.mie (set_tcb i (record (k.tcbs i) { wupcnt = (k.tcbs i).wupcnt + 1 }) (di k)))
unfolding tk_wup_tsk id_in_range
woken i k lt able isr room =
    let same : i + 1 - 1 ≡ i = omega arith in
    let q = queued i k lt able isr room in
    let one : leb 1 (i + 1) ≡ true = ground arith in
    let top : leb (i + 1) cfn_max_tskid ≡ true = ground (arith, lt) in
    rw same (rw q (ground (arith, one, top)))

-- The handler has been left with a wakeup queued.
left :
    (i : ℕ) (k : Kernel)
    → can_block k.mie k ≡ true
    → let t = record (k.tcbs i) { wupcnt = (k.tcbs i).wupcnt + 1 } in
      let h = perform enter_isr k in
      perform exit_isr (ei h.mie (set_tcb i t (di h))) ≡ set_tcb i t k
unfolding perform
left i k may =
    let m : true ≡ k.mie = ground (arith, may) in
    let d : k.isr_depth + 1 - 1 ≡ k.isr_depth = omega arith in
    let t = record (k.tcbs i) { wupcnt = (k.tcbs i).wupcnt + 1 } in
    ap (λ (b : Bool). record (set_tcb i t k) { mie = b; isr_depth = k.isr_depth + 1 - 1 }) m
    ∙ ap (λ (n : ℕ). record (set_tcb i t k) { isr_depth = n }) d

-- Where the invariant holds, the current task can run and may block, and its wakeup count is below
-- the maximum: a tk_wup_tsk for it from an interrupt handler returns E_OK, and once the handler
-- has ended, a tk_slp_tsk with a time-out of at least TMO_FEVR takes that wakeup, returns E_OK at
-- once and leaves the kernel as it was before the interrupt.
pub tk_wup_tsk-tk_slp_tsk :
    (i : ℕ) (tmout : ℤ) (k : Kernel)
    → Inv k
    → CurrentRuns k
    → k.current ≡ some i
    → can_block k.mie k ≡ true
    → (k.tcbs i).wupcnt < tk_wakeup_maxcnt
    → ltb_ℤ tmout tmo_fevr ≡ false
    → let r = tk_wup_tsk (pos (i + 1)) (perform enter_isr k) in
      (r.0 ≡ e_ok) × (tk_slp_tsk tmout (perform exit_isr r.1) ≡ returned e_ok k)
unfolding perform
tk_wup_tsk-tk_slp_tsk i tmout k v runs cur may room valid =
    let h = perform enter_isr k in
    let r = runs i cur in
    let w = woken i h r.in_table (runnable_state i k v r) (ground arith) room in
    let k' = set_tcb i (record (k.tcbs i) { wupcnt = (k.tcbs i).wupcnt + 1 }) k in
    let back : perform exit_isr (tk_wup_tsk (pos (i + 1)) h).1 ≡ k' =
      ap (λ (p : Er × Kernel). perform exit_isr p.1) w ∙ left i k may in
    (
      ap (λ (p : Er × Kernel). p.0) w,
      ap (tk_slp_tsk tmout) back
          ∙ slept i tmout k' cur may (ground arith) valid
          ∙ ap (returned e_ok) (taken i k may),
    )
