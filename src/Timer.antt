-- ===== src/Timer.antt =====
-- kernel/timer.c: the timer queue, the timer interrupt, and the two waits of time alone.
pub mod Cases
pub mod Bounds
pub mod Clock
pub mod Expiry
pub mod Leaving
pub mod Wakeup
pub mod Wide
use tsukumo_core.Common.{
  ltb, ◌==◌, if◌then◌else◌, ℤ, pos_part, ltb_ℤ, length, update, ℕ, zero, suc, ◌+◌, ◌-◌, ◌%◌, ◌^◌,
  Bool, true, false, not, Option, none, some, List, [], ◌∷◌,
}
use tsukumo_core.Context.{di, ei, can_block}
use tsukumo_core.Kernel.{
  Er, e_ok, e_par, e_ctx, e_tmout, wai, TaskWait, slp, dly, Tcb, timer_queue, Kernel, set_tcb,
  set_heads,
}
use tsukumo_core.Kernel.Codes.{tmo_pol, tmo_fevr, is_pol}
use tsukumo_core.Rings.{init_link, init_head, list_del, list_add_tail}
use tsukumo_core.Task.{yield_task, ended, switch_away}
use tsukumo_core.Task.Queue.{reschedule}
use tsukumo_core.Task.Wait.{complete_wait}
use tsukumo_core.Timer.Clock.{ms_to_ticks, pass_elapsed_periods}

-- What a call that can block does up to the point where its task waits: it returns a value, or
-- its task waits and the code behind the wait runs when the task runs again.
pub data Call {ℓ} (A : Type ℓ) : Type ℓ where
  returned : A → Kernel → Call A
  waiting : Kernel → Call A

-- The kernel as the call leaves it to the next task, or to its caller.
abbrev pub after {ℓ} : {A : Type ℓ} → Call A → Kernel
after (returned a k) = k
after (waiting k) = k

unfoldable pub init_timer : Kernel → Kernel
init_timer k = set_heads (init_head timer_queue k.heads) k

abbrev pub wait_tcb : TaskWait → ℕ → Tcb → Tcb
wait_tcb tskwait ticks t = record t { tskstat = wai; tskwait = tskwait; delay_ticks = ticks }

unfoldable pub schedule_timer : ℕ → ℕ → TaskWait → Kernel → Kernel
schedule_timer i delay_ticks tskwait k =
    let (cmp, periods) = pass_elapsed_periods k.mtime k.s_mtimecmp in
    switch_away (record k {
      tcbs = update k.tcbs i (wait_tcb tskwait ((delay_ticks + periods) % 2 ^ 32) (k.tcbs i));
      heads = list_add_tail i timer_queue (list_del i k.heads);
    })

-- The wait with no time limit, as every waiting call writes it out.
unfoldable pub wait_forever : ℕ → TaskWait → Kernel → Kernel
wait_forever i tskwait k = switch_away (record k {
  tcbs = update k.tcbs i (wait_tcb tskwait 0 (k.tcbs i));
  heads = init_link i (list_del i k.heads);
})

-- The scan of `first_deadline`: the earliest deadline, in queue order for ties.
unfoldable pub scan_deadline : (ℕ → Tcb) → Option ℕ → List ℕ → Option ℕ
scan_deadline tcbs best [] = best
scan_deadline tcbs none (i ∷ rest) = scan_deadline tcbs (some i) rest
scan_deadline tcbs (some b) (i ∷ rest) =
    scan_deadline tcbs (some (if ltb (tcbs i).delay_ticks (tcbs b).delay_ticks then i else b)) rest

unfoldable pub first_deadline : Kernel → Option ℕ
first_deadline k = scan_deadline k.tcbs none (k.heads.ring timer_queue)

-- `tcb->delay_ticks -= step` for each task of the list.
unfoldable pub advance : ℕ → List ℕ → (ℕ → Tcb) → ℕ → Tcb
advance step [] tcbs = tcbs
advance step (i ∷ rest) tcbs = advance step rest (
    update tcbs i
      (record (tcbs i) { delay_ticks = ((tcbs i).delay_ticks + 2 ^ 32 - step) % 2 ^ 32 }))

-- The loop of `tkmc_timer_handler` that ends the waits; with it, whether it ended one.
unfoldable pub expire_loop : ℕ → ℕ → Bool → Kernel → Bool × Kernel
expire_loop zero periods ended k = (ended, k)
expire_loop (suc f) periods ended k = elim (first_deadline k) [
  | none ↦ (ended, k)
  | some i ↦
      let ticks = (k.tcbs i).delay_ticks in
      let step = if ltb ticks periods then ticks else periods in
      let k' = record k { tcbs = advance step (k.heads.ring timer_queue) k.tcbs } in
      let onward = expire_loop f (periods - step) true (complete_wait i e_tmout k') in
      if ltb step ticks then (ended, k') else onward
]

unfoldable pub timer_handler : Kernel → Kernel
timer_handler k =
    let (cmp, periods) = pass_elapsed_periods k.mtime k.s_mtimecmp in
    let k' = record k { s_mtimecmp = cmp; mtimecmp = cmp } in
    let (ended, k'') = expire_loop (suc (length (k.heads.ring timer_queue))) periods false k' in
    if periods == 0 then k else (if ended then reschedule k'' else k'')

-- The code behind a wait: the cause is read and reset.
unfoldable pub wait_result : ℕ → Kernel → Er × Kernel
wait_result i k = ((k.tcbs i).wupcause, set_tcb i (record (k.tcbs i) { wupcause = e_ok }) k)

unfoldable pub delay_result : Er → Er
delay_result e_tmout = e_ok
delay_result e = e

unfoldable pub tk_dly_tsk : ℕ → Kernel → Call Er
tk_dly_tsk dlytm k = elim k.current [
  | none ↦ returned e_ctx (ei k.mie (di k))
  | some i ↦
      if not (can_block k.mie (di k))
      then returned e_ctx (ei k.mie (di k))
      else if dlytm == 0
      then returned e_ok (yield_task (ei k.mie (di k)))
      else waiting (ei k.mie (schedule_timer i (ms_to_ticks dlytm) dly (di k)))
]

-- `tk_dly_tsk` from the end of its wait on, in task `i`.
unfoldable pub dly_tsk_return : ℕ → Kernel → Er × Kernel
dly_tsk_return i k = let (ercd, k') = wait_result i k in (delay_result ercd, k')

unfoldable pub tk_slp_tsk : ℤ → Kernel → Call Er
tk_slp_tsk tmout k = elim k.current [
  | none ↦ if ltb_ℤ tmout tmo_fevr then returned e_par k else returned e_ctx (ei k.mie (di k))
  | some i ↦
      let d = di k in
      let t = k.tcbs i in
      if ltb_ℤ tmout tmo_fevr
      then returned e_par k
      else if not (can_block k.mie d)
      then returned e_ctx (ei k.mie d)
      else if ltb 0 t.wupcnt
      then returned e_ok (ei k.mie (set_tcb i (record t { wupcnt = t.wupcnt - 1 }) d))
      else if ltb_ℤ tmo_pol tmout
      then waiting (ei k.mie (schedule_timer i (ms_to_ticks (pos_part tmout)) slp d))
      else if is_pol tmout
      then returned e_tmout (ei k.mie d)
      else waiting (ei k.mie (wait_forever i slp d))
]

-- `tk_slp_tsk` from the end of its wait on, in task `i`.
unfoldable pub slp_tsk_return : ℕ → Kernel → Er × Kernel
slp_tsk_return i k = wait_result i k
