-- ===== src/Invariant/Timer.antt =====
-- The invariant, and the timer interrupt and the waits of time alone in kernel/timer.c.
use tsukumo_core.Common.{
  ltb, if◌then◌else◌, Option-cases, if_cases, ℤ, pos_part, length, update, ℕ, zero, suc, ◌+◌, ◌-◌,
  ◌%◌, ◌^◌, ◌<◌, ◌≡◌, refl, ◌∙◌, inl, inr, Bool, true, false, Option, none, some, List, [], ◌∷◌,
  arith,
}
use tsukumo_core.Context.{di, ei}
use tsukumo_core.Invariant.Create.{yield_task-Inv}
use tsukumo_core.Invariant.Defs.{Awaits, Inv, Keeps, Leaves}
use tsukumo_core.Invariant.Retask.{edit-Inv}
use tsukumo_core.Invariant.Switch.{
  reschedule-Inv, IsRunnable, CurrentRuns, IsParked-alone, IsParked-timer, park-Inv,
}
use tsukumo_core.Invariant.Wait.{Queued, Queued-heads, complete_wait-Inv}
use tsukumo_core.Kernel.{
  cfn_max_tskid, e_tmout, wai, TaskWait, slp, dly, Tcb, timer_queue, Kernel, set_tcb,
}
use tsukumo_core.Rings.{alone, on, Rings}
use tsukumo_core.Task.{ended, switch_away}
use tsukumo_core.Task.Wait.{complete_wait}
use tsukumo_core.Timer.{
  schedule_timer, wait_forever, scan_deadline, first_deadline, advance, expire_loop, timer_handler,
  wait_result, tk_dly_tsk, tk_slp_tsk,
}
use tsukumo_core.Timer.Cases.{
  compared, elapsed, expired, timer_handler_cases, tk_dly_tsk_cases, tk_slp_tsk_cases,
}
use tsukumo_core.Timer.Clock.{ms_to_ticks}

pub advance-Inv :
    (step : ℕ) (l : List ℕ) (k : Kernel) → Inv k → Inv (record k { tcbs = advance step l k.tcbs })
unfolding advance
advance-Inv step [] k v = v
advance-Inv step (i ∷ l) k v =
    let t = record (k.tcbs i) { delay_ticks = ((k.tcbs i).delay_ticks + 2 ^ 32 - step) % 2 ^ 32 } in
    advance-Inv step l (set_tcb i t k) (
      edit-Inv i k t v (record {
        tskid = refl;
        itskpri = refl;
        tskstat = refl;
        tskwait = refl;
        winfo = refl;
        wakeup = v.wakeups i;
      }))

-- Counting down changes no task's state.
pub advance-tskstat :
    (step : ℕ) (l : List ℕ) (tcbs : ℕ → Tcb) (j : ℕ)
    → (advance step l tcbs j).tskstat ≡ (tcbs j).tskstat
unfolding advance
advance-tskstat step [] tcbs j = refl
advance-tskstat step (i ∷ l) tcbs j =
    advance-tskstat step l
      (update tcbs i
        (record (tcbs i) { delay_ticks = ((tcbs i).delay_ticks + 2 ^ 32 - step) % 2 ^ 32 }))
      j
    ∙ ground arith

scan_deadline-Queued :
    (q : ℕ) (r : Rings) (tcbs : ℕ → Tcb) (best : Option ℕ) (l : List ℕ) (i : ℕ)
    → Queued q r l
    → ((b : ℕ) → best ≡ some b → (b < cfn_max_tskid) × (r.link b ≡ on q))
    → scan_deadline tcbs best l ≡ some i
    → (i < cfn_max_tskid) × (r.link i ≡ on q)
unfolding scan_deadline
scan_deadline-Queued q r tcbs best [] i m h e = h i e
scan_deadline-Queued q r tcbs none (j ∷ l) i m h e =
    scan_deadline-Queued q r tcbs (some j) l i m.3 (λ b eb. ground (arith, m)) e
scan_deadline-Queued q r tcbs (some b) (j ∷ l) i m h e =
    scan_deadline-Queued q r tcbs
      (some (if ltb (tcbs j).delay_ticks (tcbs b).delay_ticks then j else b)) l i m.3
      (λ c ec. ground (arith, m, h b)) e

-- The task of the first deadline waits.
pub first_deadline-waits :
    (i : ℕ) (k : Kernel)
    → Inv k
    → first_deadline k ≡ some i
    → (i < cfn_max_tskid) × (k.heads.link i ≡ on timer_queue) × ((k.tcbs i).tskstat ≡ wai)
unfolding first_deadline
first_deadline-waits i k v e =
    let (lt, here) =
      scan_deadline-Queued timer_queue k.heads k.tcbs none (k.heads.ring timer_queue) i
        (Queued-heads timer_queue k v) (λ b eb. cc) e in
    (lt, here, ground (arith, v.placed i lt))

expire_loop-Inv :
    (f periods : ℕ) (ended : Bool) (k : Kernel) → Inv k → Keeps (expire_loop f periods ended k)
unfolding expire_loop
expire_loop-Inv zero periods ended k v = record { kept = v }
expire_loop-Inv (suc f) periods ended k v = elim (Option-cases (first_deadline k)) [
  | inl e ↦ rw (e, expire_loop) (record { kept = v })
  | inr (i, e) ↦
      let ticks = (k.tcbs i).delay_ticks in
      let step = if ltb ticks periods then ticks else periods in
      let k' = record k { tcbs = advance step (k.heads.ring timer_queue) k.tcbs } in
      let v' = advance-Inv step (k.heads.ring timer_queue) k v in
      let (lt, _, w) = first_deadline-waits i k v e in
      let w' = advance-tskstat step (k.heads.ring timer_queue) k.tcbs i ∙ w in
      rw (e, expire_loop)
        (if_cases Keeps (ltb step ticks) (λ _. record { kept = v' })
          (λ _.
            expire_loop-Inv f (periods - step) true (complete_wait i e_tmout k')
              (complete_wait-Inv i e_tmout k' v' lt w')))
]

-- Where the invariant holds, it holds after tkmc_timer_handler.
pub timer_handler-Inv : (k : Kernel) → Inv k → Inv (timer_handler k)
timer_handler-Inv k v =
    let fuel = suc (length (k.heads.ring timer_queue)) in
    let v' = (expire_loop-Inv fuel (elapsed k) false (compared k) v).kept in
    timer_handler_cases Inv k (λ _. v) (λ _ _. reschedule-Inv (expired k).1 v') (λ _ _. v')

-- The two waits of time alone, by the running task.
module _ (i : ℕ) (k : Kernel) (v : Inv k) (r : IsRunnable k.tcbs k.heads k.waits i)
    (tskwait : TaskWait) (awaits : Awaits tskwait (k.tcbs i).winfo alone) where
  delay-Inv : (ticks : ℕ) → Inv (schedule_timer i ticks tskwait k)
  unfolding schedule_timer switch_away
  delay-Inv ticks =
      park-Inv i k _ _ k.waits v r (IsParked-timer i k.heads v.heads_linked) v.waits_linked
        (λ j ne. refl) (rw r.ready.free awaits) refl (refl, refl, refl)

  sleep-Inv : Inv (wait_forever i tskwait k)
  unfolding wait_forever switch_away
  sleep-Inv =
      park-Inv i k _ _ k.waits v r (IsParked-alone i k.heads v.heads_linked) v.waits_linked
        (λ j ne. refl) (rw r.ready.free awaits) refl (refl, refl, refl)

-- Where the invariant holds and the current task runs, tk_dly_tsk keeps the invariant, whether it
-- returns or its task waits.
pub tk_dly_tsk-Inv : (dlytm : ℕ) (k : Kernel) → Inv k → CurrentRuns k → Leaves (tk_dly_tsk dlytm k)
tk_dly_tsk-Inv dlytm k v r =
    tk_dly_tsk_cases Leaves dlytm k (record { kept = v })
      (λ _. record { kept = yield_task-Inv (ei k.mie (di k)) v r })
      (λ i e. record { kept = delay-Inv i (di k) v (r i e) dly refl (ms_to_ticks dlytm) })

-- Where the invariant holds and the current task runs, tk_slp_tsk keeps the invariant, whether it
-- returns or its task waits.
pub tk_slp_tsk-Inv : (tmout : ℤ) (k : Kernel) → Inv k → CurrentRuns k → Leaves (tk_slp_tsk tmout k)
tk_slp_tsk-Inv tmout k v r =
    tk_slp_tsk_cases Leaves tmout k (record { kept = v }) (λ e. record { kept = v })
      (λ i e pos_wup. record {
        kept = edit-Inv i (di k) _ v (record {
          tskid = refl;
          itskpri = refl;
          tskstat = refl;
          tskwait = refl;
          winfo = refl;
          wakeup = omega (arith, v.wakeups i);
        });
      })
      (λ i e. record {
        kept = delay-Inv i (di k) v (r i e) slp refl (ms_to_ticks (pos_part tmout));
      })
      (λ i e. record { kept = sleep-Inv i (di k) v (r i e) slp refl })

-- The code behind a wait changes no more than the task's wake-up cause.
pub wait_result-Inv : (i : ℕ) (k : Kernel) → Inv k → Keeps (wait_result i k)
unfolding wait_result
wait_result-Inv i k v = record {
  kept = edit-Inv i k _ v (record {
    tskid = refl;
    itskpri = refl;
    tskstat = refl;
    tskwait = refl;
    winfo = refl;
    wakeup = v.wakeups i;
  });
}
