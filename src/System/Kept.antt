-- ===== src/System/Kept.antt =====
-- What holds of every state that can be reached, and the parts of an event that keep it.
-- The tables are consistent, the choice of the next task stands, a task is the current one, and
-- the objects on the free lists are unused.
use tsukumo_core.Common.{
  Bool-cases, Option-cases, if_cases, ℕ, ◌-◌, ◌≡◌, refl, sym, ◌∙◌, subst, inl, inr, Bool, true,
  false, ◌&&◌, some, arith,
}
use tsukumo_core.Context.{di, has_current, can_block}
use tsukumo_core.EventFlag.{wai_flg_return}
use tsukumo_core.Invariant.Defs.{Inv}
use tsukumo_core.Invariant.Switch.{IsRunnable, CurrentRuns}
use tsukumo_core.Invariant.Switching.{NextRuns, schedule-Inv}
use tsukumo_core.Invariant.Timer.{timer_handler-Inv, wait_result-Inv}
use tsukumo_core.Kernel.{cfn_max_pri, Kernel, set_waits}
use tsukumo_core.Mailbox.{rcv_mbx_return}
use tsukumo_core.Scheduler.{chosen-IsHighest}
use tsukumo_core.Semaphore.{wai_sem_return}
use tsukumo_core.Start.{schedule, software_interrupt, timer_interrupt}
use tsukumo_core.System.{by_current, goes_on, has_next, entered}
use tsukumo_core.System.Create.{rcv_mbx_return-Inv}
use tsukumo_core.System.Decided.{Decided, same}
use tsukumo_core.System.Decided.Interrupts.{timer_handler-Decided, software_interrupt-Decided}
use tsukumo_core.System.Decided.Mailboxes.{has_current-same}
use tsukumo_core.System.Running.Objects.{timer_handler-current}
use tsukumo_core.System.Unused.{Objects}
use tsukumo_core.System.Unused.Calls.{shrunk, timer_handler-Objects}
use tsukumo_core.System.Unused.Shrinks.{waits-Shrinks, leave_wait-empty}
use tsukumo_core.Task.Queue.{first_ready, get_highest_priority_task}
use tsukumo_core.Task.Wait.{leave_wait}
use tsukumo_core.Timer.{timer_handler, wait_result, dly_tsk_return, slp_tsk_return}

pub record Sys (k : Kernel) : Type 0 where
  pub inv : Inv k
  pub decided : Decided k
  pub running : has_current k ≡ true
  pub objects : Objects k

-- Where a task may block, it runs.
pub CurrentRuns-of :
    (k : Kernel) → Sys k → goes_on k ≡ true → can_block k.mie k ≡ true → CurrentRuns k
unfolding get_highest_priority_task
CurrentRuns-of k s g b i e =
    let m : k.msip ≡ false = ground (arith, g, b) in
    let c : first_ready cfn_max_pri 0 k.heads ≡ some i = s.decided.chosen ∙ rw m e in
    (chosen-IsHighest i k s.inv c).0

-- Where a switch is asked for, the next task can run.
NextRuns-of : (k : Kernel) → Inv k → Decided k → k.msip ≡ true → NextRuns k
unfolding get_highest_priority_task
NextRuns-of k v d m n e =
    let c : first_ready cfn_max_pri 0 k.heads ≡ some n = d.chosen ∙ rw m e in
    (chosen-IsHighest n k v c).0

pub by_current_cases :
    (P : Kernel → Type 0) (f : ℕ → Kernel → Kernel) (k : Kernel)
    → P k
    → ((i : ℕ) → k.current ≡ some i → P (f i k))
    → P (by_current f k)
by_current_cases P f k none_runs some_runs = elim (Option-cases k.current) [
  | inl e ↦ ground arith
  | inr (i, e) ↦ ground (arith, some_runs i)
]

pub software_interrupt-Inv :
    (sp : ℕ) (k : Kernel) → Inv k → Decided k → k.msip ≡ true → Inv (software_interrupt sp k)
unfolding software_interrupt
software_interrupt-Inv sp k v d m =
    schedule-Inv sp (record k { msip = false }) v (NextRuns-of k v d m)

pub software_interrupt-Objects :
    (sp : ℕ) (k : Kernel) → Objects k → Objects (software_interrupt sp k)
unfolding software_interrupt schedule
software_interrupt-Objects sp k o = elim (Option-cases k.current) [
  | inl e ↦ rw e o
  | inr (c, e) ↦ elim (Option-cases k.next) [ inl f ↦ rw e (rw f o) | inr (n, f) ↦ rw e (rw f o) ]
]

-- The timer's interrupt, and the switch that its handler asks for.
pub timer_interrupt-Sys :
    (sp : ℕ) (k : Kernel)
    → Sys k
    → has_next (timer_handler (entered k)) ≡ true
    → Sys (timer_interrupt sp k)
unfolding timer_interrupt
timer_interrupt-Sys sp k s n =
    let h = timer_handler (entered k) in
    let v = timer_handler-Inv (entered k) s.inv in
    let d = timer_handler-Decided (entered k) (record { chosen = s.decided.chosen }) in
    let c = has_current-same k h (timer_handler-current (entered k)) s.running in
    let o = timer_handler-Objects (entered k) s.objects in
    if_cases {A = Kernel} (λ r. Sys (record r { isr_depth = r.isr_depth - 1; mie = k.mie })) h.msip
      (λ m.
        let (d', c') = software_interrupt-Decided h d sp m n c in
        record {
          inv = software_interrupt-Inv sp h v d m;
          decided = record { chosen = d'.chosen };
          running = c';
          objects = software_interrupt-Objects sp h o;
        })
      (λ m. record { inv = v; decided = record { chosen = d.chosen }; running = c; objects = o })

-- A call that leaves the current task the current one.
pub build :
    (k k' : Kernel) → Sys k → Inv k' → Decided k' → k'.current ≡ k.current → Objects k' → Sys k'
build k k' s v d e o = record {
  inv = v;
  decided = d;
  running = has_current-same k k' e s.running;
  objects = o;
}

-- A call that can block: it finds the current task running, or its task may not block.
pub blocking :
    (k k' : Kernel)
    → Sys k
    → goes_on k ≡ true
    → (can_block k.mie (di k) ≡ false → k' ≡ k)
    → (CurrentRuns k → Inv k')
    → Decided k'
    → k'.current ≡ k.current
    → Objects k'
    → Sys k'
blocking k k' s g same v d e o = elim (Bool-cases (can_block k.mie (di k))) [
  | inl b ↦ build k k' s (v (CurrentRuns-of k s g b)) d e o
  | inr b ↦ subst Sys (sym (same b)) s
]

wait_result-Sys : (i : ℕ) (k : Kernel) → Sys k → Sys (wait_result i k).1
unfolding wait_result
wait_result-Sys i k s = record {
  inv = (wait_result-Inv i k s.inv).kept;
  decided = record { chosen = s.decided.chosen };
  running = s.running;
  objects = s.objects;
}

pub rcv_mbx_return-Sys :
    (i : ℕ) (k : Kernel) → Sys k → IsRunnable k.tcbs k.heads k.waits i → Sys (rcv_mbx_return i k).1
unfolding rcv_mbx_return
rcv_mbx_return-Sys i k s r = record {
  inv = (rcv_mbx_return-Inv i k s.inv r).kept;
  decided = record { chosen = s.decided.chosen };
  running = s.running;
  objects =
      shrunk k (set_waits (leave_wait i k.waits) k) s.objects
        (waits-Shrinks k (leave_wait i k.waits) (λ q e. leave_wait-empty i q k.waits e));
}

pub slp_tsk_return-Sys : (i : ℕ) (k : Kernel) → Sys k → Sys (slp_tsk_return i k).1
unfolding slp_tsk_return
slp_tsk_return-Sys i k s = wait_result-Sys i k s

pub dly_tsk_return-Sys : (i : ℕ) (k : Kernel) → Sys k → Sys (dly_tsk_return i k).1
unfolding dly_tsk_return
dly_tsk_return-Sys i k s = wait_result-Sys i k s

pub wai_sem_return-Sys : (i : ℕ) (k : Kernel) → Sys k → Sys (wai_sem_return i k).1
unfolding wai_sem_return
wai_sem_return-Sys i k s = wait_result-Sys i k s

pub wai_flg_return-Sys : (i : ℕ) (k : Kernel) → Sys k → Sys (wai_flg_return i k).1
unfolding wai_flg_return
wai_flg_return-Sys i k s = wait_result-Sys i k s

pub both : (a b : Bool) → (a && b) ≡ true → (a ≡ true) × (b ≡ true)
both true b h = (refl, h)
both false b h = absurd (cc)
