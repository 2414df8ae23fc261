-- ===== src/System/Decided.antt =====
-- The choice of the next task and the request for a switch, and what keeps them together.
pub mod Tasks
pub mod Objects
pub mod Mailboxes
pub mod Creations
pub mod Interrupts
use tsukumo_core.Common.{
  if◌then◌else◌, Bool-cases, if_cases, ℤ, ltb_ℤ, is_empty, ℕ, zero, suc, ◌+◌, ◌≤◌, ◌<◌, ◌≡◌, refl,
  ap, inl, inr, Bool, true, not, Option, none, some, List, [], ◌∷◌, arith,
}
use tsukumo_core.Context.{di, ei}
use tsukumo_core.Kernel.{cfn_max_pri, TaskWait, Kernel}
use tsukumo_core.Kernel.Codes.{same_task, tmo_pol}
use tsukumo_core.Rings.{Rings, list_empty, first_entry}
use tsukumo_core.Semaphore.{begin_wait}
use tsukumo_core.System.Frame.{Quiet}
use tsukumo_core.Task.{Ending, ended, switch_away}
use tsukumo_core.Task.Queue.{first_ready, get_highest_priority_task, reschedule}
use tsukumo_core.Timer.{Call, after, schedule_timer, wait_forever}

-- The task that is chosen is the next one where a switch is asked for, and else the current one.

pub record Decided (k : Kernel) : Type 0 where
  pub chosen : first_ready cfn_max_pri 0 k.heads ≡ (if k.msip then k.next else k.current)

same_task-eq : (a b : Option ℕ) → same_task a b ≡ true → a ≡ b
same_task-eq none none h = refl
same_task-eq none (some j) h = cc
same_task-eq (some i) none h = cc
same_task-eq (some i) (some j) h = ap some (ground arith)

pub reschedule-Decided : (k : Kernel) → Decided (reschedule k)
unfolding reschedule get_highest_priority_task
reschedule-Decided k =
    let top = first_ready cfn_max_pri 0 k.heads in
    if_cases {A = Kernel} Decided (not (same_task top k.current)) (λ _. record { chosen = refl })
      (λ t. record {
        chosen = elim (Bool-cases k.msip) [
          | inl e ↦ rw e refl
          | inr e ↦ rw e (same_task-eq (first_ready cfn_max_pri 0 k.heads) k.current (ground arith))
        ];
      })

pub switch_away-Decided : (k : Kernel) → Decided (switch_away k)
unfolding switch_away get_highest_priority_task
switch_away-Decided k = record { chosen = refl }

-- The interrupt state has no part in it.
pub ei-Decided : (b : Bool) (k : Kernel) → Decided k → Decided (ei b k)
ei-Decided b k d = record { chosen = d.chosen }

pub Quiet-Decided : (k k' : Kernel) → Quiet k k' → Decided k → Decided k'
Quiet-Decided k k' q d = record {
  chosen = rw (q.heads_same, q.frame.current_same, q.frame.next_same, q.frame.msip_same) d.chosen;
}

-- The ready queues are those of another kernel.
pub first_ready-same :
    (n a : ℕ) (r s : Rings)
    → ((q : ℕ) → a ≤ q → q < a + n → s.ring q ≡ r.ring q)
    → first_ready n a s ≡ first_ready n a r
unfolding first_ready list_empty first_entry
first_ready-same zero a r s h = refl
first_ready-same (suc n) a r s h =
    let rest = first_ready-same n (suc a) r s (λ q lo hi. h q (omega arith) (omega arith)) in
    rw (h a (omega arith) (omega arith), rest) refl

pub nil_of_empty : (l : List ℕ) → is_empty l ≡ true → l ≡ []
nil_of_empty [] e = refl
nil_of_empty (x ∷ l) e = cc

-- The decision after a call.
pub record Decides {A : Type 0} (r : A × Kernel) : Type 0 where
  pub after_it : Decided r.1

pub record DecidesCall {A : Type 0} (c : Call A) : Type 0 where
  pub after_it : Decided (after c)

pub record DecidesEnding (e : Ending) : Type 0 where
  pub after_it : Decided (ended e)

-- The waits end with the choice of the next task.
pub begin_wait-Decided :
    (tmout : ℤ) (tskwait : TaskWait) (i : ℕ) (r : Kernel) → Decided (begin_wait tmout tskwait i r)
unfolding begin_wait schedule_timer wait_forever
begin_wait-Decided tmout tskwait i r =
    if_cases Decided (ltb_ℤ tmo_pol tmout) (λ _. switch_away-Decided _) (λ _. switch_away-Decided _)

module _ (k : Kernel) (d : Decided k) where
  -- A call that returns before it has changed the tables.
  pub same : Decided (ei k.mie (di k))
  same = record { chosen = d.chosen }

  pub resched : (r : Kernel) → Decided (ei k.mie (reschedule r))
  resched r = ei-Decided k.mie (reschedule r) (reschedule-Decided r)
