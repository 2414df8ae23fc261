-- ===== src/WaitOrder.antt =====
-- The order of the wait queues: where the calls of kernel/semaphore.c, kernel/event_flag.c and
-- kernel/mailbox.c put a task that begins to wait.
use tsukumo_core.Common.{
  Option-cases, ℤ, pos, insert_before, ℕ, ◌<◌, ◌≡◌, refl, subst, inl, inr, true, none, some, List,
  [], ◌∷◌, ◌++◌, arith,
}
use tsukumo_core.Kernel.{Tcb}
use tsukumo_core.Mailbox.{insert_scan}
use tsukumo_core.Mailbox.Order.{IsOrdered, IsInserted, insert_scan-IsInserted}
use tsukumo_core.Rings.{Rings, init_link, list_add_tail, list_add_before}
use tsukumo_core.Semaphore.{lower_waiter, enter_queue}

-- The priority of a task, as a number that a queue can be ordered by.
abbrev pub task_pri : (ℕ → Tcb) → ℕ → ℤ
task_pri tcbs i = pos (tcbs i).itskpri

-- The search for the place and the insertion there are one scan.
lower_waiter-none :
    (tcbs : ℕ → Tcb) (i : ℕ) (l : List ℕ)
    → lower_waiter tcbs (tcbs i).itskpri l ≡ none
    → l ++ i ∷ [] ≡ insert_scan (task_pri tcbs) i l
unfolding lower_waiter insert_scan
lower_waiter-none tcbs i [] e = refl
lower_waiter-none tcbs i (x ∷ l) e = ground (arith, lower_waiter-none tcbs i l)

lower_waiter-pri :
    (tcbs : ℕ → Tcb) (pri p : ℕ) (l : List ℕ)
    → lower_waiter tcbs pri l ≡ some p
    → pri < (tcbs p).itskpri
unfolding lower_waiter
lower_waiter-pri tcbs pri p [] e = cc
lower_waiter-pri tcbs pri p (x ∷ l) e = ground (arith, lower_waiter-pri tcbs pri p l)

lower_waiter-some :
    (tcbs : ℕ → Tcb) (i p : ℕ) (l : List ℕ)
    → lower_waiter tcbs (tcbs i).itskpri l ≡ some p
    → insert_before p i l ≡ insert_scan (task_pri tcbs) i l
unfolding lower_waiter insert_scan insert_before
lower_waiter-some tcbs i p [] e = cc
lower_waiter-some tcbs i p (x ∷ l) e =
    ground (arith, lower_waiter-some tcbs i p l, lower_waiter-pri tcbs (tcbs i).itskpri p l)

-- A task that enters a wait queue in priority order by priority leaves it in that order and goes
-- behind the tasks of its own priority; those of each other priority stay as they were.
pub enter_queue-IsInserted :
    (q i : ℕ) (tcbs : ℕ → Tcb) (r : Rings)
    → IsOrdered (task_pri tcbs) (r.ring q)
    → IsInserted (task_pri tcbs) i (r.ring q) ((enter_queue true q i tcbs r).ring q)
unfolding enter_queue init_link list_add_tail list_add_before
enter_queue-IsInserted q i tcbs r h =
    elim (Option-cases (lower_waiter tcbs (tcbs i).itskpri (r.ring q))) [
      | inl e ↦ rw e (
          subst (IsInserted (task_pri tcbs) i (r.ring q))
            (ground (arith, lower_waiter-none tcbs i (r.ring q) e))
            (insert_scan-IsInserted (task_pri tcbs) i (r.ring q) h))
      | inr (p, e) ↦ rw e (
          subst (IsInserted (task_pri tcbs) i (r.ring q))
            (ground (arith, lower_waiter-some tcbs i p (r.ring q) e))
            (insert_scan-IsInserted (task_pri tcbs) i (r.ring q) h))
    ]
