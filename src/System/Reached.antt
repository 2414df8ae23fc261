-- ===== src/System/Reached.antt =====
-- What holds of every state that can be reached.
-- By induction on the events.
use tsukumo_core.Common.{if◌then◌else◌, subst}
use tsukumo_core.Kernel.{Kernel}
use tsukumo_core.Scheduler.{IsHighest, get_highest_priority_task-IsHighest}
use tsukumo_core.System.{Reach, at_start, then_event}
use tsukumo_core.System.Events.{perform-Sys}
use tsukumo_core.System.Kept.{Sys}
use tsukumo_core.Task.Queue.{get_highest_priority_task}

-- Where the invariant of the tables holds of the first state, its choice of the next task stands,
-- a task is the current one, and each free list of semaphores, event flags and mailboxes names a
-- control block once, below the table's size, with an ID marked as none and an empty wait queue,
-- all this holds of every state that a sequence of the kernel's calls, of the code behind the
-- waits, of changes of the interrupt state, of timer interrupts and of switches (the two with a
-- next task where there is a switch to make) leads to.
pub Reach-Sys : (start k : Kernel) → Sys start → Reach start k → Sys k
Reach-Sys start _ s at_start = s
Reach-Sys start _ s (then_event {k} r e a) = perform-Sys e k (Reach-Sys start k s r) a

-- In every state that can be reached so, the current task, or the next one while a switch is
-- pending, can run, is the head of the ready queue of its priority, and no task that can run has a
-- higher priority; it is none only if no task can run.
pub Reach-IsHighest :
    (start k : Kernel)
    → Sys start
    → Reach start k
    → IsHighest k (if k.msip then k.next else k.current)
unfolding get_highest_priority_task
Reach-IsHighest start k s r =
    let t = Reach-Sys start k s r in
    subst (IsHighest k) t.decided.chosen (get_highest_priority_task-IsHighest k t.inv)
