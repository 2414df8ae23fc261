-- ===== src/Examples/Runs.antt =====
-- A run of the kernel with four tasks.
use tsukumo_core.Common.{if◌then◌else◌, pos, negsuc, erase, count-nil, ℕ, refl, [], arith}
use tsukumo_core.Examples.{some_kernel, some_kernel-Inv}
use tsukumo_core.Kernel.{
  cfn_max_semid, cfn_max_flgid, cfn_max_mbxid, sem_queue, flg_queue, mbx_queue_of, Kernel,
}
use tsukumo_core.Kernel.Codes.{id_in_range}
use tsukumo_core.Rings.{
  Rings, init_link, is_alone, link_empty, list_empty, first_entry, del_from, list_del,
  list_add_tail,
}
use tsukumo_core.Scheduler.{IsHighest}
use tsukumo_core.Semaphore.{tk_sig_sem}
use tsukumo_core.System.{slp_tsk, sig_sem, switch, perform, allowed, Reach, at_start, then_event}
use tsukumo_core.System.Kept.{Sys}
use tsukumo_core.System.Reached.{Reach-Sys, Reach-IsHighest}
use tsukumo_core.System.Unused.{Unused, sem_ids, flg_ids, mbx_ids, Objects}
use tsukumo_core.Task.{switch_away}
use tsukumo_core.Task.Queue.{first_ready, get_highest_priority_task, reschedule}
use tsukumo_core.Task.Wait.{end_wait, serve_loop, sem_serve_waiters}
use tsukumo_core.Timer.{wait_forever, tk_slp_tsk}

-- No object is free.
none-Unused : (n : ℕ) (ids queue : ℕ → ℕ) (r : Rings) → Unused n ids queue [] r
none-Unused n ids queue r = record {
  in_table = λ s h. absurd (omega (arith, h, count-nil s));
  once = λ s. omega (arith, count-nil s);
  gone = λ s h. absurd (omega (arith, h, count-nil s));
  empty = λ s h. absurd (omega (arith, h, count-nil s));
}

some_kernel-Objects : Objects some_kernel
some_kernel-Objects = (
  none-Unused cfn_max_semid (sem_ids some_kernel) sem_queue some_kernel.waits,
  none-Unused cfn_max_flgid (flg_ids some_kernel) flg_queue some_kernel.waits,
  none-Unused cfn_max_mbxid (mbx_ids some_kernel) mbx_queue_of some_kernel.waits,
)

some_kernel-Sys : Sys some_kernel
unfolding first_ready list_empty first_entry
some_kernel-Sys = record {
  inv = some_kernel-Inv;
  decided = record { chosen = refl };
  running = refl;
  objects = some_kernel-Objects;
}

-- Two units are given to the task that waits for them; the running task sleeps, and the switch
-- goes to the other.
abbrev some_given : Kernel
some_given = perform (sig_sem (pos 1) (pos 2)) some_kernel

abbrev some_asleep : Kernel
some_asleep = perform (slp_tsk (negsuc 0)) some_given

some_run : Reach some_kernel (perform (switch 512) some_asleep)
unfolding perform allowed tk_sig_sem id_in_range sem_serve_waiters serve_loop end_wait reschedule
    link_empty is_alone tk_slp_tsk wait_forever switch_away get_highest_priority_task first_ready
    list_empty first_entry init_link list_del del_from erase list_add_tail
some_run =
    then_event
      (then_event (then_event at_start (sig_sem (pos 1) (pos 2)) refl) (slp_tsk (negsuc 0)) refl)
      (switch 512) refl

Reach-Sys_example : Sys (perform (switch 512) some_asleep)
Reach-Sys_example =
    Reach-Sys some_kernel (perform (switch 512) some_asleep) some_kernel-Sys some_run

Reach-IsHighest_example : IsHighest (perform (switch 512) some_asleep) (
    if (perform (switch 512) some_asleep).msip
    then (perform (switch 512) some_asleep).next
    else (perform (switch 512) some_asleep).current)
Reach-IsHighest_example =
    Reach-IsHighest some_kernel (perform (switch 512) some_asleep) some_kernel-Sys some_run
