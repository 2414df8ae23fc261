-- ===== src/Examples/Calls.antt =====
-- Calls of the kernel with four tasks: the invariant after each.
use tsukumo_core.Common.{pos, erase, ◌≡◌, refl, true, false, none, [], arith}
use tsukumo_core.EventFlag.{init_flgcbs, init_flgcb}
use tsukumo_core.Examples.{some_kernel, some_kernel-Inv, some_kernel-CurrentRuns}
use tsukumo_core.Invariant.Defs.{Inv, Keeps, Leaves}
use tsukumo_core.Invariant.Mailbox.{tk_rcv_mbx-Inv}
use tsukumo_core.Invariant.ObjectCalls.{tk_wai_sem-Inv, tk_sig_sem-Inv}
use tsukumo_core.Invariant.Start.{booted, start_kernel-Inv}
use tsukumo_core.Invariant.Start.Loops.{IsBlank}
use tsukumo_core.Invariant.TaskCalls.{tk_sta_tsk-Inv}
use tsukumo_core.Invariant.Timer.{timer_handler-Inv}
use tsukumo_core.Kernel.{Kernel}
use tsukumo_core.Kernel.Codes.{id_in_range, is_ok}
use tsukumo_core.Mailbox.{init_mbxcbs, init_mbxcb, tk_rcv_mbx}
use tsukumo_core.Rings.{
  alone, init_link, init_head, list_empty, first_entry, del_from, list_del, list_add_tail,
}
use tsukumo_core.Semaphore.{init_semcbs, init_semcb, tk_wai_sem, tk_sig_sem}
use tsukumo_core.Start.{init_kernel, create_and_start, launch, start_kernel}
use tsukumo_core.System.Boot.{is_launched, start_kernel-Sys}
use tsukumo_core.System.Kept.{Sys}
use tsukumo_core.Task.{
  ta_userbuf, TCtsk, reset_tcb, default_tcb, init_tcbs, init_ready, init_tcb, new_task,
  allocate_tcb, check_ctsk, tk_cre_tsk, make_started, tk_sta_tsk,
}
use tsukumo_core.Task.Queue.{first_ready, get_highest_priority_task}
use tsukumo_core.Timer.{init_timer, timer_handler}
use tsukumo_core.Timer.Clock.{start_timer}

tk_wai_sem-Inv_example : Leaves (tk_wai_sem (pos 1) (pos 1) (pos 30) some_kernel)
tk_wai_sem-Inv_example =
    tk_wai_sem-Inv (pos 1) (pos 1) (pos 30) some_kernel some_kernel-Inv some_kernel-CurrentRuns

tk_sig_sem-Inv_example : Keeps (tk_sig_sem (pos 1) (pos 2) some_kernel)
tk_sig_sem-Inv_example = tk_sig_sem-Inv (pos 1) (pos 2) some_kernel some_kernel-Inv

tk_rcv_mbx-Inv_example : Leaves (tk_rcv_mbx (pos 1) true (pos 10) some_kernel)
tk_rcv_mbx-Inv_example =
    tk_rcv_mbx-Inv (pos 1) true (pos 10) some_kernel some_kernel-Inv some_kernel-CurrentRuns

tk_sta_tsk-Inv_example : Keeps (tk_sta_tsk (pos 6) (pos 9) some_kernel)
tk_sta_tsk-Inv_example = tk_sta_tsk-Inv (pos 6) (pos 9) some_kernel some_kernel-Inv

abbrev some_ctsk : TCtsk
some_ctsk = record {
  exinf = 0;
  tskatr = ta_userbuf;
  task = 64;
  itskpri = pos 5;
  stksz = pos 256;
  bufptr = 4096;
}

timer_handler-Inv_example : Inv (timer_handler some_kernel)
timer_handler-Inv_example = timer_handler-Inv some_kernel some_kernel-Inv

-- A kernel before its start.
abbrev some_blank : Kernel
some_blank = record some_kernel {
  heads = record { link = λ i. alone; ring = λ a. [] };
  waits = record { link = λ i. alone; ring = λ a. [] };
  current = none;
  next = none;
  mie = false;
}

some_blank-IsBlank : IsBlank some_blank
some_blank-IsBlank = record {
  stray = λ i ge. (refl, refl);
  head_rings = λ a gt. refl;
  wait_rings = λ a ge. refl;
  wakeups = λ i ge. ground arith;
  units = λ s ge. omega arith;
}

start_kernel-Inv_example : Inv (booted (start_kernel some_ctsk some_ctsk (pos 0) some_blank))
start_kernel-Inv_example =
    start_kernel-Inv some_ctsk some_ctsk (pos 0) some_blank some_blank-IsBlank

some_start-is_launched : is_launched (start_kernel some_ctsk some_ctsk (pos 0) some_blank) ≡ true
unfolding start_kernel init_kernel create_and_start launch start_timer init_mbxcb init_mbxcbs
    init_timer init_semcb init_semcbs init_flgcb init_flgcbs init_tcb init_tcbs init_ready
    default_tcb reset_tcb init_head init_link list_add_tail tk_cre_tsk allocate_tcb new_task
    first_entry tk_sta_tsk id_in_range make_started get_highest_priority_task first_ready list_empty
    list_del del_from erase is_ok check_ctsk
some_start-is_launched = refl

start_kernel-Sys_example : Sys (booted (start_kernel some_ctsk some_ctsk (pos 0) some_blank))
start_kernel-Sys_example =
    start_kernel-Sys some_ctsk some_ctsk (pos 0) some_blank some_blank-IsBlank refl refl
      some_start-is_launched
