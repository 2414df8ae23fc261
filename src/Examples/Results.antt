-- ===== src/Examples/Results.antt =====
-- Results of the calls on the kernel with four tasks, and of the helpers on small inputs.
use tsukumo_core.Common.{
  pos, negsuc, ℕ, ◌+◌, ◌*◌, ◌^◌, ◌≤◌, ◌<◌, ◌≡◌, refl, ◌≢◌, ◌⊎◌, true, some, [], ◌∷◌, arith,
}
use tsukumo_core.EventFlag.{tk_set_flg}
use tsukumo_core.EventFlag.Release.{Unmet, tk_set_flg-Unmet}
use tsukumo_core.Examples.{
  some_tcbs, some_waits, some_kernel, some_kernel-Inv, some_kernel-CurrentRuns,
}
use tsukumo_core.Invariant.Drain.{release_all-drains, release_receivers-drains}
use tsukumo_core.Kernel.{e_ok, e_tmout, timer_queue, mbx_queue_of}
use tsukumo_core.Kernel.Codes.{id_in_range, is_tmout}
use tsukumo_core.Mailbox.{insert_scan, insert_msg_pri, release_receivers, tk_snd_mbx}
use tsukumo_core.Mailbox.Order.{
  IsOrdered, insert_msg_pri-insert_scan, IsInserted, insert_msg_pri-IsInserted,
}
use tsukumo_core.Refusals.{
  tk_sig_sem-refused, tk_snd_mbx-refused, tk_sta_tsk-refused, tk_rel_wai-refused,
  tk_wup_tsk-refused,
}
use tsukumo_core.Rings.{on}
use tsukumo_core.Scheduler.{IsHighest, get_highest_priority_task-IsHighest}
use tsukumo_core.Semaphore.{enter_queue, tk_sig_sem, release_all}
use tsukumo_core.Semaphore.Wakeup.{
  NoneServable, Signalled, tk_sig_sem-Signalled, complete_wait-NoneServable,
}
use tsukumo_core.System.{enter_isr, exit_isr, perform}
use tsukumo_core.Task.{tk_sta_tsk, tk_rel_wai, wup_by_state, tk_wup_tsk}
use tsukumo_core.Task.Queue.{get_highest_priority_task}
use tsukumo_core.Task.Wait.{end_wait, hands_on, complete_wait}
use tsukumo_core.Timer.{
  returned, scan_deadline, first_deadline, advance, expire_loop, timer_handler, tk_slp_tsk,
}
use tsukumo_core.Timer.Bounds.{ms_to_ticks-bounds, IsCaughtUp, pass_elapsed_periods-IsCaughtUp}
use tsukumo_core.Timer.Cases.{elapsed}
use tsukumo_core.Timer.Clock.{ms_to_ticks, pass_loop, pass_elapsed_periods}
use tsukumo_core.Timer.Expiry.{CountedDown, timer_handler-CountedDown}
use tsukumo_core.Timer.Wakeup.{tk_wup_tsk-tk_slp_tsk}
use tsukumo_core.Timer.Wide.{read_mtime, write_mtimecmp, read_mtime-IsRead, write_mtimecmp-IsLate}
use tsukumo_core.WaitOrder.{task_pri, enter_queue-IsInserted}

get_highest_priority_task-IsHighest_example :
    IsHighest some_kernel (get_highest_priority_task some_kernel)
get_highest_priority_task-IsHighest_example =
    get_highest_priority_task-IsHighest some_kernel some_kernel-Inv

some_signal : (tk_sig_sem (pos 1) (pos 3) some_kernel).0 ≡ e_ok
unfolding tk_sig_sem id_in_range
some_signal = refl

tk_sig_sem-Signalled_example : Signalled 0 3 some_kernel (tk_sig_sem (pos 1) (pos 3) some_kernel).1
tk_sig_sem-Signalled_example =
    tk_sig_sem-Signalled (pos 1) (pos 3) some_kernel some_kernel-Inv some_signal

some_hand_on : hands_on (some_kernel.tcbs 1).tskwait e_tmout ≡ true
unfolding is_tmout
some_hand_on = refl

complete_wait-NoneServable_example : NoneServable 0 (complete_wait 1 e_tmout some_kernel)
complete_wait-NoneServable_example =
    complete_wait-NoneServable 1 e_tmout some_kernel some_kernel-Inv (omega arith) refl some_hand_on

some_set : (tk_set_flg (pos 1) 1 some_kernel).0 ≡ e_ok
unfolding tk_set_flg id_in_range
some_set = refl

tk_set_flg-Unmet_example : Unmet 0 (tk_set_flg (pos 1) 1 some_kernel).1 2
tk_set_flg-Unmet_example = tk_set_flg-Unmet (pos 1) 1 some_kernel some_kernel-Inv some_set 2

some_short : (j : ℕ) → (some_kernel.tcbs j).delay_ticks < 2 ^ 32
some_short j = ground arith

some_elapsed : 0 < elapsed some_kernel
unfolding pass_elapsed_periods pass_loop
some_elapsed = omega arith

some_on_timer : (timer_handler some_kernel).heads.link 1 ≡ on timer_queue
unfolding timer_handler pass_elapsed_periods pass_loop expire_loop first_deadline scan_deadline
    advance complete_wait end_wait
some_on_timer = refl

timer_handler-CountedDown_example :
    CountedDown (elapsed some_kernel) some_kernel (timer_handler some_kernel) 1
timer_handler-CountedDown_example =
    timer_handler-CountedDown some_kernel some_kernel-Inv some_short some_elapsed 1 some_on_timer

release_all-drains_example : (release_all 1 0 some_kernel).waits.ring 0 ≡ []
release_all-drains_example = release_all-drains 1 0 some_kernel some_kernel-Inv (omega arith)

release_receivers-drains_example :
    (release_receivers 2 0 some_kernel).waits.ring (mbx_queue_of 0) ≡ []
release_receivers-drains_example =
    release_receivers-drains 2 0 some_kernel some_kernel-Inv (omega arith) (omega arith)

ms_to_ticks-bounds_example :
    (25 + 10 ≤ 10 * ms_to_ticks 25) × (10 * ms_to_ticks 25 < 25 + 20) × (ms_to_ticks 25 < 2 ^ 31)
ms_to_ticks-bounds_example = ms_to_ticks-bounds 25 (omega arith)

pass_elapsed_periods-IsCaughtUp_example :
    IsCaughtUp 250000 100000 (pass_elapsed_periods 250000 100000)
pass_elapsed_periods-IsCaughtUp_example =
    pass_elapsed_periods-IsCaughtUp 250000 100000 (omega arith) (omega arith) (omega arith)

-- Messages 1, 2 and 3 with their addresses for priorities.
some_messages-IsOrdered : IsOrdered pos (1 ∷ 3 ∷ [])
some_messages-IsOrdered = ((refl, tt), (tt, tt))

insert_msg_pri-insert_scan_example :
    insert_msg_pri pos 2 (1 ∷ 3 ∷ []) ≡ insert_scan pos 2 (1 ∷ 3 ∷ [])
insert_msg_pri-insert_scan_example =
    insert_msg_pri-insert_scan pos 2 (1 ∷ 3 ∷ []) some_messages-IsOrdered

insert_msg_pri-IsInserted_example :
    IsInserted pos 2 (1 ∷ 3 ∷ []) (insert_msg_pri pos 2 (1 ∷ 3 ∷ []))
insert_msg_pri-IsInserted_example =
    insert_msg_pri-IsInserted pos 2 (1 ∷ 3 ∷ []) some_messages-IsOrdered

enter_queue-IsInserted_example :
    IsInserted (task_pri some_tcbs) 0 (1 ∷ []) ((enter_queue true 0 0 some_tcbs some_waits).ring 0)
enter_queue-IsInserted_example = enter_queue-IsInserted 0 0 some_tcbs some_waits (tt, tt)

some_overflow : (tk_sig_sem (pos 1) (pos 6) some_kernel).0 ≢ e_ok
unfolding tk_sig_sem id_in_range
some_overflow e = cc

tk_sig_sem-refused_example : (tk_sig_sem (pos 1) (pos 6) some_kernel).1 ≡ some_kernel
tk_sig_sem-refused_example = tk_sig_sem-refused (pos 1) (pos 6) some_kernel some_overflow

some_null : (tk_snd_mbx (pos 1) 0 some_kernel).0 ≢ e_ok
unfolding tk_snd_mbx id_in_range
some_null e = cc

tk_snd_mbx-refused_example : (tk_snd_mbx (pos 1) 0 some_kernel).1 ≡ some_kernel
tk_snd_mbx-refused_example = tk_snd_mbx-refused (pos 1) 0 some_kernel some_null

some_dormant : (tk_wup_tsk (pos 9) some_kernel).0 ≢ e_ok
unfolding tk_wup_tsk id_in_range wup_by_state
some_dormant e = cc

tk_wup_tsk-refused_example : (tk_wup_tsk (pos 9) some_kernel).1 ≡ some_kernel
tk_wup_tsk-refused_example = tk_wup_tsk-refused (pos 9) some_kernel some_dormant

some_running : (tk_rel_wai (pos 1) some_kernel).0 ≢ e_ok
unfolding tk_rel_wai id_in_range
some_running e = cc

tk_rel_wai-refused_example : (tk_rel_wai (pos 1) some_kernel).1 ≡ some_kernel
tk_rel_wai-refused_example = tk_rel_wai-refused (pos 1) some_kernel some_running

some_started : (tk_sta_tsk (pos 2) (pos 0) some_kernel).0 ≢ e_ok
unfolding tk_sta_tsk id_in_range
some_started e = cc

tk_sta_tsk-refused_example : (tk_sta_tsk (pos 2) (pos 0) some_kernel).1 ≡ some_kernel
tk_sta_tsk-refused_example = tk_sta_tsk-refused (pos 2) (pos 0) some_kernel some_started

tk_wup_tsk-tk_slp_tsk_example :
    ((tk_wup_tsk (pos 1) (perform enter_isr some_kernel)).0 ≡ e_ok)
    × (tk_slp_tsk
          (negsuc 0)
          (perform exit_isr (tk_wup_tsk (pos 1) (perform enter_isr some_kernel)).1)
        ≡ returned e_ok some_kernel)
tk_wup_tsk-tk_slp_tsk_example =
    tk_wup_tsk-tk_slp_tsk 0 (negsuc 0) some_kernel some_kernel-Inv some_kernel-CurrentRuns refl refl
      (omega arith) refl

-- A clock whose low word is about to carry.
abbrev some_clock : ℕ → ℕ
some_clock n = 4294967294 + n

read_mtime-IsRead_example :
    (read_mtime 2 some_clock 0 ≡ some (some_clock 1))
    ⊎ (read_mtime 2 some_clock 0 ≡ some (some_clock 4))
read_mtime-IsRead_example = read_mtime-IsRead some_clock (λ n. omega arith) 0 0 (omega arith)

write_mtimecmp-IsLate_example :
    (4294967295 ≤ (write_mtimecmp 4294967296 4294967295).0)
    × (4294967296 ≤ (write_mtimecmp 4294967296 4294967295).1)
    × ((write_mtimecmp 4294967296 4294967295).2 ≡ 4294967296)
write_mtimecmp-IsLate_example = write_mtimecmp-IsLate 4294967296 4294967295
