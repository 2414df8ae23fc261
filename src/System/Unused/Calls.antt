-- ===== src/System/Unused/Calls.antt =====
-- The free lists in the calls that create and delete nothing, and put nobody on a queue.
use tsukumo_core.Common.{
  ltb, if_cases, ℤ, pos_part, length, is_empty, ℕ, suc, ◌-◌, bit_and, bit_or, refl, false, not,
  Option, none, some, arith,
}
use tsukumo_core.Context.{di, ei}
use tsukumo_core.EventFlag.{set_flgptn, set_loop, set_ptn, tk_set_flg, tk_clr_flg}
use tsukumo_core.EventFlag.Cases.{tk_set_flg_cases, tk_clr_flg_cases}
use tsukumo_core.Kernel.{tk_wakeup_maxcnt, Er, e_ok, e_rlwai, timer_queue, flg_queue, Kernel}
use tsukumo_core.Kernel.Codes.{has_bits, same_task}
use tsukumo_core.Mailbox.{
  ta_mpri, insert_msg_fifo, insert_msg_pri, pop_waiting_receiver, make_waiter_ready,
  dispatch_if_needed, enqueue_msg, hand_over, deliver, tk_snd_mbx,
}
use tsukumo_core.Mailbox.Cases.{tk_snd_mbx_cases, dispatch_if_needed_cases}
use tsukumo_core.Rings.{init_link}
use tsukumo_core.Semaphore.{add_units, tk_sig_sem}
use tsukumo_core.Semaphore.Cases.{tk_sig_sem_cases}
use tsukumo_core.System.Moves.{
  sem_serve_waiters-moved, complete_wait-moved, set_loop-moved, pop_waiting_receiver-moved,
  make_waiter_ready-moved, expire_loop-moved,
}
use tsukumo_core.System.Running.{yield_task_cases}
use tsukumo_core.System.Unused.{Objects}
use tsukumo_core.System.Unused.Shrinks.{
  Shrinks, Objects-Shrinks, Shrinks-Moves, set_messages-Shrinks,
}
use tsukumo_core.Task.{
  make_started, tk_sta_tsk, yield_from, yield_task, Ending, ended, switch_away, end_task,
  tk_ext_tsk, delete_task, tk_exd_tsk, tk_rel_wai, queue_wakeup, wup_by_state, tk_wup_tsk,
}
use tsukumo_core.Task.Cases.{
  tk_sta_tsk_cases, tk_rel_wai_cases, wup_by_state_cases, tk_wup_tsk_cases, tk_ext_tsk_cases,
  tk_exd_tsk_cases,
}
use tsukumo_core.Task.Queue.{get_highest_priority_task, reschedule}
use tsukumo_core.Task.Wait.{sem_serve_waiters, complete_wait}
use tsukumo_core.Timer.{
  Call, after, schedule_timer, wait_forever, timer_handler, tk_dly_tsk, tk_slp_tsk,
}
use tsukumo_core.Timer.Cases.{
  compared, elapsed, expired, timer_handler_cases, tk_dly_tsk_cases, tk_slp_tsk_cases,
}

pub record Holds {A : Type 0} (r : A × Kernel) : Type 0 where
  pub objects : Objects r.1

pub record HoldsCall {A : Type 0} (c : Call A) : Type 0 where
  pub objects : Objects (after c)

pub record HoldsEnding (e : Ending) : Type 0 where
  pub objects : Objects (ended e)

pub reschedule-Objects : (k : Kernel) → Objects k → Objects (reschedule k)
unfolding reschedule
reschedule-Objects k o =
    if_cases {A = Kernel} Objects (not (same_task (get_highest_priority_task k) k.current)) (λ _. o)
      (λ _. o)

pub dispatch_if_needed-Objects : (k : Kernel) → Objects k → Objects (dispatch_if_needed k)
dispatch_if_needed-Objects k o = dispatch_if_needed_cases Objects k o (reschedule-Objects k o)

-- What leaves the queues and the IDs as they were, or shrinks.
pub shrunk : (k k' : Kernel) → Objects k → Shrinks k k' → Objects k'
shrunk k k' o s = Objects-Shrinks k k' s o

enqueue_msg-Shrinks : (b msg : ℕ) (k : Kernel) → Shrinks k (enqueue_msg b msg k)
unfolding enqueue_msg
enqueue_msg-Shrinks b msg k =
    if_cases {A = Kernel} (Shrinks k) (has_bits (k.mbxcbs b).mbxatr ta_mpri)
      (λ _. set_messages-Shrinks b (insert_msg_pri k.msgpri msg (k.mbxcbs b).mbx_queue) k)
      (λ _. set_messages-Shrinks b (insert_msg_fifo msg (k.mbxcbs b).mbx_queue) k)

hand_over-Objects :
    (o : Option ℕ) (b msg : ℕ) (k : Kernel) → Objects k → Objects (hand_over o b msg k)
hand_over-Objects none b msg k u = shrunk k (enqueue_msg b msg k) u (enqueue_msg-Shrinks b msg k)
hand_over-Objects (some i) b msg k u = dispatch_if_needed-Objects (make_waiter_ready i e_ok msg k) (
    shrunk k (make_waiter_ready i e_ok msg k) u
      (make_waiter_ready-moved Shrinks Shrinks-Moves i e_ok msg k))

deliver-Objects : (b msg : ℕ) (k : Kernel) → Objects k → Objects (deliver b msg k)
unfolding deliver
deliver-Objects b msg k u =
    let p = pop_waiting_receiver b k in
    hand_over-Objects p.0 b msg p.1
      (shrunk k p.1 u (pop_waiting_receiver-moved Shrinks Shrinks-Moves b k))

set_ptn-Objects : (s setptn : ℕ) (k : Kernel) → Objects k → Objects (set_ptn s setptn k)
unfolding set_ptn
set_ptn-Objects s setptn k o =
    let ptn = bit_or (k.flgcbs s).flgptn setptn in
    let k' = set_flgptn s ptn k in
    let l = k.waits.ring (flg_queue s) in
    let o' = shrunk k k' o (Shrinks-Moves.sets s ptn k) in
    if_cases {A = Kernel} Objects (not (is_empty l))
      (λ _.
        reschedule-Objects (set_loop s l k')
          (shrunk k' (set_loop s l k') o' (set_loop-moved Shrinks Shrinks-Moves s l k')))
      (λ _. o')

module _ (k : Kernel) (o : Objects k) where
  pub tk_sta_tsk-Holds : (tskid stacd : ℤ) → Holds (tk_sta_tsk tskid stacd k)
  unfolding make_started init_link
  tk_sta_tsk-Holds tskid stacd =
      let i = pos_part tskid - 1 in
      let w = shrunk k (make_started i stacd (di k)) o (record {
        rings = λ q e. e;
        semids = λ s. refl;
        flgids = λ s. refl;
        mbxids = λ b. refl;
        free_sems = refl;
        free_flgs = refl;
        free_mbxs = refl;
      }) in
      tk_sta_tsk_cases Holds tskid stacd k (record { objects = o }) (λ e _. record { objects = o })
        (λ _ _ _. record { objects = reschedule-Objects (make_started i stacd (di k)) w })
        (λ _ _ _. record { objects = w })

  pub tk_ext_tsk-Holds : HoldsEnding (tk_ext_tsk k)
  unfolding end_task switch_away
  tk_ext_tsk-Holds =
      tk_ext_tsk_cases HoldsEnding k (record { objects = o }) (λ i e. record { objects = o })

  pub tk_exd_tsk-Holds : HoldsEnding (tk_exd_tsk k)
  unfolding delete_task switch_away
  tk_exd_tsk-Holds =
      tk_exd_tsk_cases HoldsEnding k (record { objects = o }) (λ i e. record { objects = o })

  completed : (i : ℕ) (cause : Er) → Objects (reschedule (complete_wait i cause (di k)))
  completed i cause = reschedule-Objects (complete_wait i cause (di k)) (
      shrunk (di k) (complete_wait i cause (di k)) o
        (complete_wait-moved Shrinks Shrinks-Moves i cause (di k)))

  pub tk_rel_wai-Holds : (tskid : ℤ) → Holds (tk_rel_wai tskid k)
  tk_rel_wai-Holds tskid =
      tk_rel_wai_cases Holds tskid k (record { objects = o }) (λ e. record { objects = o })
        (λ _ _ _. record { objects = completed (pos_part tskid - 1) e_rlwai })

  wup_by_state-Holds : (i : ℕ) → Holds (wup_by_state i (di k))
  unfolding queue_wakeup
  wup_by_state-Holds i =
      wup_by_state_cases Holds i (di k) (λ e. record { objects = o })
        (λ _ _. record { objects = completed i e_ok })
        (if_cases {A = Er × Kernel} Holds (ltb ((di k).tcbs i).wupcnt tk_wakeup_maxcnt)
          (λ _. record { objects = o }) (λ _. record { objects = o }))

  pub tk_wup_tsk-Holds : (tskid : ℤ) → Holds (tk_wup_tsk tskid k)
  tk_wup_tsk-Holds tskid =
      tk_wup_tsk_cases Holds tskid k (record { objects = o })
        (λ _. record { objects = (wup_by_state-Holds (pos_part tskid - 1)).objects })

  yield_task-Objects : Objects (yield_task (ei k.mie (di k)))
  unfolding yield_from
  yield_task-Objects = yield_task_cases (ei k.mie (di k)) Objects o (λ i. reschedule-Objects _ o)

  pub tk_dly_tsk-Holds : (dlytm : ℕ) → HoldsCall (tk_dly_tsk dlytm k)
  unfolding schedule_timer switch_away
  tk_dly_tsk-Holds dlytm =
      tk_dly_tsk_cases HoldsCall dlytm k (record { objects = o })
        (λ _. record { objects = yield_task-Objects }) (λ i e. record { objects = o })

  pub tk_slp_tsk-Holds : (tmout : ℤ) → HoldsCall (tk_slp_tsk tmout k)
  unfolding schedule_timer wait_forever switch_away
  tk_slp_tsk-Holds tmout =
      tk_slp_tsk_cases HoldsCall tmout k (record { objects = o }) (λ e. record { objects = o })
        (λ i e p. record { objects = o }) (λ i e. record { objects = o })
        (λ i e. record { objects = o })

  pub tk_sig_sem-Holds : (semid cnt : ℤ) → Holds (tk_sig_sem semid cnt k)
  tk_sig_sem-Holds semid cnt =
      let s = pos_part semid - 1 in
      let k' = add_units s cnt (di k) in
      let o' = shrunk k k' o (record {
        rings = λ q e. e;
        semids = λ j. ground arith;
        flgids = λ j. refl;
        mbxids = λ b. refl;
        free_sems = refl;
        free_flgs = refl;
        free_mbxs = refl;
      }) in
      tk_sig_sem_cases Holds semid cnt k (λ e _. record { objects = o })
        (λ e _. record { objects = o })
        (λ _ _. record {
          objects = reschedule-Objects (sem_serve_waiters s k') (
              shrunk k' (sem_serve_waiters s k') o'
                (sem_serve_waiters-moved Shrinks Shrinks-Moves s k'));
        })

  pub tk_set_flg-Holds : (flgid : ℤ) (setptn : ℕ) → Holds (tk_set_flg flgid setptn k)
  tk_set_flg-Holds flgid setptn =
      tk_set_flg_cases Holds flgid setptn k (record { objects = o }) (record { objects = o })
        (λ _. record { objects = set_ptn-Objects (pos_part flgid - 1) setptn (di k) o })

  pub tk_clr_flg-Holds : (flgid : ℤ) (clrptn : ℕ) → Holds (tk_clr_flg flgid clrptn k)
  tk_clr_flg-Holds flgid clrptn =
      let s = pos_part flgid - 1 in
      tk_clr_flg_cases Holds flgid clrptn k (record { objects = o }) (record { objects = o })
        (λ _. record {
          objects =
              shrunk k (set_flgptn s (bit_and (k.flgcbs s).flgptn clrptn) k) o
                (Shrinks-Moves.sets s (bit_and (k.flgcbs s).flgptn clrptn) k);
        })

  pub tk_snd_mbx-Holds : (mbxid : ℤ) (msg : ℕ) → Holds (tk_snd_mbx mbxid msg k)
  tk_snd_mbx-Holds mbxid msg =
      tk_snd_mbx_cases Holds mbxid msg k (λ e. record { objects = o }) (λ e. record { objects = o })
        (λ _. record { objects = deliver-Objects (pos_part mbxid - 1) msg (di k) o })

  pub timer_handler-Objects : Objects (timer_handler k)
  timer_handler-Objects =
      let fuel = suc (length (k.heads.ring timer_queue)) in
      let f =
        shrunk (compared k) (expired k).1 o
          (expire_loop-moved Shrinks Shrinks-Moves fuel (elapsed k) false (compared k)) in
      timer_handler_cases Objects k (λ _. o) (λ _ _. reschedule-Objects (expired k).1 f) (λ _ _. f)
