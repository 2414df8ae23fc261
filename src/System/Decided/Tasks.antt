-- ===== src/System/Decided/Tasks.antt =====
-- The choice of the next task in the calls on tasks and in the waits of time alone.
use tsukumo_core.Common.{ltb, Option-cases, if_cases, ℤ, pos_part, ℕ, ◌-◌, ◌≡◌, inl, inr, true}
use tsukumo_core.Context.{di, ei, has_current}
use tsukumo_core.Kernel.{tk_wakeup_maxcnt, Er, e_ok, e_rlwai, slp, dly, Kernel}
use tsukumo_core.System.Decided.{
  Decided, reschedule-Decided, switch_away-Decided, ei-Decided, Decides, DecidesCall, DecidesEnding,
  same, resched,
}
use tsukumo_core.Task.{
  make_started, tk_sta_tsk, yield_from, yield_task, end_task, tk_ext_tsk, delete_task, tk_exd_tsk,
  tk_rel_wai, queue_wakeup, wup_by_state, tk_wup_tsk,
}
use tsukumo_core.Task.Cases.{
  tk_sta_tsk_cases, tk_rel_wai_cases, wup_by_state_cases, tk_wup_tsk_cases, tk_ext_tsk_cases,
  tk_exd_tsk_cases,
}
use tsukumo_core.Task.Wait.{complete_wait}
use tsukumo_core.Timer.{schedule_timer, wait_forever, tk_dly_tsk, tk_slp_tsk}
use tsukumo_core.Timer.Cases.{tk_dly_tsk_cases, tk_slp_tsk_cases}
use tsukumo_core.Timer.Clock.{ms_to_ticks}

module _ (k : Kernel) (d : Decided k) where
  pub tk_sta_tsk-Decides :
      (tskid stacd : ℤ) → has_current k ≡ true → Decides (tk_sta_tsk tskid stacd k)
  tk_sta_tsk-Decides tskid stacd h =
      let i = pos_part tskid - 1 in
      tk_sta_tsk_cases Decides tskid stacd k (record { after_it = d })
        (λ e _. record { after_it = same k d })
        (λ _ _ _. record { after_it = resched k d (make_started i stacd (di k)) })
        (λ _ _ n. absurd (cc))

  pub tk_ext_tsk-Decides : DecidesEnding (tk_ext_tsk k)
  unfolding end_task
  tk_ext_tsk-Decides =
      tk_ext_tsk_cases DecidesEnding k (record { after_it = record { chosen = d.chosen } })
        (λ i e. record { after_it = ei-Decided k.mie (end_task i (di k)) (switch_away-Decided _) })

  pub tk_exd_tsk-Decides : DecidesEnding (tk_exd_tsk k)
  unfolding delete_task
  tk_exd_tsk-Decides =
      tk_exd_tsk_cases DecidesEnding k (record { after_it = record { chosen = d.chosen } })
        (λ i e. record {
          after_it = ei-Decided k.mie (delete_task i (di k)) (switch_away-Decided _);
        })

  pub tk_rel_wai-Decides : (tskid : ℤ) → Decides (tk_rel_wai tskid k)
  tk_rel_wai-Decides tskid =
      tk_rel_wai_cases Decides tskid k (record { after_it = d })
        (λ e. record { after_it = same k d })
        (λ _ _ _. record {
          after_it = resched k d (complete_wait (pos_part tskid - 1) e_rlwai (di k));
        })

  queue_wakeup-Decides : (i : ℕ) → Decides (queue_wakeup i (di k))
  unfolding queue_wakeup
  queue_wakeup-Decides i =
      if_cases {A = Er × Kernel} Decides (ltb ((di k).tcbs i).wupcnt tk_wakeup_maxcnt)
        (λ _. record { after_it = record { chosen = d.chosen } })
        (λ _. record { after_it = record { chosen = d.chosen } })

  pub tk_wup_tsk-Decides : (tskid : ℤ) → Decides (tk_wup_tsk tskid k)
  tk_wup_tsk-Decides tskid =
      let i = pos_part tskid - 1 in
      let woken =
        wup_by_state_cases Decides i (di k)
          (λ e. record { after_it = record { chosen = d.chosen } })
          (λ _ _. record { after_it = reschedule-Decided (complete_wait i e_ok (di k)) })
          (queue_wakeup-Decides i) in
      tk_wup_tsk_cases Decides tskid k (record { after_it = d })
        (λ _. record { after_it = ei-Decided k.mie (wup_by_state i (di k)).1 woken.after_it })

  pub yield_task-Decided : Decided (yield_task (ei k.mie (di k)))
  unfolding yield_task yield_from
  yield_task-Decided = elim (Option-cases k.current) [
    | inl e ↦ rw (e, yield_task) (same k d)
    | inr (i, e) ↦ rw (e, yield_task) (ei-Decided _ _ (reschedule-Decided _))
  ]

  pub tk_dly_tsk-Decides : (dlytm : ℕ) → DecidesCall (tk_dly_tsk dlytm k)
  unfolding schedule_timer
  tk_dly_tsk-Decides dlytm =
      tk_dly_tsk_cases DecidesCall dlytm k (record { after_it = same k d })
        (λ _. record { after_it = yield_task-Decided })
        (λ i e. record {
          after_it =
              ei-Decided k.mie (schedule_timer i (ms_to_ticks dlytm) dly (di k))
                (switch_away-Decided _);
        })

  pub tk_slp_tsk-Decides : (tmout : ℤ) → DecidesCall (tk_slp_tsk tmout k)
  unfolding schedule_timer wait_forever
  tk_slp_tsk-Decides tmout =
      tk_slp_tsk_cases DecidesCall tmout k (record { after_it = d })
        (λ e. record { after_it = same k d })
        (λ i e p. record { after_it = record { chosen = d.chosen } })
        (λ i e. record {
          after_it =
              ei-Decided k.mie (schedule_timer i (ms_to_ticks (pos_part tmout)) slp (di k))
                (switch_away-Decided _);
        })
        (λ i e. record {
          after_it = ei-Decided k.mie (wait_forever i slp (di k)) (switch_away-Decided _);
        })
