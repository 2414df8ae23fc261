-- ===== src/System/Running/Tasks.antt =====
-- The current task in the calls on tasks and in the waits of time alone.
use tsukumo_core.Common.{ltb, if_cases, ℤ, pos_part, ℕ, ◌-◌, refl, ◌∙◌}
use tsukumo_core.Context.{di, ei}
use tsukumo_core.Kernel.{tk_wakeup_maxcnt, Er, e_ok, e_rlwai, Kernel}
use tsukumo_core.System.Frame.{complete_wait-Frame}
use tsukumo_core.System.Running.{
  Stays, StaysCall, StaysEnding, reschedule-current, yield_task-current,
}
use tsukumo_core.Task.{
  make_started, tk_sta_tsk, switch_away, end_task, tk_ext_tsk, delete_task, tk_exd_tsk, tk_rel_wai,
  queue_wakeup, wup_by_state, tk_wup_tsk,
}
use tsukumo_core.Task.Cases.{
  tk_sta_tsk_cases, tk_rel_wai_cases, wup_by_state_cases, tk_wup_tsk_cases, tk_ext_tsk_cases,
  tk_exd_tsk_cases,
}
use tsukumo_core.Timer.{schedule_timer, wait_forever, tk_dly_tsk, tk_slp_tsk}
use tsukumo_core.Timer.Cases.{tk_dly_tsk_cases, tk_slp_tsk_cases}

module _ (k : Kernel) where
  pub tk_sta_tsk-Stays : (tskid stacd : ℤ) → Stays k (tk_sta_tsk tskid stacd k)
  unfolding make_started
  tk_sta_tsk-Stays tskid stacd =
      tk_sta_tsk_cases (Stays k) tskid stacd k (record { current_kept = refl })
        (λ e _. record { current_kept = refl })
        (λ _ _ _. record { current_kept = reschedule-current _ })
        (λ _ _ _. record { current_kept = refl })

  pub tk_ext_tsk-Stays : StaysEnding k (tk_ext_tsk k)
  unfolding end_task switch_away
  tk_ext_tsk-Stays =
      tk_ext_tsk_cases (StaysEnding k) k (record { current_kept = refl })
        (λ i e. record { current_kept = refl })

  pub tk_exd_tsk-Stays : StaysEnding k (tk_exd_tsk k)
  unfolding delete_task switch_away
  tk_exd_tsk-Stays =
      tk_exd_tsk_cases (StaysEnding k) k (record { current_kept = refl })
        (λ i e. record { current_kept = refl })

  pub tk_rel_wai-Stays : (tskid : ℤ) → Stays k (tk_rel_wai tskid k)
  tk_rel_wai-Stays tskid =
      tk_rel_wai_cases (Stays k) tskid k (record { current_kept = refl })
        (λ e. record { current_kept = refl })
        (λ _ _ _. record {
          current_kept =
              reschedule-current _
              ∙ (complete_wait-Frame (pos_part tskid - 1) e_rlwai (di k)).current_same;
        })

  wup_by_state-Stays : (i : ℕ) → Stays k (wup_by_state i (di k))
  unfolding queue_wakeup
  wup_by_state-Stays i =
      wup_by_state_cases (Stays k) i (di k) (λ e. record { current_kept = refl })
        (λ _ _. record {
          current_kept = reschedule-current _ ∙ (complete_wait-Frame i e_ok (di k)).current_same;
        })
        (if_cases {A = Er × Kernel} (Stays k) (ltb ((di k).tcbs i).wupcnt tk_wakeup_maxcnt)
          (λ _. record { current_kept = refl }) (λ _. record { current_kept = refl }))

  pub tk_wup_tsk-Stays : (tskid : ℤ) → Stays k (tk_wup_tsk tskid k)
  tk_wup_tsk-Stays tskid =
      tk_wup_tsk_cases (Stays k) tskid k (record { current_kept = refl })
        (λ _. record { current_kept = (wup_by_state-Stays (pos_part tskid - 1)).current_kept })

  pub tk_dly_tsk-Stays : (dlytm : ℕ) → StaysCall k (tk_dly_tsk dlytm k)
  unfolding schedule_timer switch_away
  tk_dly_tsk-Stays dlytm =
      tk_dly_tsk_cases (StaysCall k) dlytm k (record { current_kept = refl })
        (λ _. record { current_kept = yield_task-current (ei k.mie (di k)) })
        (λ i e. record { current_kept = refl })

  pub tk_slp_tsk-Stays : (tmout : ℤ) → StaysCall k (tk_slp_tsk tmout k)
  unfolding schedule_timer wait_forever switch_away
  tk_slp_tsk-Stays tmout =
      tk_slp_tsk_cases (StaysCall k) tmout k (record { current_kept = refl })
        (λ e. record { current_kept = refl }) (λ i e p. record { current_kept = refl })
        (λ i e. record { current_kept = refl }) (λ i e. record { current_kept = refl })
