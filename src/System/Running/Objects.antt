-- ===== src/System/Running/Objects.antt =====
-- The current task in the calls on objects and in the timer interrupt.
use tsukumo_core.Common.{ℤ, pos_part, length, ℕ, suc, ◌-◌, ◌≡◌, refl, ◌∙◌, Bool, false}
use tsukumo_core.Context.{di}
use tsukumo_core.EventFlag.{tk_wai_flg, tk_set_flg, tk_clr_flg}
use tsukumo_core.EventFlag.Cases.{
  wait_for_ptn_cases, tk_wai_flg_cases, tk_set_flg_cases, tk_clr_flg_cases,
}
use tsukumo_core.Kernel.{sem, flg, mbx, timer_queue, sem_queue, Kernel}
use tsukumo_core.Mailbox.{tk_del_mbx, tk_snd_mbx, tk_rcv_mbx}
use tsukumo_core.Mailbox.Cases.{
  receive_wait_cases, tk_rcv_mbx_cases, tk_snd_mbx_cases, tk_del_mbx_cases,
}
use tsukumo_core.Semaphore.{tk_wai_sem, add_units, tk_sig_sem, tk_del_sem}
use tsukumo_core.Semaphore.Cases.{
  wait_for_units_cases, tk_wai_sem_cases, tk_sig_sem_cases, tk_del_sem_cases, delete_sem_cases,
}
use tsukumo_core.System.Frame.{sem_serve_waiters-Frame, release_all-Frame, expire_loop-Frame}
use tsukumo_core.System.Running.{
  Stays, StaysCall, reschedule-current, begin_wait-current, deliver-current, delete_mbx-current,
  set_ptn-current,
}
use tsukumo_core.Timer.{timer_handler}
use tsukumo_core.Timer.Cases.{compared, elapsed, expired, timer_handler_cases}

module _ (k : Kernel) where
  pub tk_sig_sem-Stays : (semid cnt : ℤ) → Stays k (tk_sig_sem semid cnt k)
  tk_sig_sem-Stays semid cnt =
      let s = pos_part semid - 1 in
      tk_sig_sem_cases (Stays k) semid cnt k (λ e _. record { current_kept = refl })
        (λ e _. record { current_kept = refl })
        (λ _ _. record {
          current_kept =
              reschedule-current _
              ∙ (sem_serve_waiters-Frame s (add_units s cnt (di k))).current_same;
        })

  pub tk_wai_sem-Stays : (semid cnt tmout : ℤ) → StaysCall k (tk_wai_sem semid cnt tmout k)
  tk_wai_sem-Stays semid cnt tmout =
      let s = pos_part semid - 1 in
      tk_wai_sem_cases (StaysCall k) semid cnt tmout k (λ e. record { current_kept = refl })
        (λ _. record { current_kept = refl })
        (λ i e _ _.
          wait_for_units_cases (StaysCall k) s cnt tmout i k (λ _. record { current_kept = refl })
            (λ _. record { current_kept = refl })
            (λ _ _. record { current_kept = begin_wait-current tmout sem i _ }))

  pub tk_del_sem-Stays : (semid : ℤ) → Stays k (tk_del_sem semid k)
  tk_del_sem-Stays semid =
      let s = pos_part semid - 1 in
      let f = release_all-Frame (length (k.waits.ring (sem_queue s))) (sem_queue s) (di k) in
      tk_del_sem_cases (Stays k) semid k (record { current_kept = refl })
        (record { current_kept = refl })
        (λ _ _. record {
          current_kept =
              delete_sem_cases (λ r. r.current ≡ k.current) s (di k)
                (λ _. reschedule-current _ ∙ f.current_same) (λ _. f.current_same);
        })

  pub tk_set_flg-Stays : (flgid : ℤ) (setptn : ℕ) → Stays k (tk_set_flg flgid setptn k)
  tk_set_flg-Stays flgid setptn =
      tk_set_flg_cases (Stays k) flgid setptn k (record { current_kept = refl })
        (record { current_kept = refl })
        (λ _. record { current_kept = set_ptn-current (pos_part flgid - 1) setptn (di k) })

  pub tk_clr_flg-Stays : (flgid : ℤ) (clrptn : ℕ) → Stays k (tk_clr_flg flgid clrptn k)
  tk_clr_flg-Stays flgid clrptn =
      tk_clr_flg_cases (Stays k) flgid clrptn k (record { current_kept = refl })
        (record { current_kept = refl }) (λ _. record { current_kept = refl })

  pub tk_wai_flg-Stays :
      (flgid : ℤ) (waiptn wfmode : ℕ) (has_ptr : Bool) (tmout : ℤ)
      → StaysCall k (tk_wai_flg flgid waiptn wfmode has_ptr tmout k)
  tk_wai_flg-Stays flgid waiptn wfmode has_ptr tmout =
      let s = pos_part flgid - 1 in
      tk_wai_flg_cases (StaysCall k) flgid waiptn wfmode has_ptr tmout k
        (λ e. record { current_kept = refl }) (λ _. record { current_kept = refl })
        (λ i e _.
          wait_for_ptn_cases (StaysCall k) s waiptn wfmode tmout i k
            (λ _. record { current_kept = refl }) (λ _. record { current_kept = refl })
            (λ _ _. record { current_kept = begin_wait-current tmout flg i _ }))

  pub tk_rcv_mbx-Stays :
      (mbxid : ℤ) (has_ptr : Bool) (tmout : ℤ) → StaysCall k (tk_rcv_mbx mbxid has_ptr tmout k)
  tk_rcv_mbx-Stays mbxid has_ptr tmout =
      let b = pos_part mbxid - 1 in
      tk_rcv_mbx_cases (StaysCall k) mbxid has_ptr tmout k (λ e. record { current_kept = refl })
        (λ e. record { current_kept = refl })
        (λ i e _ _.
          receive_wait_cases (StaysCall k) b tmout i (k.mbxcbs b).mbx_queue k
            (λ _ _ _. record { current_kept = refl }) (λ _ _. record { current_kept = refl })
            (λ _ _. record { current_kept = begin_wait-current tmout mbx i _ }))

  pub tk_snd_mbx-Stays : (mbxid : ℤ) (msg : ℕ) → Stays k (tk_snd_mbx mbxid msg k)
  tk_snd_mbx-Stays mbxid msg =
      tk_snd_mbx_cases (Stays k) mbxid msg k (λ e. record { current_kept = refl })
        (λ e. record { current_kept = refl })
        (λ _. record { current_kept = deliver-current (pos_part mbxid - 1) msg (di k) })

  pub tk_del_mbx-Stays : (mbxid : ℤ) → Stays k (tk_del_mbx mbxid k)
  tk_del_mbx-Stays mbxid =
      tk_del_mbx_cases (Stays k) mbxid k (record { current_kept = refl })
        (record { current_kept = refl })
        (λ _ _. record { current_kept = delete_mbx-current (pos_part mbxid - 1) (di k) })

  pub timer_handler-current : (timer_handler k).current ≡ k.current
  timer_handler-current =
      let f =
        expire_loop-Frame (suc (length (k.heads.ring timer_queue))) (elapsed k) false
          (compared k) in
      timer_handler_cases (λ r. r.current ≡ k.current) k (λ _. refl)
        (λ _ _. reschedule-current (expired k).1 ∙ f.current_same) (λ _ _. f.current_same)
