-- ===== src/System/Decided/Objects.antt =====
-- The choice of the next task in the calls on semaphores and event flags, and in tk_rcv_mbx.
use tsukumo_core.Common.{if_cases, ℤ, pos_part, length, is_empty, ℕ, ◌-◌, ◌≡◌, Bool, true, not}
use tsukumo_core.Context.{di}
use tsukumo_core.EventFlag.{tk_wai_flg, set_ptn, tk_set_flg, tk_clr_flg}
use tsukumo_core.EventFlag.Cases.{
  wait_for_ptn_cases, tk_wai_flg_cases, tk_set_flg_cases, tk_clr_flg_cases,
}
use tsukumo_core.Kernel.{sem, flg, mbx, sem_queue, flg_queue, Kernel}
use tsukumo_core.Mailbox.{tk_rcv_mbx}
use tsukumo_core.Mailbox.Cases.{receive_wait_cases, tk_rcv_mbx_cases}
use tsukumo_core.Semaphore.{
  tk_wai_sem, add_units, tk_sig_sem, release_all, free_sem, delete_sem, tk_del_sem,
}
use tsukumo_core.Semaphore.Cases.{
  wait_for_units_cases, tk_wai_sem_cases, tk_sig_sem_cases, tk_del_sem_cases, delete_sem_cases,
}
use tsukumo_core.System.Decided.{
  Decided, reschedule-Decided, ei-Decided, nil_of_empty, Decides, DecidesCall, begin_wait-Decided,
  same, resched,
}
use tsukumo_core.Task.Wait.{sem_serve_waiters}

module _ (k : Kernel) (d : Decided k) where
  pub tk_sig_sem-Decides : (semid cnt : ℤ) → Decides (tk_sig_sem semid cnt k)
  tk_sig_sem-Decides semid cnt =
      let s = pos_part semid - 1 in
      tk_sig_sem_cases Decides semid cnt k (λ e _. record { after_it = d })
        (λ e _. record { after_it = same k d })
        (λ _ _. record { after_it = resched k d (sem_serve_waiters s (add_units s cnt (di k))) })

  pub tk_wai_sem-Decides : (semid cnt tmout : ℤ) → DecidesCall (tk_wai_sem semid cnt tmout k)
  tk_wai_sem-Decides semid cnt tmout =
      let s = pos_part semid - 1 in
      tk_wai_sem_cases DecidesCall semid cnt tmout k (λ e. record { after_it = d })
        (λ _. record { after_it = same k d })
        (λ i e _ _.
          wait_for_units_cases DecidesCall s cnt tmout i k (λ _. record { after_it = same k d })
            (λ _. record { after_it = record { chosen = d.chosen } })
            (λ _ _. record { after_it = ei-Decided k.mie _ (begin_wait-Decided tmout sem i _) }))

  nobody :
      (s : ℕ)
      → is_empty ((di k).waits.ring (sem_queue s)) ≡ true
      → Decided
          (free_sem s (release_all (length ((di k).waits.ring (sem_queue s))) (sem_queue s) (di k)))
  unfolding release_all
  nobody s e =
      let nil = nil_of_empty (k.waits.ring (sem_queue s)) e in rw nil (record { chosen = d.chosen })

  pub tk_del_sem-Decides : (semid : ℤ) → Decides (tk_del_sem semid k)
  tk_del_sem-Decides semid =
      let s = pos_part semid - 1 in
      tk_del_sem_cases Decides semid k (record { after_it = d }) (record { after_it = same k d })
        (λ _ _. record {
          after_it =
              ei-Decided k.mie (delete_sem s (di k))
                (delete_sem_cases Decided s (di k) (λ _. reschedule-Decided _) (λ e. nobody s e));
        })

  pub tk_set_flg-Decides : (flgid : ℤ) (setptn : ℕ) → Decides (tk_set_flg flgid setptn k)
  unfolding set_ptn
  tk_set_flg-Decides flgid setptn =
      let s = pos_part flgid - 1 in
      tk_set_flg_cases Decides flgid setptn k (record { after_it = d })
        (record { after_it = same k d })
        (λ _. record {
          after_it = ei-Decided k.mie (set_ptn s setptn (di k)) (
              if_cases Decided (not (is_empty (k.waits.ring (flg_queue s))))
                (λ _. reschedule-Decided _) (λ _. record { chosen = d.chosen }));
        })

  pub tk_clr_flg-Decides : (flgid : ℤ) (clrptn : ℕ) → Decides (tk_clr_flg flgid clrptn k)
  tk_clr_flg-Decides flgid clrptn =
      tk_clr_flg_cases Decides flgid clrptn k (record { after_it = d })
        (record { after_it = same k d }) (λ _. record { after_it = record { chosen = d.chosen } })

  pub tk_wai_flg-Decides :
      (flgid : ℤ) (waiptn wfmode : ℕ) (has_ptr : Bool) (tmout : ℤ)
      → DecidesCall (tk_wai_flg flgid waiptn wfmode has_ptr tmout k)
  tk_wai_flg-Decides flgid waiptn wfmode has_ptr tmout =
      let s = pos_part flgid - 1 in
      tk_wai_flg_cases DecidesCall flgid waiptn wfmode has_ptr tmout k
        (λ e. record { after_it = d }) (λ _. record { after_it = same k d })
        (λ i e _.
          wait_for_ptn_cases DecidesCall s waiptn wfmode tmout i k
            (λ _. record { after_it = same k d })
            (λ _. record { after_it = record { chosen = d.chosen } })
            (λ _ _. record { after_it = ei-Decided k.mie _ (begin_wait-Decided tmout flg i _) }))

  pub tk_rcv_mbx-Decides :
      (mbxid : ℤ) (has_ptr : Bool) (tmout : ℤ) → DecidesCall (tk_rcv_mbx mbxid has_ptr tmout k)
  tk_rcv_mbx-Decides mbxid has_ptr tmout =
      let b = pos_part mbxid - 1 in
      tk_rcv_mbx_cases DecidesCall mbxid has_ptr tmout k (λ e. record { after_it = d })
        (λ e. record { after_it = same k d })
        (λ i e _ _.
          receive_wait_cases DecidesCall b tmout i (k.mbxcbs b).mbx_queue k
            (λ _ _ _. record { after_it = record { chosen = d.chosen } })
            (λ _ _. record { after_it = same k d })
            (λ _ _. record { after_it = ei-Decided k.mie _ (begin_wait-Decided tmout mbx i _) }))
