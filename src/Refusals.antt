-- ===== src/Refusals.antt =====
-- The calls that end with an error code: kernel/semaphore.c, kernel/event_flag.c,
-- kernel/mailbox.c and kernel/task.c.
use tsukumo_core.Common.{
  ltb, if◌then◌else◌, if_cases, ℤ, pos_part, ℕ, ◌-◌, ◌≡◌, refl, ap, ◌≢◌, Bool, true, false,
}
use tsukumo_core.Context.{di, ei}
use tsukumo_core.EventFlag.{tk_set_flg}
use tsukumo_core.EventFlag.Cases.{tk_set_flg_cases}
use tsukumo_core.Kernel.{tk_wakeup_maxcnt, Er, e_ok, Kernel}
use tsukumo_core.Mailbox.{tk_snd_mbx}
use tsukumo_core.Mailbox.Cases.{tk_snd_mbx_cases}
use tsukumo_core.Semaphore.{tk_sig_sem, tk_del_sem}
use tsukumo_core.Semaphore.Cases.{tk_sig_sem_cases, tk_del_sem_cases}
use tsukumo_core.Task.{tk_sta_tsk, tk_rel_wai, queue_wakeup, tk_wup_tsk}
use tsukumo_core.Task.Cases.{
  tk_sta_tsk_cases, tk_rel_wai_cases, wup_by_state_cases, tk_wup_tsk_cases,
}

-- DI and EI, with nothing between them.
ei-di : (k : Kernel) → ei k.mie (di k) ≡ k
ei-di k = ap (λ (b : Bool). record k { mie = b }) (if_self k.mie)
  where
    if_self : (b : Bool) → (if b then true else false) ≡ b
    if_self true = refl
    if_self false = refl

-- A tk_sig_sem that does not return E_OK leaves the kernel as it was.
pub tk_sig_sem-refused :
    (semid cnt : ℤ) (k : Kernel)
    → (tk_sig_sem semid cnt k).0 ≢ e_ok
    → (tk_sig_sem semid cnt k).1 ≡ k
tk_sig_sem-refused semid cnt k =
    tk_sig_sem_cases (λ r. r.0 ≢ e_ok → r.1 ≡ k) semid cnt k (λ e _ _. refl) (λ e _ _. ei-di k)
      (λ _ _ fails. absurd (fails refl))

-- `tk_del_sem` that does not return E_OK changes nothing.
tk_del_sem-refused :
    (semid : ℤ) (k : Kernel) → (tk_del_sem semid k).0 ≢ e_ok → (tk_del_sem semid k).1 ≡ k
tk_del_sem-refused semid k =
    tk_del_sem_cases (λ r. r.0 ≢ e_ok → r.1 ≡ k) semid k (λ _. refl) (λ _. ei-di k)
      (λ _ _ fails. absurd (fails refl))

-- `tk_set_flg` that does not return E_OK changes nothing.
tk_set_flg-refused :
    (flgid : ℤ) (setptn : ℕ) (k : Kernel)
    → (tk_set_flg flgid setptn k).0 ≢ e_ok
    → (tk_set_flg flgid setptn k).1 ≡ k
tk_set_flg-refused flgid setptn k =
    tk_set_flg_cases (λ r. r.0 ≢ e_ok → r.1 ≡ k) flgid setptn k (λ _. refl) (λ _. ei-di k)
      (λ _ fails. absurd (fails refl))

-- A tk_snd_mbx that does not return E_OK leaves the kernel as it was.
pub tk_snd_mbx-refused :
    (mbxid : ℤ) (pk_msg : ℕ) (k : Kernel)
    → (tk_snd_mbx mbxid pk_msg k).0 ≢ e_ok
    → (tk_snd_mbx mbxid pk_msg k).1 ≡ k
tk_snd_mbx-refused mbxid pk_msg k =
    tk_snd_mbx_cases (λ r. r.0 ≢ e_ok → r.1 ≡ k) mbxid pk_msg k (λ e _. refl) (λ e _. ei-di k)
      (λ _ fails. absurd (fails refl))

-- A tk_sta_tsk that does not return E_OK leaves the kernel as it was.
pub tk_sta_tsk-refused :
    (tskid stacd : ℤ) (k : Kernel)
    → (tk_sta_tsk tskid stacd k).0 ≢ e_ok
    → (tk_sta_tsk tskid stacd k).1 ≡ k
tk_sta_tsk-refused tskid stacd k =
    tk_sta_tsk_cases (λ r. r.0 ≢ e_ok → r.1 ≡ k) tskid stacd k (λ _. refl) (λ e _ _. ei-di k)
      (λ _ _ _ fails. absurd (fails refl)) (λ _ _ _ fails. absurd (fails refl))

-- A tk_rel_wai that does not return E_OK leaves the kernel as it was.
pub tk_rel_wai-refused :
    (tskid : ℤ) (k : Kernel) → (tk_rel_wai tskid k).0 ≢ e_ok → (tk_rel_wai tskid k).1 ≡ k
tk_rel_wai-refused tskid k =
    tk_rel_wai_cases (λ r. r.0 ≢ e_ok → r.1 ≡ k) tskid k (λ _. refl) (λ e _. ei-di k)
      (λ _ _ _ fails. absurd (fails refl))

-- A tk_wup_tsk that does not return E_OK leaves the kernel as it was.
pub tk_wup_tsk-refused :
    (tskid : ℤ) (k : Kernel) → (tk_wup_tsk tskid k).0 ≢ e_ok → (tk_wup_tsk tskid k).1 ≡ k
unfolding queue_wakeup
tk_wup_tsk-refused tskid k =
    tk_wup_tsk_cases (λ r. r.0 ≢ e_ok → r.1 ≡ k) tskid k (λ _. refl)
      (λ _.
        wup_by_state_cases (λ r. r.0 ≢ e_ok → ei k.mie r.1 ≡ k) (pos_part tskid - 1) (di k)
          (λ e _. ei-di k) (λ _ _ fails. absurd (fails refl))
          (if_cases {A = Er × Kernel} (λ r. r.0 ≢ e_ok → ei k.mie r.1 ≡ k)
            (ltb (k.tcbs (pos_part tskid - 1)).wupcnt tk_wakeup_maxcnt)
            (λ _ fails. absurd (fails refl)) (λ _ _. ei-di k)))
