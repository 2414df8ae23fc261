-- ===== src/System/Blocked.antt =====
-- The calls that can block, where their task may not.
-- EI after DI.
use tsukumo_core.Common.{
  if◌then◌else◌, Option-cases, ℤ, ℕ, ◌≡◌, refl, ap, inl, inr, Bool, true, false, Option, none,
  arith,
}
use tsukumo_core.Context.{di, ei, can_block}
use tsukumo_core.EventFlag.{wait_for_ptn, tk_wai_flg}
use tsukumo_core.EventFlag.Cases.{tk_wai_flg_cases}
use tsukumo_core.Kernel.{Er, e_par, e_id, e_ctx, Kernel}
use tsukumo_core.Mailbox.{tk_rcv_mbx}
use tsukumo_core.Semaphore.{wait_for_units, tk_wai_sem}
use tsukumo_core.Semaphore.Cases.{tk_wai_sem_cases}
use tsukumo_core.System.Decided.{same}
use tsukumo_core.Timer.{Call, returned, after, tk_dly_tsk, tk_slp_tsk}

restored : (b : Bool) → (if b then true else false) ≡ b
restored true = refl
restored false = refl

pub ei-di : (k : Kernel) → ei k.mie (di k) ≡ k
ei-di k = ap (λ (b : Bool). record k { mie = b }) (restored k.mie)

-- Each of them returns, before it has changed anything.
module _ (k : Kernel) (b : can_block k.mie (di k) ≡ false) where
  dly_blocked :
      (P : Call Er → Type 0) (dlytm : ℕ)
      → P (returned e_ctx (ei k.mie (di k)))
      → P (tk_dly_tsk dlytm k)
  unfolding tk_dly_tsk
  dly_blocked P dlytm same = elim (Option-cases k.current) [
    | inl e ↦ ground arith
    | inr (i, e) ↦ ground (arith, b)
  ]

  slp_blocked :
      (P : Call Er → Type 0) (tmout : ℤ)
      → ((e : Er) → P (returned e k))
      → P (returned e_ctx (ei k.mie (di k)))
      → P (tk_slp_tsk tmout k)
  unfolding tk_slp_tsk
  slp_blocked P tmout bad same = elim (Option-cases k.current) [
    | inl e ↦ ground (arith, bad e_par)
    | inr (i, e) ↦ ground (arith, b, bad e_par)
  ]

  sem_blocked :
      (P : Call Er → Type 0) (semid cnt tmout : ℤ)
      → ((e : Er) → P (returned e k))
      → P (returned e_ctx (ei k.mie (di k)))
      → P (tk_wai_sem semid cnt tmout k)
  unfolding wait_for_units
  sem_blocked P semid cnt tmout bad same =
      tk_wai_sem_cases P semid cnt tmout k bad (λ _. same) (λ i e _ _. ground (arith, b))

  flg_blocked :
      (P : Call (Er × Option ℕ) → Type 0) (flgid : ℤ) (waiptn wfmode : ℕ) (has_ptr : Bool)
      (tmout : ℤ)
      → ((e : Er) → P (returned (e, none) k))
      → P (returned (e_ctx, none) (ei k.mie (di k)))
      → P (tk_wai_flg flgid waiptn wfmode has_ptr tmout k)
  unfolding wait_for_ptn
  flg_blocked P flgid waiptn wfmode has_ptr tmout bad same =
      tk_wai_flg_cases P flgid waiptn wfmode has_ptr tmout k bad (λ _. same)
        (λ i e _. ground (arith, b))

  mbx_blocked :
      (P : Call (Er × Option ℕ) → Type 0) (mbxid : ℤ) (has_ptr : Bool) (tmout : ℤ)
      → ((e : Er) → P (returned (e, none) k))
      → P (returned (e_ctx, none) (ei k.mie (di k)))
      → P (tk_rcv_mbx mbxid has_ptr tmout k)
  unfolding tk_rcv_mbx
  mbx_blocked P mbxid has_ptr tmout bad same = elim (Option-cases k.current) [
    | inl e ↦ ground (arith, bad e_id, bad e_par)
    | inr (i, e) ↦ ground (arith, b, bad e_id, bad e_par)
  ]

  pub tk_dly_tsk-blocked : (dlytm : ℕ) → after (tk_dly_tsk dlytm k) ≡ k
  tk_dly_tsk-blocked dlytm = dly_blocked (λ c. after c ≡ k) dlytm (ei-di k)

  pub tk_slp_tsk-blocked : (tmout : ℤ) → after (tk_slp_tsk tmout k) ≡ k
  tk_slp_tsk-blocked tmout = slp_blocked (λ c. after c ≡ k) tmout (λ e. refl) (ei-di k)

  pub tk_wai_sem-blocked : (semid cnt tmout : ℤ) → after (tk_wai_sem semid cnt tmout k) ≡ k
  tk_wai_sem-blocked semid cnt tmout =
      sem_blocked (λ c. after c ≡ k) semid cnt tmout (λ e. refl) (ei-di k)

  pub tk_wai_flg-blocked :
      (flgid : ℤ) (waiptn wfmode : ℕ) (has_ptr : Bool) (tmout : ℤ)
      → after (tk_wai_flg flgid waiptn wfmode has_ptr tmout k) ≡ k
  tk_wai_flg-blocked flgid waiptn wfmode has_ptr tmout =
      flg_blocked (λ c. after c ≡ k) flgid waiptn wfmode has_ptr tmout (λ e. refl) (ei-di k)

  pub tk_rcv_mbx-blocked :
      (mbxid : ℤ) (has_ptr : Bool) (tmout : ℤ) → after (tk_rcv_mbx mbxid has_ptr tmout k) ≡ k
  tk_rcv_mbx-blocked mbxid has_ptr tmout =
      mbx_blocked (λ c. after c ≡ k) mbxid has_ptr tmout (λ e. refl) (ei-di k)
