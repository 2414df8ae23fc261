-- ===== src/EventFlag/Cases.antt =====
-- The branches of the calls on event flags, with the tests that lead to each.
use tsukumo_core.Common.{
  Bool-cases, Option-cases, ℤ, pos_part, ℕ, ◌-◌, ◌<◌, bit_and, ◌≡◌, inl, inr, Bool, true, false,
  Option, none, some, arith,
}
use tsukumo_core.Context.{di, ei}
use tsukumo_core.EventFlag.{
  flg_exists, check_ptn, clear_ptn, set_flgptn, wait_for_ptn, tk_wai_flg, wanted_ptn, wanted_mode,
  grant_ptn, set_round, set_ptn, tk_set_flg, tk_clr_flg,
}
use tsukumo_core.Kernel.{
  cfn_max_flgid, Er, e_ok, e_par, e_id, e_ctx, e_obj, e_noexs, e_tmout, flg, event_flag, flg_queue,
  Kernel,
}
use tsukumo_core.Kernel.Codes.{has_bits, id_in_range}
use tsukumo_core.Semaphore.{enqueue, begin_wait, set_winfo}
use tsukumo_core.Task.Wait.{ta_tpri}
use tsukumo_core.Timer.{Call, returned, waiting}

module _ (P : Call (Er × Option ℕ) → Type 0) (s waiptn wfmode : ℕ) (tmout : ℤ) (i : ℕ)
    (k : Kernel) where
  pub wait_for_ptn_cases :
      let c = k.flgcbs s in
      ((e : Er) → P (returned (e, none) (ei k.mie (di k))))
      → (check_ptn c.flgptn waiptn wfmode ≡ true
          → P (
              returned
                (e_ok, some c.flgptn)
                (ei k.mie (set_flgptn s (clear_ptn c.flgptn waiptn wfmode) (di k)))))
      → (flg_exists c ≡ true
          → check_ptn c.flgptn waiptn wfmode ≡ false
          → P (
              waiting (
                ei k.mie (
                  begin_wait tmout flg i (
                    enqueue
                      (has_bits c.flgatr ta_tpri)
                      (flg_queue s)
                      i
                      (set_winfo i (event_flag waiptn wfmode 0) (di k)))))))
      → P (wait_for_ptn s waiptn wfmode tmout i k)
  unfolding wait_for_ptn
  wait_for_ptn_cases same met waits =
      ground (arith, same e_ctx, same e_noexs, same e_obj, same e_tmout)

pub tk_wai_flg_cases :
    (P : Call (Er × Option ℕ) → Type 0) (flgid : ℤ) (waiptn wfmode : ℕ) (has_ptr : Bool) (tmout : ℤ)
    (k : Kernel)
    → ((e : Er) → P (returned (e, none) k))
    → (k.current ≡ none → P (returned (e_ctx, none) (ei k.mie (di k))))
    → ((i : ℕ)
        → k.current ≡ some i
        → pos_part flgid - 1 < cfn_max_flgid
        → P (wait_for_ptn (pos_part flgid - 1) waiptn wfmode tmout i k))
    → P (tk_wai_flg flgid waiptn wfmode has_ptr tmout k)
unfolding tk_wai_flg id_in_range
tk_wai_flg_cases P flgid waiptn wfmode has_ptr tmout k same idle valid =
    elim (Option-cases k.current) [
      | inl e ↦ ground (arith, same e_id, same e_par)
      | inr (i, e) ↦ ground (arith, same e_id, same e_par, valid i)
    ]

pub tk_set_flg_cases :
    (P : Er × Kernel → Type 0) (flgid : ℤ) (setptn : ℕ) (k : Kernel)
    → let s = pos_part flgid - 1 in
      P (e_id, k)
      → P (e_noexs, ei k.mie (di k))
      → (s < cfn_max_flgid → P (e_ok, ei k.mie (set_ptn s setptn (di k))))
      → P (tk_set_flg flgid setptn k)
unfolding tk_set_flg id_in_range
tk_set_flg_cases P flgid setptn k bad absent done = ground arith

pub tk_clr_flg_cases :
    (P : Er × Kernel → Type 0) (flgid : ℤ) (clrptn : ℕ) (k : Kernel)
    → let s = pos_part flgid - 1 in
      P (e_id, k)
      → P (e_noexs, ei k.mie (di k))
      → (s < cfn_max_flgid
          → P (e_ok, ei k.mie (set_flgptn s (bit_and (k.flgcbs s).flgptn clrptn) (di k))))
      → P (tk_clr_flg flgid clrptn k)
unfolding tk_clr_flg id_in_range
tk_clr_flg_cases P flgid clrptn k bad absent done = ground arith

pub set_round_cases {ℓ} :
    (P : Kernel → Type ℓ) (s i : ℕ) (k : Kernel)
    → let w = (k.tcbs i).winfo in
      let met = check_ptn (k.flgcbs s).flgptn (wanted_ptn w) (wanted_mode w) in
      (met ≡ true → P (grant_ptn s i k)) → (met ≡ false → P k) → P (set_round s i k)
unfolding set_round
set_round_cases P s i k granted passed =
    let w = (k.tcbs i).winfo in
    elim (Bool-cases (check_ptn (k.flgcbs s).flgptn (wanted_ptn w) (wanted_mode w))) [
      | inl e ↦ rw e (granted e)
      | inr e ↦ rw e (passed e)
    ]
