-- ===== src/Semaphore/Cases.antt =====
-- The branches of the calls on semaphores, with the tests that lead to each.
use tsukumo_core.Common.{
  Bool-cases, Option-cases, ℤ, pos_part, sub_ℕ, ltb_ℤ, length, is_empty, ℕ, ◌-◌, ◌<◌, ◌≡◌, refl,
  inl, inr, true, false, none, some, arith,
}
use tsukumo_core.Context.{di, ei}
use tsukumo_core.Kernel.{
  cfn_max_semid, Er, e_ok, e_par, e_id, e_ctx, e_noexs, e_qovr, e_tmout, sem, semaphore, sem_queue,
  Kernel,
}
use tsukumo_core.Kernel.Codes.{has_bits, id_in_range, is_ok}
use tsukumo_core.Semaphore.{
  sem_exists, may_take, enqueue, begin_wait, take_cnt, set_winfo, wait_for_units, tk_wai_sem,
  add_units, tk_sig_sem, release_all, free_sem, delete_sem, tk_del_sem,
}
use tsukumo_core.Task.Queue.{reschedule}
use tsukumo_core.Task.Wait.{ta_tpri, sem_serve_waiters}
use tsukumo_core.Timer.{Call, returned, waiting}

module _ (P : Call Er → Type 0) (s : ℕ) (cnt tmout : ℤ) (i : ℕ) (k : Kernel) where
  pub wait_for_units_cases :
      ((e : Er) → P (returned e (ei k.mie (di k))))
      → (may_take s cnt i (di k) ≡ true → P (returned e_ok (ei k.mie (take_cnt s cnt (di k)))))
      → (sem_exists (k.semcbs s) ≡ true
          → may_take s cnt i (di k) ≡ false
          → P (
              waiting (
                ei k.mie (
                  begin_wait tmout sem i (
                    enqueue
                      (has_bits (k.semcbs s).sematr ta_tpri)
                      (sem_queue s)
                      i
                      (set_winfo i (semaphore (pos_part cnt) s) (di k)))))))
      → P (wait_for_units s cnt tmout i k)
  unfolding wait_for_units
  wait_for_units_cases same taken waits =
      ground (arith, same e_ctx, same e_noexs, same e_par, same e_tmout)

pub tk_wai_sem_cases :
    (P : Call Er → Type 0) (semid cnt tmout : ℤ) (k : Kernel)
    → ((e : Er) → P (returned e k))
    → (k.current ≡ none → P (returned e_ctx (ei k.mie (di k))))
    → ((i : ℕ)
        → k.current ≡ some i
        → pos_part semid - 1 < cfn_max_semid
        → 0 < pos_part cnt
        → P (wait_for_units (pos_part semid - 1) cnt tmout i k))
    → P (tk_wai_sem semid cnt tmout k)
unfolding tk_wai_sem id_in_range
tk_wai_sem_cases P semid cnt tmout k same idle valid = elim (Option-cases k.current) [
  | inl e ↦ ground (arith, same e_id, same e_par)
  | inr (i, e) ↦ ground (arith, same e_id, same e_par, valid i)
]

pub tk_sig_sem_cases :
    (P : Er × Kernel → Type 0) (semid cnt : ℤ) (k : Kernel)
    → let s = pos_part semid - 1 in
      ((e : Er) → is_ok e ≡ false → P (e, k))
      → ((e : Er) → is_ok e ≡ false → P (e, ei k.mie (di k)))
      → (s < cfn_max_semid
          → ltb_ℤ (sub_ℕ (k.semcbs s).maxsem (k.semcbs s).semcnt) cnt ≡ false
          → P (e_ok, ei k.mie (reschedule (sem_serve_waiters s (add_units s cnt (di k))))))
      → P (tk_sig_sem semid cnt k)
unfolding tk_sig_sem is_ok id_in_range
tk_sig_sem_cases P semid cnt k same unchanged done =
    ground (arith, same e_id refl, same e_par refl, unchanged e_noexs refl, unchanged e_qovr refl)

pub tk_del_sem_cases :
    (P : Er × Kernel → Type 0) (semid : ℤ) (k : Kernel)
    → let s = pos_part semid - 1 in
      P (e_id, k)
      → P (e_noexs, ei k.mie (di k))
      → (s < cfn_max_semid
          → sem_exists (k.semcbs s) ≡ true
          → P (e_ok, ei k.mie (delete_sem s (di k))))
      → P (tk_del_sem semid k)
unfolding tk_del_sem id_in_range
tk_del_sem_cases P semid k bad absent done = ground arith

pub delete_sem_cases {ℓ} :
    (P : Kernel → Type ℓ) (s : ℕ) (k : Kernel)
    → let waiters = k.waits.ring (sem_queue s) in
      let k' = free_sem s (release_all (length waiters) (sem_queue s) k) in
      (is_empty waiters ≡ false → P (reschedule k'))
      → (is_empty waiters ≡ true → P k')
      → P (delete_sem s k)
unfolding delete_sem
delete_sem_cases P s k some_wait none_wait =
    elim (Bool-cases (is_empty (k.waits.ring (sem_queue s)))) [
      | inl e ↦ rw e (none_wait e)
      | inr e ↦ rw e (some_wait e)
    ]
