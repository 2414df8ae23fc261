-- ===== src/Invariant/ObjectCalls.antt =====
-- The invariant, and the calls of kernel/semaphore.c.
use tsukumo_core.Common.{
  Option-cases, ℤ, pos_part, sub_ℕ, ltb_ℤ, length, ℕ, zero, suc, ◌-◌, ◌<◌, ◌≡◌, refl, inl, inr,
  false, arith,
}
use tsukumo_core.Context.{di}
use tsukumo_core.Invariant.Defs.{Inv, Keeps, Leaves}
use tsukumo_core.Invariant.Enqueue.{begin_wait-enqueue-Inv}
use tsukumo_core.Invariant.Switch.{reschedule-Inv, IsRunnable, CurrentRuns}
use tsukumo_core.Invariant.Wait.{
  take_units-Inv, sem_serve_waiters-Inv, complete_wait-Inv, first_entry-waits,
}
use tsukumo_core.Kernel.{cfn_max_semid, e_dlt, sem, semaphore, sem_queue, Kernel}
use tsukumo_core.Kernel.Codes.{has_bits}
use tsukumo_core.Rings.{first_entry}
use tsukumo_core.Semaphore.{
  take_cnt, wait_for_units, tk_wai_sem, add_units, tk_sig_sem, release_all, free_sem, delete_sem,
  tk_del_sem,
}
use tsukumo_core.Semaphore.Cases.{
  wait_for_units_cases, tk_wai_sem_cases, tk_sig_sem_cases, tk_del_sem_cases, delete_sem_cases,
}
use tsukumo_core.Task.Wait.{ta_tpri, sem_serve_waiters, complete_wait}

take_cnt-Inv : (s : ℕ) (cnt : ℤ) (k : Kernel) → Inv k → Inv (take_cnt s cnt k)
take_cnt-Inv s cnt k v = take_units-Inv s (pos_part cnt) k v

wait_for_units-Inv :
    (s : ℕ) (cnt tmout : ℤ) (i : ℕ) (k : Kernel)
    → Inv k
    → IsRunnable k.tcbs k.heads k.waits i
    → s < cfn_max_semid
    → 0 < pos_part cnt
    → Leaves (wait_for_units s cnt tmout i k)
wait_for_units-Inv s cnt tmout i k v r lt some_cnt =
    wait_for_units_cases Leaves s cnt tmout i k (λ e. record { kept = v })
      (λ _. record { kept = take_cnt-Inv s cnt k v })
      (λ _ _. record {
        kept =
            begin_wait-enqueue-Inv i (sem_queue s) (has_bits (k.semcbs s).sematr ta_tpri) tmout sem
              (semaphore (pos_part cnt) s) (di k) v r (refl, lt, some_cnt);
      })

-- Where the invariant holds and the current task runs, tk_wai_sem keeps the invariant, whether it
-- returns or its task waits.
pub tk_wai_sem-Inv :
    (semid cnt tmout : ℤ) (k : Kernel)
    → Inv k
    → CurrentRuns k
    → Leaves (tk_wai_sem semid cnt tmout k)
tk_wai_sem-Inv semid cnt tmout k v r =
    tk_wai_sem_cases Leaves semid cnt tmout k (λ e. record { kept = v }) (λ _. record { kept = v })
      (λ i e lt some_cnt.
        wait_for_units-Inv (pos_part semid - 1) cnt tmout i k v (r i e) lt some_cnt)

pub add_units-Inv :
    (s : ℕ) (cnt : ℤ) (k : Kernel)
    → ltb_ℤ (sub_ℕ (k.semcbs s).maxsem (k.semcbs s).semcnt) cnt ≡ false
    → Inv k
    → Inv (add_units s cnt k)
add_units-Inv s cnt k fits v = record {
  heads_linked = v.heads_linked;
  waits_linked = v.waits_linked;
  placed = v.placed;
  named = v.named;
  stray = v.stray;
  wakeups = v.wakeups;
  units = λ t. ground (arith, v.units s, v.units t);
}

-- Where the invariant holds, it holds after tk_sig_sem, on every branch.
pub tk_sig_sem-Inv : (semid cnt : ℤ) (k : Kernel) → Inv k → Keeps (tk_sig_sem semid cnt k)
tk_sig_sem-Inv semid cnt k v =
    let s = pos_part semid - 1 in
    let k' = add_units s cnt (di k) in
    tk_sig_sem_cases Keeps semid cnt k (λ e _. record { kept = v }) (λ e _. record { kept = v })
      (λ _ fits. record {
        kept =
            reschedule-Inv (sem_serve_waiters s k')
              (sem_serve_waiters-Inv s k' (add_units-Inv s cnt (di k) fits v));
      })

release_all-Inv : (f q : ℕ) (k : Kernel) → Inv k → Inv (release_all f q k)
unfolding release_all
release_all-Inv zero q k v = v
release_all-Inv (suc f) q k v = elim (Option-cases (first_entry k.waits q)) [
  | inl e ↦ rw (e, release_all) v
  | inr (i, e) ↦
      let (lt, here, waits) = first_entry-waits i q k v e in
      rw (e, release_all)
        (release_all-Inv f q (complete_wait i e_dlt k) (complete_wait-Inv i e_dlt k v lt waits))
]

free_sem-Inv : (s : ℕ) (k : Kernel) → Inv k → Inv (free_sem s k)
free_sem-Inv s k v = record {
  heads_linked = v.heads_linked;
  waits_linked = v.waits_linked;
  placed = v.placed;
  named = v.named;
  stray = v.stray;
  wakeups = v.wakeups;
  units = λ t. ground (arith, v.units t);
}

delete_sem-Inv : (s : ℕ) (k : Kernel) → Inv k → Inv (delete_sem s k)
delete_sem-Inv s k v =
    let k' = release_all (length (k.waits.ring (sem_queue s))) (sem_queue s) k in
    let freed = free_sem-Inv s k' (release_all-Inv _ (sem_queue s) k v) in
    delete_sem_cases Inv s k (λ _. reschedule-Inv (free_sem s k') freed) (λ _. freed)

-- Where the invariant holds, it holds after tk_del_sem, on every branch.
pub tk_del_sem-Inv : (semid : ℤ) (k : Kernel) → Inv k → Keeps (tk_del_sem semid k)
tk_del_sem-Inv semid k v =
    tk_del_sem_cases Keeps semid k (record { kept = v }) (record { kept = v })
      (λ _ _. record { kept = delete_sem-Inv (pos_part semid - 1) (di k) v })
