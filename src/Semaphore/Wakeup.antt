-- ===== src/Semaphore/Wakeup.antt =====
-- Wakeups on a semaphore: what kernel/semaphore.c leaves in the queue after a signal, and after a
-- wait that ends early.
use tsukumo_core.Common.{
  Bool-cases, ℤ, pos_part, sub_ℕ, ltb_ℤ, ℕ, ◌+◌, ◌-◌, ◌<◌, ◌≡◌, refl, sym, ◌∙◌, subst, inl, inr,
  Bool, true, false, some, List, [], ◌∷◌, arith,
}
use tsukumo_core.Context.{di, ei}
use tsukumo_core.Invariant.Defs.{Inv}
use tsukumo_core.Invariant.ObjectCalls.{add_units-Inv}
use tsukumo_core.Invariant.Wait.{end_wait-Inv, Queued-ring}
use tsukumo_core.Kernel.{cfn_max_tskid, cfn_max_semid, Er, e_ok, wai, sem_queue, Kernel}
use tsukumo_core.Kernel.Codes.{has_bits, is_ok, same_task}
use tsukumo_core.Rings.{first_entry}
use tsukumo_core.Semaphore.{add_units, tk_sig_sem}
use tsukumo_core.Semaphore.Cases.{tk_sig_sem_cases}
use tsukumo_core.Semaphore.Serve.{
  served-sematr, serve_loop-link, Starved, serve_loop-Starved, Asking-ring, handed_out,
  serve_loop-handed_out, serve_loop-first,
}
use tsukumo_core.Task.Queue.{get_highest_priority_task, reschedule}
use tsukumo_core.Task.Wait.{
  ta_cnt, sem_request, sem_awaited, end_wait, take_units, serve_loop, serve_loop_cases,
  sem_serve_waiters, hands_on, complete_wait,
}

-- Nobody waits for semaphore `s` that could be served: with TA_CNT each waiter asks for more than
-- there is, and without it the first waiter does.
abbrev pub NoneServable : ℕ → Kernel → Type 0
NoneServable s k =
    (has_bits (k.semcbs s).sematr ta_cnt ≡ true → (j : ℕ) → Starved s k j)
    × (has_bits (k.semcbs s).sematr ta_cnt ≡ false
        → (j : ℕ) → first_entry k.waits (sem_queue s) ≡ some j
        → (k.semcbs s).semcnt < sem_request (k.tcbs j).winfo)

sem_serve_waiters-sematr :
    (s : ℕ) (l : List ℕ) (k : Kernel) → ((serve_loop s l k).semcbs s).sematr ≡ (k.semcbs s).sematr
unfolding serve_loop
sem_serve_waiters-sematr s [] k = refl
sem_serve_waiters-sematr s (i ∷ l) k =
    let req = sem_request (k.tcbs i).winfo in
    let same = served-sematr s i req k in
    serve_loop_cases (λ r. (r.semcbs s).sematr ≡ (k.semcbs s).sematr) s i l k (λ _ _. refl)
      (λ _ _. sem_serve_waiters-sematr s l k) (λ _ _. same)
      (λ _. sem_serve_waiters-sematr s l (take_units s req (end_wait i e_ok k)) ∙ same)

-- Where the invariant holds, `tkmc_sem_serve_waiters` leaves no waiter that it could serve.
sem_serve_waiters-NoneServable :
    (s : ℕ) (k : Kernel) → Inv k → s < cfn_max_semid → NoneServable s (sem_serve_waiters s k)
unfolding sem_serve_waiters
sem_serve_waiters-NoneServable s k v lt =
    let l = k.waits.ring (sem_queue s) in
    let m = Queued-ring (sem_queue s) k v in
    let asking = Asking-ring s k l v lt m in
    let atr = sem_serve_waiters-sematr s l k in
    (
      (λ c j on_q.
          let all = serve_loop-Starved s l k (rw (← atr) c) m asking j in
          ground (arith, all, serve_loop-link s l k j, v.waits_linked j (sem_queue s))),
      (λ c j f. serve_loop-first s l k (rw (← atr) c) refl m asking j f),
    )

-- A signal of `n` units to semaphore `s`, from kernel `k`: nobody waits that could be served, and
-- the units that are left and the units handed out to the tasks that were in the queue add up to
-- what there was and the units given back.
pub record Signalled (s n : ℕ) (k k' : Kernel) : Type 0 where
  pub waiters : NoneServable s k'
  pub units :
      (k'.semcbs s).semcnt + handed_out s k' (k.waits.ring (sem_queue s)) ≡ (k.semcbs s).semcnt + n

Signalled-at :
    (s : ℕ) (cnt : ℤ) (k : Kernel)
    → Inv k
    → s < cfn_max_semid
    → ltb_ℤ (sub_ℕ (k.semcbs s).maxsem (k.semcbs s).semcnt) cnt ≡ false
    → Signalled s (pos_part cnt) k (sem_serve_waiters s (add_units s cnt (di k)))
unfolding sem_serve_waiters
Signalled-at s cnt k v lt fits =
    let k' = add_units s cnt (di k) in
    let v' = add_units-Inv s cnt (di k) fits v in
    let l = k.waits.ring (sem_queue s) in
    record {
      waiters = sem_serve_waiters-NoneServable s k' v' lt;
      units = ground (arith, serve_loop-handed_out s l k' (Queued-ring (sem_queue s) k' v'));
    }

reschedule-Signalled :
    (s n : ℕ) (m : Bool) (k k' : Kernel)
    → Signalled s n k k'
    → Signalled s n k (ei m (reschedule k'))
unfolding reschedule
reschedule-Signalled s n m k k' h =
    elim (Bool-cases (same_task (get_highest_priority_task k') k'.current)) [
      | inl e ↦ rw e (record { waiters = h.waiters; units = h.units })
      | inr e ↦ rw e (record { waiters = h.waiters; units = h.units })
    ]

-- Where the invariant holds, a tk_sig_sem that returns E_OK leaves nobody in the semaphore's queue
-- that could be served (with TA_CNT each waiter, without it the first one, asks for more than
-- there is), and the units left and those asked for by the tasks that it took off the queue add up
-- to the units before and the units given back.
pub tk_sig_sem-Signalled :
    (semid cnt : ℤ) (k : Kernel)
    → Inv k
    → (tk_sig_sem semid cnt k).0 ≡ e_ok
    → Signalled (pos_part semid - 1) (pos_part cnt) k (tk_sig_sem semid cnt k).1
unfolding is_ok
tk_sig_sem-Signalled semid cnt k v =
    tk_sig_sem_cases (λ r. r.0 ≡ e_ok → Signalled (pos_part semid - 1) (pos_part cnt) k r.1) semid
      cnt k (λ e fails ok. absurd (ground arith)) (λ e fails ok. absurd (ground arith))
      (λ lt fits _.
        reschedule-Signalled (pos_part semid - 1) (pos_part cnt) k.mie k
          (sem_serve_waiters (pos_part semid - 1) (add_units (pos_part semid - 1) cnt (di k)))
          (Signalled-at (pos_part semid - 1) cnt k v lt fits))

handed-complete_wait :
    (i : ℕ) (cause : Er) (k : Kernel)
    → hands_on (k.tcbs i).tskwait cause ≡ true
    → complete_wait i cause k
      ≡ sem_serve_waiters (sem_awaited (k.tcbs i).winfo) (end_wait i cause k)
unfolding complete_wait end_wait
handed-complete_wait i cause k h = ground arith

-- Where the invariant holds, the end of a wait for a semaphore by time-out or by tk_rel_wai leaves
-- nobody in that semaphore's queue that could be served.
pub complete_wait-NoneServable :
    (i : ℕ) (cause : Er) (k : Kernel)
    → Inv k
    → i < cfn_max_tskid
    → (k.tcbs i).tskstat ≡ wai
    → hands_on (k.tcbs i).tskwait cause ≡ true
    → NoneServable (sem_awaited (k.tcbs i).winfo) (complete_wait i cause k)
complete_wait-NoneServable i cause k v lt w h =
    subst (NoneServable (sem_awaited (k.tcbs i).winfo)) (sym (handed-complete_wait i cause k h)) (
      sem_serve_waiters-NoneServable (sem_awaited (k.tcbs i).winfo) (end_wait i cause k)
        (end_wait-Inv i cause k v lt w) (ground (arith, v.placed i lt)))
