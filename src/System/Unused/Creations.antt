-- ===== src/System/Unused/Creations.antt =====
-- The free lists of the objects in the calls that create.
use tsukumo_core.Common.{
  Option-cases, if_cases, pos_part, update, count-cons, ℕ, ◌+◌, bit_and, ◌≡◌, refl, subst, inl, inr,
  true, not, Option, none, some, List, [], ◌∷◌, arith,
}
use tsukumo_core.Context.{di}
use tsukumo_core.EventFlag.{TCflg, made_flgcb, allocate_flgcb, tk_cre_flg}
use tsukumo_core.Kernel.{
  cfn_max_semid, cfn_max_flgid, cfn_max_mbxid, Created, free_tcb, sem_queue, flg_queue,
  mbx_queue_of, Kernel,
}
use tsukumo_core.Kernel.Codes.{not_32, noexs_mask, has_bits, is_ok}
use tsukumo_core.Mailbox.{TCmbx, made_mbxcb, allocate_mbxcb, tk_cre_mbx}
use tsukumo_core.Rings.{Rings, init_link, init_head, first_entry}
use tsukumo_core.Semaphore.{TCsem, check_csem, made_semcb, allocate_semcb, tk_cre_sem}
use tsukumo_core.System.{fresh}
use tsukumo_core.System.Unused.{
  Unused, sem_ids, flg_ids, mbx_ids, Objects, Unused-same, Unused-take,
}
use tsukumo_core.System.Unused.Calls.{Holds, shrunk}
use tsukumo_core.System.Unused.Deletions.{init_head-empty}
use tsukumo_core.Task.{TCtsk, reset_tcb, new_task, allocate_tcb, tk_cre_tsk}
use tsukumo_core.Task.Cases.{tk_cre_tsk_cases}

-- Nobody is queued at an object that may be created.
pub Unused-fresh :
    (n : ℕ) (ids queue : ℕ → ℕ) (l : List ℕ) (r : Rings)
    → Unused n ids queue l r
    → fresh queue l r ≡ true
Unused-fresh n ids queue [] r u = refl
Unused-fresh n ids queue (s ∷ l) r u = rw (u.empty s (ground (arith, count-cons s s l))) refl

module _ (k : Kernel) (o : Objects k) where
  -- A queue that is emptied again.
  emptied :
      (a : ℕ) (n : ℕ) (ids queue : ℕ → ℕ) (l : List ℕ)
      → Unused n ids queue l k.waits
      → Unused n ids queue l (init_head a k.waits)
  emptied a n ids queue l u =
      Unused-same n ids ids queue l l k.waits (init_head a k.waits) refl (λ s. refl)
        (λ q e. init_head-empty a q k.waits e) u

  allocate_semcb-Objects :
      (p : TCsem) (l : List ℕ) → k.free_semcb ≡ l → Objects (allocate_semcb p l (di k)).1
  unfolding allocate_semcb
  allocate_semcb-Objects p [] e = o
  allocate_semcb-Objects p (s ∷ l) e =
      let (a, b, c) = o in
      let id = bit_and (k.semcbs s).semid (not_32 noexs_mask) in
      let w = init_head (sem_queue s) k.waits in
      let a' = subst (λ m. Unused cfn_max_semid (sem_ids k) sem_queue m k.waits) e a in
      let taken = Unused-take cfn_max_semid (sem_ids k) sem_queue s id l k.waits a' in
      (
        Unused-same cfn_max_semid (update (sem_ids k) s id)
            (λ j. (update k.semcbs s (made_semcb p (k.semcbs s)) j).semid) sem_queue l l w w refl
            (λ j. ground arith) (λ q h. h) taken,
        emptied (sem_queue s) cfn_max_flgid (flg_ids k) flg_queue k.free_flgcb b,
        emptied (sem_queue s) cfn_max_mbxid (mbx_ids k) mbx_queue_of k.free_mbxcb c,
      )

  pub tk_cre_sem-Holds : (p : Option TCsem) → Holds (tk_cre_sem p k)
  unfolding tk_cre_sem
  tk_cre_sem-Holds none = record { objects = o }
  tk_cre_sem-Holds (some p) =
      if_cases {A = Created × Kernel} Holds (not (is_ok (check_csem p)))
        (λ _. record { objects = o })
        (λ _. record { objects = allocate_semcb-Objects p k.free_semcb refl })

  allocate_flgcb-Objects :
      (p : TCflg) (l : List ℕ) → k.free_flgcb ≡ l → Objects (allocate_flgcb p l (di k)).1
  unfolding allocate_flgcb
  allocate_flgcb-Objects p [] e = o
  allocate_flgcb-Objects p (s ∷ l) e =
      let (a, b, c) = o in
      let id = bit_and (k.flgcbs s).flgid (not_32 noexs_mask) in
      let w = init_head (flg_queue s) k.waits in
      let b' = subst (λ m. Unused cfn_max_flgid (flg_ids k) flg_queue m k.waits) e b in
      let taken = Unused-take cfn_max_flgid (flg_ids k) flg_queue s id l k.waits b' in
      (
        emptied (flg_queue s) cfn_max_semid (sem_ids k) sem_queue k.free_semcb a,
        Unused-same cfn_max_flgid (update (flg_ids k) s id)
            (λ j. (update k.flgcbs s (made_flgcb p (k.flgcbs s)) j).flgid) flg_queue l l w w refl
            (λ j. ground arith) (λ q h. h) taken,
        emptied (flg_queue s) cfn_max_mbxid (mbx_ids k) mbx_queue_of k.free_mbxcb c,
      )

  pub tk_cre_flg-Holds : (p : Option TCflg) → Holds (tk_cre_flg p k)
  unfolding tk_cre_flg
  tk_cre_flg-Holds none = record { objects = o }
  tk_cre_flg-Holds (some p) =
      if_cases {A = Created × Kernel} Holds (has_bits p.flgatr (not_32 0x09))
        (λ _. record { objects = o })
        (λ _. record { objects = allocate_flgcb-Objects p k.free_flgcb refl })

  allocate_mbxcb-Objects :
      (p : TCmbx) (l : List ℕ) → k.free_mbxcb ≡ l → Objects (allocate_mbxcb p l (di k)).1
  unfolding allocate_mbxcb
  allocate_mbxcb-Objects p [] e = o
  allocate_mbxcb-Objects p (s ∷ l) e =
      let (a, b, c) = o in
      let id = bit_and (k.mbxcbs s).mbxid (not_32 noexs_mask) in
      let w = init_head (mbx_queue_of s) k.waits in
      let c' = subst (λ m. Unused cfn_max_mbxid (mbx_ids k) mbx_queue_of m k.waits) e c in
      let taken = Unused-take cfn_max_mbxid (mbx_ids k) mbx_queue_of s id l k.waits c' in
      (
        emptied (mbx_queue_of s) cfn_max_semid (sem_ids k) sem_queue k.free_semcb a,
        emptied (mbx_queue_of s) cfn_max_flgid (flg_ids k) flg_queue k.free_flgcb b,
        Unused-same cfn_max_mbxid (update (mbx_ids k) s id)
            (λ j. (update k.mbxcbs s (made_mbxcb p (k.mbxcbs s)) j).mbxid) mbx_queue_of l l w w refl
            (λ j. ground arith) (λ q h. h) taken,
      )

  pub tk_cre_mbx-Holds : (p : Option TCmbx) → Holds (tk_cre_mbx p k)
  unfolding tk_cre_mbx
  tk_cre_mbx-Holds none = record { objects = o }
  tk_cre_mbx-Holds (some p) =
      if_cases {A = Created × Kernel} Holds (has_bits p.mbxatr (not_32 0x03))
        (λ _. record { objects = o })
        (λ _. record { objects = allocate_mbxcb-Objects p k.free_mbxcb refl })

  -- A new task's links are on no wait queue.
  new_task-Objects : (p : TCtsk) (stack_end i : ℕ) → Objects (new_task p stack_end i (di k))
  unfolding new_task reset_tcb init_link
  new_task-Objects p stack_end i = shrunk k (new_task p stack_end i (di k)) o (record {
    rings = λ q e. e;
    semids = λ s. refl;
    flgids = λ s. refl;
    mbxids = λ b. refl;
    free_sems = refl;
    free_flgs = refl;
    free_mbxs = refl;
  })

  allocate_tcb-Holds : (p : TCtsk) (stack_end : ℕ) → Holds (allocate_tcb p stack_end (di k))
  unfolding allocate_tcb
  allocate_tcb-Holds p stack_end = elim (Option-cases (first_entry k.heads free_tcb)) [
    | inl e ↦ rw (e, allocate_tcb) (record { objects = o })
    | inr (i, e) ↦ rw (e, allocate_tcb) (record { objects = new_task-Objects p stack_end i })
  ]

  pub tk_cre_tsk-Holds : (p : Option TCtsk) → Holds (tk_cre_tsk p k)
  tk_cre_tsk-Holds p =
      tk_cre_tsk_cases Holds p k (λ e. record { objects = o })
        (λ q _ _. record { objects = (allocate_tcb-Holds q (q.bufptr + pos_part q.stksz)).objects })
