-- ===== src/System/Unused/Deletions.antt =====
-- The free lists of the objects in the calls that delete.
-- The mark of an object that does not exist is set by `|`.
use tsukumo_core.Common.{
  ◌==◌, Bool-cases, ℤ, pos_part, length, update, digit, digit-bit_and, digit-zero, digit-pow,
  digit-bit_in, ℕ, suc, ◌+◌, ◌-◌, ◌^◌, ◌<◌, bit_and, bit_or, ◌≡◌, refl, ap, inl, inr, true, not, [],
  ◌∷◌, ◌++◌, arith,
}
use tsukumo_core.Context.{di}
use tsukumo_core.Invariant.Defs.{Inv}
use tsukumo_core.Invariant.Drain.{release_all-drains, release_receivers-drains}
use tsukumo_core.Kernel.{
  cfn_max_semid, cfn_max_flgid, cfn_max_mbxid, sem_queue, flg_queue, mbx_queue_of, Kernel,
}
use tsukumo_core.Kernel.Codes.{noexs_mask, has_bits}
use tsukumo_core.Mailbox.{mbx_exists, release_receivers, free_mbx, delete_mbx, tk_del_mbx}
use tsukumo_core.Mailbox.Cases.{tk_del_mbx_cases}
use tsukumo_core.Rings.{Rings, init_head}
use tsukumo_core.Semaphore.{sem_exists, release_all, free_sem, delete_sem, tk_del_sem}
use tsukumo_core.Semaphore.Cases.{tk_del_sem_cases, delete_sem_cases}
use tsukumo_core.System.Moves.{release_all-moved, release_receivers-moved}
use tsukumo_core.System.Unused.{sem_ids, flg_ids, mbx_ids, Objects, Unused-same, Unused-put}
use tsukumo_core.System.Unused.Calls.{Holds, reschedule-Objects, dispatch_if_needed-Objects, shrunk}
use tsukumo_core.System.Unused.Shrinks.{Shrinks, Shrinks-Moves}

pub marked : (x : ℕ) → has_bits (bit_or x noexs_mask) noexs_mask ≡ true
marked x =
    let both_set = digit-bit_and 31 (bit_or x (2 ^ 31)) (2 ^ 31) in
    let left_set = digit-bit_in 31 31 x in
    let right_set = digit-pow 31 31 in
    let one : digit 31 (bit_and (bit_or x (2 ^ 31)) (2 ^ 31)) ≡ 1 =
      ground (arith, both_set, left_set, right_set) in
    elim (Bool-cases (bit_and (bit_or x (2 ^ 31)) (2 ^ 31) == 0)) [
      | inl e ↦
          let nil : bit_and (bit_or x (2 ^ 31)) (2 ^ 31) ≡ 0 = ground arith in
          absurd (omega (arith, one, ap (digit 31) nil, digit-zero 31))
      | inr e ↦ rw e refl
    ]

pub init_head-empty : (a q : ℕ) (r : Rings) → r.ring q ≡ [] → (init_head a r).ring q ≡ []
unfolding init_head
init_head-empty a q r e = ground (arith, e)

module _ (k : Kernel) (o : Objects k) where
  -- An object is marked and put back.
  sem_put :
      (s : ℕ)
      → s < cfn_max_semid
      → not (has_bits (sem_ids k s) noexs_mask) ≡ true
      → k.waits.ring (sem_queue s) ≡ []
      → Objects (free_sem s k)
  sem_put s lt x nil =
      let (a, b, c) = o in
      let id = bit_or (k.semcbs s).semid noexs_mask in
      let put =
        Unused-put cfn_max_semid (sem_ids k) sem_queue s id k.free_semcb k.waits lt
          (ground (arith, x)) (marked (k.semcbs s).semid) nil a in
      (
        Unused-same cfn_max_semid (update (sem_ids k) s id) (sem_ids (free_sem s k)) sem_queue
            (k.free_semcb ++ s ∷ []) (k.free_semcb ++ s ∷ []) k.waits k.waits refl
            (λ j. ground arith) (λ q e. e) put,
        b,
        c,
      )

  mbx_put :
      (s : ℕ)
      → s < cfn_max_mbxid
      → not (has_bits (mbx_ids k s) noexs_mask) ≡ true
      → k.waits.ring (mbx_queue_of s) ≡ []
      → Objects (free_mbx s k)
  mbx_put s lt x nil =
      let (a, b, c) = o in
      let id = bit_or (s + 1) noexs_mask in
      let w = init_head (mbx_queue_of s) k.waits in
      let put =
        Unused-put cfn_max_mbxid (mbx_ids k) mbx_queue_of s id k.free_mbxcb k.waits lt
          (ground (arith, x)) (marked (s + 1)) nil c in
      (
        Unused-same cfn_max_semid (sem_ids k) (sem_ids k) sem_queue k.free_semcb k.free_semcb
            k.waits w refl (λ j. refl) (λ q e. init_head-empty (mbx_queue_of s) q k.waits e) a,
        Unused-same cfn_max_flgid (flg_ids k) (flg_ids k) flg_queue k.free_flgcb k.free_flgcb
            k.waits w refl (λ j. refl) (λ q e. init_head-empty (mbx_queue_of s) q k.waits e) b,
        Unused-same cfn_max_mbxid (update (mbx_ids k) s id) (mbx_ids (free_mbx s k)) mbx_queue_of
            (k.free_mbxcb ++ s ∷ []) (k.free_mbxcb ++ s ∷ []) k.waits w refl (λ j. ground arith)
            (λ q e. init_head-empty (mbx_queue_of s) q k.waits e) put,
      )

module _ (k : Kernel) (v : Inv k) (o : Objects k) where
  delete_sem-Objects :
      (s : ℕ) → s < cfn_max_semid → sem_exists (k.semcbs s) ≡ true → Objects (delete_sem s k)
  delete_sem-Objects s lt x =
      let q = sem_queue s in
      let n = length (k.waits.ring (sem_queue s)) in
      let r = release_all n q k in
      let f = release_all-moved Shrinks Shrinks-Moves n q k in
      let gone : not (has_bits (sem_ids r s) noexs_mask) ≡ true = rw (f.semids s) x in
      let freed = sem_put r (shrunk k r o f) s lt gone (release_all-drains n q k v (omega arith)) in
      delete_sem_cases Objects s k (λ _. reschedule-Objects (free_sem s r) freed) (λ _. freed)

  delete_mbx-Objects :
      (b : ℕ) → b < cfn_max_mbxid → mbx_exists (k.mbxcbs b) ≡ true → Objects (delete_mbx b k)
  unfolding delete_mbx
  delete_mbx-Objects b lt x =
      let q = mbx_queue_of b in
      let n = suc (length (k.waits.ring (mbx_queue_of b))) in
      let r = release_receivers n b k in
      let f = release_receivers-moved Shrinks Shrinks-Moves n b k in
      let gone : not (has_bits (mbx_ids r b) noexs_mask) ≡ true = rw (f.mbxids b) x in
      dispatch_if_needed-Objects (free_mbx b r)
        (mbx_put r (shrunk k r o f) b lt gone (release_receivers-drains n b k v lt (omega arith)))

module _ (k : Kernel) (o : Objects k) where
  pub tk_del_sem-Holds : (semid : ℤ) → Inv k → Holds (tk_del_sem semid k)
  tk_del_sem-Holds semid v =
      tk_del_sem_cases Holds semid k (record { objects = o }) (record { objects = o })
        (λ lt x. record { objects = delete_sem-Objects (di k) v o (pos_part semid - 1) lt x })

  pub tk_del_mbx-Holds : (mbxid : ℤ) → Inv k → Holds (tk_del_mbx mbxid k)
  tk_del_mbx-Holds mbxid v =
      tk_del_mbx_cases Holds mbxid k (record { objects = o }) (record { objects = o })
        (λ lt x. record { objects = delete_mbx-Objects (di k) v o (pos_part mbxid - 1) lt x })
