-- ===== src/System/Boot/Tables.antt =====
-- The loops over the objects' control blocks at the start, and the free lists that they leave.
use tsukumo_core.Common.{
  update, count-nil, count-snoc, ℕ, zero, suc, ◌+◌, bit_or, ◌≡◌, refl, sym, subst, true, List, [],
  ◌∷◌, ◌++◌, arith,
}
use tsukumo_core.EventFlag.{init_flgcbs}
use tsukumo_core.Kernel.{sem_queue, flg_queue, mbx_queue_of, Kernel}
use tsukumo_core.Kernel.Codes.{noexs_mask, has_bits}
use tsukumo_core.Mailbox.{init_mbxcbs}
use tsukumo_core.Rings.{Rings}
use tsukumo_core.Semaphore.{init_semcbs}
use tsukumo_core.System.Unused.{Unused, sem_ids, flg_ids, mbx_ids, Unused-same}
use tsukumo_core.System.Unused.Deletions.{marked}
use tsukumo_core.Task.{reset_tcb, default_tcb, init_tcbs}

-- One more control block is marked and put on the free list.
Unused-more :
    (n : ℕ) (ids queue : ℕ → ℕ) (id : ℕ) (l : List ℕ) (r : Rings)
    → has_bits id noexs_mask ≡ true
    → ((q : ℕ) → r.ring q ≡ [])
    → Unused n ids queue l r
    → Unused (suc n) (update ids n id) queue (l ++ n ∷ []) r
Unused-more n ids queue id l r new nil u = record {
  in_table = λ j h. ground (arith, h, count-snoc j n l, u.in_table j);
  once = λ j. ground (arith, u.once j, count-snoc j n l, u.in_table j);
  gone = λ j h. ground (arith, h, new, count-snoc j n l, u.gone j);
  empty = λ j h. nil (queue j);
}

Unused-none : (ids queue : ℕ → ℕ) (l : List ℕ) (r : Rings) → l ≡ [] → Unused 0 ids queue l r
Unused-none ids queue l r e =
    subst (λ m. Unused 0 ids queue m r) (sym e)
      (record {
        in_table = λ s h. absurd (omega (arith, h, count-nil s));
        once = λ s. omega (arith, count-nil s);
        gone = λ s h. absurd (omega (arith, h, count-nil s));
        empty = λ s h. absurd (omega (arith, h, count-nil s));
      })

-- Where every wait queue is empty at the end, the control blocks of each table are unused.
module _ (r : Rings) (nil : (q : ℕ) → r.ring q ≡ []) where
  pub init_semcbs-Unused :
      (n : ℕ) (k : Kernel)
      → k.free_semcb ≡ []
      → Unused n (sem_ids (init_semcbs n k)) sem_queue (init_semcbs n k).free_semcb r
  unfolding init_semcbs
  init_semcbs-Unused zero k e = Unused-none (sem_ids k) sem_queue k.free_semcb r e
  init_semcbs-Unused (suc n) k e =
      let l = (init_semcbs n k).free_semcb in
      Unused-same (suc n) (update (sem_ids (init_semcbs n k)) n (bit_or (n + 1) noexs_mask))
        (sem_ids (init_semcbs (suc n) k)) sem_queue (l ++ n ∷ []) (l ++ n ∷ []) r r refl
        (λ j. ground arith) (λ q h. h)
        (Unused-more n (sem_ids (init_semcbs n k)) sem_queue (bit_or (n + 1) noexs_mask) l r
          (marked (n + 1)) nil (init_semcbs-Unused n k e))

  pub init_flgcbs-Unused :
      (n : ℕ) (k : Kernel)
      → k.free_flgcb ≡ []
      → Unused n (flg_ids (init_flgcbs n k)) flg_queue (init_flgcbs n k).free_flgcb r
  unfolding init_flgcbs
  init_flgcbs-Unused zero k e = Unused-none (flg_ids k) flg_queue k.free_flgcb r e
  init_flgcbs-Unused (suc n) k e =
      let l = (init_flgcbs n k).free_flgcb in
      Unused-same (suc n) (update (flg_ids (init_flgcbs n k)) n (bit_or (n + 1) noexs_mask))
        (flg_ids (init_flgcbs (suc n) k)) flg_queue (l ++ n ∷ []) (l ++ n ∷ []) r r refl
        (λ j. ground arith) (λ q h. h)
        (Unused-more n (flg_ids (init_flgcbs n k)) flg_queue (bit_or (n + 1) noexs_mask) l r
          (marked (n + 1)) nil (init_flgcbs-Unused n k e))

  pub init_mbxcbs-Unused :
      (n : ℕ) (k : Kernel)
      → k.free_mbxcb ≡ []
      → Unused n (mbx_ids (init_mbxcbs n k)) mbx_queue_of (init_mbxcbs n k).free_mbxcb r
  unfolding init_mbxcbs
  init_mbxcbs-Unused zero k e = Unused-none (mbx_ids k) mbx_queue_of k.free_mbxcb r e
  init_mbxcbs-Unused (suc n) k e =
      let l = (init_mbxcbs n k).free_mbxcb in
      Unused-same (suc n) (update (mbx_ids (init_mbxcbs n k)) n (bit_or (n + 1) noexs_mask))
        (mbx_ids (init_mbxcbs (suc n) k)) mbx_queue_of (l ++ n ∷ []) (l ++ n ∷ []) r r refl
        (λ j. ground arith) (λ q h. h)
        (Unused-more n (mbx_ids (init_mbxcbs n k)) mbx_queue_of (bit_or (n + 1) noexs_mask) l r
          (marked (n + 1)) nil (init_mbxcbs-Unused n k e))

-- What the loops leave alone: the scheduler's state.
pub record Still (k k' : Kernel) : Type 0 where
  pub current : k'.current ≡ k.current
  pub msip : k'.msip ≡ k.msip

-- The semaphores.
pub record SemsKept (k k' : Kernel) : Type 0 where
  pub ids : (s : ℕ) → sem_ids k' s ≡ sem_ids k s
  pub free : k'.free_semcb ≡ k.free_semcb

-- The event flags.
pub record FlgsKept (k k' : Kernel) : Type 0 where
  pub ids : (s : ℕ) → flg_ids k' s ≡ flg_ids k s
  pub free : k'.free_flgcb ≡ k.free_flgcb

module _ (k : Kernel) where
  pub init_tcbs-Still : (n : ℕ) → Still k (init_tcbs n k)
  unfolding init_tcbs default_tcb reset_tcb
  init_tcbs-Still zero = record { current = refl; msip = refl }
  init_tcbs-Still (suc n) =
      let s = init_tcbs-Still n in record { current = s.current; msip = s.msip }

  pub init_flgcbs-Still : (n : ℕ) → Still k (init_flgcbs n k)
  unfolding init_flgcbs
  init_flgcbs-Still zero = record { current = refl; msip = refl }
  init_flgcbs-Still (suc n) =
      let s = init_flgcbs-Still n in record { current = s.current; msip = s.msip }

  pub init_semcbs-Still : (n : ℕ) → Still k (init_semcbs n k) × FlgsKept k (init_semcbs n k)
  unfolding init_semcbs
  init_semcbs-Still zero =
      (record { current = refl; msip = refl }, record { ids = λ s. refl; free = refl })
  init_semcbs-Still (suc n) =
      let (s, f) = init_semcbs-Still n in
      (record { current = s.current; msip = s.msip }, record { ids = f.ids; free = f.free })

  pub init_mbxcbs-Still :
      (n : ℕ)
      → Still k (init_mbxcbs n k) × SemsKept k (init_mbxcbs n k) × FlgsKept k (init_mbxcbs n k)
  unfolding init_mbxcbs
  init_mbxcbs-Still zero = (
    record { current = refl; msip = refl },
    record { ids = λ s. refl; free = refl },
    record { ids = λ s. refl; free = refl },
  )
  init_mbxcbs-Still (suc n) =
      let (s, m, f) = init_mbxcbs-Still n in
      (
        record { current = s.current; msip = s.msip },
        record { ids = m.ids; free = m.free },
        record { ids = f.ids; free = f.free },
      )
