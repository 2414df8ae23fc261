-- ===== src/System/Unused.antt =====
-- The free lists of the objects: nobody waits for an object that does not exist.
pub mod Calls
pub mod Creations
pub mod Deletions
pub mod Objects
pub mod Shrinks
use tsukumo_core.Common.{
  update, count, count-cons, count-snoc, ℕ, ◌≤◌, ◌<◌, ◌≡◌, sym, ◌∙◌, subst, ◌≢◌, true, false, List,
  [], ◌∷◌, ◌++◌, arith,
}
use tsukumo_core.Kernel.{
  cfn_max_semid, cfn_max_flgid, cfn_max_mbxid, sem_queue, flg_queue, mbx_queue_of, Kernel,
}
use tsukumo_core.Kernel.Codes.{noexs_mask, has_bits}
use tsukumo_core.Rings.{Rings, init_head}

-- The numbers of a free list, below `n`: each stands in it once, its ID is marked, and its wait
-- queue is empty.
pub record Unused (n : ℕ) (ids queue : ℕ → ℕ) (l : List ℕ) (r : Rings) : Type 0 where
  pub in_table : (s : ℕ) → 0 < count s l → s < n
  pub once : (s : ℕ) → count s l ≤ 1
  pub gone : (s : ℕ) → 0 < count s l → has_bits (ids s) noexs_mask ≡ true
  pub empty : (s : ℕ) → 0 < count s l → r.ring (queue s) ≡ []

abbrev pub sem_ids : Kernel → ℕ → ℕ
sem_ids k s = (k.semcbs s).semid

abbrev pub flg_ids : Kernel → ℕ → ℕ
flg_ids k s = (k.flgcbs s).flgid

abbrev pub mbx_ids : Kernel → ℕ → ℕ
mbx_ids k b = (k.mbxcbs b).mbxid

-- The three free lists.
abbrev pub Objects : Kernel → Type 0
Objects k =
    Unused cfn_max_semid (sem_ids k) sem_queue k.free_semcb k.waits
    × Unused cfn_max_flgid (flg_ids k) flg_queue k.free_flgcb k.waits
    × Unused cfn_max_mbxid (mbx_ids k) mbx_queue_of k.free_mbxcb k.waits

-- Where no queue is filled and no ID is changed, the unused stay unused.
pub Unused-same :
    (n : ℕ) (ids ids' queue : ℕ → ℕ) (l l' : List ℕ) (r r' : Rings)
    → l' ≡ l
    → ((s : ℕ) → ids' s ≡ ids s)
    → ((q : ℕ) → r.ring q ≡ [] → r'.ring q ≡ [])
    → Unused n ids queue l r
    → Unused n ids' queue l' r'
Unused-same n ids ids' queue l l' r r' e f g u =
    subst (λ m. Unused n ids' queue m r') (sym e)
      (record {
        in_table = u.in_table;
        once = u.once;
        gone = λ s h. rw (f s) (u.gone s h);
        empty = λ s h. g (queue s) (u.empty s h);
      })

-- A task enters the queue `q` of an object that exists, or of another kind of object.
pub Unused-enter :
    (n : ℕ) (ids queue : ℕ → ℕ) (l : List ℕ) (r r' : Rings) (q : ℕ)
    → ((a : ℕ) → q ≢ a → r'.ring a ≡ r.ring a)
    → ((s : ℕ) → s < n → has_bits (ids s) noexs_mask ≡ true → q ≢ queue s)
    → Unused n ids queue l r
    → Unused n ids queue l r'
Unused-enter n ids queue l r r' q f g u = record {
  in_table = u.in_table;
  once = u.once;
  gone = u.gone;
  empty = λ s h. f (queue s) (g s (u.in_table s h) (u.gone s h)) ∙ u.empty s h;
}

-- The first of the list is taken, and its ID changed.
pub Unused-take :
    (n : ℕ) (ids queue : ℕ → ℕ) (s id : ℕ) (l : List ℕ) (r : Rings)
    → Unused n ids queue (s ∷ l) r
    → Unused n (update ids s id) queue l (init_head (queue s) r)
unfolding init_head
Unused-take n ids queue s id l r u = record {
  in_table = λ j h. u.in_table j (ground (arith, h, count-cons j s l));
  once = λ j. ground (arith, u.once j, count-cons j s l);
  gone = λ j h. ground (arith, h, u.once j, u.once s, count-cons j s l, u.gone j, count-cons s s l);
  empty = λ j h. ground (arith, h, count-cons j s l, u.empty j);
}

-- An object is put back, once its queue is empty.
pub Unused-put :
    (n : ℕ) (ids queue : ℕ → ℕ) (s id : ℕ) (l : List ℕ) (r : Rings)
    → s < n
    → has_bits (ids s) noexs_mask ≡ false
    → has_bits id noexs_mask ≡ true
    → r.ring (queue s) ≡ []
    → Unused n ids queue l r
    → Unused n (update ids s id) queue (l ++ s ∷ []) r
Unused-put n ids queue s id l r lt old new nil u = record {
  in_table = λ j h. ground (arith, h, lt, count-snoc j s l, u.in_table j);
  once = λ j. ground (arith, u.once j, count-snoc j s l, u.gone j, old);
  gone = λ j h. ground (arith, h, new, count-snoc j s l, u.gone j);
  empty = λ j h. ground (arith, h, nil, count-snoc j s l, u.empty j);
}
