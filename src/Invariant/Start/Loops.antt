-- ===== src/Invariant/Start/Loops.antt =====
-- The loops that set the tables up: tkmc_init_tcb of kernel/task.c, tkmc_init_semcb of
-- kernel/semaphore.c, tkmc_init_flgcb of kernel/event_flag.c and tkmc_init_mbxcb of
-- kernel/mailbox.c.
use tsukumo_core.Common.{
  ltb, leb, ◌==◌, if◌then◌else◌, Bool-cases, count, count-snoc, ℕ, zero, suc, ◌+◌, ◌≤◌, ◌<◌, ◌≡◌,
  refl, ap, ◌∙◌, ◌≢◌, inl, inr, ◌&&◌, [], arith,
}
use tsukumo_core.EventFlag.{init_flgcbs, init_flgcb}
use tsukumo_core.Kernel.{
  cfn_max_tskid, cfn_max_semid, cfn_max_flgid, cfn_max_mbxid, tk_wakeup_maxcnt, noexs, free_tcb,
  sem_queue, flg_queue, mbx_queue_of, Kernel,
}
use tsukumo_core.Mailbox.{init_mbxcbs, init_mbxcb}
use tsukumo_core.Rings.{alone, on, Rings, init_link, init_head, list_add_tail}
use tsukumo_core.Semaphore.{init_semcbs, init_semcb}
use tsukumo_core.Task.{reset_tcb, default_tcb, init_tcbs, init_ready}

-- What the model holds for numbers that name no task, queue or semaphore.
pub record IsBlank (k : Kernel) : Type 0 where
  pub stray : (i : ℕ) → cfn_max_tskid ≤ i → (k.heads.link i ≡ alone) × (k.waits.link i ≡ alone)
  pub head_rings : (a : ℕ) → free_tcb < a → k.heads.ring a ≡ []
  pub wait_rings : (a : ℕ) → mbx_queue_of cfn_max_mbxid ≤ a → k.waits.ring a ≡ []
  pub wakeups : (i : ℕ) → cfn_max_tskid ≤ i → (k.tcbs i).wupcnt ≤ tk_wakeup_maxcnt
  pub units : (s : ℕ) → cfn_max_semid ≤ s → (k.semcbs s).semcnt ≤ (k.semcbs s).maxsem

-- The first `n` TCBs, once the loop of `tkmc_init_tcb` has made them.
module _ (k : Kernel) where
  pub init_tcbs-head :
      (n j : ℕ) → (init_tcbs n k).heads.link j ≡ (if ltb j n then on free_tcb else k.heads.link j)
  unfolding init_tcbs default_tcb reset_tcb init_link list_add_tail
  init_tcbs-head zero j = ground arith
  init_tcbs-head (suc n) j = ground (arith, init_tcbs-head n j)

  pub init_tcbs-wait :
      (n j : ℕ) → (init_tcbs n k).waits.link j ≡ (if ltb j n then alone else k.waits.link j)
  unfolding init_tcbs default_tcb reset_tcb init_link list_add_tail
  init_tcbs-wait zero j = ground arith
  init_tcbs-wait (suc n) j = ground (arith, init_tcbs-wait n j)

  pub init_tcbs-tskstat : (n j : ℕ) → j < n → ((init_tcbs n k).tcbs j).tskstat ≡ noexs
  unfolding init_tcbs default_tcb reset_tcb init_link list_add_tail
  init_tcbs-tskstat zero j lt = absurd (omega arith)
  init_tcbs-tskstat (suc n) j lt = ground (arith, init_tcbs-tskstat n j)

  pub init_tcbs-tskid : (n j : ℕ) → j < n → ((init_tcbs n k).tcbs j).tskid ≡ j + 1
  unfolding init_tcbs default_tcb reset_tcb init_link list_add_tail
  init_tcbs-tskid zero j lt = absurd (omega arith)
  init_tcbs-tskid (suc n) j lt = ground (arith, init_tcbs-tskid n j)

  pub init_tcbs-wupcnt :
      (n j : ℕ) → ((init_tcbs n k).tcbs j).wupcnt ≡ (if ltb j n then 0 else (k.tcbs j).wupcnt)
  unfolding init_tcbs default_tcb reset_tcb init_link list_add_tail
  init_tcbs-wupcnt zero j = ground arith
  init_tcbs-wupcnt (suc n) j = ground (arith, init_tcbs-wupcnt n j)

  pub init_tcbs-ring : (n a : ℕ) → a ≢ free_tcb → (init_tcbs n k).heads.ring a ≡ k.heads.ring a
  unfolding init_tcbs default_tcb reset_tcb init_link list_add_tail
  init_tcbs-ring zero a ne = refl
  init_tcbs-ring (suc n) a ne = ground (arith, init_tcbs-ring n a)

  pub init_tcbs-free :
      (n j : ℕ)
      → count j ((init_tcbs n k).heads.ring free_tcb)
        ≡ count j (k.heads.ring free_tcb) + (if ltb j n then 1 else 0)
  unfolding init_tcbs default_tcb reset_tcb init_link list_add_tail
  init_tcbs-free zero j = ground arith
  init_tcbs-free (suc n) j =
      ground (arith, init_tcbs-free n j, count-snoc j n ((init_tcbs n k).heads.ring free_tcb))

  pub init_tcbs-wait_ring : (n a : ℕ) → (init_tcbs n k).waits.ring a ≡ k.waits.ring a
  unfolding init_tcbs default_tcb reset_tcb init_link list_add_tail
  init_tcbs-wait_ring zero a = refl
  init_tcbs-wait_ring (suc n) a = init_tcbs-wait_ring n a

  pub init_tcbs-semcbs : (n s : ℕ) → (init_tcbs n k).semcbs s ≡ k.semcbs s
  unfolding init_tcbs default_tcb reset_tcb
  init_tcbs-semcbs zero s = refl
  init_tcbs-semcbs (suc n) s = init_tcbs-semcbs n s

-- The loop over the ready queues empties each, and leaves the links alone.
pub init_ready-link : (n : ℕ) (r : Rings) (j : ℕ) → (init_ready n r).link j ≡ r.link j
unfolding init_ready init_head
init_ready-link zero r j = refl
init_ready-link (suc n) r j = init_ready-link n r j

pub init_ready-ring :
    (n : ℕ) (r : Rings) (a : ℕ) → (init_ready n r).ring a ≡ (if ltb a n then [] else r.ring a)
unfolding init_ready init_head
init_ready-ring zero r a = ground arith
init_ready-ring (suc n) r a = ground (arith, init_ready-ring n r a)

-- The loops over the objects' control blocks only empty their wait queues.
pub record Emptied (q n : ℕ) (k k' : Kernel) : Type 0 where
  pub tcbs : k'.tcbs ≡ k.tcbs
  pub heads : k'.heads ≡ k.heads
  pub links : (j : ℕ) → k'.waits.link j ≡ k.waits.link j
  pub rings : (a : ℕ) → k'.waits.ring a ≡ (if leb q a && ltb a (q + n) then [] else k.waits.ring a)

Emptied-none : (q : ℕ) (k : Kernel) → Emptied q 0 k k
Emptied-none q k = record {
  tcbs = refl;
  heads = refl;
  links = λ j. refl;
  rings = λ a. ground arith;
}

Emptied-next :
    (q n : ℕ) (k k' k'' : Kernel)
    → Emptied q n k k'
    → k''.tcbs ≡ k'.tcbs
    → k''.heads ≡ k'.heads
    → k''.waits ≡ init_head (q + n) k'.waits
    → Emptied q (suc n) k k''
unfolding init_head
Emptied-next q n k k' k'' done same_tcbs same_heads waits = record {
  tcbs = same_tcbs ∙ done.tcbs;
  heads = same_heads ∙ done.heads;
  links = λ j. ap (λ (r : Rings). r.link j) waits ∙ done.links j;
  rings = λ a. ap (λ (r : Rings). r.ring a) waits ∙ ground (arith, done.rings a);
}

init_semcbs-Emptied : (n : ℕ) (k : Kernel) → Emptied (sem_queue 0) n k (init_semcbs n k)
unfolding init_semcbs
init_semcbs-Emptied zero k = Emptied-none (sem_queue 0) k
init_semcbs-Emptied (suc n) k =
    Emptied-next (sem_queue 0) n k (init_semcbs n k) (init_semcbs (suc n) k)
      (init_semcbs-Emptied n k) refl refl
      (ap (λ (a : ℕ). init_head a (init_semcbs n k).waits) (omega arith))

init_flgcbs-Emptied : (n : ℕ) (k : Kernel) → Emptied (flg_queue 0) n k (init_flgcbs n k)
unfolding init_flgcbs
init_flgcbs-Emptied zero k = Emptied-none (flg_queue 0) k
init_flgcbs-Emptied (suc n) k =
    Emptied-next (flg_queue 0) n k (init_flgcbs n k) (init_flgcbs (suc n) k)
      (init_flgcbs-Emptied n k) refl refl
      (ap (λ (a : ℕ). init_head a (init_flgcbs n k).waits) (omega arith))

init_mbxcbs-Emptied : (n : ℕ) (k : Kernel) → Emptied (mbx_queue_of 0) n k (init_mbxcbs n k)
unfolding init_mbxcbs
init_mbxcbs-Emptied zero k = Emptied-none (mbx_queue_of 0) k
init_mbxcbs-Emptied (suc n) k =
    Emptied-next (mbx_queue_of 0) n k (init_mbxcbs n k) (init_mbxcbs (suc n) k)
      (init_mbxcbs-Emptied n k) refl refl
      (ap (λ (a : ℕ). init_head a (init_mbxcbs n k).waits) (omega arith))

-- The semaphores: the loops of the others leave them alone.
pub init_flgcbs-semcbs : (n : ℕ) (k : Kernel) → (init_flgcbs n k).semcbs ≡ k.semcbs
unfolding init_flgcbs
init_flgcbs-semcbs zero k = refl
init_flgcbs-semcbs (suc n) k = init_flgcbs-semcbs n k

pub init_mbxcbs-semcbs : (n : ℕ) (k : Kernel) → (init_mbxcbs n k).semcbs ≡ k.semcbs
unfolding init_mbxcbs
init_mbxcbs-semcbs zero k = refl
init_mbxcbs-semcbs (suc n) k = init_mbxcbs-semcbs n k

pub init_semcbs-units :
    (n : ℕ) (k : Kernel) (s : ℕ)
    → (n ≤ s → (k.semcbs s).semcnt ≤ (k.semcbs s).maxsem)
    → ((init_semcbs n k).semcbs s).semcnt ≤ ((init_semcbs n k).semcbs s).maxsem
unfolding init_semcbs
init_semcbs-units zero k s h = h (omega arith)
init_semcbs-units (suc n) k s h = elim (Bool-cases (n == s)) [
  | inl e ↦ ground arith
  | inr e ↦ ground (arith, init_semcbs-units n k s (λ le. h (ground arith)))
]

pub init_semcb-Emptied : (k : Kernel) → Emptied (sem_queue 0) cfn_max_semid k (init_semcb k)
unfolding init_semcb
init_semcb-Emptied k =
    let e = init_semcbs-Emptied cfn_max_semid (record k { free_semcb = [] }) in
    record { tcbs = e.tcbs; heads = e.heads; links = e.links; rings = e.rings }

pub init_flgcb-Emptied : (k : Kernel) → Emptied (flg_queue 0) cfn_max_flgid k (init_flgcb k)
unfolding init_flgcb
init_flgcb-Emptied k =
    let e = init_flgcbs-Emptied cfn_max_flgid (record k { free_flgcb = [] }) in
    record { tcbs = e.tcbs; heads = e.heads; links = e.links; rings = e.rings }

pub init_mbxcb-Emptied : (k : Kernel) → Emptied (mbx_queue_of 0) cfn_max_mbxid k (init_mbxcb k)
unfolding init_mbxcb
init_mbxcb-Emptied k =
    let e = init_mbxcbs-Emptied cfn_max_mbxid (record k { free_mbxcb = [] }) in
    record { tcbs = e.tcbs; heads = e.heads; links = e.links; rings = e.rings }
