-- ===== src/Invariant/Wait.antt =====
-- The invariant, and the end of a wait: `tkmc_complete_wait` and `tkmc_sem_serve_waiters`.
use tsukumo_core.Common.{
  Bool-cases, first, count, count-cons, ℕ, ◌≤◌, ◌<◌, ◌≡◌, inl, inr, some, List, [], ◌∷◌, arith,
}
use tsukumo_core.Invariant.Defs.{IsPlaced, Inv}
use tsukumo_core.Kernel.{cfn_max_tskid, Er, e_ok, wai, sem_queue, Kernel}
use tsukumo_core.Rings.{
  alone, on, Rings, init_link, link_empty, first_entry, list_del, list_add_tail,
}
use tsukumo_core.Rings.Linked.{
  times_on, IsLinked, IsOff, list_del-IsLinked, list_add_tail-IsLinked, init_link-IsLinked,
  list_del-IsOff,
}
use tsukumo_core.Task.Wait.{
  sem_request, sem_awaited, leave_head, leave_wait, end_wait, take_units, serve_loop,
  serve_loop_cases, sem_serve_waiters, hands_on, complete_wait,
}

leave_head-IsLinked : (i : ℕ) (r : Rings) → IsLinked r → IsLinked (leave_head i r)
unfolding link_empty
leave_head-IsLinked i r v = elim (Bool-cases (link_empty r i)) [
  | inl e ↦ rw e v
  | inr e ↦ rw e (list_del-IsLinked i r v)
]

leave_head-IsOff : (i : ℕ) (r : Rings) → IsOff ((leave_head i r).link i)
unfolding link_empty list_del
leave_head-IsOff i r a = ground arith

pub leave_wait-IsLinked : (i : ℕ) (r : Rings) → IsLinked r → IsLinked (leave_wait i r)
unfolding link_empty
leave_wait-IsLinked i r v = elim (Bool-cases (link_empty r i)) [
  | inl e ↦ rw e v
  | inr e ↦
      rw e (init_link-IsLinked i (list_del i r) (list_del-IsOff i r) (list_del-IsLinked i r v))
]

module _ (i : ℕ) (cause : Er) (k : Kernel) (v : Inv k) (lt : i < cfn_max_tskid)
    (w : (k.tcbs i).tskstat ≡ wai) where
  end_wait-IsPlaced : (j : ℕ) → j < cfn_max_tskid → IsPlaced (end_wait i cause k) j
  unfolding end_wait link_empty list_del list_add_tail init_link
  end_wait-IsPlaced j lj = ground (arith, v.placed i lt, v.placed j lj)

  end_wait-stray :
      (j : ℕ)
      → cfn_max_tskid ≤ j
      → ((end_wait i cause k).heads.link j ≡ alone) × ((end_wait i cause k).waits.link j ≡ alone)
  unfolding end_wait link_empty list_del list_add_tail init_link
  end_wait-stray j lj = ground (arith, v.stray j lj)

  -- A waiting task whose wait ends leaves every other link as it was, and stands ready.
  pub end_wait-Inv : Inv (end_wait i cause k)
  unfolding end_wait
  end_wait-Inv = record {
    heads_linked =
        list_add_tail-IsLinked i _ (leave_head i k.heads) (leave_head-IsOff i k.heads)
          (leave_head-IsLinked i k.heads v.heads_linked);
    waits_linked = leave_wait-IsLinked i k.waits v.waits_linked;
    placed = end_wait-IsPlaced;
    named = λ j lj. ground (arith, v.named i lt, v.named j lj);
    stray = end_wait-stray;
    wakeups = λ j. ground (arith, v.wakeups i, v.wakeups j);
    units = v.units;
  }

-- The objects of a list are each on ring `q`, once.
abbrev pub Queued : ℕ → Rings → List ℕ → Type 0
Queued q r [] = Unit {0}
Queued q r (i ∷ l) = (i < cfn_max_tskid) × (r.link i ≡ on q) × (count i l ≡ 0) × Queued q r l

Queued-of :
    (q : ℕ) (r : Rings) (l : List ℕ)
    → ((n : ℕ) → cfn_max_tskid ≤ n → r.link n ≡ alone)
    → ((n : ℕ) → count n l ≤ times_on (r.link n) q)
    → Queued q r l
Queued-of q r [] far h = tt
Queued-of q r (i ∷ l) far h = (
  ground (arith, h i, far i, count-cons i i l),
  ground (arith, h i, count-cons i i l),
  ground (arith, h i, count-cons i i l),
  Queued-of q r l far (λ n. ground (arith, h n, count-cons n i l)),
)

-- Every ring of wait links is such a list.
pub Queued-ring : (q : ℕ) (k : Kernel) → Inv k → Queued q k.waits (k.waits.ring q)
Queued-ring q k v =
    Queued-of q k.waits (k.waits.ring q) (λ n far. (v.stray n far).1)
      (λ n. omega (arith, v.waits_linked n q))

pub Queued-heads : (q : ℕ) (k : Kernel) → Inv k → Queued q k.heads (k.heads.ring q)
Queued-heads q k v =
    Queued-of q k.heads (k.heads.ring q) (λ n far. (v.stray n far).0)
      (λ n. omega (arith, v.heads_linked n q))

pub Queued-end_wait :
    (q i : ℕ) (cause : Er) (k : Kernel) (l : List ℕ)
    → count i l ≡ 0
    → Queued q k.waits l
    → Queued q (end_wait i cause k).waits l
unfolding end_wait link_empty list_del init_link
Queued-end_wait q i cause k [] out h = tt
Queued-end_wait q i cause k (j ∷ l) out h =
    ground (arith, count-cons i j l, Queued-end_wait q i cause k l)

-- A task on a wait queue waits.
pub wai_of_queued :
    (i q : ℕ) (k : Kernel)
    → Inv k
    → i < cfn_max_tskid
    → k.waits.link i ≡ on q
    → (k.tcbs i).tskstat ≡ wai
wai_of_queued i q k v lt h = ground (arith, v.placed i lt)

pub take_units-Inv : (s req : ℕ) (k : Kernel) → Inv k → Inv (take_units s req k)
take_units-Inv s req k v = record {
  heads_linked = v.heads_linked;
  waits_linked = v.waits_linked;
  placed = v.placed;
  named = v.named;
  stray = v.stray;
  wakeups = v.wakeups;
  units = λ t. ground (arith, v.units s, v.units t);
}

-- One waiter of a semaphore is served.
pub serve_one-Inv :
    (s i req : ℕ) (l : List ℕ) (k : Kernel)
    → Queued (sem_queue s) k.waits (i ∷ l)
    → Inv k
    → Inv (take_units s req (end_wait i e_ok k))
serve_one-Inv s i req l k m v =
    take_units-Inv s req (end_wait i e_ok k)
      (end_wait-Inv i e_ok k v m.0 (wai_of_queued i (sem_queue s) k v m.0 m.1))

pub serve_loop-Inv :
    (s : ℕ) (l : List ℕ) (k : Kernel)
    → Queued (sem_queue s) k.waits l
    → Inv k
    → Inv (serve_loop s l k)
unfolding serve_loop
serve_loop-Inv s [] k m v = v
serve_loop-Inv s (i ∷ l) k m v =
    let req = sem_request (k.tcbs i).winfo in
    let served = serve_one-Inv s i req l k m v in
    let k' = take_units s req (end_wait i e_ok k) in
    let rest = Queued-end_wait (sem_queue s) i e_ok k l m.2 m.3 in
    serve_loop_cases Inv s i l k (λ _ _. v) (λ _ _. serve_loop-Inv s l k m.3 v) (λ _ _. served)
      (λ _. serve_loop-Inv s l k' rest served)

pub sem_serve_waiters-Inv : (s : ℕ) (k : Kernel) → Inv k → Inv (sem_serve_waiters s k)
unfolding sem_serve_waiters
sem_serve_waiters-Inv s k v = serve_loop-Inv s _ k (Queued-ring (sem_queue s) k v) v

-- Ending the wait of a waiting task, for any cause, keeps the invariant.
pub complete_wait-Inv :
    (i : ℕ) (cause : Er) (k : Kernel)
    → Inv k
    → i < cfn_max_tskid
    → (k.tcbs i).tskstat ≡ wai
    → Inv (complete_wait i cause k)
unfolding complete_wait
complete_wait-Inv i cause k v lt w =
    let ended = end_wait-Inv i cause k v lt w in
    elim (Bool-cases (hands_on (k.tcbs i).tskwait cause)) [
      | inl e ↦ rw e (
          sem_serve_waiters-Inv (sem_awaited ((end_wait i cause k).tcbs i).winfo)
            (end_wait i cause k) ended)
      | inr e ↦ rw e ended
    ]

pub first-Queued :
    (i q : ℕ) (r : Rings) (l : List ℕ)
    → Queued q r l
    → first l ≡ some i
    → (i < cfn_max_tskid) × (r.link i ≡ on q)
first-Queued i q r [] m e = cc
first-Queued i q r (j ∷ l) m e = ground (arith, m)

-- The first entry of a wait queue is a task that waits there.
pub first_entry-waits :
    (i q : ℕ) (k : Kernel)
    → Inv k
    → first_entry k.waits q ≡ some i
    → (i < cfn_max_tskid) × (k.waits.link i ≡ on q) × ((k.tcbs i).tskstat ≡ wai)
unfolding first_entry
first_entry-waits i q k v e =
    let (lt, here) = first-Queued i q k.waits (k.waits.ring q) (Queued-ring q k v) e in
    (lt, here, wai_of_queued i q k v lt here)
