-- ===== src/Scheduler.antt =====
-- The choice of the next task: `tkmc_get_highest_priority_task` of kernel/task.c against the
-- states and the priorities of the tasks.
use tsukumo_core.Common.{
  ltb, Bool-cases, Option-cases, is_empty, first, count-nil, ℕ, zero, suc, ◌+◌, ◌-◌, ◌≤◌, ◌<◌, ◌≡◌,
  refl, inl, inr, true, false, Option, none, some, List, [], ◌∷◌, arith,
}
use tsukumo_core.Invariant.Defs.{IsReady, Inv}
use tsukumo_core.Invariant.Switch.{IsRunnable}
use tsukumo_core.Invariant.Wait.{Queued-heads, first-Queued}
use tsukumo_core.Kernel.{cfn_max_pri, ready_queue, Kernel}
use tsukumo_core.Rings.{Rings, list_empty, first_entry}
use tsukumo_core.Task.Queue.{first_ready, get_highest_priority_task}

-- The queue that the search stops at, and the empty queues before it.
record Found (n a : ℕ) (r : Rings) (i : ℕ) : Type 0 where
  at : ℕ
  from : a ≤ at
  below : at < a + n
  head : first (r.ring at) ≡ some i
  before : (q : ℕ) → a ≤ q → q < at → r.ring q ≡ []

first-is_empty : (l : List ℕ) (i : ℕ) → is_empty l ≡ true → l ≡ []
first-is_empty [] i e = refl
first-is_empty (x ∷ l) i e = cc

first-filled : (l : List ℕ) → is_empty l ≡ false → ¬ (first l ≡ none)
first-filled [] e f = cc
first-filled (x ∷ l) e f = cc

first_ready-Found : (n a : ℕ) (r : Rings) (i : ℕ) → first_ready n a r ≡ some i → Found n a r i
unfolding first_ready list_empty first_entry
first_ready-Found zero a r i e = cc
first_ready-Found (suc n) a r i e = elim (Bool-cases (is_empty (r.ring a))) [
  | inl none_here ↦
      let rest = first_ready-Found n (suc a) r i (ground arith) in
      let nil = first-is_empty (r.ring a) i none_here in
      record {
        at = rest.at;
        from = omega (arith, rest.from);
        below = omega (arith, rest.below);
        head = rest.head;
        before = λ q lo hi. grind (arith, nil, rest.before);
      }
  | inr some_here ↦ record {
    at = a;
    from = omega arith;
    below = omega arith;
    head = ground arith;
    before = λ q lo hi. absurd (omega arith);
  }
]

first_ready-none :
    (n a : ℕ) (r : Rings) → first_ready n a r ≡ none → (q : ℕ) → a ≤ q → q < a + n → r.ring q ≡ []
unfolding first_ready list_empty first_entry
first_ready-none zero a r e q lo hi = absurd (omega arith)
first_ready-none (suc n) a r e q lo hi = elim (Bool-cases (is_empty (r.ring a))) [
  | inl none_here ↦
      let nil = first-is_empty (r.ring a) q none_here in
      let rest = first_ready-none n (suc a) r (ground arith) q in grind (arith, nil, rest)
  | inr some_here ↦ absurd (first-filled (r.ring a) some_here (ground arith))
]

-- A filled ready queue's head can run, and has the queue's priority.
head-IsRunnable :
    (q i : ℕ) (k : Kernel)
    → Inv k
    → q < cfn_max_pri
    → first (k.heads.ring q) ≡ some i
    → IsRunnable k.tcbs k.heads k.waits i × ((k.tcbs i).itskpri ≡ q + 1)
head-IsRunnable q i k v lt e =
    let (here, link) = first-Queued i q k.heads (k.heads.ring q) (Queued-heads q k v) e in
    let ready : IsReady (k.tcbs i) (k.heads.link i) (k.waits.link i) =
      ground (arith, v.placed i here) in
    (record { in_table = here; ready = ready }, ground (arith, ready.queued, ready.priority))

-- A task that can run is on the queue of its priority, which is not empty.
queue-filled :
    (j : ℕ) (k : Kernel)
    → Inv k
    → IsRunnable k.tcbs k.heads k.waits j
    → ¬ (k.heads.ring ((k.tcbs j).itskpri - 1) ≡ [])
queue-filled j k v r e =
    let q = (k.tcbs j).itskpri - 1 in
    let counted = v.heads_linked j q in ground (arith, counted, r.ready.queued, count-nil j)

-- What the scheduler promises of its choice: the choice can run, it is the head of the ready
-- queue of its priority, and no task that can run has a higher priority, which is a smaller
-- number; and nothing is chosen only if no task can run.
abbrev pub IsHighest : Kernel → Option ℕ → Type 0
IsHighest k none = (j : ℕ) → ¬ IsRunnable k.tcbs k.heads k.waits j
IsHighest k (some i) =
    IsRunnable k.tcbs k.heads k.waits i
    × (first_entry k.heads (ready_queue ((k.tcbs i).itskpri - 1)) ≡ some i)
    × ((j : ℕ) → IsRunnable k.tcbs k.heads k.waits j → (k.tcbs i).itskpri ≤ (k.tcbs j).itskpri)

pub chosen-IsHighest :
    (i : ℕ) (k : Kernel) → Inv k → get_highest_priority_task k ≡ some i → IsHighest k (some i)
unfolding get_highest_priority_task first_entry
chosen-IsHighest i k v e =
    let f = first_ready-Found cfn_max_pri 0 k.heads i e in
    let (r, pri) = head-IsRunnable f.at i k v f.below f.head in
    (
      r,
      ground (arith, pri, f.head),
      λ j rj. elim (Bool-cases (ltb ((k.tcbs j).itskpri - 1) f.at)) [
        | inl lt ↦
            absurd (
              queue-filled j k v rj
                (f.before ((k.tcbs j).itskpri - 1) (omega arith) (ground arith)))
        | inr ge ↦ ground (arith, pri, rj.ready.priority)
      ],
    )

unchosen-IsHighest : (k : Kernel) → Inv k → get_highest_priority_task k ≡ none → IsHighest k none
unfolding get_highest_priority_task
unchosen-IsHighest k v e j rj = queue-filled j k v rj (
    first_ready-none cfn_max_pri 0 k.heads e ((k.tcbs j).itskpri - 1) (omega arith)
      (omega (arith, rj.ready.priority)))

-- Where the invariant of the tables holds, tkmc_get_highest_priority_task gives a task that can
-- run, that is the head of the ready queue of its priority and than which no task that can run has
-- a higher priority; it gives none only if no task can run.
pub get_highest_priority_task-IsHighest :
    (k : Kernel) → Inv k → IsHighest k (get_highest_priority_task k)
get_highest_priority_task-IsHighest k v = elim (Option-cases (get_highest_priority_task k)) [
  | inl e ↦ rw e (unchosen-IsHighest k v e)
  | inr (i, e) ↦ rw e (chosen-IsHighest i k v e)
]
