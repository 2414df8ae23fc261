-- ===== src/Timer/Expiry.antt =====
-- The timer interrupt of kernel/timer.c and the delays of the waiting tasks.
use tsukumo_core.Common.{
  ltb, if◌then◌else◌, Bool-cases, Option-cases, if_cases, length, update, count, count-nil,
  count-cons, ℕ, zero, suc, ◌+◌, ◌-◌, ◌%◌, ◌^◌, ◌≤◌, ◌<◌, ◌≡◌, refl, ◌∙◌, subst, ◌⊎◌, inl, inr,
  Bool, true, false, not, Option, none, some, List, [], ◌∷◌, arith,
}
use tsukumo_core.Invariant.Defs.{Inv}
use tsukumo_core.Invariant.Timer.{advance-Inv, advance-tskstat, first_deadline-waits}
use tsukumo_core.Invariant.Wait.{Queued, Queued-heads, complete_wait-Inv}
use tsukumo_core.Kernel.{e_tmout, Tcb, timer_queue, Kernel}
use tsukumo_core.Kernel.Codes.{same_task}
use tsukumo_core.Rings.{on, Rings}
use tsukumo_core.Task.Queue.{get_highest_priority_task, reschedule}
use tsukumo_core.Task.Wait.{complete_wait}
use tsukumo_core.Timer.{scan_deadline, first_deadline, advance, expire_loop, timer_handler}
use tsukumo_core.Timer.Cases.{compared, elapsed, expired, timer_handler_cases}
use tsukumo_core.Timer.Leaving.{complete_wait-OnlyLeaves}

-- The scan gives a task of the list, or the one to start from, and no deadline is earlier.
scan_deadline-least :
    (tcbs : ℕ → Tcb) (best : Option ℕ) (l : List ℕ) (i : ℕ)
    → scan_deadline tcbs best l ≡ some i
    → (j : ℕ) → ((0 < count j l) ⊎ (best ≡ some j))
    → (tcbs i).delay_ticks ≤ (tcbs j).delay_ticks
unfolding scan_deadline
scan_deadline-least tcbs best [] i e j h = ground (arith, count-nil j)
scan_deadline-least tcbs none (x ∷ l) i e j h =
    ground (arith, count-cons j x l, scan_deadline-least tcbs (some x) l i e j)
scan_deadline-least tcbs (some b) (x ∷ l) i e j h =
    let rest =
      scan_deadline-least tcbs
        (some (if ltb (tcbs x).delay_ticks (tcbs b).delay_ticks then x else b)) l i e in
    ground (arith, count-cons j x l, rest b, rest x, rest j)

-- Counting down a list without repetition takes `step` from the delay of each of its tasks.
advance-delay_out :
    (step : ℕ) (l : List ℕ) (tcbs : ℕ → Tcb) (j : ℕ)
    → count j l ≡ 0
    → advance step l tcbs j ≡ tcbs j
unfolding advance
advance-delay_out step [] tcbs j h = refl
advance-delay_out step (i ∷ l) tcbs j h =
    advance-delay_out step l
      (update tcbs i
        (record (tcbs i) { delay_ticks = ((tcbs i).delay_ticks + 2 ^ 32 - step) % 2 ^ 32 }))
      j (omega (arith, count-cons j i l))
    ∙ ground (arith, count-cons j i l)

advance-short :
    (step : ℕ) (l : List ℕ) (tcbs : ℕ → Tcb)
    → ((j : ℕ) → (tcbs j).delay_ticks < 2 ^ 32)
    → (j : ℕ) → (advance step l tcbs j).delay_ticks < 2 ^ 32
unfolding advance
advance-short step [] tcbs h j = h j
advance-short step (i ∷ l) tcbs h j =
    advance-short step l
      (update tcbs i
        (record (tcbs i) { delay_ticks = ((tcbs i).delay_ticks + 2 ^ 32 - step) % 2 ^ 32 }))
      (λ n. ground (arith, h n)) j

advance-delay :
    (q : ℕ) (r : Rings) (step : ℕ) (l : List ℕ) (tcbs : ℕ → Tcb) (j : ℕ)
    → Queued q r l
    → 0 < count j l
    → step ≤ (tcbs j).delay_ticks
    → (tcbs j).delay_ticks < 2 ^ 32
    → (advance step l tcbs j).delay_ticks ≡ (tcbs j).delay_ticks - step
unfolding advance
advance-delay q r step [] tcbs j m h le lt = absurd (ground (arith, count-nil j))
advance-delay q r step (i ∷ l) tcbs j m h le lt =
    let down =
      update tcbs i
        (record (tcbs i) { delay_ticks = ((tcbs i).delay_ticks + 2 ^ 32 - step) % 2 ^ 32 }) in
    ground (
      arith,
      count-cons j i l,
      m.2,
      advance-delay_out step l down j,
      advance-delay q r step l down j m.3,
    )

scan_deadline-some :
    (tcbs : ℕ → Tcb) (l : List ℕ) (b : ℕ) → ¬ (scan_deadline tcbs (some b) l ≡ none)
unfolding scan_deadline
scan_deadline-some tcbs [] b e = cc
scan_deadline-some tcbs (i ∷ l) b e = scan_deadline-some tcbs l _ e

scan_deadline-none : (tcbs : ℕ → Tcb) (l : List ℕ) → scan_deadline tcbs none l ≡ none → l ≡ []
unfolding scan_deadline
scan_deadline-none tcbs [] e = refl
scan_deadline-none tcbs (i ∷ l) e = absurd (scan_deadline-some tcbs l i e)

first_deadline-none : (k : Kernel) → first_deadline k ≡ none → k.heads.ring timer_queue ≡ []
unfolding first_deadline
first_deadline-none k e = scan_deadline-none k.tcbs (k.heads.ring timer_queue) e

-- Task `j`, from kernel `k` to `k'`: it was on the timer queue, with a delay longer than
-- `periods`, and its delay is `periods` shorter now.
pub record CountedDown (periods : ℕ) (k k' : Kernel) (j : ℕ) : Type 0 where
  pub queued : k.heads.link j ≡ on timer_queue
  pub longer : periods < (k.tcbs j).delay_ticks
  pub counted : (k'.tcbs j).delay_ticks + periods ≡ (k.tcbs j).delay_ticks

-- Where the first deadline is task `i`'s, a round that counts down by no more than its delay
-- takes as much from the delay of every task on the timer queue.
module _ (i step : ℕ) (k : Kernel) (v : Inv k) (e : first_deadline k ≡ some i)
    (le : step ≤ (k.tcbs i).delay_ticks) (short : (j : ℕ) → (k.tcbs j).delay_ticks < 2 ^ 32) where
  first_deadline-least :
      (j : ℕ) → k.heads.link j ≡ on timer_queue → (k.tcbs i).delay_ticks ≤ (k.tcbs j).delay_ticks
  unfolding first_deadline
  first_deadline-least j h =
      scan_deadline-least k.tcbs none (k.heads.ring timer_queue) i e j
        (inl (ground (arith, v.heads_linked j timer_queue)))

  round-delay :
      (j : ℕ)
      → k.heads.link j ≡ on timer_queue
      → (advance step (k.heads.ring timer_queue) k.tcbs j).delay_ticks + step
        ≡ (k.tcbs j).delay_ticks
  round-delay j h =
      let down =
        advance-delay timer_queue k.heads step (k.heads.ring timer_queue) k.tcbs j
          (Queued-heads timer_queue k v) (ground (arith, v.heads_linked j timer_queue))
          (omega (arith, le, first_deadline-least j h)) (short j) in
      omega (arith, le, first_deadline-least j h, down)

ltb_irrefl : (n : ℕ) → ltb n n ≡ false
ltb_irrefl n = ground arith

-- The queue counted down by `step`.
abbrev counted_down : ℕ → Kernel → Kernel
counted_down step k = record k { tcbs = advance step (k.heads.ring timer_queue) k.tcbs }

-- A round counts down by the smaller of the two.
step_cases {ℓ κ} :
    {A : Type ℓ} (P : A → Type κ) (early due : ℕ → A) (ticks periods : ℕ)
    → (periods < ticks → P (early periods))
    → (ticks ≤ periods → P (due ticks))
    → let step = if ltb ticks periods then ticks else periods in
      P (if ltb step ticks then early step else due step)
step_cases P early due ticks periods l r = elim (Bool-cases (ltb ticks periods)) [
  | inl lt ↦ rw (lt, ltb_irrefl ticks) (r (ground arith))
  | inr ge ↦ rw ge (
      if_cases P (ltb periods ticks) (λ lt. l (ground arith))
        (λ le. subst (λ n. P (due n)) (ground arith) (r (ground arith))))
]

-- The three ways on of a round of the loop.
expire_loop_cases {ℓ} :
    (P : Bool × Kernel → Type ℓ) (f periods : ℕ) (some_ended : Bool) (k : Kernel)
    → (first_deadline k ≡ none → P (some_ended, k))
    → ((i : ℕ)
        → first_deadline k ≡ some i
        → periods < (k.tcbs i).delay_ticks
        → P (some_ended, counted_down periods k))
    → ((i : ℕ)
        → first_deadline k ≡ some i
        → (k.tcbs i).delay_ticks ≤ periods
        → P (
            expire_loop f
              (periods - (k.tcbs i).delay_ticks)
              true
              (complete_wait i e_tmout (counted_down (k.tcbs i).delay_ticks k))))
    → P (expire_loop (suc f) periods some_ended k)
unfolding expire_loop
expire_loop_cases P f periods some_ended k idle early due = elim (Option-cases (first_deadline k)) [
  | inl e ↦ rw (e, expire_loop) (idle e)
  | inr (i, e) ↦
      rw (e, expire_loop)
        (step_cases P (λ step. (some_ended, counted_down step k))
          (λ step.
            expire_loop f (periods - step) true (complete_wait i e_tmout (counted_down step k)))
          (k.tcbs i).delay_ticks periods (early i e) (due i e))
]

-- Where the loop has a round more than there are tasks on the timer queue, each task that it
-- leaves there has been counted down by all of `periods`.
expire_loop-CountedDown :
    (f periods : ℕ) (some_ended : Bool) (k : Kernel)
    → Inv k
    → length (k.heads.ring timer_queue) < f
    → ((j : ℕ) → (k.tcbs j).delay_ticks < 2 ^ 32)
    → (j : ℕ) → (expire_loop f periods some_ended k).1.heads.link j ≡ on timer_queue
    → CountedDown periods k (expire_loop f periods some_ended k).1 j
unfolding expire_loop
expire_loop-CountedDown zero periods some_ended k v enough short j = absurd (omega arith)
expire_loop-CountedDown (suc f) periods some_ended k v enough short j =
    expire_loop_cases (λ r. r.1.heads.link j ≡ on timer_queue → CountedDown periods k r.1 j) f
      periods some_ended k
      (λ e h.
        absurd (ground (arith, first_deadline-none k e, v.heads_linked j timer_queue, count-nil j)))
      (λ i e lt h. record {
        queued = h;
        longer = omega (arith, first_deadline-least i periods k v e (omega arith) short j h);
        counted = round-delay i periods k v e (omega arith) short j h;
      })
      (λ i e ge h.
        let ticks = (k.tcbs i).delay_ticks in
        let k' = counted_down ticks k in
        let k'' = complete_wait i e_tmout k' in
        let (lt, here, w) = first_deadline-waits i k v e in
        let v' = advance-Inv ticks (k.heads.ring timer_queue) k v in
        let w' = advance-tskstat ticks (k.heads.ring timer_queue) k.tcbs i ∙ w in
        let (leaves, shorter) = complete_wait-OnlyLeaves i e_tmout k' v' lt w' here in
        let v'' = complete_wait-Inv i e_tmout k' v' lt w' in
        let rest =
          expire_loop-CountedDown f (periods - ticks) true k'' v'' (omega (arith, shorter))
            (λ n. omega (
              arith,
              leaves.sooner n,
              advance-short ticks (k.heads.ring timer_queue) k.tcbs short n,
            ))
            j h in
        let (on_timer, same) = leaves.stays j rest.queued in
        let counted = round-delay i ticks k v e (omega arith) short j on_timer in
        record {
          queued = on_timer;
          longer = omega (arith, rest.longer, same, counted);
          counted = omega (arith, rest.counted, rest.longer, same, counted);
        })

of_compared :
    (k : Kernel) (j : ℕ)
    → CountedDown (elapsed k) (compared k) (expired k).1 j
    → CountedDown (elapsed k) k (expired k).1 j
of_compared k j c = record { queued = c.queued; longer = c.longer; counted = c.counted }

reschedule-CountedDown :
    (periods : ℕ) (k k' : Kernel) (j : ℕ)
    → (k'.heads.link j ≡ on timer_queue → CountedDown periods k k' j)
    → (reschedule k').heads.link j ≡ on timer_queue
    → CountedDown periods k (reschedule k') j
unfolding reschedule
reschedule-CountedDown periods k k' j c =
    if_cases (λ r. r.heads.link j ≡ on timer_queue → CountedDown periods k r j)
      (not (same_task (get_highest_priority_task k') k'.current))
      (λ _ h. record { queued = (c h).queued; longer = (c h).longer; counted = (c h).counted })
      (λ _ h. record { queued = (c h).queued; longer = (c h).longer; counted = (c h).counted })

-- Where the invariant holds, every delay is below 2^32 and a period has passed, each task that is
-- still on the timer queue after tkmc_timer_handler was on it before with a delay longer than the
-- periods passed, and its delay is shorter by exactly these.
pub timer_handler-CountedDown :
    (k : Kernel)
    → Inv k
    → ((j : ℕ) → (k.tcbs j).delay_ticks < 2 ^ 32)
    → 0 < elapsed k
    → (j : ℕ) → (timer_handler k).heads.link j ≡ on timer_queue
    → CountedDown (elapsed k) k (timer_handler k) j
timer_handler-CountedDown k v short some_passed j =
    let counted = λ (h : (expired k).1.heads.link j ≡ on timer_queue).
      let c =
        expire_loop-CountedDown (suc (length (k.heads.ring timer_queue))) (elapsed k) false
          (compared k) v (omega arith) short j h in
      of_compared k j c in
    timer_handler_cases (λ r. r.heads.link j ≡ on timer_queue → CountedDown (elapsed k) k r j) k
      (λ none_passed h. absurd (omega arith))
      (λ _ _. reschedule-CountedDown (elapsed k) k (expired k).1 j counted) (λ _ _. counted)
