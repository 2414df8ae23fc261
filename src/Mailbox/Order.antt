-- ===== src/Mailbox/Order.antt =====
-- The order of the messages in a mailbox: `insert_msg_pri` of kernel/mailbox.c.
use tsukumo_core.Common.{
  if◌then◌else◌, Bool-cases, Option-cases, if_cases, ℤ, ltb_ℤ, leb_ℤ, ℕ, ◌≡◌, refl, sym, ap, inl,
  inr, true, false, ◌&&◌, some, List, [], ◌∷◌, ◌++◌, arith,
}
use tsukumo_core.Mailbox.{insert_scan, last_msg, insert_msg_pri}

-- No message of the list has a higher priority, which is a smaller number, than `p`.
abbrev pub NoneBefore : (ℕ → ℤ) → ℤ → List ℕ → Type 0
NoneBefore pri p [] = Unit {0}
NoneBefore pri p (m ∷ ms) = (leb_ℤ p (pri m) ≡ true) × NoneBefore pri p ms

-- The messages stand in the order of their priorities.
abbrev pub IsOrdered : (ℕ → ℤ) → List ℕ → Type 0
IsOrdered pri [] = Unit {0}
IsOrdered pri (m ∷ ms) = NoneBefore pri (pri m) ms × IsOrdered pri ms

NoneBefore-insert_scan :
    (pri : ℕ → ℤ) (p : ℤ) (msg : ℕ) (ms : List ℕ)
    → leb_ℤ p (pri msg) ≡ true
    → NoneBefore pri p ms
    → NoneBefore pri p (insert_scan pri msg ms)
unfolding insert_scan
NoneBefore-insert_scan pri p msg [] le h = (le, tt)
NoneBefore-insert_scan pri p msg (m ∷ ms) le h =
    if_cases (NoneBefore pri p) (ltb_ℤ (pri msg) (pri m)) (λ _. (le, h))
      (λ _. (h.0, NoneBefore-insert_scan pri p msg ms le h.1))

NoneBefore-weaken :
    (pri : ℕ → ℤ) (p q : ℤ) (ms : List ℕ)
    → leb_ℤ p q ≡ true
    → NoneBefore pri q ms
    → NoneBefore pri p ms
NoneBefore-weaken pri p q [] le h = tt
NoneBefore-weaken pri p q (m ∷ ms) le h = (ground (arith, h.0), NoneBefore-weaken pri p q ms le h.1)

-- The scan keeps the messages in the order of their priorities.
insert_scan-IsOrdered :
    (pri : ℕ → ℤ) (msg : ℕ) (ms : List ℕ)
    → IsOrdered pri ms
    → IsOrdered pri (insert_scan pri msg ms)
unfolding insert_scan
insert_scan-IsOrdered pri msg [] h = (tt, tt)
insert_scan-IsOrdered pri msg (m ∷ ms) h =
    if_cases (IsOrdered pri) (ltb_ℤ (pri msg) (pri m))
      (λ lt.
        let le : leb_ℤ (pri msg) (pri m) ≡ true = ground arith in
        ((le, NoneBefore-weaken pri (pri msg) (pri m) ms le h.0), h))
      (λ ge. (
        NoneBefore-insert_scan pri (pri m) msg ms (ground arith) h.0,
        insert_scan-IsOrdered pri msg ms h.1,
      ))

-- In an ordered list, nothing is after the last message.
NoneBefore-last_msg :
    (pri : ℕ → ℤ) (p : ℤ) (ms : List ℕ) (l : ℕ)
    → NoneBefore pri p ms
    → last_msg ms ≡ some l
    → leb_ℤ p (pri l) ≡ true
NoneBefore-last_msg pri p [] l h e = cc
NoneBefore-last_msg pri p (m ∷ []) l h e = ground (arith, h.0)
NoneBefore-last_msg pri p (m ∷ n ∷ ms) l h e = NoneBefore-last_msg pri p (n ∷ ms) l h.1 e

-- A message that is not before the last one goes to the end.
insert_scan-append :
    (pri : ℕ → ℤ) (msg : ℕ) (ms : List ℕ) (l : ℕ)
    → IsOrdered pri ms
    → last_msg ms ≡ some l
    → leb_ℤ (pri l) (pri msg) ≡ true
    → insert_scan pri msg ms ≡ ms ++ msg ∷ []
unfolding insert_scan
insert_scan-append pri msg [] l h e le = cc
insert_scan-append pri msg (m ∷ []) l h e le = ground arith
insert_scan-append pri msg (m ∷ n ∷ ms) l h e le =
    let rest = insert_scan-append pri msg (n ∷ ms) l h.1 e le in
    let first_le = NoneBefore-last_msg pri (pri m) (n ∷ ms) l h.0 e in
    let behind : ltb_ℤ (pri msg) (pri m) ≡ false = ground (arith, first_le, le) in
    rw behind (ap (λ (ms' : List ℕ). m ∷ ms') rest)

-- On an ordered queue, insert_msg_pri, which looks at the tail first, gives the queue that its
-- scan from the head alone gives.
pub insert_msg_pri-insert_scan :
    (pri : ℕ → ℤ) (msg : ℕ) (ms : List ℕ)
    → IsOrdered pri ms
    → insert_msg_pri pri msg ms ≡ insert_scan pri msg ms
unfolding insert_msg_pri
insert_msg_pri-insert_scan pri msg ms h = elim (Option-cases (last_msg ms)) [
  | inl e ↦ rw (e, insert_msg_pri) refl
  | inr (l, e) ↦
      rw (e, insert_msg_pri)
        (if_cases (λ r. r ≡ insert_scan pri msg ms) (leb_ℤ (pri l) (pri msg))
          (λ le. sym (insert_scan-append pri msg ms l h e le)) (λ _. refl))
]

-- The messages of one priority, in the order of the queue.
abbrev pub of_priority : (ℕ → ℤ) → ℤ → List ℕ → List ℕ
of_priority pri p [] = []
of_priority pri p (m ∷ ms) =
    if leb_ℤ p (pri m) && leb_ℤ (pri m) p then m ∷ of_priority pri p ms else of_priority pri p ms

of_priority-after :
    (pri : ℕ → ℤ) (p q : ℤ) (ms : List ℕ)
    → ltb_ℤ p q ≡ true
    → NoneBefore pri q ms
    → of_priority pri p ms ≡ []
of_priority-after pri p q [] lt h = refl
of_priority-after pri p q (m ∷ ms) lt h = ground (arith, h.0, of_priority-after pri p q ms lt h.1)

-- A queue `ms` with a message put in: ordered, the message behind those of its own priority, and
-- those of each other priority as they were.
pub record IsInserted (pri : ℕ → ℤ) (msg : ℕ) (ms ms' : List ℕ) : Type 0 where
  ordered : IsOrdered pri ms'
  behind : of_priority pri (pri msg) ms' ≡ of_priority pri (pri msg) ms ++ msg ∷ []
  others :
      (p : ℤ)
      → (leb_ℤ p (pri msg) && leb_ℤ (pri msg) p) ≡ false
      → of_priority pri p ms' ≡ of_priority pri p ms

insert_scan-behind :
    (pri : ℕ → ℤ) (msg : ℕ) (ms : List ℕ)
    → IsOrdered pri ms
    → of_priority pri (pri msg) (insert_scan pri msg ms) ≡ of_priority pri (pri msg) ms ++ msg ∷ []
unfolding insert_scan
insert_scan-behind pri msg [] h = ground arith
insert_scan-behind pri msg (m ∷ ms) h = elim (Bool-cases (ltb_ℤ (pri msg) (pri m))) [
  | inl lt ↦ rw lt (ground (arith, of_priority-after pri (pri msg) (pri m) ms lt h.0))
  | inr ge ↦ rw ge (ground (arith, insert_scan-behind pri msg ms h.1))
]

insert_scan-others :
    (pri : ℕ → ℤ) (msg : ℕ) (ms : List ℕ) (p : ℤ)
    → (leb_ℤ p (pri msg) && leb_ℤ (pri msg) p) ≡ false
    → of_priority pri p (insert_scan pri msg ms) ≡ of_priority pri p ms
unfolding insert_scan
insert_scan-others pri msg [] p ne = ground arith
insert_scan-others pri msg (m ∷ ms) p ne = elim (Bool-cases (ltb_ℤ (pri msg) (pri m))) [
  | inl lt ↦ rw (lt, ne) refl
  | inr ge ↦ rw ge (ground (arith, insert_scan-others pri msg ms p ne))
]

pub insert_scan-IsInserted :
    (pri : ℕ → ℤ) (msg : ℕ) (ms : List ℕ)
    → IsOrdered pri ms
    → IsInserted pri msg ms (insert_scan pri msg ms)
insert_scan-IsInserted pri msg ms h = record {
  ordered = insert_scan-IsOrdered pri msg ms h;
  behind = insert_scan-behind pri msg ms h;
  others = insert_scan-others pri msg ms;
}

-- A message that insert_msg_pri puts into an ordered queue leaves the queue ordered by priority
-- and goes behind the queued messages of its own priority; those of each other priority stay as
-- they were.
pub insert_msg_pri-IsInserted :
    (pri : ℕ → ℤ) (msg : ℕ) (ms : List ℕ)
    → IsOrdered pri ms
    → IsInserted pri msg ms (insert_msg_pri pri msg ms)
insert_msg_pri-IsInserted pri msg ms h =
    rw (insert_msg_pri-insert_scan pri msg ms h) (insert_scan-IsInserted pri msg ms h)
