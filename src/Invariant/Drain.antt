-- ===== src/Invariant/Drain.antt =====
-- The loops of `tk_del_sem` and `tk_del_mbx` that release every waiter of an object: what their
-- rounds leave in the queue, and the invariant after the deletion of a mailbox.
use tsukumo_core.Common.{
  Option-cases, ℤ, pos_part, length, first, nil_of_length, erase, count-nil, ℕ, zero, suc, ◌-◌, ◌≤◌,
  ◌<◌, ◌≡◌, refl, ap, ◌∙◌, inl, inr, none, some, List, [], ◌∷◌, arith,
}
use tsukumo_core.Context.{di}
use tsukumo_core.Invariant.Defs.{Inv, Keeps}
use tsukumo_core.Invariant.Mailbox.{
  popped, pop-none, pop-some, make_waiter_ready-popped, make_waiter_ready-Inv,
  release_receivers-Inv,
}
use tsukumo_core.Invariant.Switch.{reschedule-Inv}
use tsukumo_core.Invariant.Wait.{end_wait-Inv, first_entry-waits}
use tsukumo_core.Kernel.{cfn_max_mbxid, Er, e_dlt, mailbox, mbx_queue_of, Kernel}
use tsukumo_core.Mailbox.{make_waiter_ready, release_receivers, free_mbx, delete_mbx, tk_del_mbx}
use tsukumo_core.Mailbox.Cases.{tk_del_mbx_cases, dispatch_if_needed_cases}
use tsukumo_core.Rings.{on, Rings, init_link, init_head, link_empty, first_entry, list_del}
use tsukumo_core.Rings.Linked.{IsLinked}
use tsukumo_core.Semaphore.{set_winfo, release_all}
use tsukumo_core.Task.Wait.{end_wait, complete_wait_dlt}

pub ring_of_none : (q : ℕ) (r : Rings) → first_entry r q ≡ none → r.ring q ≡ []
unfolding first_entry
ring_of_none q r e = go (r.ring q) refl e
  where
    go : (l : List ℕ) → r.ring q ≡ l → first l ≡ none → r.ring q ≡ []
    go [] h n = h
    go (x ∷ l) h n = cc

length-erase-first : (i : ℕ) (l : List ℕ) → first l ≡ some i → suc (length (erase i l)) ≡ length l
unfolding erase
length-erase-first i [] e = cc
length-erase-first i (x ∷ l) e = ground arith

-- The end of the first waiter's wait leaves the rest of its queue.
pub end_wait-ring :
    (i q : ℕ) (cause : Er) (k : Kernel)
    → k.waits.link i ≡ on q
    → (end_wait i cause k).waits.ring q ≡ erase i (k.waits.ring q)
unfolding end_wait link_empty list_del init_link
end_wait-ring i q cause k h = ground arith

end_wait-shrinks :
    (i q : ℕ) (cause : Er) (k : Kernel)
    → first_entry k.waits q ≡ some i
    → k.waits.link i ≡ on q
    → suc (length ((end_wait i cause k).waits.ring q)) ≡ length (k.waits.ring q)
unfolding first_entry
end_wait-shrinks i q cause k e h =
    ap (λ (l : List ℕ). suc (length l)) (end_wait-ring i q cause k h)
    ∙ length-erase-first i (k.waits.ring q) e

-- Where the invariant holds and the loop of tk_del_sem may take as many rounds as there are
-- waiters, the wait queue is empty after it.
pub release_all-drains :
    (f q : ℕ) (k : Kernel)
    → Inv k
    → length (k.waits.ring q) ≤ f
    → (release_all f q k).waits.ring q ≡ []
unfolding release_all
release_all-drains zero q k v h = nil_of_length (k.waits.ring q) (omega arith)
release_all-drains (suc f) q k v h = elim (Option-cases (first_entry k.waits q)) [
  | inl e ↦ rw (e, release_all) (ring_of_none q k.waits e)
  | inr (i, e) ↦
      let (lt, here, w) = first_entry-waits i q k v e in
      rw (e, release_all, complete_wait_dlt)
        (release_all-drains f q (end_wait i e_dlt k) (end_wait-Inv i e_dlt k v lt w)
          (omega (arith, end_wait-shrinks i q e_dlt k e here)))
]

-- Where the invariant holds and the loop of tk_del_mbx may take more rounds than there are
-- receivers, the wait queue of the mailbox is empty after it.
pub release_receivers-drains :
    (f b : ℕ) (k : Kernel)
    → Inv k
    → b < cfn_max_mbxid
    → length (k.waits.ring (mbx_queue_of b)) < f
    → (release_receivers f b k).waits.ring (mbx_queue_of b) ≡ []
unfolding release_receivers
release_receivers-drains zero b k v lb h = elim h [ ]
release_receivers-drains (suc f) b k v lb h =
    let q = mbx_queue_of b in
    elim (Option-cases (first_entry k.waits q)) [
      | inl e ↦ rw (pop-none b k e, release_receivers, pop-none b k e) (ring_of_none q k.waits e)
      | inr (i, e) ↦
          let (lt, here, w) = first_entry-waits i q k v e in
          let k' = set_winfo i (mailbox 0) k in
          let v' = make_waiter_ready-Inv b i 0 k v lb e e_dlt (inr refl) in
          let same = make_waiter_ready-popped b i 0 k v lb e e_dlt (inr refl) in
          rw (pop-some b i k v lb e, release_receivers, pop-some b i k v lb e)
            (release_receivers-drains f b (make_waiter_ready i e_dlt 0 (popped i k)) v' lb
              (rw same (omega (arith, end_wait-shrinks i q e_dlt k' e here))))
    ]

-- A ring that is empty may be initialised.
init_head-IsLinked : (a : ℕ) (r : Rings) → r.ring a ≡ [] → IsLinked r → IsLinked (init_head a r)
unfolding init_head
init_head-IsLinked a r e v n b = ground (arith, v n b, count-nil n)

free_mbx-Inv :
    (b : ℕ) (k : Kernel) → k.waits.ring (mbx_queue_of b) ≡ [] → Inv k → Inv (free_mbx b k)
free_mbx-Inv b k e v = record {
  heads_linked = v.heads_linked;
  waits_linked = init_head-IsLinked (mbx_queue_of b) k.waits e v.waits_linked;
  placed = unfold init_head in v.placed;
  named = v.named;
  stray = unfold init_head in v.stray;
  wakeups = v.wakeups;
  units = v.units;
}

pub delete_mbx-Inv : (b : ℕ) (k : Kernel) → Inv k → b < cfn_max_mbxid → Inv (delete_mbx b k)
unfolding delete_mbx
delete_mbx-Inv b k v lb =
    let fuel = suc (length (k.waits.ring (mbx_queue_of b))) in
    let k' = release_receivers fuel b k in
    let freed =
      free_mbx-Inv b k' (release_receivers-drains fuel b k v lb (omega arith))
        (release_receivers-Inv fuel b k v lb) in
    dispatch_if_needed_cases Inv (free_mbx b k') freed (reschedule-Inv (free_mbx b k') freed)

-- Where the invariant holds, it holds after tk_del_mbx, on every branch.
pub tk_del_mbx-Inv : (mbxid : ℤ) (k : Kernel) → Inv k → Keeps (tk_del_mbx mbxid k)
tk_del_mbx-Inv mbxid k v =
    tk_del_mbx_cases Keeps mbxid k (record { kept = v }) (record { kept = v })
      (λ lb _. record { kept = delete_mbx-Inv (pos_part mbxid - 1) (di k) v lb })
