-- ===== src/Invariant/Mailbox.antt =====
-- The invariant, and the calls of kernel/mailbox.c.
use tsukumo_core.Common.{
  Bool-cases, Option-cases, ℤ, pos_part, length, first, ℕ, zero, suc, ◌-◌, ◌<◌, ◌≡◌, refl, ◌⊎◌, inl,
  inr, Bool, none, some, List, [], ◌∷◌, arith,
}
use tsukumo_core.Context.{di}
use tsukumo_core.Invariant.Defs.{Inv, Keeps, Leaves}
use tsukumo_core.Invariant.Enqueue.{begin_wait-enqueue-Inv}
use tsukumo_core.Invariant.Switch.{reschedule-Inv, IsRunnable, CurrentRuns}
use tsukumo_core.Invariant.Wait.{end_wait-Inv, wai_of_queued, first_entry-waits}
use tsukumo_core.Kernel.{
  cfn_max_tskid, cfn_max_mbxid, Er, e_ok, e_dlt, wai, mbx, WaitInfo, mailbox, mbx_queue_of, Kernel,
  set_waits,
}
use tsukumo_core.Kernel.Codes.{has_bits}
use tsukumo_core.Mailbox.{
  ta_mpri, pop_loop, pop_waiting_receiver, make_waiter_ready, release_receivers, enqueue_msg,
  deliver, tk_snd_mbx, receive, tk_rcv_mbx,
}
use tsukumo_core.Mailbox.Cases.{
  receive_wait_cases, tk_rcv_mbx_cases, tk_snd_mbx_cases, dispatch_if_needed_cases,
}
use tsukumo_core.Rings.{on, Rings, init_link, link_empty, first_entry, list_del}
use tsukumo_core.Rings.Linked.{init_link-link_self}
use tsukumo_core.Semaphore.{set_winfo}
use tsukumo_core.Task.Wait.{ta_tpri, leave_wait, end_wait, complete_wait_ok, complete_wait_dlt}

-- The kernel once the receiver `i` has left the wait queue, still waiting.
abbrev pub popped : ℕ → Kernel → Kernel
popped i k = set_waits (init_link i (list_del i k.waits)) k

length-first : (i : ℕ) (l : List ℕ) → first l ≡ some i → (f : ℕ) × (length l ≡ suc f)
length-first i [] e = cc
length-first i (x ∷ l) e = (length l, refl)

pop_loop-none :
    (f b : ℕ) (k : Kernel)
    → first_entry k.waits (mbx_queue_of b) ≡ none
    → pop_loop f b k ≡ (none, k)
unfolding pop_loop
pop_loop-none zero b k e = refl
pop_loop-none (suc f) b k e = rw (e, pop_loop)

pop_loop-some :
    (f b i : ℕ) (k : Kernel)
    → first_entry k.waits (mbx_queue_of b) ≡ some i
    → (k.tcbs i).tskstat ≡ wai
    → (k.tcbs i).tskwait ≡ mbx
    → pop_loop (suc f) b k ≡ (some i, popped i k)
unfolding pop_loop
pop_loop-some f b i k e w m = rw (e, pop_loop) (rw (w, m))

pub pop-none :
    (b : ℕ) (k : Kernel)
    → first_entry k.waits (mbx_queue_of b) ≡ none
    → pop_waiting_receiver b k ≡ (none, k)
unfolding pop_waiting_receiver
pop-none b k e = pop_loop-none (length (k.waits.ring (mbx_queue_of b))) b k e

module _ (b i : ℕ) (k : Kernel) (v : Inv k) (lb : b < cfn_max_mbxid)
    (e : first_entry k.waits (mbx_queue_of b) ≡ some i) where
  -- The first receiver of a queue waits for a message, so it is the one that is taken.
  pub pop-some : pop_waiting_receiver b k ≡ (some i, popped i k)
  unfolding pop_waiting_receiver first_entry
  pop-some =
      let (lt, here, w) = first_entry-waits i (mbx_queue_of b) k v e in
      let (f, len) = length-first i (k.waits.ring (mbx_queue_of b)) e in
      rw len (pop_loop-some f b i k e w (ground (arith, v.placed i lt)))

leave_wait-popped :
    (i q : ℕ) (r : Rings)
    → r.link i ≡ on q
    → leave_wait i (init_link i (list_del i r)) ≡ leave_wait i r
unfolding link_empty
leave_wait-popped i q r h = rw (init_link-link_self i (list_del i r)) (ground arith)

-- Taking a receiver off the queue first does not change the end of its wait.
pub end_wait-popped :
    (i q : ℕ) (cause : Er) (w : WaitInfo) (k : Kernel)
    → k.waits.link i ≡ on q
    → end_wait i cause (set_winfo i w (popped i k)) ≡ end_wait i cause (set_winfo i w k)
unfolding end_wait
end_wait-popped i q cause w k h = rw (leave_wait-popped i q k.waits h)

-- A task on the queue of a mailbox waits for one, so its wait information may change.
mail_info-Inv :
    (i b : ℕ) (w : WaitInfo) (k : Kernel)
    → Inv k
    → i < cfn_max_tskid
    → k.waits.link i ≡ on (mbx_queue_of b)
    → b < cfn_max_mbxid
    → Inv (set_winfo i w k)
mail_info-Inv i b w k v lt h lb = record {
  heads_linked = v.heads_linked;
  waits_linked = v.waits_linked;
  placed = λ j lj. ground (arith, v.placed i lt, v.placed j lj);
  named = λ j lj. ground (arith, v.named i lt, v.named j lj);
  stray = v.stray;
  wakeups = λ j. ground (arith, v.wakeups i, v.wakeups j);
  units = v.units;
}

module _ (b i msg : ℕ) (k : Kernel) (v : Inv k) (lb : b < cfn_max_mbxid)
    (e : first_entry k.waits (mbx_queue_of b) ≡ some i) where
  -- The release of the first receiver, as one end of a wait.
  pub make_waiter_ready-popped :
      (cause : Er)
      → (cause ≡ e_ok) ⊎ (cause ≡ e_dlt)
      → make_waiter_ready i cause msg (popped i k) ≡ end_wait i cause (set_winfo i (mailbox msg) k)
  unfolding make_waiter_ready
  make_waiter_ready-popped cause (inl c) =
      let here = (first_entry-waits i (mbx_queue_of b) k v e).1 in
      rw (c, complete_wait_ok) (end_wait-popped i (mbx_queue_of b) e_ok (mailbox msg) k here)
  make_waiter_ready-popped cause (inr c) =
      let here = (first_entry-waits i (mbx_queue_of b) k v e).1 in
      rw (c, complete_wait_dlt) (end_wait-popped i (mbx_queue_of b) e_dlt (mailbox msg) k here)

  pub make_waiter_ready-Inv :
      (cause : Er)
      → (cause ≡ e_ok) ⊎ (cause ≡ e_dlt)
      → Inv (make_waiter_ready i cause msg (popped i k))
  make_waiter_ready-Inv cause c =
      let (lt, here, w) = first_entry-waits i (mbx_queue_of b) k v e in
      let k' = set_winfo i (mailbox msg) k in
      let v' = mail_info-Inv i b (mailbox msg) k v lt here lb in
      rw (make_waiter_ready-popped cause c)
        (end_wait-Inv i cause k' v' lt (wai_of_queued i (mbx_queue_of b) k' v' lt here))

enqueue_msg-Inv : (b msg : ℕ) (k : Kernel) → Inv k → Inv (enqueue_msg b msg k)
unfolding enqueue_msg
enqueue_msg-Inv b msg k v = elim (Bool-cases (has_bits (k.mbxcbs b).mbxatr ta_mpri)) [
  | inl e ↦ rw e v
  | inr e ↦ rw e v
]

deliver-Inv : (b msg : ℕ) (k : Kernel) → Inv k → b < cfn_max_mbxid → Inv (deliver b msg k)
unfolding deliver
deliver-Inv b msg k v lb = elim (Option-cases (first_entry k.waits (mbx_queue_of b))) [
  | inl e ↦ rw (pop-none b k e) (enqueue_msg-Inv b msg k v)
  | inr (i, e) ↦ rw (pop-some b i k v lb e) (
      dispatch_if_needed_cases Inv (make_waiter_ready i e_ok msg (popped i k))
        (make_waiter_ready-Inv b i msg k v lb e e_ok (inl refl))
        (reschedule-Inv _ (make_waiter_ready-Inv b i msg k v lb e e_ok (inl refl))))
]

pub release_receivers-Inv :
    (f b : ℕ) (k : Kernel) → Inv k → b < cfn_max_mbxid → Inv (release_receivers f b k)
unfolding release_receivers
release_receivers-Inv zero b k v lb = v
release_receivers-Inv (suc f) b k v lb =
    elim (Option-cases (first_entry k.waits (mbx_queue_of b))) [
      | inl e ↦ rw (pop-none b k e, release_receivers, pop-none b k e) v
      | inr (i, e) ↦
          rw (pop-some b i k v lb e, release_receivers, pop-some b i k v lb e)
            (release_receivers-Inv f b _ (make_waiter_ready-Inv b i 0 k v lb e e_dlt (inr refl)) lb)
    ]

-- Where the invariant holds, it holds after tk_snd_mbx, on every branch.
pub tk_snd_mbx-Inv : (mbxid : ℤ) (msg : ℕ) (k : Kernel) → Inv k → Keeps (tk_snd_mbx mbxid msg k)
tk_snd_mbx-Inv mbxid msg k v =
    tk_snd_mbx_cases Keeps mbxid msg k (λ e. record { kept = v }) (λ e. record { kept = v })
      (λ lb. record { kept = deliver-Inv (pos_part mbxid - 1) msg (di k) v lb })

receive-Inv :
    (b : ℕ) (tmout : ℤ) (i : ℕ) (ms : List ℕ) (k : Kernel)
    → Inv k
    → IsRunnable k.tcbs k.heads k.waits i
    → b < cfn_max_mbxid
    → Leaves (receive b tmout i ms k)
receive-Inv b tmout i ms k v r lb =
    receive_wait_cases Leaves b tmout i ms k (λ msg rest e. record { kept = v })
      (λ e p. record { kept = v })
      (λ e p. record {
        kept =
            begin_wait-enqueue-Inv i (mbx_queue_of b) (has_bits (k.mbxcbs b).mbxatr ta_tpri) tmout
              mbx (mailbox 0) (di k) v r (refl, omega arith, omega arith);
      })

-- Where the invariant holds and the current task runs, tk_rcv_mbx keeps the invariant, whether it
-- returns or its task waits.
pub tk_rcv_mbx-Inv :
    (mbxid : ℤ) (has_ptr : Bool) (tmout : ℤ) (k : Kernel)
    → Inv k
    → CurrentRuns k
    → Leaves (tk_rcv_mbx mbxid has_ptr tmout k)
tk_rcv_mbx-Inv mbxid has_ptr tmout k v r =
    tk_rcv_mbx_cases Leaves mbxid has_ptr tmout k (λ e. record { kept = v })
      (λ e. record { kept = v })
      (λ i e lb _.
        receive-Inv (pos_part mbxid - 1) tmout i (k.mbxcbs (pos_part mbxid - 1)).mbx_queue k v
          (r i e) lb)
