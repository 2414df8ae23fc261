-- ===== src/System/Frame.antt =====
-- What the loops of the kernel leave alone: the current and the next task, and the request for a
-- switch.
use tsukumo_core.Common.{
  ltb, if◌then◌else◌, Option-cases, if_cases, length, ℕ, zero, suc, ◌-◌, ◌≡◌, refl, ◌∙◌, inl, inr,
  Bool, true, false, ◌&&◌, Option, List,
}
use tsukumo_core.EventFlag.{set_loop}
use tsukumo_core.Kernel.{Er, e_tmout, timer_queue, mbx_queue_of, Kernel, set_waits}
use tsukumo_core.Kernel.Codes.{is_wai, is_mbx}
use tsukumo_core.Mailbox.{pop_loop, pop_waiting_receiver, make_waiter_ready, release_receivers}
use tsukumo_core.Rings.{init_link, first_entry, list_del}
use tsukumo_core.Semaphore.{release_all}
use tsukumo_core.System.Moves.{
  Moves, sem_serve_waiters-moved, complete_wait-moved, set_loop-moved, release_all-moved,
  make_waiter_ready-moved, release_receivers-moved, expire_loop-moved,
}
use tsukumo_core.Task.Wait.{end_wait, sem_serve_waiters, complete_wait}
use tsukumo_core.Timer.{first_deadline, advance, expire_loop}

pub record Frame (k k' : Kernel) : Type 0 where
  pub current_same : k'.current ≡ k.current
  pub next_same : k'.next ≡ k.next
  pub msip_same : k'.msip ≡ k.msip

Frame-refl : (k : Kernel) → Frame k k
Frame-refl k = record { current_same = refl; next_same = refl; msip_same = refl }

Frame-trans : (a b c : Kernel) → Frame a b → Frame b c → Frame a c
Frame-trans a b c f g = record {
  current_same = g.current_same ∙ f.current_same;
  next_same = g.next_same ∙ f.next_same;
  msip_same = g.msip_same ∙ f.msip_same;
}

Frame-Moves : Moves Frame
unfolding end_wait
Frame-Moves = record {
  same = Frame-refl;
  then_on = Frame-trans;
  wakes = λ i cause k. record { current_same = refl; next_same = refl; msip_same = refl };
  takes = λ s req k. record { current_same = refl; next_same = refl; msip_same = refl };
  notes = λ i w k. record { current_same = refl; next_same = refl; msip_same = refl };
  sets = λ s ptn k. record { current_same = refl; next_same = refl; msip_same = refl };
  pops = λ i k. record { current_same = refl; next_same = refl; msip_same = refl };
  counts = λ step l k. record { current_same = refl; next_same = refl; msip_same = refl };
}

pub sem_serve_waiters-Frame : (s : ℕ) (k : Kernel) → Frame k (sem_serve_waiters s k)
sem_serve_waiters-Frame = sem_serve_waiters-moved Frame Frame-Moves

pub complete_wait-Frame : (i : ℕ) (cause : Er) (k : Kernel) → Frame k (complete_wait i cause k)
complete_wait-Frame = complete_wait-moved Frame Frame-Moves

pub set_loop-Frame : (s : ℕ) (l : List ℕ) (k : Kernel) → Frame k (set_loop s l k)
set_loop-Frame = set_loop-moved Frame Frame-Moves

pub release_all-Frame : (f q : ℕ) (k : Kernel) → Frame k (release_all f q k)
release_all-Frame = release_all-moved Frame Frame-Moves

pub make_waiter_ready-Frame :
    (i : ℕ) (cause : Er) (msg : ℕ) (k : Kernel) → Frame k (make_waiter_ready i cause msg k)
make_waiter_ready-Frame = make_waiter_ready-moved Frame Frame-Moves

pub release_receivers-Frame : (f b : ℕ) (k : Kernel) → Frame k (release_receivers f b k)
release_receivers-Frame = release_receivers-moved Frame Frame-Moves

pub expire_loop-Frame :
    (f periods : ℕ) (any : Bool) (k : Kernel) → Frame k (expire_loop f periods any k).1
expire_loop-Frame = expire_loop-moved Frame Frame-Moves

-- The search for a receiver leaves the ready queues alone as well.
pub record Quiet (k k' : Kernel) : Type 0 where
  pub frame : Frame k k'
  pub heads_same : k'.heads ≡ k.heads

pop_loop-Quiet : (f b : ℕ) (k : Kernel) → Quiet k (pop_loop f b k).1
unfolding pop_loop
pop_loop-Quiet zero b k = record { frame = Frame-refl k; heads_same = refl }
pop_loop-Quiet (suc f) b k = elim (Option-cases (first_entry k.waits (mbx_queue_of b))) [
  | inl e ↦ rw (e, pop_loop) (record { frame = Frame-refl k; heads_same = refl })
  | inr (i, e) ↦
      let k' = set_waits (init_link i (list_del i k.waits)) k in
      let rest = pop_loop-Quiet f b k' in
      rw (e, pop_loop)
        (if_cases (λ (r : Option ℕ × Kernel). Quiet k r.1)
          (is_wai (k.tcbs i).tskstat && is_mbx (k.tcbs i).tskwait)
          (λ _. record {
            frame = record { current_same = refl; next_same = refl; msip_same = refl };
            heads_same = refl;
          })
          (λ _. record {
            frame = record {
              current_same = rest.frame.current_same;
              next_same = rest.frame.next_same;
              msip_same = rest.frame.msip_same;
            };
            heads_same = rest.heads_same;
          }))
]

pub pop_waiting_receiver-Quiet : (b : ℕ) (k : Kernel) → Quiet k (pop_waiting_receiver b k).1
unfolding pop_waiting_receiver
pop_waiting_receiver-Quiet b k = pop_loop-Quiet (length (k.waits.ring (mbx_queue_of b))) b k

expire_loop-ended : (f periods : ℕ) (k : Kernel) → (expire_loop f periods true k).0 ≡ true
unfolding expire_loop
expire_loop-ended zero periods k = refl
expire_loop-ended (suc f) periods k = elim (Option-cases (first_deadline k)) [
  | inl e ↦ rw (e, expire_loop) refl
  | inr (i, e) ↦
      let ticks = (k.tcbs i).delay_ticks in
      let step = if ltb ticks periods then ticks else periods in
      let k' = record k { tcbs = advance step (k.heads.ring timer_queue) k.tcbs } in
      rw (e, expire_loop)
        (if_cases (λ (r : Bool × Kernel). r.0 ≡ true) (ltb step ticks) (λ _. refl)
          (λ _. expire_loop-ended f (periods - step) (complete_wait i e_tmout k')))
]

pub expire_loop-idle :
    (f periods : ℕ) (k : Kernel)
    → (expire_loop f periods false k).0 ≡ false
    → (expire_loop f periods false k).1.heads ≡ k.heads
unfolding expire_loop
expire_loop-idle zero periods k = λ h. refl
expire_loop-idle (suc f) periods k = elim (Option-cases (first_deadline k)) [
  | inl e ↦ rw (e, expire_loop) (λ h. refl)
  | inr (i, e) ↦
      let ticks = (k.tcbs i).delay_ticks in
      let step = if ltb ticks periods then ticks else periods in
      let k' = record k { tcbs = advance step (k.heads.ring timer_queue) k.tcbs } in
      let c = complete_wait i e_tmout k' in
      let t = expire_loop-ended f (periods - step) c in
      rw (e, expire_loop)
        (if_cases (λ (r : Bool × Kernel). r.0 ≡ false → r.1.heads ≡ k.heads) (ltb step ticks)
          (λ _ h. refl) (λ _ h. cc))
]
