-- ===== src/System/Running.antt =====
-- The calls leave the current task the current one.
pub mod Tasks
pub mod Objects
pub mod Creations
use tsukumo_core.Common.{
  Option-cases, if_cases, ℤ, ltb_ℤ, length, is_empty, ℕ, suc, bit_or, ◌≡◌, refl, ◌∙◌, inl, inr, not,
  Option, none, some, arith,
}
use tsukumo_core.Context.{di, ei}
use tsukumo_core.EventFlag.{set_flgptn, set_loop, set_ptn}
use tsukumo_core.Kernel.{e_ok, TaskWait, flg_queue, mbx_queue_of, Kernel}
use tsukumo_core.Kernel.Codes.{has_bits, same_task, tmo_pol}
use tsukumo_core.Mailbox.{
  ta_mpri, pop_waiting_receiver, make_waiter_ready, dispatch_if_needed, release_receivers, free_mbx,
  delete_mbx, enqueue_msg, hand_over, deliver,
}
use tsukumo_core.Mailbox.Cases.{dispatch_if_needed_cases}
use tsukumo_core.Semaphore.{begin_wait}
use tsukumo_core.System.Frame.{
  set_loop-Frame, make_waiter_ready-Frame, release_receivers-Frame, pop_waiting_receiver-Quiet,
}
use tsukumo_core.Task.{yield_from, yield_task, Ending, ended, switch_away}
use tsukumo_core.Task.Queue.{get_highest_priority_task, reschedule}
use tsukumo_core.Timer.{Call, after, schedule_timer, wait_forever}

pub record Stays (k : Kernel) {A : Type 0} (r : A × Kernel) : Type 0 where
  pub current_kept : r.1.current ≡ k.current

pub record StaysCall (k : Kernel) {A : Type 0} (c : Call A) : Type 0 where
  pub current_kept : (after c).current ≡ k.current

pub record StaysEnding (k : Kernel) (e : Ending) : Type 0 where
  pub current_kept : (ended e).current ≡ k.current

pub reschedule-current : (k : Kernel) → (reschedule k).current ≡ k.current
unfolding reschedule
reschedule-current k =
    if_cases {A = Kernel} (λ r. r.current ≡ k.current)
      (not (same_task (get_highest_priority_task k) k.current)) (λ _. refl) (λ _. refl)

dispatch_if_needed-current : (k : Kernel) → (dispatch_if_needed k).current ≡ k.current
dispatch_if_needed-current k =
    dispatch_if_needed_cases (λ r. r.current ≡ k.current) k refl (reschedule-current k)

pub begin_wait-current :
    (tmout : ℤ) (w : TaskWait) (i : ℕ) (k : Kernel) → (begin_wait tmout w i k).current ≡ k.current
unfolding begin_wait schedule_timer wait_forever switch_away
begin_wait-current tmout w i k =
    if_cases {A = Kernel} (λ r. r.current ≡ k.current) (ltb_ℤ tmo_pol tmout) (λ _. refl) (λ _. refl)

enqueue_msg-current : (b msg : ℕ) (k : Kernel) → (enqueue_msg b msg k).current ≡ k.current
unfolding enqueue_msg
enqueue_msg-current b msg k =
    if_cases {A = Kernel} (λ r. r.current ≡ k.current) (has_bits (k.mbxcbs b).mbxatr ta_mpri)
      (λ _. refl) (λ _. refl)

hand_over-current :
    (o : Option ℕ) (b msg : ℕ) (k : Kernel) → (hand_over o b msg k).current ≡ k.current
hand_over-current none b msg k = enqueue_msg-current b msg k
hand_over-current (some i) b msg k =
    dispatch_if_needed-current (make_waiter_ready i e_ok msg k)
    ∙ (make_waiter_ready-Frame i e_ok msg k).current_same

pub deliver-current : (b msg : ℕ) (k : Kernel) → (deliver b msg k).current ≡ k.current
unfolding deliver
deliver-current b msg k =
    hand_over-current (pop_waiting_receiver b k).0 b msg (pop_waiting_receiver b k).1
    ∙ (pop_waiting_receiver-Quiet b k).frame.current_same

pub delete_mbx-current : (b : ℕ) (k : Kernel) → (delete_mbx b k).current ≡ k.current
unfolding delete_mbx
delete_mbx-current b k =
    let fuel = suc (length (k.waits.ring (mbx_queue_of b))) in
    dispatch_if_needed-current (free_mbx b (release_receivers fuel b k))
    ∙ (release_receivers-Frame fuel b k).current_same

pub set_ptn-current : (s setptn : ℕ) (k : Kernel) → (set_ptn s setptn k).current ≡ k.current
unfolding set_ptn
set_ptn-current s setptn k =
    let k' = set_flgptn s (bit_or (k.flgcbs s).flgptn setptn) k in
    let l = k.waits.ring (flg_queue s) in
    if_cases {A = Kernel} (λ r. r.current ≡ k.current) (not (is_empty l))
      (λ _. reschedule-current (set_loop s l k') ∙ (set_loop-Frame s l k').current_same) (λ _. refl)

module _ (k : Kernel) where
  pub yield_task_cases :
      (P : Kernel → Type 0)
      → P k
      → ((i : ℕ) → P (ei k.mie (yield_from i (di k))))
      → P (yield_task k)
  unfolding yield_task
  yield_task_cases P none_runs some_runs = elim (Option-cases k.current) [
    | inl e ↦ ground arith
    | inr (i, e) ↦ ground (arith, some_runs i)
  ]

  pub yield_task-current : (yield_task k).current ≡ k.current
  unfolding yield_from
  yield_task-current =
      yield_task_cases (λ r. r.current ≡ k.current) refl (λ i. reschedule-current _)
