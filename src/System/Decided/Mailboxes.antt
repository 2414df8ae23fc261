-- ===== src/System/Decided/Mailboxes.antt =====
-- The choice of the next task in tk_snd_mbx and tk_del_mbx.
use tsukumo_core.Common.{if_cases, ℤ, pos_part, length, ℕ, suc, ◌-◌, ◌≡◌, true, Option, none, some}
use tsukumo_core.Context.{di, has_current}
use tsukumo_core.Kernel.{e_ok, mbx_queue_of, Kernel}
use tsukumo_core.Kernel.Codes.{has_bits}
use tsukumo_core.Mailbox.{
  ta_mpri, pop_waiting_receiver, make_waiter_ready, dispatch_if_needed, release_receivers, free_mbx,
  delete_mbx, tk_del_mbx, enqueue_msg, hand_over, deliver, tk_snd_mbx,
}
use tsukumo_core.Mailbox.Cases.{tk_snd_mbx_cases, tk_del_mbx_cases}
use tsukumo_core.System.Decided.{
  Decided, reschedule-Decided, ei-Decided, Quiet-Decided, Decides, same,
}
use tsukumo_core.System.Frame.{
  make_waiter_ready-Frame, release_receivers-Frame, pop_waiting_receiver-Quiet,
}

dispatch_if_needed-Decided : (k : Kernel) → has_current k ≡ true → Decided (dispatch_if_needed k)
unfolding dispatch_if_needed
dispatch_if_needed-Decided k h = rw h (reschedule-Decided k)

pub has_current-same :
    (k k' : Kernel) → k'.current ≡ k.current → has_current k ≡ true → has_current k' ≡ true
has_current-same k k' e h = rw e h

enqueue_msg-Decided : (b msg : ℕ) (k : Kernel) → Decided k → Decided (enqueue_msg b msg k)
unfolding enqueue_msg
enqueue_msg-Decided b msg k d =
    if_cases Decided (has_bits (k.mbxcbs b).mbxatr ta_mpri) (λ _. record { chosen = d.chosen })
      (λ _. record { chosen = d.chosen })

hand_over-Decided :
    (o : Option ℕ) (b msg : ℕ) (k : Kernel)
    → has_current k ≡ true
    → Decided k
    → Decided (hand_over o b msg k)
hand_over-Decided none b msg k h d = enqueue_msg-Decided b msg k d
hand_over-Decided (some i) b msg k h d =
    dispatch_if_needed-Decided (make_waiter_ready i e_ok msg k) (
      has_current-same k (make_waiter_ready i e_ok msg k)
        (make_waiter_ready-Frame i e_ok msg k).current_same h)

deliver-Decided :
    (b msg : ℕ) (k : Kernel) → has_current k ≡ true → Decided k → Decided (deliver b msg k)
unfolding deliver
deliver-Decided b msg k h d =
    let p = pop_waiting_receiver b k in
    let q = pop_waiting_receiver-Quiet b k in
    hand_over-Decided p.0 b msg p.1 (has_current-same k p.1 q.frame.current_same h)
      (Quiet-Decided k p.1 q d)

delete_mbx-Decided : (b : ℕ) (k : Kernel) → has_current k ≡ true → Decided (delete_mbx b k)
unfolding delete_mbx
delete_mbx-Decided b k h =
    let fuel = suc (length (k.waits.ring (mbx_queue_of b))) in
    let r = release_receivers fuel b k in
    dispatch_if_needed-Decided (free_mbx b r)
      (has_current-same k (free_mbx b r) (release_receivers-Frame fuel b k).current_same h)

module _ (k : Kernel) (d : Decided k) where
  pub tk_snd_mbx-Decides :
      (mbxid : ℤ) (msg : ℕ) → has_current k ≡ true → Decides (tk_snd_mbx mbxid msg k)
  tk_snd_mbx-Decides mbxid msg h =
      let b = pos_part mbxid - 1 in
      tk_snd_mbx_cases Decides mbxid msg k (λ e. record { after_it = d })
        (λ e. record { after_it = same k d })
        (λ _. record {
          after_it =
              ei-Decided k.mie (deliver b msg (di k))
                (deliver-Decided b msg (di k) h (record { chosen = d.chosen }));
        })

  pub tk_del_mbx-Decides : (mbxid : ℤ) → has_current k ≡ true → Decides (tk_del_mbx mbxid k)
  tk_del_mbx-Decides mbxid h =
      let b = pos_part mbxid - 1 in
      tk_del_mbx_cases Decides mbxid k (record { after_it = d }) (record { after_it = same k d })
        (λ _ _. record {
          after_it = ei-Decided k.mie (delete_mbx b (di k)) (delete_mbx-Decided b (di k) h);
        })
