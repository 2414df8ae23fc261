-- ===== src/Mailbox/Cases.antt =====
-- The branches of the calls on mailboxes, with the tests that lead to each.
use tsukumo_core.Common.{
  Bool-cases, Option-cases, ℤ, pos_part, ℕ, ◌-◌, ◌<◌, ◌≡◌, refl, inl, inr, Bool, true, false,
  Option, none, some, List, [], ◌∷◌, arith,
}
use tsukumo_core.Context.{di, ei, has_current}
use tsukumo_core.Kernel.{
  cfn_max_mbxid, Er, e_ok, e_par, e_id, e_ctx, e_noexs, e_tmout, mbx, mailbox, mbx_queue_of, Kernel,
}
use tsukumo_core.Kernel.Codes.{has_bits, id_in_range, is_pol}
use tsukumo_core.Mailbox.{
  set_messages, dispatch_if_needed, mbx_exists, delete_mbx, tk_del_mbx, deliver, tk_snd_mbx,
  receive, tk_rcv_mbx,
}
use tsukumo_core.Semaphore.{enqueue, begin_wait, set_winfo}
use tsukumo_core.Task.Queue.{reschedule}
use tsukumo_core.Task.Wait.{ta_tpri}
use tsukumo_core.Timer.{Call, returned, waiting}

pub receive_wait_cases :
    (P : Call (Er × Option ℕ) → Type 0) (b : ℕ) (tmout : ℤ) (i : ℕ) (ms : List ℕ) (k : Kernel)
    → ((msg : ℕ) (rest : List ℕ)
        → ms ≡ msg ∷ rest
        → P (returned (e_ok, some msg) (ei k.mie (set_messages b rest (di k)))))
    → (ms ≡ [] → is_pol tmout ≡ true → P (returned (e_tmout, none) (ei k.mie (di k))))
    → (ms ≡ []
        → is_pol tmout ≡ false
        → P (
            waiting (
              ei k.mie (
                begin_wait tmout mbx i (
                  enqueue
                    (has_bits (k.mbxcbs b).mbxatr ta_tpri)
                    (mbx_queue_of b)
                    i
                    (set_winfo i (mailbox 0) (di k)))))))
    → P (receive b tmout i ms k)
unfolding receive
receive_wait_cases P b tmout i (msg ∷ ms) k got polled waits = got msg ms refl
receive_wait_cases P b tmout i [] k got polled waits = ground (arith, polled refl, waits refl)

pub tk_rcv_mbx_cases :
    (P : Call (Er × Option ℕ) → Type 0) (mbxid : ℤ) (has_ptr : Bool) (tmout : ℤ) (k : Kernel)
    → let b = pos_part mbxid - 1 in
      ((e : Er) → P (returned (e, none) k))
      → ((e : Er) → P (returned (e, none) (ei k.mie (di k))))
      → ((i : ℕ)
          → k.current ≡ some i
          → b < cfn_max_mbxid
          → mbx_exists (k.mbxcbs b) ≡ true
          → P (receive b tmout i (k.mbxcbs b).mbx_queue k))
      → P (tk_rcv_mbx mbxid has_ptr tmout k)
unfolding tk_rcv_mbx id_in_range
tk_rcv_mbx_cases P mbxid has_ptr tmout k bad same valid = elim (Option-cases k.current) [
  | inl e ↦ ground (arith, bad e_id, bad e_par, same e_ctx)
  | inr (i, e) ↦ ground (arith, bad e_id, bad e_par, same e_ctx, same e_noexs, valid i)
]

pub tk_snd_mbx_cases :
    (P : Er × Kernel → Type 0) (mbxid : ℤ) (pk_msg : ℕ) (k : Kernel)
    → let b = pos_part mbxid - 1 in
      ((e : Er) → P (e, k))
      → ((e : Er) → P (e, ei k.mie (di k)))
      → (b < cfn_max_mbxid → P (e_ok, ei k.mie (deliver b pk_msg (di k))))
      → P (tk_snd_mbx mbxid pk_msg k)
unfolding tk_snd_mbx id_in_range
tk_snd_mbx_cases P mbxid pk_msg k bad same done =
    ground (arith, bad e_id, bad e_par, same e_noexs, same e_par)

pub tk_del_mbx_cases :
    (P : Er × Kernel → Type 0) (mbxid : ℤ) (k : Kernel)
    → let b = pos_part mbxid - 1 in
      P (e_id, k)
      → P (e_noexs, ei k.mie (di k))
      → (b < cfn_max_mbxid
          → mbx_exists (k.mbxcbs b) ≡ true
          → P (e_ok, ei k.mie (delete_mbx b (di k))))
      → P (tk_del_mbx mbxid k)
unfolding tk_del_mbx id_in_range
tk_del_mbx_cases P mbxid k bad absent done = ground arith

pub dispatch_if_needed_cases {ℓ} :
    (P : Kernel → Type ℓ) (k : Kernel) → P k → P (reschedule k) → P (dispatch_if_needed k)
unfolding dispatch_if_needed
dispatch_if_needed_cases P k stays switches = elim (Bool-cases (has_current k)) [
  | inl e ↦ rw (e) switches
  | inr e ↦ rw (e) stays
]
