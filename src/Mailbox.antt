-- ===== src/Mailbox.antt =====
-- kernel/mailbox.c: mailboxes. A message is known by its address; 0 is NULL.
pub mod Cases
pub mod Order
use tsukumo_core.Common.{
  ◌==◌, if◌then◌else◌, ℤ, pos, pos_part, ltb_ℤ, leb_ℤ, length, update, ℕ, zero, suc, ◌+◌, ◌-◌,
  bit_and, bit_or, Bool, not, ◌&&◌, ◌||◌, Option, none, some, List, [], ◌∷◌, ◌++◌,
}
use tsukumo_core.Context.{di, ei, has_current, can_block}
use tsukumo_core.Kernel.{
  cfn_max_mbxid, Er, e_ok, e_rsatr, e_par, e_id, e_ctx, e_limit, e_noexs, e_tmout, e_dlt, Created,
  made, refused, unwaited, mbx, WaitInfo, mailbox, Mbxcb, mbx_queue_of, Kernel, set_mbxcb,
  set_waits,
}
use tsukumo_core.Kernel.Codes.{
  not_32, noexs_mask, has_bits, id_in_range, is_ok, is_wai, is_mbx, tmo_fevr, is_pol,
}
use tsukumo_core.Rings.{init_link, init_head, first_entry, list_del}
use tsukumo_core.Semaphore.{enqueue, begin_wait, set_winfo}
use tsukumo_core.Task.Queue.{reschedule}
use tsukumo_core.Task.Wait.{ta_tpri, leave_wait, complete_wait}
use tsukumo_core.Timer.{Call, returned, waiting}

abbrev pub ta_mpri : ℕ
ta_mpri = 0x02

-- TA_TFIFO | TA_TPRI | TA_MFIFO | TA_MPRI
abbrev valid_mbxatr : ℕ
valid_mbxatr = 0x03

-- T_CMBX
pub record TCmbx : Type 0 where
  pub exinf : ℕ
  pub mbxatr : ℕ

abbrev pub set_messages : ℕ → List ℕ → Kernel → Kernel
set_messages b ms k = set_mbxcb b (record (k.mbxcbs b) { mbx_queue = ms }) k

-- insert_msg_fifo
unfoldable pub insert_msg_fifo : ℕ → List ℕ → List ℕ
insert_msg_fifo msg ms = ms ++ msg ∷ []

-- The scan of `insert_msg_pri`: in front of the first message of a lower priority.
unfoldable pub insert_scan : (ℕ → ℤ) → ℕ → List ℕ → List ℕ
insert_scan pri msg [] = msg ∷ []
insert_scan pri msg (q ∷ ms) =
    if ltb_ℤ (pri msg) (pri q) then msg ∷ q ∷ ms else q ∷ insert_scan pri msg ms

-- The last message of a queue.
abbrev pub last_msg : List ℕ → Option ℕ
last_msg [] = none
last_msg (m ∷ []) = some m
last_msg (m ∷ n ∷ ms) = last_msg (n ∷ ms)

-- insert_msg_pri: the tail is checked first.
unfoldable pub insert_msg_pri : (ℕ → ℤ) → ℕ → List ℕ → List ℕ
insert_msg_pri pri msg ms = elim (last_msg ms) [
  | none ↦ insert_scan pri msg ms
  | some l ↦ if leb_ℤ (pri l) (pri msg) then ms ++ msg ∷ [] else insert_scan pri msg ms
]

-- The loop of `pop_waiting_receiver` over the receivers in the queue, on fuel.
unfoldable pub pop_loop : ℕ → ℕ → Kernel → Option ℕ × Kernel
pop_loop zero b k = (none, k)
pop_loop (suc f) b k = elim (first_entry k.waits (mbx_queue_of b)) [
  | none ↦ (none, k)
  | some i ↦
      let k' = set_waits (init_link i (list_del i k.waits)) k in
      let rest = pop_loop f b k' in
      if is_wai (k.tcbs i).tskstat && is_mbx (k.tcbs i).tskwait then (some i, k') else rest
]

unfoldable pub pop_waiting_receiver : ℕ → Kernel → Option ℕ × Kernel
pop_waiting_receiver b k = pop_loop (length (k.waits.ring (mbx_queue_of b))) b k

unfoldable pub make_waiter_ready : ℕ → Er → ℕ → Kernel → Kernel
make_waiter_ready i cause msg k = complete_wait i cause (set_winfo i (mailbox msg) k)

unfoldable pub dispatch_if_needed : Kernel → Kernel
dispatch_if_needed k = if not (has_current k) then k else reschedule k

unfoldable pub init_mbxcbs : ℕ → Kernel → Kernel
init_mbxcbs zero k = k
init_mbxcbs (suc i) k =
    let k' = init_mbxcbs i k in
    let blank : Mbxcb = record {
      mbxid = bit_or (i + 1) noexs_mask;
      exinf = 0;
      mbxatr = 0;
      mbx_queue = [];
    } in
    record k' {
      mbxcbs = update k'.mbxcbs i blank;
      waits = init_head (mbx_queue_of i) k'.waits;
      free_mbxcb = k'.free_mbxcb ++ i ∷ [];
    }

unfoldable pub init_mbxcb : Kernel → Kernel
init_mbxcb k = init_mbxcbs cfn_max_mbxid (record k { free_mbxcb = [] })

abbrev pub mbx_exists : Mbxcb → Bool
mbx_exists c = not (has_bits c.mbxid noexs_mask)

abbrev pub made_mbxcb : TCmbx → Mbxcb → Mbxcb
made_mbxcb p c = record {
  mbxid = bit_and c.mbxid (not_32 noexs_mask);
  exinf = p.exinf;
  mbxatr = p.mbxatr;
  mbx_queue = [];
}

unfoldable pub allocate_mbxcb : TCmbx → List ℕ → Kernel → Created × Kernel
allocate_mbxcb p [] k = (refused e_limit, k)
allocate_mbxcb p (b ∷ rest) k = (
  made (bit_and (k.mbxcbs b).mbxid (not_32 noexs_mask)),
  record k {
    free_mbxcb = rest;
    waits = init_head (mbx_queue_of b) k.waits;
    mbxcbs = update k.mbxcbs b (made_mbxcb p (k.mbxcbs b));
  },
)

unfoldable pub tk_cre_mbx : Option TCmbx → Kernel → Created × Kernel
tk_cre_mbx none k = (refused e_par, k)
tk_cre_mbx (some p) k =
    let (id, k') = allocate_mbxcb p k.free_mbxcb (di k) in
    if has_bits p.mbxatr (not_32 valid_mbxatr) then (refused e_rsatr, k) else (id, ei k.mie k')

-- The loop of `tk_del_mbx` that releases every receiver, on fuel.
unfoldable pub release_receivers : ℕ → ℕ → Kernel → Kernel
release_receivers zero b k = k
release_receivers (suc f) b k =
    let popped = pop_waiting_receiver b k in
    elim popped.0 [
      | none ↦ popped.1
      | some i ↦ release_receivers f b (make_waiter_ready i e_dlt 0 popped.1)
    ]

-- The end of `tk_del_mbx`, once nobody waits: the queued messages are not visited.
abbrev pub free_mbx : ℕ → Kernel → Kernel
free_mbx b k = record k {
  mbxcbs =
      update k.mbxcbs b
        (record { mbxid = bit_or (b + 1) noexs_mask; exinf = 0; mbxatr = 0; mbx_queue = [] });
  waits = init_head (mbx_queue_of b) k.waits;
  free_mbxcb = k.free_mbxcb ++ b ∷ [];
}

unfoldable pub delete_mbx : ℕ → Kernel → Kernel
delete_mbx b k =
    let fuel = suc (length (k.waits.ring (mbx_queue_of b))) in
    dispatch_if_needed (free_mbx b (release_receivers fuel b k))

unfoldable pub tk_del_mbx : ℤ → Kernel → Er × Kernel
tk_del_mbx mbxid k =
    let b = pos_part mbxid - 1 in
    let d = di k in
    if not (id_in_range mbxid cfn_max_mbxid)
    then (e_id, k)
    else if not (mbx_exists (k.mbxcbs b))
    then (e_noexs, ei k.mie d)
    else (e_ok, ei k.mie (delete_mbx b d))

-- The message enters the queue of the mailbox.
unfoldable pub enqueue_msg : ℕ → ℕ → Kernel → Kernel
enqueue_msg b msg k =
    let c = k.mbxcbs b in
    if has_bits c.mbxatr ta_mpri
    then set_messages b (insert_msg_pri k.msgpri msg c.mbx_queue) k
    else set_messages b (insert_msg_fifo msg c.mbx_queue) k

abbrev pub hand_over : Option ℕ → ℕ → ℕ → Kernel → Kernel
hand_over (some i) b msg k = dispatch_if_needed (make_waiter_ready i e_ok msg k)
hand_over none b msg k = enqueue_msg b msg k

-- The message goes to the first receiver, or into the queue.
unfoldable pub deliver : ℕ → ℕ → Kernel → Kernel
deliver b msg k = let taken = pop_waiting_receiver b k in hand_over taken.0 b msg taken.1

unfoldable pub tk_snd_mbx : ℤ → ℕ → Kernel → Er × Kernel
tk_snd_mbx mbxid pk_msg k =
    let b = pos_part mbxid - 1 in
    let c = k.mbxcbs b in
    let d = di k in
    if not (id_in_range mbxid cfn_max_mbxid)
    then (e_id, k)
    else if pk_msg == 0
    then (e_par, k)
    else if not (mbx_exists c)
    then (e_noexs, ei k.mie d)
    else if has_bits c.mbxatr ta_mpri && leb_ℤ (k.msgpri pk_msg) (pos 0)
    then (e_par, ei k.mie d)
    else (e_ok, ei k.mie (deliver b pk_msg d))

-- The first message, if there is one, and the queue without it.
unfoldable pub receive : ℕ → ℤ → ℕ → List ℕ → Kernel → Call (Er × Option ℕ)
receive b tmout i (msg ∷ ms) k = returned (e_ok, some msg) (ei k.mie (set_messages b ms (di k)))
receive b tmout i [] k =
    let c = k.mbxcbs b in
    let d = di k in
    let noted = set_winfo i (mailbox 0) d in
    let queued = enqueue (has_bits c.mbxatr ta_tpri) (mbx_queue_of b) i noted in
    if is_pol tmout
    then returned (e_tmout, none) (ei k.mie d)
    else waiting (ei k.mie (begin_wait tmout mbx i queued))

-- `has_ptr` says whether `ppk_msg` is not NULL. The message beside the error code is what is
-- written to `*ppk_msg`.
unfoldable pub tk_rcv_mbx : (mbxid : ℤ) (has_ptr : Bool) (tmout : ℤ) → Kernel → Call (Er × Option ℕ)
tk_rcv_mbx mbxid has_ptr tmout k =
    let b = pos_part mbxid - 1 in
    let d = di k in
    if not (id_in_range mbxid cfn_max_mbxid)
    then returned (e_id, none) k
    else if not has_ptr || ltb_ℤ tmout tmo_fevr
    then returned (e_par, none) k
    else elim k.current [
      | none ↦ returned (e_ctx, none) (ei k.mie d)
      | some i ↦
          if not (can_block k.mie d)
          then returned (e_ctx, none) (ei k.mie d)
          else if not (mbx_exists (k.mbxcbs b))
          then returned (e_noexs, none) (ei k.mie d)
          else receive b tmout i (k.mbxcbs b).mbx_queue k
    ]

abbrev pub released_msg : WaitInfo → ℕ
released_msg (mailbox msg) = msg
released_msg _ = 0

-- `tk_rcv_mbx` from the end of its wait on, in task `i`.
unfoldable pub rcv_mbx_return : ℕ → Kernel → (Er × Option ℕ) × Kernel
rcv_mbx_return i k =
    let t = k.tcbs i in
    let k' = record k {
      waits = leave_wait i k.waits;
      tcbs =
          update k.tcbs i
            (record t { winfo = mailbox 0; wupcause = e_ok; delay_ticks = 0; tskwait = unwaited });
    } in
    ((t.wupcause, if is_ok t.wupcause then some (released_msg t.winfo) else none), k')
