-- ===== src/EventFlag.antt =====
-- kernel/event_flag.c: event flags.
pub mod Cases
pub mod Release
use tsukumo_core.Common.{
  ◌==◌, if◌then◌else◌, ℤ, pos_part, ltb_ℤ, is_empty, update, ℕ, zero, suc, ◌+◌, ◌-◌, bit_and,
  bit_or, Bool, not, ◌&&◌, ◌||◌, Option, none, some, List, [], ◌∷◌, ◌++◌,
}
use tsukumo_core.Context.{di, ei, can_block}
use tsukumo_core.Kernel.{
  cfn_max_flgid, Er, e_ok, e_rsatr, e_par, e_id, e_ctx, e_limit, e_obj, e_noexs, e_tmout, Created,
  made, refused, flg, WaitInfo, event_flag, Flgcb, flg_queue, Kernel, set_flgcb,
}
use tsukumo_core.Kernel.Codes.{not_32, noexs_mask, has_bits, id_in_range, is_ok, tmo_fevr, is_pol}
use tsukumo_core.Rings.{init_head, list_empty}
use tsukumo_core.Semaphore.{enqueue, begin_wait, set_winfo}
use tsukumo_core.Task.Queue.{reschedule}
use tsukumo_core.Task.Wait.{ta_tpri, complete_wait}
use tsukumo_core.Timer.{Call, returned, waiting, wait_result}

abbrev pub twf_orw : ℕ
twf_orw = 0x01

abbrev pub twf_clr : ℕ
twf_clr = 0x10

abbrev pub twf_bitclr : ℕ
twf_bitclr = 0x20

abbrev pub ta_wmul : ℕ
ta_wmul = 0x08

-- TA_TFIFO | TA_TPRI | TA_WSGL | TA_WMUL, and TWF_ANDW | TWF_ORW | TWF_CLR | TWF_BITCLR.
abbrev valid_flgatr : ℕ
valid_flgatr = 0x09

abbrev valid_wfmode : ℕ
valid_wfmode = 0x31

-- T_CFLG
pub record TCflg : Type 0 where
  pub exinf : ℕ
  pub flgatr : ℕ
  pub iflgptn : ℕ

unfoldable pub init_flgcbs : ℕ → Kernel → Kernel
init_flgcbs zero k = k
init_flgcbs (suc i) k =
    let k' = init_flgcbs i k in
    let blank : Flgcb = record {
      flgid = bit_or (i + 1) noexs_mask;
      exinf = 0;
      flgatr = 0;
      flgptn = 0;
    } in
    record k' {
      flgcbs = update k'.flgcbs i blank;
      waits = init_head (flg_queue i) k'.waits;
      free_flgcb = k'.free_flgcb ++ i ∷ [];
    }

unfoldable pub init_flgcb : Kernel → Kernel
init_flgcb k = init_flgcbs cfn_max_flgid (record k { free_flgcb = [] })

abbrev pub flg_exists : Flgcb → Bool
flg_exists c = not (has_bits c.flgid noexs_mask)

abbrev pub made_flgcb : TCflg → Flgcb → Flgcb
made_flgcb p c = record c {
  flgid = bit_and c.flgid (not_32 noexs_mask);
  exinf = p.exinf;
  flgatr = p.flgatr;
  flgptn = p.iflgptn;
}

unfoldable pub allocate_flgcb : TCflg → List ℕ → Kernel → Created × Kernel
allocate_flgcb p [] k = (refused e_limit, k)
allocate_flgcb p (s ∷ rest) k = (
  made (bit_and (k.flgcbs s).flgid (not_32 noexs_mask)),
  record k {
    free_flgcb = rest;
    waits = init_head (flg_queue s) k.waits;
    flgcbs = update k.flgcbs s (made_flgcb p (k.flgcbs s));
  },
)

unfoldable pub tk_cre_flg : Option TCflg → Kernel → Created × Kernel
tk_cre_flg none k = (refused e_par, k)
tk_cre_flg (some p) k =
    let (id, k') = allocate_flgcb p k.free_flgcb (di k) in
    if has_bits p.flgatr (not_32 valid_flgatr) then (refused e_rsatr, k) else (id, ei k.mie k')

unfoldable pub check_ptn : (flgptn waiptn wfmode : ℕ) → Bool
check_ptn flgptn waiptn wfmode =
    if has_bits wfmode twf_orw
    then not (bit_and flgptn waiptn == 0)
    else bit_and flgptn waiptn == waiptn

-- The pattern after a wait on it succeeded.
unfoldable pub clear_ptn : (flgptn waiptn wfmode : ℕ) → ℕ
clear_ptn flgptn waiptn wfmode =
    if has_bits wfmode twf_clr
    then 0
    else if has_bits wfmode twf_bitclr
    then bit_and flgptn (not_32 waiptn)
    else flgptn

abbrev pub set_flgptn : ℕ → ℕ → Kernel → Kernel
set_flgptn s ptn k = set_flgcb s (record (k.flgcbs s) { flgptn = ptn }) k

-- `tk_wai_flg` with valid arguments, by the running task `i`. The number beside the error code is
-- what is written to `*p_flgptn`.
unfoldable pub wait_for_ptn : (s waiptn wfmode : ℕ) → ℤ → ℕ → Kernel → Call (Er × Option ℕ)
wait_for_ptn s waiptn wfmode tmout i k =
    let c = k.flgcbs s in
    let d = di k in
    let noted = set_winfo i (event_flag waiptn wfmode 0) d in
    let queued = enqueue (has_bits c.flgatr ta_tpri) (flg_queue s) i noted in
    if not (can_block k.mie d)
    then returned (e_ctx, none) (ei k.mie d)
    else if not (flg_exists c)
    then returned (e_noexs, none) (ei k.mie d)
    else if not (has_bits c.flgatr ta_wmul) && not (list_empty k.waits (flg_queue s))
    then returned (e_obj, none) (ei k.mie d)
    else if check_ptn c.flgptn waiptn wfmode
    then returned (e_ok, some c.flgptn)
        (ei k.mie (set_flgptn s (clear_ptn c.flgptn waiptn wfmode) d))
    else if is_pol tmout
    then returned (e_tmout, none) (ei k.mie d)
    else waiting (ei k.mie (begin_wait tmout flg i queued))

-- `has_ptr` says whether `p_flgptn` is not NULL.
unfoldable pub tk_wai_flg :
    (flgid : ℤ) (waiptn wfmode : ℕ) (has_ptr : Bool) (tmout : ℤ) → Kernel → Call (Er × Option ℕ)
tk_wai_flg flgid waiptn wfmode has_ptr tmout k =
    if not (id_in_range flgid cfn_max_flgid)
    then returned (e_id, none) k
    else if not has_ptr || (waiptn == 0)
    then returned (e_par, none) k
    else if has_bits wfmode (not_32 valid_wfmode)
    then returned (e_par, none) k
    else if ltb_ℤ tmout tmo_fevr
    then returned (e_par, none) k
    else elim k.current [
      | none ↦ returned (e_ctx, none) (ei k.mie (di k))
      | some i ↦ wait_for_ptn (pos_part flgid - 1) waiptn wfmode tmout i k
    ]

abbrev pub released_ptn : WaitInfo → ℕ
released_ptn (event_flag waiptn wfmode flgptn) = flgptn
released_ptn _ = 0

-- `tk_wai_flg` from the end of its wait on, in task `i`.
unfoldable pub wai_flg_return : ℕ → Kernel → (Er × Option ℕ) × Kernel
wai_flg_return i k =
    let (ercd, k') = wait_result i k in
    ((ercd, if is_ok ercd then some (released_ptn (k.tcbs i).winfo) else none), k')

abbrev pub wanted_ptn : WaitInfo → ℕ
wanted_ptn (event_flag waiptn wfmode flgptn) = waiptn
wanted_ptn _ = 0

abbrev pub wanted_mode : WaitInfo → ℕ
wanted_mode (event_flag waiptn wfmode flgptn) = wfmode
wanted_mode _ = 0

-- One waiter whose condition holds gets the pattern, clears what it asked for, and is released.
unfoldable pub grant_ptn : ℕ → ℕ → Kernel → Kernel
grant_ptn s i k =
    let w = (k.tcbs i).winfo in
    let ptn = (k.flgcbs s).flgptn in
    let noted = set_winfo i (event_flag (wanted_ptn w) (wanted_mode w) ptn) k in
    complete_wait i e_ok (set_flgptn s (clear_ptn ptn (wanted_ptn w) (wanted_mode w)) noted)

-- One round of the walk of `tk_set_flg`.
unfoldable pub set_round : ℕ → ℕ → Kernel → Kernel
set_round s i k =
    let w = (k.tcbs i).winfo in
    if check_ptn (k.flgcbs s).flgptn (wanted_ptn w) (wanted_mode w) then grant_ptn s i k else k

-- The walk of `tk_set_flg` over the waiters left.
unfoldable pub set_loop : ℕ → List ℕ → Kernel → Kernel
set_loop s [] k = k
set_loop s (i ∷ rest) k = set_loop s rest (set_round s i k)

unfoldable pub set_ptn : ℕ → ℕ → Kernel → Kernel
set_ptn s setptn k =
    let k' = set_flgptn s (bit_or (k.flgcbs s).flgptn setptn) k in
    let waiters = k'.waits.ring (flg_queue s) in
    if not (is_empty waiters) then reschedule (set_loop s waiters k') else k'

unfoldable pub tk_set_flg : ℤ → ℕ → Kernel → Er × Kernel
tk_set_flg flgid setptn k =
    let s = pos_part flgid - 1 in
    let d = di k in
    if not (id_in_range flgid cfn_max_flgid)
    then (e_id, k)
    else if not (flg_exists (k.flgcbs s))
    then (e_noexs, ei k.mie d)
    else (e_ok, ei k.mie (set_ptn s setptn d))

unfoldable pub tk_clr_flg : ℤ → ℕ → Kernel → Er × Kernel
tk_clr_flg flgid clrptn k =
    let s = pos_part flgid - 1 in
    let d = di k in
    if not (id_in_range flgid cfn_max_flgid)
    then (e_id, k)
    else if not (flg_exists (k.flgcbs s))
    then (e_noexs, ei k.mie d)
    else (e_ok, ei k.mie (set_flgptn s (bit_and (k.flgcbs s).flgptn clrptn) d))
