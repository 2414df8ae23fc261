-- ===== src/Task.antt =====
-- kernel/task.c: the table of tasks and the calls on them.
pub mod Cases
pub mod Queue
pub mod Wait
use tsukumo_core.Common.{
  ltb, ◌==◌, if◌then◌else◌, ℤ, pos, negsuc, pos_part, ltb_ℤ, leb_ℤ, update, ℕ, zero, suc, ◌+◌, ◌-◌,
  ◌*◌, ◌%◌, ◌^◌, Bool, true, false, not, ◌&&◌, ◌||◌, Option, none, some, List, [], ◌∷◌,
}
use tsukumo_core.Context.{di, ei, in_isr, has_current, can_block, dispatch}
use tsukumo_core.Kernel.{
  cfn_max_pri, cfn_max_tskid, tk_wakeup_maxcnt, Er, e_ok, e_rsatr, e_par, e_id, e_limit, e_obj,
  e_noexs, e_qovr, e_rlwai, Created, made, refused, noexs, rdy, dmt, unwaited, cleared, Tcb,
  ready_queue, free_tcb, Kernel, set_tcb, set_heads,
}
use tsukumo_core.Kernel.Codes.{
  not_32, has_bits, id_in_range, is_ok, is_noexs, is_run, is_rdy, is_wai, is_dmt, is_slp, points_to,
  same_task,
}
use tsukumo_core.Rings.{Rings, init_link, init_head, first_entry, list_del, list_add_tail}
use tsukumo_core.Task.Queue.{get_highest_priority_task, reschedule}
use tsukumo_core.Task.Wait.{complete_wait}

abbrev pub ta_userbuf : ℕ
ta_userbuf = 0x20

-- TA_ASM | TA_HLNG | TA_USERBUF | TA_RNG0 | TA_RNG1 | TA_RNG2 | TA_RNG3
abbrev valid_tskatr : ℕ
valid_tskatr = 0x321

-- sizeof(StashedRegisters), STACK_ALIGN and TKMC_UINTPTR_MAX on RV32.
abbrev pub frame_size : ℕ
frame_size = 128

abbrev pub stack_align : ℕ
stack_align = 16

abbrev pub uintptr_max : ℕ
uintptr_max = 2 ^ 32 - 1

-- T_CTSK. NULL is the address 0.
pub record TCtsk : Type 0 where
  pub exinf : ℕ
  pub tskatr : ℕ
  pub task : ℕ
  pub itskpri : ℤ
  pub stksz : ℤ
  pub bufptr : ℕ

-- reset_tcb, but for the links.
abbrev pub reset_fields : Tcb → Tcb
reset_fields t = record t {
  itskpri = 0;
  tskstat = noexs;
  tskwait = unwaited;
  sp = 0;
  initial_sp = 0;
  task = 0;
  exinf = 0;
  delay_ticks = 0;
  wupcause = e_ok;
  wupcnt = 0;
  winfo = cleared;
}

unfoldable pub reset_tcb : ℕ → Kernel → Kernel
reset_tcb i k = record k {
  tcbs = update k.tcbs i (reset_fields (k.tcbs i));
  heads = init_link i k.heads;
  waits = init_link i k.waits;
}

unfoldable pub default_tcb : ℕ → Kernel → Kernel
default_tcb i k = let k' = reset_tcb i k in set_tcb i (record (k'.tcbs i) { tskid = 0 }) k'

-- The first loop of `tkmc_init_tcb`, over the first `n` TCBs.
unfoldable pub init_tcbs : ℕ → Kernel → Kernel
init_tcbs zero k = k
init_tcbs (suc i) k =
    let k' = default_tcb i (init_tcbs i k) in
    let named = set_tcb i (record (k'.tcbs i) { tskid = i + 1 }) k' in
    set_heads (list_add_tail i free_tcb named.heads) named

-- The second loop, over the first `n` ready queues.
unfoldable pub init_ready : ℕ → Rings → Rings
init_ready zero r = r
init_ready (suc i) r = init_head (ready_queue i) (init_ready i r)

unfoldable pub init_tcb : Kernel → Kernel
init_tcb k =
    let k' = init_tcbs cfn_max_tskid (set_heads (init_head free_tcb k.heads) k) in
    set_heads (init_ready cfn_max_pri k'.heads) k'

-- The part of `tk_cre_tsk` that takes a TCB from the free list and fills it.
unfoldable pub new_task : TCtsk → ℕ → ℕ → Kernel → Kernel
new_task p stack_end i k =
    let heads' = init_link i (list_del i k.heads) in
    let k' = reset_tcb i (set_heads heads' k) in
    let frame = stack_end - frame_size in
    set_tcb i
      (record (k'.tcbs i) {
        tskstat = dmt;
        sp = frame;
        initial_sp = frame;
        task = p.task;
        itskpri = pos_part p.itskpri;
        exinf = p.exinf;
      })
      k'

unfoldable pub allocate_tcb : TCtsk → ℕ → Kernel → Created × Kernel
allocate_tcb p stack_end k = elim (first_entry k.heads free_tcb) [
  | none ↦ (refused e_limit, k)
  | some i ↦ (made (k.tcbs i).tskid, new_task p stack_end i k)
]

-- The checks of `tk_cre_tsk` on the packet, in the order of the source.
unfoldable pub check_ctsk : TCtsk → Er
check_ctsk p =
    if has_bits p.tskatr (not_32 valid_tskatr)
    then e_rsatr
    else if not (has_bits p.tskatr ta_userbuf)
    then e_rsatr
    else if (p.task == 0) || (p.bufptr == 0)
    then e_par
    else if ltb_ℤ p.itskpri (pos 1) || ltb_ℤ (pos cfn_max_pri) p.itskpri
    then e_par
    else if leb_ℤ p.stksz (pos frame_size)
    then e_par
    else if ltb (uintptr_max - p.bufptr) (pos_part p.stksz)
    then e_par
    else if not ((p.bufptr + pos_part p.stksz) % stack_align == 0)
    then e_par
    else e_ok

unfoldable pub tk_cre_tsk : Option TCtsk → Kernel → Created × Kernel
tk_cre_tsk none k = (refused e_par, k)
tk_cre_tsk (some p) k =
    if not (is_ok (check_ctsk p))
    then (refused (check_ctsk p), k)
    else let (id, k') = allocate_tcb p (p.bufptr + pos_part p.stksz) (di k) in (id, ei k.mie k')

-- (UINT) of an INT.
abbrev pub to_u32 : ℤ → ℕ
to_u32 (pos n) = n % 2 ^ 32
to_u32 (negsuc n) = 2 ^ 32 - 1 - n % 2 ^ 32

-- The loop over `regs->array`, up to word `n`.
unfoldable pub fill_frame : ℕ → ℕ → (ℕ → ℕ) → ℕ → ℕ
fill_frame zero sp mem = mem
fill_frame (suc n) sp mem = update (fill_frame n sp mem) (sp + 4 * n) 0xdeadbeef

-- The byte offsets of ra, mepc, a0 and a1 in StashedRegisters.
abbrev pub ra_at : ℕ
ra_at = 0

abbrev pub mepc_at : ℕ
mepc_at = 112

abbrev pub a0_at : ℕ
a0_at = 24

abbrev pub a1_at : ℕ
a1_at = 28

-- The initial context that `tk_sta_tsk` builds at `sp`.
unfoldable pub build_frame : (sp ra mepc a0 a1 : ℕ) → (ℕ → ℕ) → ℕ → ℕ
build_frame sp ra mepc a0 a1 mem =
    let filled = fill_frame 32 sp mem in
    let with_ra = update filled (sp + ra_at) ra in
    let with_mepc = update with_ra (sp + mepc_at) mepc in
    let with_a0 = update with_mepc (sp + a0_at) a0 in update with_a0 (sp + a1_at) a1

abbrev pub started_tcb : Tcb → Tcb
started_tcb t = record t {
  sp = t.initial_sp;
  tskwait = unwaited;
  delay_ticks = 0;
  wupcnt = 0;
  wupcause = e_ok;
  winfo = cleared;
  tskstat = rdy;
}

-- `tk_sta_tsk` on a dormant task, up to the choice of the next task.
unfoldable pub make_started : ℕ → ℤ → Kernel → Kernel
make_started i stacd k =
    let t = k.tcbs i in
    record k {
      tcbs = update k.tcbs i (started_tcb t);
      waits = init_link i k.waits;
      mem = build_frame t.initial_sp k.ext_tsk_entry t.task (to_u32 stacd) t.exinf k.mem;
      heads = list_add_tail i (ready_queue (t.itskpri - 1)) (init_link i k.heads);
    }

unfoldable pub tk_sta_tsk : ℤ → ℤ → Kernel → Er × Kernel
tk_sta_tsk tskid stacd k =
    let i = pos_part tskid - 1 in
    let d = di k in
    let started = make_started i stacd d in
    if not (id_in_range tskid cfn_max_tskid)
    then (e_id, k)
    else if is_noexs (k.tcbs i).tskstat
    then (e_noexs, ei k.mie d)
    else if not (is_dmt (k.tcbs i).tskstat)
    then (e_obj, ei k.mie d)
    else (e_ok, ei k.mie (if has_current d then reschedule started else started))

-- `queue->next == queue->prev` holds of a ring of at most one link.
abbrev pub at_most_one : List ℕ → Bool
at_most_one [] = true
at_most_one (x ∷ []) = true
at_most_one (x ∷ y ∷ xs) = false

unfoldable pub idle_can_halt : Kernel → Bool
idle_can_halt k =
    same_task (get_highest_priority_task k) k.current
    && at_most_one (k.heads.ring (ready_queue (cfn_max_pri - 1)))

-- `tkmc_yield` by the current task `i`.
unfoldable pub yield_from : ℕ → Kernel → Kernel
yield_from i k =
    let q = ready_queue ((k.tcbs i).itskpri - 1) in
    reschedule (set_heads (list_add_tail i q (list_del i k.heads)) k)

-- `tkmc_yield`. It is only called with a current task; without one the source reads through NULL.
unfoldable pub yield_task : Kernel → Kernel
yield_task k = elim k.current [ none ↦ k | some i ↦ ei k.mie (yield_from i (di k)) ]

-- What becomes of a call that ends the running task: it leaves, or the kernel stops in
-- `tkmc_fatal_context`, interrupts off, with the TCBs and the queues as they are.
pub data Ending : Type 0 where
  left : Kernel → Ending
  fatal_context : Kernel → Ending

-- The kernel that such a call leaves.
abbrev pub ended : Ending → Kernel
ended (left k) = k
ended (fatal_context k) = k

-- `next = tkmc_get_highest_priority_task(); dispatch();`
unfoldable pub switch_away : Kernel → Kernel
switch_away k = dispatch (record k { next = get_highest_priority_task k })

unfoldable pub end_task : ℕ → Kernel → Kernel
end_task i k = switch_away (record k {
  heads = list_del i k.heads;
  tcbs = update k.tcbs i (record (k.tcbs i) { tskstat = dmt; tskwait = unwaited });
})

unfoldable pub tk_ext_tsk : Kernel → Ending
tk_ext_tsk k = elim k.current [
  | none ↦ fatal_context (di k)
  | some i ↦
      if not (can_block k.mie (di k))
      then fatal_context (di k)
      else left (ei k.mie (end_task i (di k)))
]

unfoldable pub delete_task : ℕ → Kernel → Kernel
delete_task i k = switch_away (record k {
  heads = list_add_tail i free_tcb (list_del i k.heads);
  tcbs = update k.tcbs i (record (k.tcbs i) { tskstat = noexs });
})

unfoldable pub tk_exd_tsk : Kernel → Ending
tk_exd_tsk k = elim k.current [
  | none ↦ fatal_context (di k)
  | some i ↦
      if not (can_block k.mie (di k))
      then fatal_context (di k)
      else left (ei k.mie (delete_task i (di k)))
]

unfoldable pub tk_rel_wai : ℤ → Kernel → Er × Kernel
tk_rel_wai tskid k =
    let i = pos_part tskid - 1 in
    let d = di k in
    if not (id_in_range tskid cfn_max_tskid)
    then (e_id, k)
    else if is_noexs (k.tcbs i).tskstat
    then (e_noexs, ei k.mie d)
    else if points_to k.current i
    then (e_obj, ei k.mie d)
    else if not (is_wai (k.tcbs i).tskstat)
    then (e_obj, ei k.mie d)
    else (e_ok, ei k.mie (reschedule (complete_wait i e_rlwai d)))

-- `if (tcb->wupcnt < TK_WAKEUP_MAXCNT) tcb->wupcnt += 1; else ercd = E_QOVR;`
unfoldable pub queue_wakeup : ℕ → Kernel → Er × Kernel
queue_wakeup i k =
    let t = k.tcbs i in
    if ltb t.wupcnt tk_wakeup_maxcnt
    then (e_ok, set_tcb i (record t { wupcnt = t.wupcnt + 1 }) k)
    else (e_qovr, k)

unfoldable pub wup_by_state : ℕ → Kernel → Er × Kernel
wup_by_state i k =
    let t = k.tcbs i in
    if points_to k.current i && not (in_isr k)
    then (e_obj, k)
    else if is_wai t.tskstat
    then (if is_slp t.tskwait
        then (e_ok, reschedule (complete_wait i e_ok k))
        else queue_wakeup i k)
    else if is_rdy t.tskstat || is_run t.tskstat
    then queue_wakeup i k
    else if is_noexs t.tskstat
    then (e_noexs, k)
    else (e_obj, k)

unfoldable pub tk_wup_tsk : ℤ → Kernel → Er × Kernel
tk_wup_tsk tskid k =
    let (ercd, k') = wup_by_state (pos_part tskid - 1) (di k) in
    if not (id_in_range tskid cfn_max_tskid) then (e_id, k) else (ercd, ei k.mie k')
