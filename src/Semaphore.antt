-- ===== src/Semaphore.antt =====
-- kernel/semaphore.c: counting semaphores.
pub mod Cases
pub mod Serve
pub mod Wakeup
use tsukumo_core.Common.{
  ltb, if◌then◌else◌, ℤ, pos, pos_part, sub_ℕ, ltb_ℤ, leb_ℤ, length, is_empty, update, ℕ, zero, suc,
  ◌+◌, ◌-◌, bit_and, bit_or, Bool, not, ◌&&◌, ◌||◌, Option, none, some, List, [], ◌∷◌, ◌++◌,
}
use tsukumo_core.Context.{di, ei, can_block}
use tsukumo_core.Kernel.{
  cfn_max_semid, tk_semaphore_maxcnt, Er, e_ok, e_rsatr, e_par, e_id, e_ctx, e_limit, e_noexs,
  e_qovr, e_tmout, e_dlt, Created, made, refused, TaskWait, sem, WaitInfo, semaphore, Tcb, Semcb,
  sem_queue, Kernel, set_tcb, set_semcb, set_waits,
}
use tsukumo_core.Kernel.Codes.{
  not_32, noexs_mask, has_bits, id_in_range, is_ok, tmo_pol, tmo_fevr, is_pol,
}
use tsukumo_core.Rings.{
  Rings, init_link, init_head, list_empty, first_entry, list_add_tail, list_add_before,
}
use tsukumo_core.Task.Queue.{reschedule}
use tsukumo_core.Task.Wait.{ta_tpri, ta_cnt, sem_serve_waiters, complete_wait}
use tsukumo_core.Timer.{Call, returned, waiting, schedule_timer, wait_forever, wait_result}
use tsukumo_core.Timer.Clock.{ms_to_ticks}

-- TA_TFIFO | TA_TPRI | TA_CNT | TA_FIRST
abbrev valid_sematr : ℕ
valid_sematr = 0x3

-- T_CSEM
pub record TCsem : Type 0 where
  pub exinf : ℕ
  pub sematr : ℕ
  pub isemcnt : ℤ
  pub maxsem : ℤ

-- The loop of `tkmc_init_semcb`, over the first `n` control blocks.
unfoldable pub init_semcbs : ℕ → Kernel → Kernel
init_semcbs zero k = k
init_semcbs (suc i) k =
    let k' = init_semcbs i k in
    let blank : Semcb = record {
      semid = bit_or (i + 1) noexs_mask;
      exinf = 0;
      sematr = 0;
      semcnt = 0;
      maxsem = 0;
    } in
    record k' {
      semcbs = update k'.semcbs i blank;
      waits = init_head (sem_queue i) k'.waits;
      free_semcb = k'.free_semcb ++ i ∷ [];
    }

unfoldable pub init_semcb : Kernel → Kernel
init_semcb k = init_semcbs cfn_max_semid (record k { free_semcb = [] })

-- (semcb->semid & NOEXS_MASK) == 0
abbrev pub sem_exists : Semcb → Bool
sem_exists c = not (has_bits c.semid noexs_mask)

unfoldable pub check_csem : TCsem → Er
check_csem p =
    if has_bits p.sematr (not_32 valid_sematr)
    then e_rsatr
    else if ltb_ℤ p.maxsem (pos 1)
        || (ltb_ℤ (pos tk_semaphore_maxcnt) p.maxsem
            || (ltb_ℤ p.isemcnt (pos 0) || ltb_ℤ p.maxsem p.isemcnt))
    then e_par
    else e_ok

-- The new state of a control block that is taken from the free list.
abbrev pub made_semcb : TCsem → Semcb → Semcb
made_semcb p c = record c {
  semid = bit_and c.semid (not_32 noexs_mask);
  exinf = p.exinf;
  sematr = p.sematr;
  semcnt = pos_part p.isemcnt;
  maxsem = pos_part p.maxsem;
}

unfoldable pub allocate_semcb : TCsem → List ℕ → Kernel → Created × Kernel
allocate_semcb p [] k = (refused e_limit, k)
allocate_semcb p (s ∷ rest) k = (
  made (bit_and (k.semcbs s).semid (not_32 noexs_mask)),
  record k {
    free_semcb = rest;
    waits = init_head (sem_queue s) k.waits;
    semcbs = update k.semcbs s (made_semcb p (k.semcbs s));
  },
)

unfoldable pub tk_cre_sem : Option TCsem → Kernel → Created × Kernel
tk_cre_sem none k = (refused e_par, k)
tk_cre_sem (some p) k =
    let (id, k') = allocate_semcb p k.free_semcb (di k) in
    if not (is_ok (check_csem p)) then (refused (check_csem p), k) else (id, ei k.mie k')

-- The waiter whose priority a request must beat: the head of the queue.
abbrev pub head_pri : Option ℕ → Kernel → ℕ
head_pri none k = 0
head_pri (some h) k = (k.tcbs h).itskpri

-- Whether a request for `cnt` units by task `i` is served at once.
unfoldable pub may_take : ℕ → ℤ → ℕ → Kernel → Bool
may_take s cnt i k =
    let c = k.semcbs s in
    let enough = leb_ℤ cnt (pos c.semcnt) in
    if enough && (not (list_empty k.waits (sem_queue s)) && not (has_bits c.sematr ta_cnt))
    then has_bits c.sematr ta_tpri
      && ltb (k.tcbs i).itskpri (head_pri (first_entry k.waits (sem_queue s)) k)
    else enough

-- The first waiter of a list whose priority is lower than `pri`: the search for the place.
unfoldable pub lower_waiter : (ℕ → Tcb) → ℕ → List ℕ → Option ℕ
lower_waiter tcbs pri [] = none
lower_waiter tcbs pri (p ∷ rest) =
    if ltb pri (tcbs p).itskpri then some p else lower_waiter tcbs pri rest

-- The task `i` enters the wait queue `q`: by priority, or at the tail.
unfoldable pub enter_queue : Bool → ℕ → ℕ → (ℕ → Tcb) → Rings → Rings
enter_queue by_pri q i tcbs r =
    let r' = init_link i r in
    let tail = list_add_tail i q r' in
    if by_pri
    then elim (lower_waiter tcbs (tcbs i).itskpri (r'.ring q)) [
      | none ↦ tail
      | some p ↦ list_add_before i p q r'
    ]
    else tail

abbrev pub enqueue : Bool → ℕ → ℕ → Kernel → Kernel
enqueue by_pri q i k = set_waits (enter_queue by_pri q i k.tcbs k.waits) k

-- The wait of a task that is on the object's queue: with a time limit, or for ever.
unfoldable pub begin_wait : ℤ → TaskWait → ℕ → Kernel → Kernel
begin_wait tmout tskwait i k =
    if ltb_ℤ tmo_pol tmout
    then schedule_timer i (ms_to_ticks (pos_part tmout)) tskwait k
    else wait_forever i tskwait k

-- `semcb->semcnt -= cnt`
abbrev pub take_cnt : ℕ → ℤ → Kernel → Kernel
take_cnt s cnt k =
    set_semcb s (record (k.semcbs s) { semcnt = (k.semcbs s).semcnt - pos_part cnt }) k

abbrev pub set_winfo : ℕ → WaitInfo → Kernel → Kernel
set_winfo i w k = set_tcb i (record (k.tcbs i) { winfo = w }) k

-- `tk_wai_sem` with valid arguments, by the running task `i`.
unfoldable pub wait_for_units : ℕ → ℤ → ℤ → ℕ → Kernel → Call Er
wait_for_units s cnt tmout i k =
    let c = k.semcbs s in
    let d = di k in
    let noted = set_winfo i (semaphore (pos_part cnt) s) d in
    let queued = enqueue (has_bits c.sematr ta_tpri) (sem_queue s) i noted in
    if not (can_block k.mie d)
    then returned e_ctx (ei k.mie d)
    else if not (sem_exists c)
    then returned e_noexs (ei k.mie d)
    else if ltb_ℤ (pos c.maxsem) cnt
    then returned e_par (ei k.mie d)
    else if may_take s cnt i d
    then returned e_ok (ei k.mie (take_cnt s cnt d))
    else if is_pol tmout
    then returned e_tmout (ei k.mie d)
    else waiting (ei k.mie (begin_wait tmout sem i queued))

unfoldable pub tk_wai_sem : ℤ → ℤ → ℤ → Kernel → Call Er
tk_wai_sem semid cnt tmout k =
    if not (id_in_range semid cfn_max_semid)
    then returned e_id k
    else if leb_ℤ cnt (pos 0) || ltb_ℤ tmout tmo_fevr
    then returned e_par k
    else elim k.current [
      | none ↦ returned e_ctx (ei k.mie (di k))
      | some i ↦ wait_for_units (pos_part semid - 1) cnt tmout i k
    ]

-- `tk_wai_sem` from the end of its wait on, in task `i`.
unfoldable pub wai_sem_return : ℕ → Kernel → Er × Kernel
wai_sem_return i k = wait_result i k

abbrev pub add_units : ℕ → ℤ → Kernel → Kernel
add_units s cnt k =
    set_semcb s (record (k.semcbs s) { semcnt = (k.semcbs s).semcnt + pos_part cnt }) k

unfoldable pub tk_sig_sem : ℤ → ℤ → Kernel → Er × Kernel
tk_sig_sem semid cnt k =
    let s = pos_part semid - 1 in
    let c = k.semcbs s in
    let d = di k in
    if not (id_in_range semid cfn_max_semid)
    then (e_id, k)
    else if leb_ℤ cnt (pos 0)
    then (e_par, k)
    else if not (sem_exists c)
    then (e_noexs, ei k.mie d)
    else if ltb_ℤ (sub_ℕ c.maxsem c.semcnt) cnt
    then (e_qovr, ei k.mie d)
    else (e_ok, ei k.mie (reschedule (sem_serve_waiters s (add_units s cnt d))))

-- The loop of `tk_del_sem` that releases every waiter of the queue `q`, on fuel.
unfoldable pub release_all : ℕ → ℕ → Kernel → Kernel
release_all zero q k = k
release_all (suc f) q k = elim (first_entry k.waits q) [
  | none ↦ k
  | some i ↦ release_all f q (complete_wait i e_dlt k)
]

abbrev pub deleted_semcb : Semcb → Semcb
deleted_semcb c = record c {
  semid = bit_or c.semid noexs_mask;
  exinf = 0;
  sematr = 0;
  semcnt = 0;
  maxsem = 0;
}

-- The end of `tk_del_sem`, once nobody waits.
abbrev pub free_sem : ℕ → Kernel → Kernel
free_sem s k = record k {
  semcbs = update k.semcbs s (deleted_semcb (k.semcbs s));
  free_semcb = k.free_semcb ++ s ∷ [];
}

unfoldable pub delete_sem : ℕ → Kernel → Kernel
delete_sem s k =
    let waiters = k.waits.ring (sem_queue s) in
    let k' = free_sem s (release_all (length waiters) (sem_queue s) k) in
    if not (is_empty waiters) then reschedule k' else k'

unfoldable pub tk_del_sem : ℤ → Kernel → Er × Kernel
tk_del_sem semid k =
    let s = pos_part semid - 1 in
    let d = di k in
    if not (id_in_range semid cfn_max_semid)
    then (e_id, k)
    else if not (sem_exists (k.semcbs s))
    then (e_noexs, ei k.mie d)
    else (e_ok, ei k.mie (delete_sem s d))
