-- ===== src/Task/Wait.antt =====
-- The end of a wait: `tkmc_complete_wait` of kernel/task.c and `tkmc_sem_serve_waiters` of
-- kernel/semaphore.c, which call each other. A wait that ends with E_OK serves nobody, so the
-- part of `tkmc_complete_wait` before that test, `end_wait`, is what the serving loop runs.
use tsukumo_core.Common.{
  ltb, ◌==◌, if◌then◌else◌, Bool-cases, update, ℕ, ◌-◌, ◌≤◌, ◌<◌, ◌≡◌, inl, inr, Bool, true, false,
  not, ◌&&◌, ◌||◌, List, [], ◌∷◌, arith,
}
use tsukumo_core.Kernel.{
  Er, e_ok, e_dlt, rdy, TaskWait, unwaited, WaitInfo, semaphore, Tcb, ready_queue, sem_queue,
  Kernel, set_semcb,
}
use tsukumo_core.Kernel.Codes.{has_bits, is_tmout, is_rlwai, is_sem}
use tsukumo_core.Rings.{Rings, init_link, link_empty, list_del, list_add_tail}

abbrev pub ta_tpri : ℕ
ta_tpri = 1

abbrev pub ta_cnt : ℕ
ta_cnt = 2

-- winfo.semaphore.semcnt and winfo.semaphore.semcb.
abbrev pub sem_request : WaitInfo → ℕ
sem_request (semaphore semcnt semcb) = semcnt
sem_request _ = 0

abbrev pub sem_awaited : WaitInfo → ℕ
sem_awaited (semaphore semcnt semcb) = semcb
sem_awaited _ = 0

-- The link of `head` leaves its queue, if it is on one.
abbrev pub leave_head : ℕ → Rings → Rings
leave_head i r = if not (link_empty r i) then list_del i r else r

-- The link of `winfo.wait_queue` leaves its queue, if it is on one.
abbrev pub leave_wait : ℕ → Rings → Rings
leave_wait i r = if not (link_empty r i) then init_link i (list_del i r) else r

abbrev pub ready_tcb : Er → Tcb → Tcb
ready_tcb cause t = record t {
  delay_ticks = 0;
  tskwait = unwaited;
  wupcause = cause;
  tskstat = rdy;
}

unfoldable pub end_wait : ℕ → Er → Kernel → Kernel
end_wait i cause k =
    let tcb = k.tcbs i in
    record k {
      heads = list_add_tail i (ready_queue (tcb.itskpri - 1)) (leave_head i k.heads);
      waits = leave_wait i k.waits;
      tcbs = update k.tcbs i (ready_tcb cause tcb);
    }

-- `semcb->semcnt -= req`
abbrev pub take_units : ℕ → ℕ → Kernel → Kernel
take_units s req k = set_semcb s (record (k.semcbs s) { semcnt = (k.semcbs s).semcnt - req }) k

-- The walk of `tkmc_sem_serve_waiters` over the waiters left. The walk fetches the next waiter
-- before it ends a wait, and only the waiter at hand leaves the queue.
unfoldable pub serve_loop : ℕ → List ℕ → Kernel → Kernel
serve_loop s [] k = k
serve_loop s (i ∷ rest) k =
    let req = sem_request (k.tcbs i).winfo in
    let skipped = serve_loop s rest k in
    let served = take_units s req (end_wait i e_ok k) in
    let onward = serve_loop s rest served in
    if ltb (k.semcbs s).semcnt req
    then (if not (has_bits (k.semcbs s).sematr ta_cnt) then k else skipped)
    else if (served.semcbs s).semcnt == 0
    then served
    else onward

-- The four ways on of a round of the walk.
pub serve_loop_cases {ℓ} :
    (P : Kernel → Type ℓ) (s i : ℕ) (rest : List ℕ) (k : Kernel)
    → let req = sem_request (k.tcbs i).winfo in
      let served = take_units s req (end_wait i e_ok k) in
      (((k.semcbs s).semcnt < req) → has_bits (k.semcbs s).sematr ta_cnt ≡ false → P k)
      → (((k.semcbs s).semcnt < req)
          → has_bits (k.semcbs s).sematr ta_cnt ≡ true
          → P (serve_loop s rest k))
      → ((req ≤ (k.semcbs s).semcnt) → (served.semcbs s).semcnt ≡ 0 → P served)
      → ((req ≤ (k.semcbs s).semcnt) → P (serve_loop s rest served))
      → P (serve_loop s (i ∷ rest) k)
unfolding serve_loop
serve_loop_cases P s i rest k stop skip last onward =
    let req = sem_request (k.tcbs i).winfo in
    let served = take_units s req (end_wait i e_ok k) in
    elim (Bool-cases (ltb (k.semcbs s).semcnt req)) [
      | inl few ↦ elim (Bool-cases (has_bits (k.semcbs s).sematr ta_cnt)) [
        | inl c ↦ rw (few, c) (skip (ground arith) c)
        | inr c ↦ rw (few, c) (stop (ground arith) c)
      ]
      | inr enough ↦ elim (Bool-cases ((served.semcbs s).semcnt == 0)) [
        | inl z ↦ rw (enough, z) (last (ground arith) (ground arith))
        | inr z ↦ rw (enough, z) (onward (ground arith))
      ]
    ]

unfoldable pub sem_serve_waiters : ℕ → Kernel → Kernel
sem_serve_waiters s k = serve_loop s (k.waits.ring (sem_queue s)) k

-- Whether a wait that ends so leaves units for the waiters behind it.
abbrev pub hands_on : TaskWait → Er → Bool
hands_on tskwait cause = is_sem tskwait && (is_tmout cause || is_rlwai cause)

unfoldable pub complete_wait : ℕ → Er → Kernel → Kernel
complete_wait i cause k =
    let tskwait = (k.tcbs i).tskwait in
    let ended = end_wait i cause k in
    if hands_on tskwait cause
    then sem_serve_waiters (sem_awaited (ended.tcbs i).winfo) ended
    else ended

-- A wait that ends with success, or with the deletion of its object, serves nobody.
pub complete_wait_ok : (i : ℕ) (k : Kernel) → complete_wait i e_ok k ≡ end_wait i e_ok k
unfolding complete_wait is_tmout is_rlwai
complete_wait_ok i k = ground arith

pub complete_wait_dlt : (i : ℕ) (k : Kernel) → complete_wait i e_dlt k ≡ end_wait i e_dlt k
unfolding complete_wait is_tmout is_rlwai
complete_wait_dlt i k = ground arith
