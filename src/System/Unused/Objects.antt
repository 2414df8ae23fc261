-- ===== src/System/Unused/Objects.antt =====
-- The free lists in the calls that wait for an object.
-- A task enters one wait queue; the others are as they were.
use tsukumo_core.Common.{
  if_cases, ℤ, pos_part, ltb_ℤ, ℕ, ◌-◌, ◌<◌, ◌≡◌, sym, subst, ◌≢◌, Bool, true, not, arith,
}
use tsukumo_core.Context.{di}
use tsukumo_core.EventFlag.{clear_ptn, set_flgptn, tk_wai_flg}
use tsukumo_core.EventFlag.Cases.{wait_for_ptn_cases, tk_wai_flg_cases}
use tsukumo_core.Kernel.{
  cfn_max_semid, cfn_max_flgid, cfn_max_mbxid, TaskWait, sem, flg, mbx, WaitInfo, event_flag,
  semaphore, mailbox, Tcb, sem_queue, flg_queue, mbx_queue_of, Kernel,
}
use tsukumo_core.Kernel.Codes.{noexs_mask, has_bits, tmo_pol}
use tsukumo_core.Mailbox.{set_messages, tk_rcv_mbx}
use tsukumo_core.Mailbox.Cases.{receive_wait_cases, tk_rcv_mbx_cases}
use tsukumo_core.Rings.{Rings, init_link, list_add_tail, list_add_before}
use tsukumo_core.Semaphore.{enter_queue, enqueue, begin_wait, take_cnt, set_winfo, tk_wai_sem}
use tsukumo_core.Semaphore.Cases.{wait_for_units_cases, tk_wai_sem_cases}
use tsukumo_core.System.Unused.{sem_ids, flg_ids, mbx_ids, Objects, Unused-enter}
use tsukumo_core.System.Unused.Calls.{HoldsCall, shrunk}
use tsukumo_core.System.Unused.Shrinks.{Shrinks-Moves, set_messages-Shrinks}
use tsukumo_core.Task.{switch_away}
use tsukumo_core.Task.Wait.{ta_tpri}
use tsukumo_core.Timer.{schedule_timer, wait_forever}

enter_queue-other :
    (by_pri : Bool) (q i a : ℕ) (tcbs : ℕ → Tcb) (r : Rings)
    → q ≢ a
    → (enter_queue by_pri q i tcbs r).ring a ≡ r.ring a
unfolding enter_queue init_link list_add_tail list_add_before
enter_queue-other by_pri q i a tcbs r h = ground (arith, h)

-- The queue `q` belongs to no object of a free list.
abbrev IsUsed : ℕ → (ℕ → ℕ) → (ℕ → ℕ) → ℕ → Type 0
IsUsed n ids queue q = (s : ℕ) → s < n → has_bits (ids s) noexs_mask ≡ true → q ≢ queue s

enqueue-Objects :
    (by_pri : Bool) (q i : ℕ) (w : WaitInfo) (k : Kernel)
    → IsUsed cfn_max_semid (sem_ids k) sem_queue q
    → IsUsed cfn_max_flgid (flg_ids k) flg_queue q
    → IsUsed cfn_max_mbxid (mbx_ids k) mbx_queue_of q
    → Objects k
    → Objects (enqueue by_pri q i (set_winfo i w k))
enqueue-Objects by_pri q i w k f g h (a, b, c) =
    let k' = enqueue by_pri q i (set_winfo i w k) in
    let other =
      λ (n : ℕ) (e : q ≢ n). enter_queue-other by_pri q i n (set_winfo i w k).tcbs k.waits e in
    (
      Unused-enter cfn_max_semid (sem_ids k) sem_queue k.free_semcb k.waits k'.waits q other f a,
      Unused-enter cfn_max_flgid (flg_ids k) flg_queue k.free_flgcb k.waits k'.waits q other g b,
      Unused-enter cfn_max_mbxid (mbx_ids k) mbx_queue_of k.free_mbxcb k.waits k'.waits q other h c,
    )

begin_wait-Objects :
    (tmout : ℤ) (w : TaskWait) (i : ℕ) (k : Kernel) → Objects k → Objects (begin_wait tmout w i k)
unfolding begin_wait schedule_timer wait_forever switch_away
begin_wait-Objects tmout w i k o =
    if_cases {A = Kernel} Objects (ltb_ℤ tmo_pol tmout) (λ _. o) (λ _. o)

-- An object that exists is marked as none.
used_of :
    (ids : ℕ → ℕ) (s j : ℕ)
    → not (has_bits (ids s) noexs_mask) ≡ true
    → has_bits (ids j) noexs_mask ≡ true
    → s ≢ j
used_of ids s j x g e =
    let clash : has_bits (ids s) noexs_mask ≡ true =
      subst (λ n. has_bits (ids n) noexs_mask ≡ true) (sym e) g in
    ground (arith, clash, x)

module _ (k : Kernel) (o : Objects k) where
  pub tk_wai_sem-Holds : (semid cnt tmout : ℤ) → HoldsCall (tk_wai_sem semid cnt tmout k)
  tk_wai_sem-Holds semid cnt tmout =
      let s = pos_part semid - 1 in
      tk_wai_sem_cases HoldsCall semid cnt tmout k (λ e. record { objects = o })
        (λ _. record { objects = o })
        (λ i e lt _.
          wait_for_units_cases HoldsCall s cnt tmout i k (λ _. record { objects = o })
            (λ _. record {
              objects = shrunk k (take_cnt s cnt k) o (Shrinks-Moves.takes s (pos_part cnt) k);
            })
            (λ x _. record {
              objects = begin_wait-Objects tmout sem i _ (
                  enqueue-Objects (has_bits (k.semcbs s).sematr ta_tpri) (sem_queue s) i
                    (semaphore (pos_part cnt) s) (di k) (λ j _ g. used_of (sem_ids k) s j x g)
                    (λ j lj g. omega (arith, lt)) (λ j lj g. omega (arith, lt)) o);
            }))

  pub tk_wai_flg-Holds :
      (flgid : ℤ) (waiptn wfmode : ℕ) (has_ptr : Bool) (tmout : ℤ)
      → HoldsCall (tk_wai_flg flgid waiptn wfmode has_ptr tmout k)
  tk_wai_flg-Holds flgid waiptn wfmode has_ptr tmout =
      let s = pos_part flgid - 1 in
      tk_wai_flg_cases HoldsCall flgid waiptn wfmode has_ptr tmout k (λ e. record { objects = o })
        (λ _. record { objects = o })
        (λ i e lt.
          wait_for_ptn_cases HoldsCall s waiptn wfmode tmout i k (λ _. record { objects = o })
            (λ _. record {
              objects =
                  shrunk k (set_flgptn s (clear_ptn (k.flgcbs s).flgptn waiptn wfmode) k) o
                    (Shrinks-Moves.sets s (clear_ptn (k.flgcbs s).flgptn waiptn wfmode) k);
            })
            (λ x _. record {
              objects = begin_wait-Objects tmout flg i _ (
                  enqueue-Objects (has_bits (k.flgcbs s).flgatr ta_tpri) (flg_queue s) i
                    (event_flag waiptn wfmode 0) (di k) (λ j lj g. omega (arith, lt))
                    (λ j lj g e. used_of (flg_ids k) s j x g (omega arith))
                    (λ j lj g. omega (arith, lt)) o);
            }))

  pub tk_rcv_mbx-Holds :
      (mbxid : ℤ) (has_ptr : Bool) (tmout : ℤ) → HoldsCall (tk_rcv_mbx mbxid has_ptr tmout k)
  tk_rcv_mbx-Holds mbxid has_ptr tmout =
      let b = pos_part mbxid - 1 in
      tk_rcv_mbx_cases HoldsCall mbxid has_ptr tmout k (λ e. record { objects = o })
        (λ e. record { objects = o })
        (λ i e lt x.
          receive_wait_cases HoldsCall b tmout i (k.mbxcbs b).mbx_queue k
            (λ m ms _. record {
              objects = shrunk k (set_messages b ms k) o (set_messages-Shrinks b ms k);
            })
            (λ _ _. record { objects = o })
            (λ _ _. record {
              objects = begin_wait-Objects tmout mbx i _ (
                  enqueue-Objects (has_bits (k.mbxcbs b).mbxatr ta_tpri) (mbx_queue_of b) i
                    (mailbox 0) (di k) (λ j lj g. omega (arith, lt)) (λ j lj g. omega (arith, lt))
                    (λ j lj g e. used_of (mbx_ids k) b j x g (omega arith)) o);
            }))
