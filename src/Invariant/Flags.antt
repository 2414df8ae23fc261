-- ===== src/Invariant/Flags.antt =====
-- The invariant, and the calls of kernel/event_flag.c.
use tsukumo_core.Common.{
  Bool-cases, ℤ, pos_part, is_empty, count, ℕ, ◌-◌, ◌<◌, bit_or, ◌≡◌, refl, inl, inr, Bool, List,
  [], ◌∷◌, arith,
}
use tsukumo_core.Context.{di}
use tsukumo_core.EventFlag.{
  clear_ptn, set_flgptn, wait_for_ptn, tk_wai_flg, wanted_ptn, wanted_mode, grant_ptn, set_loop,
  set_ptn, tk_set_flg, tk_clr_flg,
}
use tsukumo_core.EventFlag.Cases.{
  wait_for_ptn_cases, tk_wai_flg_cases, tk_set_flg_cases, tk_clr_flg_cases, set_round_cases,
}
use tsukumo_core.Invariant.Defs.{Inv, Keeps, Leaves}
use tsukumo_core.Invariant.Enqueue.{begin_wait-enqueue-Inv}
use tsukumo_core.Invariant.Switch.{reschedule-Inv, IsRunnable, CurrentRuns}
use tsukumo_core.Invariant.Wait.{
  Queued, Queued-ring, Queued-end_wait, wai_of_queued, complete_wait-Inv,
}
use tsukumo_core.Kernel.{
  cfn_max_tskid, cfn_max_flgid, e_ok, flg, WaitInfo, event_flag, flg_queue, Kernel,
}
use tsukumo_core.Kernel.Codes.{has_bits}
use tsukumo_core.Rings.{on}
use tsukumo_core.Semaphore.{set_winfo}
use tsukumo_core.Task.Wait.{ta_tpri, complete_wait_ok}

wait_for_ptn-Inv :
    (s waiptn wfmode : ℕ) (tmout : ℤ) (i : ℕ) (k : Kernel)
    → Inv k
    → IsRunnable k.tcbs k.heads k.waits i
    → s < cfn_max_flgid
    → Leaves (wait_for_ptn s waiptn wfmode tmout i k)
wait_for_ptn-Inv s waiptn wfmode tmout i k v r lt =
    wait_for_ptn_cases Leaves s waiptn wfmode tmout i k (λ e. record { kept = v })
      (λ _. record { kept = v })
      (λ _ _. record {
        kept =
            begin_wait-enqueue-Inv i (flg_queue s) (has_bits (k.flgcbs s).flgatr ta_tpri) tmout flg
              (event_flag waiptn wfmode 0) (di k) v r (refl, omega arith, omega arith);
      })

-- Where the invariant holds and the current task runs, tk_wai_flg keeps the invariant, whether it
-- returns or its task waits.
pub tk_wai_flg-Inv :
    (flgid : ℤ) (waiptn wfmode : ℕ) (has_ptr : Bool) (tmout : ℤ) (k : Kernel)
    → Inv k
    → CurrentRuns k
    → Leaves (tk_wai_flg flgid waiptn wfmode has_ptr tmout k)
tk_wai_flg-Inv flgid waiptn wfmode has_ptr tmout k v r =
    tk_wai_flg_cases Leaves flgid waiptn wfmode has_ptr tmout k (λ e. record { kept = v })
      (λ _. record { kept = v })
      (λ i e lt. wait_for_ptn-Inv (pos_part flgid - 1) waiptn wfmode tmout i k v (r i e) lt)

-- A task on the queue of an event flag waits for a flag, so its wait information may change.
set_winfo-Inv :
    (i s : ℕ) (w : WaitInfo) (k : Kernel)
    → Inv k
    → i < cfn_max_tskid
    → s < cfn_max_flgid
    → k.waits.link i ≡ on (flg_queue s)
    → Inv (set_winfo i w k)
set_winfo-Inv i s w k v lt ls h = record {
  heads_linked = v.heads_linked;
  waits_linked = v.waits_linked;
  placed = λ j lj. ground (arith, v.placed i lt, v.placed j lj);
  named = λ j lj. ground (arith, v.named i lt, v.named j lj);
  stray = v.stray;
  wakeups = λ j. ground (arith, v.wakeups i, v.wakeups j);
  units = v.units;
}

grant_ptn-Inv :
    (s i : ℕ) (k : Kernel)
    → Inv k
    → i < cfn_max_tskid
    → s < cfn_max_flgid
    → k.waits.link i ≡ on (flg_queue s)
    → Inv (grant_ptn s i k)
unfolding grant_ptn
grant_ptn-Inv s i k v lt ls h =
    let w = (k.tcbs i).winfo in
    let ptn = (k.flgcbs s).flgptn in
    let noted = set_winfo i (event_flag (wanted_ptn w) (wanted_mode w) ptn) k in
    let k' = set_flgptn s (clear_ptn ptn (wanted_ptn w) (wanted_mode w)) noted in
    let v' = set_winfo-Inv i s (event_flag (wanted_ptn w) (wanted_mode w) ptn) k v lt ls h in
    complete_wait-Inv i e_ok k' v' lt (wai_of_queued i (flg_queue s) k' v' lt h)

pub Queued-grant_ptn :
    (s i : ℕ) (k : Kernel) (l : List ℕ)
    → count i l ≡ 0
    → Queued (flg_queue s) k.waits l
    → Queued (flg_queue s) (grant_ptn s i k).waits l
unfolding grant_ptn
Queued-grant_ptn s i k l out m =
    rw complete_wait_ok (Queued-end_wait (flg_queue s) i e_ok _ l out m)

pub set_loop-Inv :
    (s : ℕ) (l : List ℕ) (k : Kernel)
    → s < cfn_max_flgid
    → Queued (flg_queue s) k.waits l
    → Inv k
    → Inv (set_loop s l k)
unfolding set_loop
set_loop-Inv s [] k ls m v = v
set_loop-Inv s (i ∷ l) k ls m v =
    set_round_cases (λ k'. Inv (set_loop s l k')) s i k
      (λ _.
        set_loop-Inv s l (grant_ptn s i k) ls (Queued-grant_ptn s i k l m.2 m.3)
          (grant_ptn-Inv s i k v m.0 ls m.1))
      (λ _. set_loop-Inv s l k ls m.3 v)

set_ptn-Inv : (s setptn : ℕ) (k : Kernel) → s < cfn_max_flgid → Inv k → Inv (set_ptn s setptn k)
unfolding set_ptn
set_ptn-Inv s setptn k ls v =
    let k' = set_flgptn s (bit_or (k.flgcbs s).flgptn setptn) k in
    let l = k.waits.ring (flg_queue s) in
    elim (Bool-cases (is_empty l)) [
      | inl e ↦ rw e v
      | inr e ↦ rw e (
          reschedule-Inv (set_loop s l k')
            (set_loop-Inv s l k' ls (Queued-ring (flg_queue s) k v) v))
    ]

-- Where the invariant holds, it holds after tk_set_flg, on every branch.
pub tk_set_flg-Inv :
    (flgid : ℤ) (setptn : ℕ) (k : Kernel) → Inv k → Keeps (tk_set_flg flgid setptn k)
tk_set_flg-Inv flgid setptn k v =
    tk_set_flg_cases Keeps flgid setptn k (record { kept = v }) (record { kept = v })
      (λ ls. record { kept = set_ptn-Inv (pos_part flgid - 1) setptn (di k) ls v })

pub tk_clr_flg-Inv :
    (flgid : ℤ) (clrptn : ℕ) (k : Kernel) → Inv k → Keeps (tk_clr_flg flgid clrptn k)
tk_clr_flg-Inv flgid clrptn k v =
    tk_clr_flg_cases Keeps flgid clrptn k (record { kept = v }) (record { kept = v })
      (λ ls. record { kept = v })
