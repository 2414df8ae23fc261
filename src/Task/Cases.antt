-- ===== src/Task/Cases.antt =====
-- The branches of the calls on tasks, with the tests that lead to each.
use tsukumo_core.Common.{
  Option-cases, ℤ, pos_part, ℕ, ◌+◌, ◌-◌, ◌≤◌, ◌<◌, ◌≡◌, refl, inl, inr, true, false, Option, none,
  some, arith,
}
use tsukumo_core.Context.{di, ei, has_current}
use tsukumo_core.Kernel.{
  cfn_max_pri, cfn_max_tskid, Er, e_ok, e_par, e_id, e_obj, e_noexs, e_rlwai, Created, refused, wai,
  dmt, slp, Kernel,
}
use tsukumo_core.Kernel.Codes.{id_in_range, is_ok, points_to}
use tsukumo_core.Task.{
  TCtsk, allocate_tcb, check_ctsk, tk_cre_tsk, make_started, tk_sta_tsk, Ending, left,
  fatal_context, end_task, tk_ext_tsk, delete_task, tk_exd_tsk, tk_rel_wai, queue_wakeup,
  wup_by_state, tk_wup_tsk,
}
use tsukumo_core.Task.Queue.{reschedule}
use tsukumo_core.Task.Wait.{complete_wait}

pub tk_sta_tsk_cases :
    (P : Er × Kernel → Type 0) (tskid stacd : ℤ) (k : Kernel)
    → let i = pos_part tskid - 1 in
      P (e_id, k)
      → ((e : Er) → is_ok e ≡ false → P (e, ei k.mie (di k)))
      → (i < cfn_max_tskid
          → (k.tcbs i).tskstat ≡ dmt
          → has_current k ≡ true
          → P (e_ok, ei k.mie (reschedule (make_started i stacd (di k)))))
      → (i < cfn_max_tskid
          → (k.tcbs i).tskstat ≡ dmt
          → has_current k ≡ false
          → P (e_ok, ei k.mie (make_started i stacd (di k))))
      → P (tk_sta_tsk tskid stacd k)
unfolding tk_sta_tsk id_in_range is_ok
tk_sta_tsk_cases P tskid stacd k bad same running booting =
    ground (arith, same e_noexs refl, same e_obj refl)

pub tk_rel_wai_cases :
    (P : Er × Kernel → Type 0) (tskid : ℤ) (k : Kernel)
    → let i = pos_part tskid - 1 in
      P (e_id, k)
      → ((e : Er) → P (e, ei k.mie (di k)))
      → (i < cfn_max_tskid
          → (k.tcbs i).tskstat ≡ wai
          → points_to k.current i ≡ false
          → P (e_ok, ei k.mie (reschedule (complete_wait i e_rlwai (di k)))))
      → P (tk_rel_wai tskid k)
unfolding tk_rel_wai id_in_range
tk_rel_wai_cases P tskid k bad same done = ground (arith, same e_noexs, same e_obj)

pub wup_by_state_cases :
    (P : Er × Kernel → Type 0) (i : ℕ) (k : Kernel)
    → ((e : Er) → P (e, k))
    → ((k.tcbs i).tskstat ≡ wai
        → (k.tcbs i).tskwait ≡ slp
        → P (e_ok, reschedule (complete_wait i e_ok k)))
    → P (queue_wakeup i k)
    → P (wup_by_state i k)
unfolding wup_by_state
wup_by_state_cases P i k same woken queued = ground (arith, same e_obj, same e_noexs)

pub tk_wup_tsk_cases :
    (P : Er × Kernel → Type 0) (tskid : ℤ) (k : Kernel)
    → let i = pos_part tskid - 1 in
      let r = wup_by_state i (di k) in
      P (e_id, k) → (i < cfn_max_tskid → P (r.0, ei k.mie r.1)) → P (tk_wup_tsk tskid k)
unfolding tk_wup_tsk id_in_range
tk_wup_tsk_cases P tskid k bad valid = ground arith

pub check_ctsk_pri :
    (p : TCtsk)
    → is_ok (check_ctsk p) ≡ true
    → (1 ≤ pos_part p.itskpri) × (pos_part p.itskpri ≤ cfn_max_pri)
unfolding check_ctsk is_ok
check_ctsk_pri p h = ground arith

pub tk_cre_tsk_cases :
    (P : Created × Kernel → Type 0) (p : Option TCtsk) (k : Kernel)
    → ((e : Er) → P (refused e, k))
    → ((q : TCtsk)
        → p ≡ some q
        → is_ok (check_ctsk q) ≡ true
        → let r = allocate_tcb q (q.bufptr + pos_part q.stksz) (di k) in P (r.0, ei k.mie r.1))
    → P (tk_cre_tsk p k)
unfolding tk_cre_tsk
tk_cre_tsk_cases P none k same valid = same e_par
tk_cre_tsk_cases P (some q) k same valid = ground (arith, same (check_ctsk q), valid q refl)

pub tk_ext_tsk_cases :
    (P : Ending → Type 0) (k : Kernel)
    → P (fatal_context (di k))
    → ((i : ℕ) → k.current ≡ some i → P (left (ei k.mie (end_task i (di k)))))
    → P (tk_ext_tsk k)
unfolding tk_ext_tsk
tk_ext_tsk_cases P k stopped done = elim (Option-cases k.current) [
  | inl e ↦ ground arith
  | inr (i, e) ↦ ground (arith, done i)
]

pub tk_exd_tsk_cases :
    (P : Ending → Type 0) (k : Kernel)
    → P (fatal_context (di k))
    → ((i : ℕ) → k.current ≡ some i → P (left (ei k.mie (delete_task i (di k)))))
    → P (tk_exd_tsk k)
unfolding tk_exd_tsk
tk_exd_tsk_cases P k stopped done = elim (Option-cases k.current) [
  | inl e ↦ ground arith
  | inr (i, e) ↦ ground (arith, done i)
]
