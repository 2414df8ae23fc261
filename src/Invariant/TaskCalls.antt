-- ===== src/Invariant/TaskCalls.antt =====
-- The invariant, and the calls of kernel/task.c on other tasks.
use tsukumo_core.Common.{ltb, Bool-cases, ℤ, pos_part, ℕ, ◌-◌, ◌<◌, ◌≡◌, ◌∙◌, inl, inr, arith}
use tsukumo_core.Context.{di}
use tsukumo_core.Invariant.Defs.{Inv, Keeps}
use tsukumo_core.Invariant.Retask.{retask-Inv, edit-Inv}
use tsukumo_core.Invariant.Switch.{reschedule-Inv}
use tsukumo_core.Invariant.Wait.{complete_wait-Inv}
use tsukumo_core.Kernel.{cfn_max_tskid, tk_wakeup_maxcnt, e_ok, e_rlwai, dmt, ready_queue, Kernel}
use tsukumo_core.Rings.{init_link}
use tsukumo_core.Rings.Linked.{
  list_add_tail-IsLinked, init_link-IsLinked, list_add_tail-link, init_link-link,
  list_add_tail-link_self, init_link-link_self,
}
use tsukumo_core.Task.{
  started_tcb, make_started, tk_sta_tsk, tk_rel_wai, queue_wakeup, wup_by_state, tk_wup_tsk,
}
use tsukumo_core.Task.Cases.{
  tk_sta_tsk_cases, tk_rel_wai_cases, wup_by_state_cases, tk_wup_tsk_cases,
}
use tsukumo_core.Task.Wait.{complete_wait}

-- Where the invariant holds, it holds after tk_rel_wai, on every branch.
pub tk_rel_wai-Inv : (tskid : ℤ) (k : Kernel) → Inv k → Keeps (tk_rel_wai tskid k)
tk_rel_wai-Inv tskid k v =
    let i = pos_part tskid - 1 in
    tk_rel_wai_cases Keeps tskid k (record { kept = v }) (λ e. record { kept = v })
      (λ lt w _. record {
        kept =
            reschedule-Inv (complete_wait i e_rlwai (di k))
              (complete_wait-Inv i e_rlwai (di k) v lt w);
      })

queue_wakeup-Inv : (i : ℕ) (k : Kernel) → Inv k → Keeps (queue_wakeup i k)
unfolding queue_wakeup
queue_wakeup-Inv i k v = elim (Bool-cases (ltb (k.tcbs i).wupcnt tk_wakeup_maxcnt)) [
  | inl e ↦ rw e (record { kept = edit-Inv i k _ v (ground arith) })
  | inr e ↦ rw e (record { kept = v })
]

wup_by_state-Inv : (i : ℕ) (k : Kernel) → Inv k → i < cfn_max_tskid → Keeps (wup_by_state i k)
wup_by_state-Inv i k v lt =
    wup_by_state_cases Keeps i k (λ e. record { kept = v })
      (λ w _. record {
        kept = reschedule-Inv (complete_wait i e_ok k) (complete_wait-Inv i e_ok k v lt w);
      })
      (queue_wakeup-Inv i k v)

-- Where the invariant holds, it holds after tk_wup_tsk, on every branch, with the bound on the
-- wakeup counts.
pub tk_wup_tsk-Inv : (tskid : ℤ) (k : Kernel) → Inv k → Keeps (tk_wup_tsk tskid k)
tk_wup_tsk-Inv tskid k v =
    tk_wup_tsk_cases Keeps tskid k (record { kept = v })
      (λ lt. record { kept = (wup_by_state-Inv (pos_part tskid - 1) (di k) v lt).kept })

module _ (i : ℕ) (k : Kernel) (v : Inv k) (lt : i < cfn_max_tskid) where
  make_started-Inv : (stacd : ℤ) → (k.tcbs i).tskstat ≡ dmt → Inv (make_started i stacd k)
  unfolding make_started
  make_started-Inv stacd d = retask-Inv i k (started_tcb (k.tcbs i)) _ _ v (record {
    in_table = lt;
    heads_linked =
        list_add_tail-IsLinked i _ (init_link i k.heads) (λ a. rw (init_link-link_self i k.heads))
          (init_link-IsLinked i k.heads (ground (arith, v.placed i lt)) v.heads_linked);
    waits_linked = init_link-IsLinked i k.waits (ground (arith, v.placed i lt)) v.waits_linked;
    same_heads =
        λ j ne. list_add_tail-link i j (init_link i k.heads) _ ne ∙ init_link-link i j k.heads ne;
    same_waits = λ j ne. init_link-link i j k.waits ne;
    place = ground (
      arith,
      v.placed i lt,
      list_add_tail-link_self i (init_link i k.heads) (ready_queue ((k.tcbs i).itskpri - 1)),
      init_link-link_self i k.waits,
    );
    name = v.named i lt;
    wakeup = omega arith;
  })

-- Where the invariant holds, it holds after tk_sta_tsk, on every branch.
pub tk_sta_tsk-Inv : (tskid stacd : ℤ) (k : Kernel) → Inv k → Keeps (tk_sta_tsk tskid stacd k)
tk_sta_tsk-Inv tskid stacd k v =
    let i = pos_part tskid - 1 in
    tk_sta_tsk_cases Keeps tskid stacd k (record { kept = v }) (λ e _. record { kept = v })
      (λ lt d _. record {
        kept =
            reschedule-Inv (make_started i stacd (di k)) (make_started-Inv i (di k) v lt stacd d);
      })
      (λ lt d _. record { kept = make_started-Inv i (di k) v lt stacd d })
