-- ===== src/Invariant/Create.antt =====
-- The invariant, and the creation and the end of tasks in kernel/task.c.
use tsukumo_core.Common.{
  Option-cases, ==_refl, pos_part, update-update, update_self, ℕ, ◌+◌, ◌-◌, ◌<◌, ◌≡◌, refl, ◌∙◌,
  subst, inl, inr, true, Option, some, arith,
}
use tsukumo_core.Context.{di}
use tsukumo_core.Invariant.Defs.{Placed, Tables, Inv, Keeps}
use tsukumo_core.Invariant.Retask.{SameBut, retask-Inv}
use tsukumo_core.Invariant.Switch.{reschedule-Inv, IsRunnable, CurrentRuns, requeue-Inv}
use tsukumo_core.Invariant.Wait.{Queued-heads, first-Queued}
use tsukumo_core.Kernel.{cfn_max_tskid, noexs, ready_queue, free_tcb, Kernel, set_heads}
use tsukumo_core.Kernel.Codes.{is_ok}
use tsukumo_core.Rings.{on, Rings, init_link, first_entry, list_del, list_add_tail}
use tsukumo_core.Rings.Linked.{
  IsLinked, list_del-IsLinked, init_link-IsLinked, list_del-link, init_link-link,
  init_link-link_self, list_del-link_self, list_del-IsOff,
}
use tsukumo_core.Task.{
  TCtsk, reset_tcb, new_task, allocate_tcb, check_ctsk, tk_cre_tsk, yield_from, yield_task, Ending,
  ended, switch_away, end_task, tk_ext_tsk, delete_task, tk_exd_tsk,
}
use tsukumo_core.Task.Cases.{check_ctsk_pri, tk_cre_tsk_cases, tk_ext_tsk_cases, tk_exd_tsk_cases}

module _ (i : ℕ) (k : Kernel) (v : Inv k) (lt : i < cfn_max_tskid)
    (blank : (k.tcbs i).tskstat ≡ noexs) where
  taken : Rings
  taken = init_link i (init_link i (list_del i k.heads))

  taken-IsLinked : IsLinked taken
  unfolding taken
  taken-IsLinked =
      init_link-IsLinked i (init_link i (list_del i k.heads))
        (λ a. rw (init_link-link_self i (list_del i k.heads)))
        (init_link-IsLinked i (list_del i k.heads) (list_del-IsOff i k.heads)
          (list_del-IsLinked i k.heads v.heads_linked))

  taken-same : SameBut i k.heads taken
  unfolding taken
  taken-same j ne =
      init_link-link i j (init_link i (list_del i k.heads)) ne
      ∙ (init_link-link i j (list_del i k.heads) ne ∙ list_del-link i j k.heads ne)

  new_task-Inv :
      (p : TCtsk) (stack_end : ℕ) → is_ok (check_ctsk p) ≡ true → Inv (new_task p stack_end i k)
  unfolding new_task reset_tcb taken
  new_task-Inv p stack_end ok =
      rw (update-update k.tcbs i, ==_refl i)
        (retask-Inv i k _ taken (init_link i k.waits) v (record {
          in_table = lt;
          heads_linked = taken-IsLinked;
          waits_linked =
              init_link-IsLinked i k.waits (ground (arith, v.placed i lt)) v.waits_linked;
          same_heads = taken-same;
          same_waits = λ j ne. init_link-link i j k.waits ne;
          place = (
            inl (init_link-link_self i (init_link i (list_del i k.heads))),
            init_link-link_self i k.waits,
            check_ctsk_pri p ok,
          );
          name = v.named i lt;
          wakeup = omega arith;
        }))

-- The first TCB of the free list is one that no task uses.
pub first_free :
    (i : ℕ) (k : Kernel)
    → Inv k
    → first_entry k.heads free_tcb ≡ some i
    → (i < cfn_max_tskid) × ((k.tcbs i).tskstat ≡ noexs)
unfolding first_entry
first_free i k v e =
    let (lt, here) =
      first-Queued i free_tcb k.heads (k.heads.ring free_tcb) (Queued-heads free_tcb k v) e in
    (lt, ground (arith, v.placed i lt))

allocate_tcb-Inv :
    (p : TCtsk) (stack_end : ℕ) (k : Kernel)
    → is_ok (check_ctsk p) ≡ true
    → Inv k
    → Keeps (allocate_tcb p stack_end k)
unfolding allocate_tcb
allocate_tcb-Inv p stack_end k ok v = elim (Option-cases (first_entry k.heads free_tcb)) [
  | inl e ↦ rw (e, allocate_tcb) (record { kept = v })
  | inr (i, e) ↦
      let (lt, blank) = first_free i k v e in
      rw (e, allocate_tcb) (record { kept = new_task-Inv i k v lt blank p stack_end ok })
]

-- Where the invariant holds, it holds after tk_cre_tsk, on every branch.
pub tk_cre_tsk-Inv : (p : Option TCtsk) (k : Kernel) → Inv k → Keeps (tk_cre_tsk p k)
tk_cre_tsk-Inv p k v =
    tk_cre_tsk_cases Keeps p k (λ e. record { kept = v })
      (λ q _ ok. record {
        kept = (allocate_tcb-Inv q (q.bufptr + pos_part q.stksz) (di k) ok v).kept;
      })

-- The invariant holds of the kernel that a call which ends the running task leaves.
pub record Ends (e : Ending) : Type 0 where
  pub kept : Inv (ended e)

module _ (i : ℕ) (k : Kernel) (v : Inv k) (r : IsRunnable k.tcbs k.heads k.waits i) where
  end_task-Inv : Inv (end_task i k)
  unfolding end_task switch_away
  end_task-Inv = retask-Inv i k _ (list_del i k.heads) k.waits v (record {
    in_table = r.in_table;
    heads_linked = list_del-IsLinked i k.heads v.heads_linked;
    waits_linked = v.waits_linked;
    same_heads = λ j ne. list_del-link i j k.heads ne;
    same_waits = λ j ne. refl;
    place = (inr (list_del-link_self i k.heads), r.ready.free, r.ready.priority);
    name = v.named i r.in_table;
    wakeup = v.wakeups i;
  })

  delete_task-Inv : Inv (delete_task i k)
  unfolding delete_task switch_away
  delete_task-Inv = requeue-Inv i k v r free_tcb _ refl (v.wakeups i) (refl, r.ready.free)

-- Where the invariant holds and the current task runs, tk_ext_tsk keeps the invariant, also where
-- it stops in the wrong context.
pub tk_ext_tsk-Inv : (k : Kernel) → Inv k → CurrentRuns k → Ends (tk_ext_tsk k)
tk_ext_tsk-Inv k v r =
    tk_ext_tsk_cases Ends k (record { kept = v })
      (λ i e. record { kept = end_task-Inv i (di k) v (r i e) })

-- Where the invariant holds and the current task runs, tk_exd_tsk keeps the invariant, also where
-- it stops in the wrong context.
pub tk_exd_tsk-Inv : (k : Kernel) → Inv k → CurrentRuns k → Ends (tk_exd_tsk k)
tk_exd_tsk-Inv k v r =
    tk_exd_tsk_cases Ends k (record { kept = v })
      (λ i e. record { kept = delete_task-Inv i (di k) v (r i e) })

yield_from-Inv :
    (i : ℕ) (k : Kernel) → Inv k → IsRunnable k.tcbs k.heads k.waits i → Inv (yield_from i k)
unfolding yield_from
yield_from-Inv i k v r =
    let q = ready_queue ((k.tcbs i).itskpri - 1) in
    let k' = set_heads (list_add_tail i q (list_del i k.heads)) k in
    let place : Placed (k.tcbs i).tskstat (k.tcbs i) (on q) (k.waits.link i) =
      rw (← r.ready.queued) (v.placed i r.in_table) in
    reschedule-Inv k' (
      subst (λ f. Tables f k'.heads k.waits k.semcbs) (update_self k.tcbs i)
        (requeue-Inv i k v r q (k.tcbs i) refl (v.wakeups i) place))

-- Where the invariant holds and the current task runs, tkmc_yield keeps the invariant.
pub yield_task-Inv : (k : Kernel) → Inv k → CurrentRuns k → Inv (yield_task k)
unfolding yield_task
yield_task-Inv k v r = elim (Option-cases k.current) [
  | inl e ↦ rw (e, yield_task) v
  | inr (i, e) ↦ rw (e, yield_task) (yield_from-Inv i (di k) v (r i e))
]
