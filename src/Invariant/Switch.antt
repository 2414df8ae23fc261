-- ===== src/Invariant/Switch.antt =====
-- The invariant, and the choice of the next task and the moves of the running task.
use tsukumo_core.Common.{
  Bool-cases, update, ℕ, ◌≤◌, ◌<◌, ◌≡◌, refl, ◌∙◌, ◌⊎◌, inl, inr, some, arith,
}
use tsukumo_core.Invariant.Defs.{Awaits, IsReady, Placed, Inv}
use tsukumo_core.Invariant.Retask.{SameBut, retask-Inv}
use tsukumo_core.Kernel.{cfn_max_tskid, tk_wakeup_maxcnt, run, wai, Tcb, timer_queue, Kernel}
use tsukumo_core.Kernel.Codes.{same_task}
use tsukumo_core.Rings.{alone, on, Rings, init_link, list_del, list_add_tail}
use tsukumo_core.Rings.Linked.{
  IsLinked, list_del-IsLinked, list_add_tail-IsLinked, init_link-IsLinked, list_del-link,
  list_add_tail-link, init_link-link, list_add_tail-link_self, init_link-link_self, list_del-IsOff,
}
use tsukumo_core.Task.Queue.{get_highest_priority_task, reschedule}

pub reschedule-Inv : (k : Kernel) → Inv k → Inv (reschedule k)
unfolding reschedule
reschedule-Inv k v = elim (Bool-cases (same_task (get_highest_priority_task k) k.current)) [
  | inl e ↦ rw e v
  | inr e ↦ rw e v
]

-- The running task: it can run, and its links stand so.
pub record IsRunnable (tcbs : ℕ → Tcb) (heads waits : Rings) (i : ℕ) : Type 0 where
  pub in_table : i < cfn_max_tskid
  pub ready : IsReady (tcbs i) (heads.link i) (waits.link i)

-- The current task, if there is one, runs.
abbrev pub CurrentRuns : Kernel → Type 0
CurrentRuns k = (i : ℕ) → k.current ≡ some i → IsRunnable k.tcbs k.heads k.waits i

pub IsRunnable-of :
    (i : ℕ) (k : Kernel)
    → Inv k
    → i < cfn_max_tskid
    → (k.tcbs i).tskstat ≡ run
    → IsRunnable k.tcbs k.heads k.waits i
IsRunnable-of i k v lt e = ground (arith, v.placed i lt)

module _ (i : ℕ) (k : Kernel) (v : Inv k) (r : IsRunnable k.tcbs k.heads k.waits i) where
  -- The running task leaves its ready queue for another queue.
  pub requeue-Inv :
      (q : ℕ) (t : Tcb)
      → t.tskid ≡ (k.tcbs i).tskid
      → t.wupcnt ≤ tk_wakeup_maxcnt
      → Placed t.tskstat t (on q) (k.waits.link i)
      → Inv (record k { tcbs = update k.tcbs i t; heads = list_add_tail i q (list_del i k.heads) })
  requeue-Inv q t name wakeup place = retask-Inv i k t _ k.waits v (record {
    in_table = r.in_table;
    heads_linked =
        list_add_tail-IsLinked i q (list_del i k.heads) (list_del-IsOff i k.heads)
          (list_del-IsLinked i k.heads v.heads_linked);
    waits_linked = v.waits_linked;
    same_heads =
        λ j ne. list_add_tail-link i j (list_del i k.heads) q ne ∙ list_del-link i j k.heads ne;
    same_waits = λ j ne. refl;
    place = rw (list_add_tail-link_self i (list_del i k.heads) q) place;
    name = name ∙ v.named i r.in_table;
    wakeup = wakeup;
  })

-- The running task has left its ready queue to wait: its link is alone, or on the timer queue.
pub record IsParked (i : ℕ) (r h : Rings) : Type 0 where
  pub linked : IsLinked h
  pub same : SameBut i r h
  pub place : (h.link i ≡ alone) ⊎ (h.link i ≡ on timer_queue)

module _ (i : ℕ) (r : Rings) (v : IsLinked r) where
  pub IsParked-alone : IsParked i r (init_link i (list_del i r))
  IsParked-alone = record {
    linked = init_link-IsLinked i (list_del i r) (list_del-IsOff i r) (list_del-IsLinked i r v);
    same = λ j ne. init_link-link i j (list_del i r) ne ∙ list_del-link i j r ne;
    place = inl (init_link-link_self i (list_del i r));
  }

  pub IsParked-timer : IsParked i r (list_add_tail i timer_queue (list_del i r))
  IsParked-timer = record {
    linked =
        list_add_tail-IsLinked i timer_queue (list_del i r) (list_del-IsOff i r)
          (list_del-IsLinked i r v);
    same = λ j ne. list_add_tail-link i j (list_del i r) timer_queue ne ∙ list_del-link i j r ne;
    place = inr (list_add_tail-link_self i (list_del i r) timer_queue);
  }

-- The running task waits: it has left the ready queue, and stands on the wait queue of what it
-- waits for.
pub park-Inv :
    (i : ℕ) (k : Kernel) (t : Tcb) (h w : Rings)
    → Inv k
    → IsRunnable k.tcbs k.heads k.waits i
    → IsParked i k.heads h
    → IsLinked w
    → SameBut i k.waits w
    → Awaits t.tskwait t.winfo (w.link i)
    → t.tskstat ≡ wai
    → (t.tskid ≡ (k.tcbs i).tskid)
      × (t.itskpri ≡ (k.tcbs i).itskpri)
      × (t.wupcnt ≡ (k.tcbs i).wupcnt)
    → Inv (record k { tcbs = update k.tcbs i t; heads = h; waits = w })
park-Inv i k t h w v r p linked same awaits stat (name, pri, wup) =
    let wakeup = v.wakeups i in
    retask-Inv i k t h w v (record {
      in_table = r.in_table;
      heads_linked = p.linked;
      waits_linked = linked;
      same_heads = p.same;
      same_waits = same;
      place = rw stat (p.place, awaits, rw pri r.ready.priority);
      name = name ∙ v.named i r.in_table;
      wakeup = rw wup wakeup;
    })
