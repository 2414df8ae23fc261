-- ===== src/Invariant/Switching.antt =====
-- The invariant, and the task switch of kernel/start.c.
use tsukumo_core.Common.{
  if◌then◌else◌, Option-cases, update, ℕ, ◌<◌, ◌≡◌, refl, inl, inr, some, arith,
}
use tsukumo_core.Invariant.Defs.{Placed, Inv}
use tsukumo_core.Invariant.Switch.{IsRunnable}
use tsukumo_core.Kernel.{cfn_max_tskid, run, rdy, Tcb, Kernel, set_tcb}
use tsukumo_core.Kernel.Codes.{is_run}
use tsukumo_core.Start.{schedule}

-- The task that the switch goes to, if one is chosen, can run.
abbrev pub NextRuns : Kernel → Type 0
NextRuns k = (n : ℕ) → k.next ≡ some n → IsRunnable k.tcbs k.heads k.waits n

-- A task that stops or starts to run keeps its place.
pub restate-Inv :
    (i : ℕ) (k : Kernel) (t : Tcb)
    → Inv k
    → (i < cfn_max_tskid → Placed t.tskstat t (k.heads.link i) (k.waits.link i))
    → t.tskid ≡ (k.tcbs i).tskid
    → t.wupcnt ≡ (k.tcbs i).wupcnt
    → Inv (set_tcb i t k)
restate-Inv i k t v place name wakeup = record {
  heads_linked = v.heads_linked;
  waits_linked = v.waits_linked;
  placed = λ j lj. ground (arith, v.placed j lj, place);
  named = λ j lj. ground (arith, v.named j lj, name);
  stray = v.stray;
  wakeups = λ j. ground (arith, v.wakeups j, wakeup);
  units = v.units;
}

stopped_tcb : ℕ → Tcb → Tcb
stopped_tcb sp t = record t { sp = sp; tskstat = if is_run t.tskstat then rdy else t.tskstat }

stop-Inv : (c sp : ℕ) (k : Kernel) → Inv k → Inv (set_tcb c (stopped_tcb sp (k.tcbs c)) k)
unfolding stopped_tcb
stop-Inv c sp k v =
    restate-Inv c k (stopped_tcb sp (k.tcbs c)) v (λ lt. ground (arith, v.placed c lt)) refl refl

pub run-Inv :
    (n : ℕ) (k : Kernel)
    → Inv k
    → IsRunnable k.tcbs k.heads k.waits n
    → Inv (set_tcb n (record (k.tcbs n) { tskstat = run }) k)
run-Inv n k v r =
    restate-Inv n k (record (k.tcbs n) { tskstat = run }) v
      (λ lt. record {
        queued = r.ready.queued;
        free = r.ready.free;
        unwaiting = r.ready.unwaiting;
        priority = r.ready.priority;
      })
      refl refl

stop-IsRunnable :
    (c sp n : ℕ) (k : Kernel)
    → IsRunnable k.tcbs k.heads k.waits n
    → IsRunnable (update k.tcbs c (stopped_tcb sp (k.tcbs c))) k.heads k.waits n
unfolding stopped_tcb
stop-IsRunnable c sp n k r = record {
  in_table = r.in_table;
  ready = record {
    queued = ground (arith, r.ready.queued);
    free = r.ready.free;
    unwaiting = ground (arith, r.ready.unwaiting);
    priority = ground (arith, r.ready.priority);
  };
}

-- Where the invariant holds and the next task can run, schedule keeps the invariant.
pub schedule-Inv : (sp : ℕ) (k : Kernel) → Inv k → NextRuns k → Inv (schedule sp k)
unfolding schedule stopped_tcb
schedule-Inv sp k v next_runs = elim (Option-cases k.current) [
  | inl e ↦ rw e v
  | inr (c, e) ↦ elim (Option-cases k.next) [
    | inl f ↦ rw (e, f) (stop-Inv c sp k v)
    | inr (n, f) ↦
        let k' = set_tcb c (stopped_tcb sp (k.tcbs c)) k in
        let v' = run-Inv n k' (stop-Inv c sp k v) (stop-IsRunnable c sp n k (next_runs n f)) in
        rw (e, f) v'
  ]
]
