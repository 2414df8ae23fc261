-- ===== src/Invariant/Defs.antt =====
-- The invariant of the kernel's tables and queues.
use tsukumo_core.Common.{ℕ, ◌+◌, ◌-◌, ◌≤◌, ◌<◌, ◌≡◌, ◌⊎◌}
use tsukumo_core.Kernel.{
  cfn_max_pri, cfn_max_tskid, cfn_max_semid, cfn_max_flgid, cfn_max_mbxid, tk_wakeup_maxcnt,
  TaskState, noexs, run, rdy, wai, sus, was, dmt, TaskWait, unwaited, slp, dly, sem, flg, mbx,
  WaitInfo, Tcb, Semcb, ready_queue, timer_queue, free_tcb, sem_queue, flg_queue, mbx_queue_of,
  Kernel,
}
use tsukumo_core.Rings.{Link, alone, poisoned, on, Rings}
use tsukumo_core.Rings.Linked.{IsLinked}
use tsukumo_core.Task.Wait.{sem_request, sem_awaited}
use tsukumo_core.Timer.{Call, after}

-- The ring that a link is on.
abbrev pub queue_of : Link → ℕ
queue_of (on a) = a
queue_of alone = 0
queue_of poisoned = 0

abbrev pub HasPriority : Tcb → Type 0
HasPriority t = (1 ≤ t.itskpri) × (t.itskpri ≤ cfn_max_pri)

-- The wait queue that a waiting task is on, by what it waits for.
abbrev pub Awaits : TaskWait → WaitInfo → Link → Type 0
Awaits unwaited w l = ⊥
Awaits slp w l = l ≡ alone
Awaits dly w l = l ≡ alone
Awaits sem w l =
    (l ≡ on (sem_queue (sem_awaited w))) × (sem_awaited w < cfn_max_semid) × (0 < sem_request w)
Awaits flg w l =
    (l ≡ on (queue_of l)) × (flg_queue 0 ≤ queue_of l) × (queue_of l < flg_queue cfn_max_flgid)
Awaits mbx w l =
    (l ≡ on (queue_of l))
    × (mbx_queue_of 0 ≤ queue_of l)
    × (queue_of l < mbx_queue_of cfn_max_mbxid)

-- A task that can run: on the ready queue of its priority, and waiting for nothing.
pub record IsReady (t : Tcb) (h w : Link) : Type 0 where
  pub queued : h ≡ on (ready_queue (t.itskpri - 1))
  pub free : w ≡ alone
  pub unwaiting : t.tskwait ≡ unwaited
  pub priority : HasPriority t

-- The places of a task's two links, by its state.
abbrev pub Placed : TaskState → Tcb → Link → Link → Type 0
Placed noexs t h w = (h ≡ on free_tcb) × (w ≡ alone)
Placed run t h w = IsReady t h w
Placed rdy t h w = IsReady t h w
Placed wai t h w = ((h ≡ alone) ⊎ (h ≡ on timer_queue)) × Awaits t.tskwait t.winfo w × HasPriority t
Placed dmt t h w = ((h ≡ alone) ⊎ (h ≡ poisoned)) × (w ≡ alone) × HasPriority t
Placed sus t h w = ⊥
Placed was t h w = ⊥

abbrev pub IsPlaced : Kernel → ℕ → Type 0
IsPlaced k i = Placed (k.tcbs i).tskstat (k.tcbs i) (k.heads.link i) (k.waits.link i)

-- The invariant of the four tables that the calls share. A number from CFN_MAX_TSKID on names no
-- task, and is on no ring.
pub record Tables (tcbs : ℕ → Tcb) (heads waits : Rings) (semcbs : ℕ → Semcb) : Type 0 where
  pub heads_linked : IsLinked heads
  pub waits_linked : IsLinked waits
  pub placed :
      (i : ℕ) → i < cfn_max_tskid → Placed (tcbs i).tskstat (tcbs i) (heads.link i) (waits.link i)
  pub named : (i : ℕ) → i < cfn_max_tskid → (tcbs i).tskid ≡ i + 1
  pub stray : (i : ℕ) → cfn_max_tskid ≤ i → (heads.link i ≡ alone) × (waits.link i ≡ alone)
  pub wakeups : (i : ℕ) → (tcbs i).wupcnt ≤ tk_wakeup_maxcnt
  pub units : (s : ℕ) → (semcbs s).semcnt ≤ (semcbs s).maxsem

abbrev pub Inv : Kernel → Type 0
Inv k = Tables k.tcbs k.heads k.waits k.semcbs

-- The invariant holds of the kernel that a call leaves.
pub record Keeps {A : Type 0} (r : A × Kernel) : Type 0 where
  pub kept : Inv r.1

pub record Leaves {A : Type 0} (c : Call A) : Type 0 where
  pub kept : Inv (after c)
