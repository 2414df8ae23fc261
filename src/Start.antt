-- ===== src/Start.antt =====
-- kernel/start.c: the task switch and the start of the kernel; the trap entries of
-- kernel/asm/rv32/start.S as far as they order the C calls.
use tsukumo_core.Common.{if◌then◌else◌, ℤ, pos, update, ℕ, ◌+◌, ◌-◌, true, false, not, none, some}
use tsukumo_core.Context.{di}
use tsukumo_core.EventFlag.{init_flgcb}
use tsukumo_core.Kernel.{Er, Created, made, refused, run, rdy, Kernel, set_tcb}
use tsukumo_core.Kernel.Codes.{is_ok, is_run}
use tsukumo_core.Mailbox.{init_mbxcb}
use tsukumo_core.Semaphore.{init_semcb}
use tsukumo_core.Task.{TCtsk, init_tcb, tk_cre_tsk, tk_sta_tsk}
use tsukumo_core.Task.Queue.{get_highest_priority_task}
use tsukumo_core.Timer.{init_timer, timer_handler}
use tsukumo_core.Timer.Clock.{start_timer}

-- `schedule`, called in a trap with the stack pointer of the task that was interrupted. It is
-- only reached with a current and a next task; without one the source reads through NULL.
unfoldable pub schedule : ℕ → Kernel → Kernel
schedule sp k = elim k.current [
  | none ↦ k
  | some c ↦
      let t = k.tcbs c in
      let stopped = record t { sp = sp; tskstat = if is_run t.tskstat then rdy else t.tskstat } in
      let tcbs' = update k.tcbs c stopped in
      elim k.next [
        | none ↦ set_tcb c stopped k
        | some n ↦ record k {
          tcbs = update tcbs' n (record (tcbs' n) { tskstat = run });
          current = some n;
        }
      ]
]

-- mtrap_handler: the software interrupt is cleared and the switch is made.
unfoldable pub software_interrupt : ℕ → Kernel → Kernel
software_interrupt sp k = schedule sp (record k { msip = false })

-- timer_interrupt: the handler runs in the ISR state, and the switch that it asked for follows.
unfoldable pub timer_interrupt : ℕ → Kernel → Kernel
timer_interrupt sp k =
    let entered = record k { isr_depth = k.isr_depth + 1; mie = false } in
    let handled = timer_handler entered in
    let switched = if handled.msip then software_interrupt sp handled else handled in
    record switched { isr_depth = switched.isr_depth - 1; mie = k.mie }

-- tkmc_startup_stage of kernel/panic.h.
pub data Stage : Type 0 where
  initial_create initial_start idle_create idle_start : Stage

-- `tkmc_start` launches the first task, or stops in `tkmc_fatal_startup`, which records the stage
-- and the error with interrupts off.
pub data Boot : Type 0 where
  launched : (sp : ℕ) → Kernel → Boot
  fatal_startup : Stage → Er → Kernel → Boot

-- The calls that set the tables up, on memory that `clear_bss` has zeroed.
unfoldable pub init_kernel : Kernel → Kernel
init_kernel k = init_mbxcb (init_timer (init_semcb (init_flgcb (init_tcb k))))

-- One of the two blocks of `tkmc_start` that create a task and start it with `a0`.
unfoldable pub create_and_start :
    Stage → Stage → TCtsk → ℤ → (Kernel → Boot) → Created × Kernel → Boot
create_and_start create start p a0 onward (refused e, k) = fatal_startup create e (di k)
create_and_start create start p a0 onward (made id, k) =
    let (error, k') = tk_sta_tsk (pos id) a0 k in
    if not (is_ok error) then fatal_startup start error (di k') else onward k'

-- The end of `tkmc_start`: the first task is marked as running and launched.
unfoldable pub launch : Kernel → Boot
launch k = elim (get_highest_priority_task k) [
  | none ↦ launched 0 k
  | some i ↦
      let k' = start_timer (record k {
        tcbs = update k.tcbs i (record (k.tcbs i) { tskstat = run });
        current = some i;
      }) in
      launched (k'.tcbs i).sp (record k' { mie = true })
]

-- `tkmc_start`, given the packets of the initial task and of the idle task.
unfoldable pub start_kernel : TCtsk → TCtsk → ℤ → Kernel → Boot
start_kernel ini idl a0 k =
    create_and_start initial_create initial_start ini a0
      (λ k'. create_and_start idle_create idle_start idl a0 launch (tk_cre_tsk (some idl) k'))
      (tk_cre_tsk (some ini) (init_kernel k))
