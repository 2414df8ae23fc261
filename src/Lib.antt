-- ===== src/Lib.antt =====
-- A model of the tsukumo-core kernel: a small real-time kernel for RV32 in C, with priority
-- scheduling, semaphores, event flags, mailboxes and time-outs.
--
-- The parts, and the files that model them:
-- - Kernel and Kernel/Codes: the control blocks (kernel/task.h, kernel/semaphore.h,
--   kernel/event_flag.h, kernel/mailbox.h), the constants of include/sys and include/tk, and the
--   global variables in one record, Kernel. A call of the kernel is a function from the kernel
--   before it to the kernel after it.
-- - Rings: the circular lists of kernel/list.h as sequences with a state for each link. Every TCB
--   stands in two families of them, by its `head` (ready queues, timer queue, free list) and by its
--   `winfo.wait_queue` (the wait queues of the objects).
-- - Context: DI, EI and dispatch (include/sys/interrupt.h, kernel/context.h, kernel/dispatch.h).
-- - Task, Task/Queue and Task/Wait: kernel/task.c, and tkmc_sem_serve_waiters of
--   kernel/semaphore.c, which tkmc_complete_wait calls.
-- - Timer, Timer/Clock and Timer/Wide: kernel/timer.c and kernel/timer.h.
-- - Semaphore, EventFlag, Mailbox: kernel/semaphore.c, kernel/event_flag.c, kernel/mailbox.c.
-- - Start: kernel/start.c.
-- - Rings/Pointers: the next and prev pointers of kernel/list.h; Refinement says when they show the
--   rings and links of Rings.
-- - Interrupt: kernel/intctl.c and the registers of asm/rv32/address.h, beside the kernel in one
--   record, Machine.
-- - Memory: kernel/memset.c and kernel/memcpy.c over bytes by address.
-- - System: the whole kernel as events one after the other. An event is a call, the code of a call
--   behind its wait, a change of the interrupt state, an interrupt or time; perform does it, allowed
--   says when it can happen, and Reach relates a state to those that events lead to.
-- The proofs stand in Scheduler, WaitOrder, Refusals, Invariant and its children, Semaphore/Serve
-- and Semaphore/Wakeup, EventFlag/Release, Timer/Bounds, Timer/Leaving, Timer/Expiry and
-- Timer/Wakeup, and Mailbox/Order; the modules named Cases give the branches of the calls. Below
-- System, Moves, Frame, Running, Decided, Blocked and Create go through the events, and Kept,
-- Events and Reached put them together; Unused and its children are about the free lists of the
-- objects, and Boot is about the state that the start leads to. Examples holds a kernel with one
-- task of each kind, and a run of it.
--
-- How the parts interact: every call that makes a task ready or takes one away moves it between
-- the rings and then asks the scheduler for the next task (reschedule, switch_away), which raises
-- the software interrupt; schedule makes the switch. The timer interrupt, tk_rel_wai and the
-- deletions end waits by complete_wait, which serves the waiters of a semaphore behind a waiter
-- that gave up. A call that can block returns, or leaves its task waiting (Call); the functions
-- named *_return are the code after the wait, when the task runs again.
--
-- Correspondence: a pointer to a control block is its index in its table, an optional one for
-- NULL. An ID field holds its 32-bit pattern with NOEXS_MASK. INT arguments are integers; counts
-- and priorities are natural numbers once the checks have passed. Unsigned tick counts wrap at
-- 2^32 and the compare value at 2^64. The free lists of the objects are lists of indices. A message
-- is its address.
--
-- The invariant (Invariant/Defs): rings and links agree; a task's links stand where its state says;
-- a priority is in range; a wakeup count and a semaphore's count keep their bounds.
--
-- Events: code goes on in a task or a handler unless the switch is about to be taken (interrupts on,
-- the software interrupt raised, no interrupt handler active). A call that ends its task happens
-- where the task may block; elsewhere it stops the kernel. A switch, also the one behind the timer's
-- handler, happens with a next task; without one the source reads through NULL. The timer interrupt
-- is not nested.
--
-- Fuel: the word loops of tkmc_memset and tkmc_memcpy have one round more than there are bytes left;
-- pass_elapsed_periods has a round for each period up to the present; the loop of the timer
-- interrupt a round more than there are tasks on its queue; the loops of the deletions as many
-- rounds as there are waiters, and one more for mailboxes. The modules Timer/Bounds, Timer/Expiry
-- and Invariant/Drain are about these bounds.
--
-- Not modelled: the deletion of a link that is already deleted (it writes to 0xdeadbeef in the
-- source, and leaves the model's rings as they are); time that passes while a call runs, so that a
-- call reads the machine timer as one value (Timer/Wide has the loads apart); the link inside a
-- message; the assembly but for the order of the C calls in the timer and the software trap of
-- kernel/asm/rv32/start.S; the fatal stops' records; the encoding of
-- the error codes.
pub mod Common
pub mod Context
pub mod EventFlag
pub mod Examples
pub mod Interrupt
pub mod Invariant
pub mod Kernel
pub mod Mailbox
pub mod Memory
pub mod Refusals
pub mod Rings
pub mod Scheduler
pub mod Semaphore
pub mod Start
pub mod System
pub mod Task
pub mod Timer
pub mod WaitOrder
