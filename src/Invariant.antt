-- ===== src/Invariant.antt =====
-- What holds of the kernel between two calls: where the links of each task are, by the task's
-- state, and the bounds of the counters.
pub mod Defs
pub mod Drain
pub mod Enqueue
pub mod Flags
pub mod Mailbox
pub mod ObjectCalls
pub mod Create
pub mod Park
pub mod TaskCalls
pub mod Timer
pub mod Retask
pub mod Start
pub mod Switch
pub mod Switching
pub mod Wait
