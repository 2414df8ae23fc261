-- ===== src/Kernel.antt =====
-- The kernel's data: include/sys/config.h, include/tk/errno.h, include/tk/tkernel.h,
-- kernel/task.h, kernel/semaphore.h, kernel/event_flag.h, kernel/mailbox.h, and the global
-- variables of the C files in one record. A pointer to a control block is its index in its table.
pub mod Codes
use tsukumo_core.Common.{ℤ, update, ℕ, ◌+◌, Bool, Option, List}
use tsukumo_core.Rings.{Rings}

-- include/sys/config.h
abbrev pub cfn_max_pri : ℕ
cfn_max_pri = 16

abbrev pub cfn_max_tskid : ℕ
cfn_max_tskid = 32

abbrev pub cfn_max_semid : ℕ
cfn_max_semid = 16

abbrev pub cfn_max_flgid : ℕ
cfn_max_flgid = 16

abbrev pub cfn_max_mbxid : ℕ
cfn_max_mbxid = 8

-- TK_WAKEUP_MAXCNT and TK_SEMAPHORE_MAXCNT of include/sys/profile.h.
abbrev pub tk_wakeup_maxcnt : ℕ
tk_wakeup_maxcnt = 4095

abbrev pub tk_semaphore_maxcnt : ℕ
tk_semaphore_maxcnt = 32767

-- The error codes of include/tk/errno.h.
pub data Er : Type 0 where
  e_ok e_sys e_nocop e_nospt e_rsfn e_rsatr e_par e_id : Er
  e_ctx e_macv e_oacv e_iluse e_nomem e_limit e_obj e_noexs e_qovr : Er
  e_rlwai e_tmout e_dlt e_diswai e_io e_nomda e_busy e_abort e_ronly : Er

-- What a creating call returns: a positive ID, or an error code.
pub data Created : Type 0 where
  made : ℕ → Created
  refused : Er → Created

-- The task states TTS_*.
pub data TaskState : Type 0 where
  noexs run rdy wai sus was dmt : TaskState

-- The wait factors TTW_* that the kernel uses; `unwaited` is 0.
pub data TaskWait : Type 0 where
  unwaited slp dly sem flg mbx : TaskWait

-- The union in WaitInfo: the member that was written last. `cleared` is the zeroed union.
pub data WaitInfo : Type 0 where
  cleared : WaitInfo
  event_flag : (waiptn wfmode flgptn : ℕ) → WaitInfo
  semaphore : (semcnt semcb : ℕ) → WaitInfo
  mailbox : (msg : ℕ) → WaitInfo

-- The task control block but for its two links, which stand in the rings.
pub record Tcb : Type 0 where
  pub tskid : ℕ
  pub itskpri : ℕ
  pub tskstat : TaskState
  pub tskwait : TaskWait
  pub sp : ℕ
  pub initial_sp : ℕ
  pub task : ℕ
  pub exinf : ℕ
  pub delay_ticks : ℕ
  pub wupcause : Er
  pub wupcnt : ℕ
  pub winfo : WaitInfo

-- The ID fields hold the 32-bit pattern, NOEXS_MASK included.
pub record Semcb : Type 0 where
  pub semid : ℕ
  pub exinf : ℕ
  pub sematr : ℕ
  pub semcnt : ℕ
  pub maxsem : ℕ

pub record Flgcb : Type 0 where
  pub flgid : ℕ
  pub exinf : ℕ
  pub flgatr : ℕ
  pub flgptn : ℕ

-- `mbx_queue` lists the queued messages by their addresses.
pub record Mbxcb : Type 0 where
  pub mbxid : ℕ
  pub exinf : ℕ
  pub mbxatr : ℕ
  pub mbx_queue : List ℕ

-- The rings that TCB.head can be on: one ready queue for each priority, the timer queue and the
-- list of free TCBs.
abbrev pub ready_queue : ℕ → ℕ
ready_queue i = i

abbrev pub timer_queue : ℕ
timer_queue = cfn_max_pri

abbrev pub free_tcb : ℕ
free_tcb = cfn_max_pri + 1

-- The rings that TCB.winfo.wait_queue can be on: the wait queues of the objects.
abbrev pub sem_queue : ℕ → ℕ
sem_queue i = i

abbrev pub flg_queue : ℕ → ℕ
flg_queue i = cfn_max_semid + i

abbrev pub mbx_queue_of : ℕ → ℕ
mbx_queue_of i = cfn_max_semid + cfn_max_flgid + i

-- The machine and the global variables. `mie` is the interrupt-enable bit of mstatus, `msip` the
-- software interrupt that `dispatch` raises, `mtime` the machine timer as a call reads it,
-- `mtimecmp` the compare register, `mem` the words of the stacks and `msgpri` the msgpri field of
-- the message at an address. `ext_tsk_entry` is the address of `tk_ext_tsk`.
pub record Kernel : Type 0 where
  pub tcbs : ℕ → Tcb
  pub heads : Rings
  pub waits : Rings
  pub semcbs : ℕ → Semcb
  pub free_semcb : List ℕ
  pub flgcbs : ℕ → Flgcb
  pub free_flgcb : List ℕ
  pub mbxcbs : ℕ → Mbxcb
  pub free_mbxcb : List ℕ
  pub current : Option ℕ
  pub next : Option ℕ
  pub mie : Bool
  pub msip : Bool
  pub isr_depth : ℕ
  pub mtime : ℕ
  pub s_mtimecmp : ℕ
  pub mtimecmp : ℕ
  pub mem : ℕ → ℕ
  pub msgpri : ℕ → ℤ
  pub ext_tsk_entry : ℕ

-- A write to one control block.
abbrev pub set_tcb : ℕ → Tcb → Kernel → Kernel
set_tcb i t k = record k { tcbs = update k.tcbs i t }

abbrev pub set_semcb : ℕ → Semcb → Kernel → Kernel
set_semcb i c k = record k { semcbs = update k.semcbs i c }

abbrev pub set_flgcb : ℕ → Flgcb → Kernel → Kernel
set_flgcb i c k = record k { flgcbs = update k.flgcbs i c }

abbrev pub set_mbxcb : ℕ → Mbxcb → Kernel → Kernel
set_mbxcb i c k = record k { mbxcbs = update k.mbxcbs i c }

abbrev pub set_heads : Rings → Kernel → Kernel
set_heads r k = record k { heads = r }

abbrev pub set_waits : Rings → Kernel → Kernel
set_waits r k = record k { waits = r }
