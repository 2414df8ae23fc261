-- ===== src/System.antt =====
-- The kernel as a whole: what can happen to it one after the other, and the states that can be
-- reached. An event is a call of a task or of a handler, the code of a call behind its wait, a
-- change of the interrupt state, an interrupt, or time.
pub mod Blocked
pub mod Boot
pub mod Create
pub mod Decided
pub mod Events
pub mod Frame
pub mod Kept
pub mod Moves
pub mod Reached
pub mod Running
pub mod Unused
use tsukumo_core.Common.{
  ◌==◌, if◌then◌else◌, ℤ, is_empty, ℕ, ◌+◌, ◌-◌, ◌≡◌, Bool, true, false, not, ◌&&◌, Option, none,
  some, List, [], ◌∷◌,
}
use tsukumo_core.Context.{di, ei, can_block}
use tsukumo_core.EventFlag.{TCflg, tk_cre_flg, tk_wai_flg, wai_flg_return, tk_set_flg, tk_clr_flg}
use tsukumo_core.Kernel.{Kernel}
use tsukumo_core.Kernel.Codes.{same_task}
use tsukumo_core.Mailbox.{TCmbx, tk_cre_mbx, tk_del_mbx, tk_snd_mbx, tk_rcv_mbx, rcv_mbx_return}
use tsukumo_core.Rings.{Rings}
use tsukumo_core.Semaphore.{TCsem, tk_cre_sem, tk_wai_sem, wai_sem_return, tk_sig_sem, tk_del_sem}
use tsukumo_core.Start.{software_interrupt, timer_interrupt}
use tsukumo_core.Task.{
  TCtsk, tk_cre_tsk, tk_sta_tsk, ended, tk_ext_tsk, tk_exd_tsk, tk_rel_wai, tk_wup_tsk,
}
use tsukumo_core.Timer.{
  after, timer_handler, tk_dly_tsk, dly_tsk_return, tk_slp_tsk, slp_tsk_return,
}

pub data Event : Type 0 where
  cre_tsk : Option TCtsk → Event
  sta_tsk : (tskid stacd : ℤ) → Event
  ext_tsk exd_tsk : Event
  slp_tsk : ℤ → Event
  dly_tsk : ℕ → Event
  rel_wai wup_tsk : ℤ → Event
  cre_sem : Option TCsem → Event
  del_sem : ℤ → Event
  sig_sem : (semid cnt : ℤ) → Event
  wai_sem : (semid cnt tmout : ℤ) → Event
  cre_flg : Option TCflg → Event
  set_flg clr_flg : ℤ → ℕ → Event
  wai_flg : ℤ → (waiptn wfmode : ℕ) → Bool → ℤ → Event
  cre_mbx : Option TCmbx → Event
  del_mbx : ℤ → Event
  snd_mbx : ℤ → ℕ → Event
  rcv_mbx : ℤ → Bool → ℤ → Event
  slp_return dly_return sem_return flg_return mbx_return : Event
  disable enable enter_isr exit_isr : Event
  switch timer : ℕ → Event
  time : ℕ → Event

-- The code behind a wait, in the current task.
abbrev pub by_current : (ℕ → Kernel → Kernel) → Kernel → Kernel
by_current f k = elim k.current [ none ↦ k | some i ↦ f i k ]

-- The kernel after an event.
unfoldable pub perform : Event → Kernel → Kernel
perform (cre_tsk p) k = (tk_cre_tsk p k).1
perform (sta_tsk tskid stacd) k = (tk_sta_tsk tskid stacd k).1
perform ext_tsk k = ended (tk_ext_tsk k)
perform exd_tsk k = ended (tk_exd_tsk k)
perform (slp_tsk tmout) k = after (tk_slp_tsk tmout k)
perform (dly_tsk dlytm) k = after (tk_dly_tsk dlytm k)
perform (rel_wai tskid) k = (tk_rel_wai tskid k).1
perform (wup_tsk tskid) k = (tk_wup_tsk tskid k).1
perform (cre_sem p) k = (tk_cre_sem p k).1
perform (del_sem semid) k = (tk_del_sem semid k).1
perform (sig_sem semid cnt) k = (tk_sig_sem semid cnt k).1
perform (wai_sem semid cnt tmout) k = after (tk_wai_sem semid cnt tmout k)
perform (cre_flg p) k = (tk_cre_flg p k).1
perform (set_flg flgid setptn) k = (tk_set_flg flgid setptn k).1
perform (clr_flg flgid clrptn) k = (tk_clr_flg flgid clrptn k).1
perform (wai_flg flgid waiptn wfmode has_ptr tmout) k =
    after (tk_wai_flg flgid waiptn wfmode has_ptr tmout k)
perform (cre_mbx p) k = (tk_cre_mbx p k).1
perform (del_mbx mbxid) k = (tk_del_mbx mbxid k).1
perform (snd_mbx mbxid msg) k = (tk_snd_mbx mbxid msg k).1
perform (rcv_mbx mbxid has_ptr tmout) k = after (tk_rcv_mbx mbxid has_ptr tmout k)
perform slp_return k = by_current (λ i k. (slp_tsk_return i k).1) k
perform dly_return k = by_current (λ i k. (dly_tsk_return i k).1) k
perform sem_return k = by_current (λ i k. (wai_sem_return i k).1) k
perform flg_return k = by_current (λ i k. (wai_flg_return i k).1) k
perform mbx_return k = by_current (λ i k. (rcv_mbx_return i k).1) k
perform disable k = di k
perform enable k = ei true k
perform enter_isr k = record k { isr_depth = k.isr_depth + 1; mie = false }
perform exit_isr k = record k { isr_depth = k.isr_depth - 1; mie = true }
perform (switch sp) k = software_interrupt sp k
perform (timer sp) k = timer_interrupt sp k
perform (time t) k = record k { mtime = t }

-- The software interrupt is not about to be taken: code of a task or of a handler goes on.
abbrev pub goes_on : Kernel → Bool
goes_on k = not (k.mie && (k.msip && (k.isr_depth == 0)))

-- The wait queue of the control block that a creation would take.
abbrev pub fresh : (ℕ → ℕ) → List ℕ → Rings → Bool
fresh queue [] waits = true
fresh queue (s ∷ rest) waits = is_empty (waits.ring (queue s))

-- A switch that is asked for has a next task.
abbrev pub has_next : Kernel → Bool
has_next k = if k.msip then not (same_task k.next none) else true

-- The state that the timer's handler runs in.
abbrev pub entered : Kernel → Kernel
entered k = record k { isr_depth = k.isr_depth + 1; mie = false }

-- When an event can happen. A call that ends its task happens where it may block; elsewhere it
-- stops the kernel. A switch has a next task.
unfoldable pub allowed : Event → Kernel → Bool
allowed ext_tsk k = goes_on k && can_block k.mie k
allowed exd_tsk k = goes_on k && can_block k.mie k
allowed mbx_return k = goes_on k && can_block k.mie k
allowed enter_isr k = k.mie
allowed exit_isr k = not (k.isr_depth == 0)
allowed (switch sp) k = not (goes_on k) && has_next k
allowed (timer sp) k =
    (k.mie && (k.isr_depth == 0)) && (goes_on k && has_next (timer_handler (entered k)))
allowed (time t) k = true
allowed e k = goes_on k

-- The states that can be reached from `start`.
pub data Reach (start : Kernel) : Kernel → Type 0 where
  at_start : Reach start start
  then_event :
      {k : Kernel} → Reach start k → (e : Event) → allowed e k ≡ true → Reach start (perform e k)
