-- ===== src/Examples.antt =====
-- A kernel with one task of each kind, for the theorems of kernel/*.c at concrete inputs.
pub mod Calls
pub mod Parts
pub mod Runs
pub mod Results
use tsukumo_core.Common.{
  ◌==◌, if◌then◌else◌, pos, count-nil, count-cons, ℕ, zero, suc, ◌+◌, refl, subst, inl, inr, true,
  false, some, [], ◌∷◌, arith,
}
use tsukumo_core.Invariant.Defs.{Placed, Inv}
use tsukumo_core.Invariant.Switch.{IsRunnable, CurrentRuns}
use tsukumo_core.Kernel.{
  e_ok, TaskState, run, wai, dmt, TaskWait, unwaited, sem, flg, mbx, WaitInfo, cleared, event_flag,
  semaphore, mailbox, Tcb, timer_queue, sem_queue, flg_queue, mbx_queue_of, Kernel,
}
use tsukumo_core.Rings.{alone, on, Rings}
use tsukumo_core.Rings.Linked.{IsLinked}

-- Task 0 runs, task 1 waits for two units of semaphore 0 with a time limit, task 2 waits for a
-- pattern of event flag 0 and task 3 for a message from mailbox 0. The others are dormant.
abbrev some_tcb : ℕ → TaskState → TaskWait → ℕ → ℕ → WaitInfo → Tcb
some_tcb i stat wait pri delay winfo = record {
  tskid = i + 1;
  itskpri = pri;
  tskstat = stat;
  tskwait = wait;
  sp = 0;
  initial_sp = 0;
  task = 0;
  exinf = 0;
  delay_ticks = delay;
  wupcause = e_ok;
  wupcnt = 0;
  winfo = winfo;
}

abbrev pub some_tcbs : ℕ → Tcb
some_tcbs i =
    if i == 0
    then some_tcb 0 run unwaited 3 0 cleared
    else if i == 1
    then some_tcb 1 wai sem 5 4 (semaphore 2 0)
    else if i == 2
    then some_tcb 2 wai flg 2 0 (event_flag 3 0 0)
    else if i == 3
    then some_tcb 3 wai mbx 4 0 (mailbox 0)
    else some_tcb i dmt unwaited 7 0 cleared

abbrev pub some_heads : Rings
some_heads = record {
  link = λ i. if i == 0 then on 2 else if i == 1 then on timer_queue else alone;
  ring = λ a. if a == 2 then 0 ∷ [] else if a == timer_queue then 1 ∷ [] else [];
}

abbrev pub some_waits : Rings
some_waits = record {
  link = λ i.
      if i == 1
      then on (sem_queue 0)
      else if i == 2
      then on (flg_queue 0)
      else if i == 3
      then on (mbx_queue_of 0)
      else alone;
  ring = λ a.
      if a == sem_queue 0
      then 1 ∷ []
      else if a == flg_queue 0
      then 2 ∷ []
      else if a == mbx_queue_of 0
      then 3 ∷ []
      else [];
}

abbrev pub some_kernel : Kernel
some_kernel = record {
  tcbs = some_tcbs;
  heads = some_heads;
  waits = some_waits;
  semcbs = λ s. record { semid = s + 1; exinf = 0; sematr = 0; semcnt = 0; maxsem = 5 };
  free_semcb = [];
  flgcbs = λ s. record { flgid = s + 1; exinf = 0; flgatr = 0; flgptn = 0 };
  free_flgcb = [];
  mbxcbs = λ b. record { mbxid = b + 1; exinf = 0; mbxatr = 0; mbx_queue = [] };
  free_mbxcb = [];
  current = some 0;
  next = some 0;
  mie = true;
  msip = false;
  isr_depth = 0;
  mtime = 250000;
  s_mtimecmp = 100000;
  mtimecmp = 100000;
  mem = λ a. 0;
  msgpri = λ m. pos 1;
  ext_tsk_entry = 0;
}

some_heads-IsLinked : IsLinked some_heads
some_heads-IsLinked n a = ground (arith, count-nil n, count-cons n 0 [], count-cons n 1 [])

some_waits-IsLinked : IsLinked some_waits
some_waits-IsLinked n a =
    ground (arith, count-nil n, count-cons n 1 [], count-cons n 2 [], count-cons n 3 [])

some_kernel-Placed :
    (i : ℕ) → Placed (some_tcbs i).tskstat (some_tcbs i) (some_heads.link i) (some_waits.link i)
some_kernel-Placed zero = record {
  queued = refl;
  free = refl;
  unwaiting = refl;
  priority = (omega arith, omega arith);
}
some_kernel-Placed (suc zero) =
    (inr refl, (refl, omega arith, omega arith), (omega arith, omega arith))
some_kernel-Placed (suc (suc zero)) =
    (inl refl, (refl, omega arith, omega arith), (omega arith, omega arith))
some_kernel-Placed (suc (suc (suc zero))) =
    (inl refl, (refl, omega arith, omega arith), (omega arith, omega arith))
some_kernel-Placed (suc (suc (suc (suc i)))) = ground arith

pub some_kernel-Inv : Inv some_kernel
some_kernel-Inv = record {
  heads_linked = some_heads-IsLinked;
  waits_linked = some_waits-IsLinked;
  placed = λ i lt. some_kernel-Placed i;
  named = λ i lt. ground arith;
  stray = λ i ge. ground arith;
  wakeups = λ i. ground arith;
  units = λ s. omega arith;
}

pub some_kernel-IsRunnable : IsRunnable some_tcbs some_heads some_waits 0
some_kernel-IsRunnable = record { in_table = omega arith; ready = some_kernel-Placed 0 }

pub some_kernel-CurrentRuns : CurrentRuns some_kernel
some_kernel-CurrentRuns i e =
    subst (IsRunnable some_tcbs some_heads some_waits) (ground arith) some_kernel-IsRunnable
