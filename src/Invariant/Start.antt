-- ===== src/Invariant/Start.antt =====
-- The invariant, and the start of the kernel in kernel/start.c. Of the memory at the start nothing
-- is known but what lies outside the tables.
pub mod Loops
use tsukumo_core.Common.{
  ltb, leb, if◌then◌else◌, Bool-cases, Option-cases, if_cases, ℤ, pos, count, count-nil, ℕ, ◌+◌,
  ◌≤◌, ◌<◌, ◌≡◌, refl, sym, ap, ◌∙◌, subst, ◌≢◌, inl, inr, ◌&&◌, some, [], arith,
}
use tsukumo_core.EventFlag.{init_flgcb}
use tsukumo_core.Invariant.Create.{tk_cre_tsk-Inv}
use tsukumo_core.Invariant.Defs.{Inv}
use tsukumo_core.Invariant.Start.Loops.{
  IsBlank, init_tcbs-head, init_tcbs-wait, init_tcbs-tskstat, init_tcbs-tskid, init_tcbs-wupcnt,
  init_tcbs-ring, init_tcbs-free, init_tcbs-wait_ring, init_tcbs-semcbs, init_ready-link,
  init_ready-ring, Emptied, init_flgcbs-semcbs, init_mbxcbs-semcbs, init_semcbs-units,
  init_semcb-Emptied, init_flgcb-Emptied, init_mbxcb-Emptied,
}
use tsukumo_core.Invariant.Switching.{run-Inv}
use tsukumo_core.Invariant.TaskCalls.{tk_sta_tsk-Inv}
use tsukumo_core.Kernel.{
  cfn_max_pri, cfn_max_tskid, cfn_max_semid, cfn_max_flgid, cfn_max_mbxid, Created, made, refused,
  noexs, Tcb, Semcb, timer_queue, free_tcb, sem_queue, flg_queue, mbx_queue_of, Kernel, set_heads,
}
use tsukumo_core.Kernel.Codes.{is_ok}
use tsukumo_core.Mailbox.{init_mbxcb}
use tsukumo_core.Rings.{Link, alone, on, Rings, init_head}
use tsukumo_core.Rings.Linked.{times_on, IsLinked}
use tsukumo_core.Scheduler.{chosen-IsHighest}
use tsukumo_core.Semaphore.{init_semcb}
use tsukumo_core.Start.{
  Stage, initial_create, initial_start, idle_create, idle_start, Boot, launched, fatal_startup,
  init_kernel, create_and_start, launch, start_kernel,
}
use tsukumo_core.Task.{TCtsk, init_tcb, tk_cre_tsk, tk_sta_tsk}
use tsukumo_core.Task.Queue.{get_highest_priority_task}
use tsukumo_core.Timer.{init_timer}
use tsukumo_core.Timer.Clock.{start_timer}

-- The TCBs as `tkmc_init_tcb` leaves them.
module _ (k : Kernel) (b : IsBlank k) where
  tcb_start : Kernel
  tcb_start = set_heads (init_head free_tcb k.heads) k

  init_tcb-head :
      (j : ℕ) → (init_tcb k).heads.link j ≡ (if ltb j cfn_max_tskid then on free_tcb else alone)
  unfolding init_tcb init_head tcb_start
  init_tcb-head j =
      init_ready-link cfn_max_pri _ j
      ∙ ground (arith, init_tcbs-head tcb_start cfn_max_tskid j, b.stray j)

  init_tcb-wait : (j : ℕ) → (init_tcb k).waits.link j ≡ alone
  unfolding init_tcb init_head tcb_start
  init_tcb-wait j = ground (arith, init_tcbs-wait tcb_start cfn_max_tskid j, b.stray j)

  init_tcb-ring :
      (n a : ℕ)
      → a ≢ timer_queue
      → count n ((init_tcb k).heads.ring a) ≡ times_on ((init_tcb k).heads.link n) a
  unfolding init_tcb init_head tcb_start
  init_tcb-ring n a ne =
      ap (count n) (init_ready-ring cfn_max_pri _ a)
      ∙ ground (
        arith,
        init_tcbs-ring tcb_start cfn_max_tskid a,
        init_tcbs-free tcb_start cfn_max_tskid n,
        b.head_rings a,
        count-nil n,
      )
      ∙ ap (λ (l : Link). times_on l a) (sym (init_tcb-head n))

-- What the start leaves: every task is on the free list, and every wait queue is empty.
module _ (k : Kernel) (b : IsBlank k) where
  flg_made : Emptied (flg_queue 0) cfn_max_flgid (init_tcb k) (init_flgcb (init_tcb k))
  flg_made = init_flgcb-Emptied (init_tcb k)

  sem_made :
      Emptied
        (sem_queue 0)
        cfn_max_semid
        (init_flgcb (init_tcb k))
        (init_semcb (init_flgcb (init_tcb k)))
  sem_made = init_semcb-Emptied (init_flgcb (init_tcb k))

  mbx_made :
      Emptied
        (mbx_queue_of 0)
        cfn_max_mbxid
        (init_timer (init_semcb (init_flgcb (init_tcb k))))
        (init_kernel k)
  unfolding init_kernel
  mbx_made = init_mbxcb-Emptied (init_timer (init_semcb (init_flgcb (init_tcb k))))

  started-tcbs : (init_kernel k).tcbs ≡ (init_tcb k).tcbs
  unfolding init_timer
  started-tcbs = mbx_made.tcbs ∙ sem_made.tcbs ∙ flg_made.tcbs

  started-heads : (init_kernel k).heads ≡ init_head timer_queue (init_tcb k).heads
  unfolding init_timer
  started-heads = mbx_made.heads ∙ ap (init_head timer_queue) (sem_made.heads ∙ flg_made.heads)

  started-wait : (j : ℕ) → (init_kernel k).waits.link j ≡ alone
  unfolding init_timer
  started-wait j = mbx_made.links j ∙ sem_made.links j ∙ flg_made.links j ∙ init_tcb-wait k b j

  pub started-wait_ring : (a : ℕ) → (init_kernel k).waits.ring a ≡ []
  unfolding init_timer init_tcb tcb_start
  started-wait_ring a =
      let same = init_tcbs-wait_ring (tcb_start k b) cfn_max_tskid a in
      mbx_made.rings a
      ∙ if_cases (λ r. r ≡ []) (leb (mbx_queue_of 0) a && ltb a (mbx_queue_of 0 + cfn_max_mbxid))
          (λ _. refl)
          (λ no_mbx.
            sem_made.rings a
            ∙ if_cases (λ r. r ≡ []) (leb (sem_queue 0) a && ltb a (sem_queue 0 + cfn_max_semid))
                (λ _. refl)
                (λ no_sem.
                  flg_made.rings a
                  ∙ if_cases (λ r. r ≡ [])
                      (leb (flg_queue 0) a && ltb a (flg_queue 0 + cfn_max_flgid)) (λ _. refl)
                      (λ no_flg. same ∙ b.wait_rings a (ground arith))))

  start-semcbs : (s : ℕ) → (init_flgcb (init_tcb k)).semcbs s ≡ k.semcbs s
  unfolding init_flgcb init_tcb tcb_start
  start-semcbs s =
      ap (λ (f : ℕ → Semcb). f s) (init_flgcbs-semcbs cfn_max_flgid _)
      ∙ init_tcbs-semcbs (tcb_start k b) cfn_max_tskid s

  started-units : (s : ℕ) → ((init_kernel k).semcbs s).semcnt ≤ ((init_kernel k).semcbs s).maxsem
  unfolding init_kernel init_mbxcb init_timer init_semcb
  started-units s =
      rw (init_mbxcbs-semcbs cfn_max_mbxid)
        (init_semcbs-units cfn_max_semid _ s (λ ge. rw (start-semcbs s) (b.units s ge)))

  started-IsLinked : IsLinked (init_kernel k).heads
  unfolding init_head
  started-IsLinked =
      subst IsLinked (sym started-heads)
        (λ n a. ground (arith, init_tcb-ring k b n a, init_tcb-head k b n, count-nil n))

  started-head :
      (j : ℕ) → (init_kernel k).heads.link j ≡ (if ltb j cfn_max_tskid then on free_tcb else alone)
  unfolding init_head
  started-head j = ap (λ (r : Rings). r.link j) started-heads ∙ init_tcb-head k b j

  started-tskstat : (i : ℕ) → i < cfn_max_tskid → ((init_kernel k).tcbs i).tskstat ≡ noexs
  unfolding init_tcb tcb_start
  started-tskstat i lt =
      ap (λ (f : ℕ → Tcb). (f i).tskstat) started-tcbs
      ∙ init_tcbs-tskstat (tcb_start k b) cfn_max_tskid i lt

  started-tskid : (i : ℕ) → i < cfn_max_tskid → ((init_kernel k).tcbs i).tskid ≡ i + 1
  unfolding init_tcb tcb_start
  started-tskid i lt =
      ap (λ (f : ℕ → Tcb). (f i).tskid) started-tcbs
      ∙ init_tcbs-tskid (tcb_start k b) cfn_max_tskid i lt

  started-wupcnt :
      (i : ℕ)
      → ((init_kernel k).tcbs i).wupcnt ≡ (if ltb i cfn_max_tskid then 0 else (k.tcbs i).wupcnt)
  unfolding init_tcb tcb_start
  started-wupcnt i =
      ap (λ (f : ℕ → Tcb). (f i).wupcnt) started-tcbs
      ∙ init_tcbs-wupcnt (tcb_start k b) cfn_max_tskid i

-- On memory of which nothing is known but what lies outside the tables, the calls of tkmc_start
-- that set the tables up establish the invariant.
pub init_kernel-Inv : (k : Kernel) → IsBlank k → Inv (init_kernel k)
init_kernel-Inv k b = record {
  heads_linked = started-IsLinked k b;
  waits_linked = λ n a. ground (arith, started-wait k b n, started-wait_ring k b a, count-nil n);
  placed = λ i lt. ground (arith, started-tskstat k b i lt, started-head k b i, started-wait k b i);
  named = started-tskid k b;
  stray = λ i ge. ground (arith, started-head k b i, started-wait k b i);
  wakeups = λ i. ground (arith, started-wupcnt k b i, b.wakeups i);
  units = started-units k b;
}

-- The kernel as the start leaves it, launched or stopped.
abbrev pub booted : Boot → Kernel
booted (launched sp k) = k
booted (fatal_startup stage error k) = k

create_and_start-Inv :
    (create start : Stage) (p : TCtsk) (a0 : ℤ) (onward : Kernel → Boot) (r : Created × Kernel)
    → Inv r.1
    → ((k : Kernel) → Inv k → Inv (booted (onward k)))
    → Inv (booted (create_and_start create start p a0 onward r))
unfolding create_and_start
create_and_start-Inv create start p a0 onward (refused e, k) v h = v
create_and_start-Inv create start p a0 onward (made id, k) v h =
    let started = tk_sta_tsk (pos id) a0 k in
    let kept = (tk_sta_tsk-Inv (pos id) a0 k v).kept in
    elim (Bool-cases (is_ok started.0)) [ inl e ↦ rw e (h started.1 kept) | inr e ↦ rw e kept ]

launch-Inv : (k : Kernel) → Inv k → Inv (booted (launch k))
unfolding launch start_timer
launch-Inv k v = elim (Option-cases (get_highest_priority_task k)) [
  | inl e ↦ rw (e, booted) v
  | inr (i, e) ↦ rw (e, booted) (run-Inv i k v (chosen-IsHighest i k v e).0)
]

-- On memory of which nothing is known but what lies outside the tables, the invariant holds of the
-- kernel that tkmc_start launches, and of the kernel where it stops.
pub start_kernel-Inv :
    (ini idl : TCtsk) (a0 : ℤ) (k : Kernel) → IsBlank k → Inv (booted (start_kernel ini idl a0 k))
unfolding start_kernel
start_kernel-Inv ini idl a0 k b =
    create_and_start-Inv initial_create initial_start ini a0 _
      (tk_cre_tsk (some ini) (init_kernel k))
      (tk_cre_tsk-Inv (some ini) (init_kernel k) (init_kernel-Inv k b)).kept
      (λ k' v.
        create_and_start-Inv idle_create idle_start idl a0 launch (tk_cre_tsk (some idl) k')
          (tk_cre_tsk-Inv (some idl) k' v).kept launch-Inv)
