-- ===== src/System/Boot.antt =====
-- The start of the kernel, up to the first task: what holds of every state that can be reached
-- holds of the kernel that is launched.
pub mod Tables
use tsukumo_core.Common.{
  Bool-cases, Option-cases, ℤ, pos, pos_part, ℕ, ◌+◌, ◌-◌, ◌<◌, ◌≡◌, refl, sym, ◌∙◌, subst, inl,
  inr, Bool, true, false, Option, some, [], arith,
}
use tsukumo_core.Context.{di, ei, has_current}
use tsukumo_core.EventFlag.{init_flgcbs, init_flgcb}
use tsukumo_core.Invariant.Create.{tk_cre_tsk-Inv}
use tsukumo_core.Invariant.Defs.{Inv}
use tsukumo_core.Invariant.Start.{started-wait_ring, init_kernel-Inv, booted}
use tsukumo_core.Invariant.Start.Loops.{IsBlank}
use tsukumo_core.Invariant.Switch.{IsRunnable}
use tsukumo_core.Invariant.Switching.{run-Inv}
use tsukumo_core.Invariant.TaskCalls.{tk_sta_tsk-Inv}
use tsukumo_core.Kernel.{
  cfn_max_tskid, cfn_max_semid, cfn_max_flgid, cfn_max_mbxid, Created, made, refused, free_tcb,
  sem_queue, flg_queue, Kernel, set_heads,
}
use tsukumo_core.Kernel.Codes.{is_ok}
use tsukumo_core.Mailbox.{init_mbxcb}
use tsukumo_core.Rings.{init_head, first_entry}
use tsukumo_core.Scheduler.{IsHighest, chosen-IsHighest, get_highest_priority_task-IsHighest}
use tsukumo_core.Semaphore.{init_semcbs, init_semcb}
use tsukumo_core.Start.{
  Stage, initial_create, initial_start, idle_create, idle_start, Boot, launched, fatal_startup,
  init_kernel, create_and_start, launch, start_kernel,
}
use tsukumo_core.System.Boot.Tables.{
  init_semcbs-Unused, init_flgcbs-Unused, init_mbxcbs-Unused, Still, init_tcbs-Still,
  init_flgcbs-Still, init_semcbs-Still, init_mbxcbs-Still,
}
use tsukumo_core.System.Kept.{Sys}
use tsukumo_core.System.Running.Creations.{tk_cre_tsk-Stays}
use tsukumo_core.System.Running.Tasks.{tk_sta_tsk-Stays}
use tsukumo_core.System.Unused.{sem_ids, flg_ids, Objects, Unused-same}
use tsukumo_core.System.Unused.Calls.{tk_sta_tsk-Holds}
use tsukumo_core.System.Unused.Creations.{tk_cre_tsk-Holds}
use tsukumo_core.Task.{
  TCtsk, reset_tcb, init_tcb, new_task, allocate_tcb, tk_cre_tsk, make_started, tk_sta_tsk,
}
use tsukumo_core.Task.Cases.{tk_sta_tsk_cases, tk_cre_tsk_cases}
use tsukumo_core.Task.Queue.{get_highest_priority_task}
use tsukumo_core.Timer.{init_timer}
use tsukumo_core.Timer.Clock.{start_timer}

-- The kernel before the first task: the tables are consistent, no task is the current one, no
-- switch is asked for, and the objects on the free lists are unused.
pub record Booting (k : Kernel) : Type 0 where
  pub inv : Inv k
  pub idle : has_current k ≡ false
  pub quiet : k.msip ≡ false
  pub objects : Objects k

idle-same :
    (k k' : Kernel) → k'.current ≡ k.current → has_current k ≡ false → has_current k' ≡ false
idle-same k k' e h = rw e h

-- The tables as the calls that set them up leave them.
module _ (k : Kernel) (b : IsBlank k) where
  init_kernel-Still : Still k (init_kernel k)
  unfolding init_kernel init_mbxcb init_timer init_semcb init_flgcb init_tcb
  init_kernel-Still =
      let k1 = init_tcb k in
      let k2 = init_flgcb k1 in
      let k3 = init_semcb k2 in
      let k4 = init_timer k3 in
      let t = init_tcbs-Still (set_heads (init_head free_tcb k.heads) k) cfn_max_tskid in
      let f = init_flgcbs-Still (record k1 { free_flgcb = [] }) cfn_max_flgid in
      let (s, _) = init_semcbs-Still (record k2 { free_semcb = [] }) cfn_max_semid in
      let (m, _, _) = init_mbxcbs-Still (record k4 { free_mbxcb = [] }) cfn_max_mbxid in
      record {
        current = m.current ∙ s.current ∙ f.current ∙ t.current;
        msip = m.msip ∙ s.msip ∙ f.msip ∙ t.msip;
      }

  init_kernel-Objects : Objects (init_kernel k)
  unfolding init_kernel init_mbxcb init_timer init_semcb init_flgcb
  init_kernel-Objects =
      let r = (init_kernel k).waits in
      let nil = started-wait_ring k b in
      let k1 = record (init_tcb k) { free_flgcb = [] } in
      let k2 = record (init_flgcb (init_tcb k)) { free_semcb = [] } in
      let k4 = record (init_timer (init_semcb (init_flgcb (init_tcb k)))) { free_mbxcb = [] } in
      let (_, fs) = init_semcbs-Still k2 cfn_max_semid in
      let (_, sm, fm) = init_mbxcbs-Still k4 cfn_max_mbxid in
      (
        Unused-same cfn_max_semid (sem_ids (init_semcbs cfn_max_semid k2)) (sem_ids (init_kernel k))
            sem_queue (init_semcbs cfn_max_semid k2).free_semcb (init_kernel k).free_semcb r r
            sm.free sm.ids (λ q e. e) (init_semcbs-Unused r nil cfn_max_semid k2 refl),
        Unused-same cfn_max_flgid (flg_ids (init_flgcbs cfn_max_flgid k1)) (flg_ids (init_kernel k))
            flg_queue (init_flgcbs cfn_max_flgid k1).free_flgcb (init_kernel k).free_flgcb r r
            (fm.free ∙ fs.free) (λ s. fm.ids s ∙ fs.ids s) (λ q e. e)
            (init_flgcbs-Unused r nil cfn_max_flgid k1 refl),
        init_mbxcbs-Unused r nil cfn_max_mbxid k4 refl,
      )

  init_kernel-Booting : has_current k ≡ false → k.msip ≡ false → Booting (init_kernel k)
  init_kernel-Booting idle quiet = record {
    inv = init_kernel-Inv k b;
    idle = idle-same k (init_kernel k) init_kernel-Still.current idle;
    quiet = init_kernel-Still.msip ∙ quiet;
    objects = init_kernel-Objects;
  }

-- No call before the first task asks for a switch.
record Quieted {A : Type 0} (k : Kernel) (r : A × Kernel) : Type 0 where
  msip_kept : r.1.msip ≡ k.msip

record SomeRuns (k : Kernel) : Type 0 where
  task : ℕ
  runs : IsRunnable k.tcbs k.heads k.waits task

module _ (k : Kernel) where
  allocate_tcb-Quieted : (p : TCtsk) (stack_end : ℕ) → Quieted k (allocate_tcb p stack_end (di k))
  unfolding allocate_tcb new_task reset_tcb
  allocate_tcb-Quieted p stack_end = elim (Option-cases (first_entry k.heads free_tcb)) [
    | inl e ↦ rw (e, allocate_tcb) (record { msip_kept = refl })
    | inr (i, e) ↦ rw (e, allocate_tcb) (record { msip_kept = refl })
  ]

  tk_cre_tsk-Quieted : (p : Option TCtsk) → Quieted k (tk_cre_tsk p k)
  tk_cre_tsk-Quieted p =
      tk_cre_tsk_cases (Quieted k) p k (λ e. record { msip_kept = refl })
        (λ q _ _. record {
          msip_kept = (allocate_tcb-Quieted q (q.bufptr + pos_part q.stksz)).msip_kept;
        })

  tk_sta_tsk-Quieted :
      has_current k ≡ false → (tskid stacd : ℤ) → Quieted k (tk_sta_tsk tskid stacd k)
  unfolding make_started
  tk_sta_tsk-Quieted idle tskid stacd =
      tk_sta_tsk_cases (Quieted k) tskid stacd k (record { msip_kept = refl })
        (λ e _. record { msip_kept = refl }) (λ _ _ c. absurd (cc))
        (λ _ _ _. record { msip_kept = refl })

  tk_cre_tsk-Booting : (p : Option TCtsk) → Booting k → Booting (tk_cre_tsk p k).1
  tk_cre_tsk-Booting p b = record {
    inv = (tk_cre_tsk-Inv p k b.inv).kept;
    idle = idle-same k (tk_cre_tsk p k).1 (tk_cre_tsk-Stays k p).current_kept b.idle;
    quiet = (tk_cre_tsk-Quieted p).msip_kept ∙ b.quiet;
    objects = (tk_cre_tsk-Holds k b.objects p).objects;
  }

  tk_sta_tsk-Booting : (tskid stacd : ℤ) → Booting k → Booting (tk_sta_tsk tskid stacd k).1
  tk_sta_tsk-Booting tskid stacd b = record {
    inv = (tk_sta_tsk-Inv tskid stacd k b.inv).kept;
    idle =
        idle-same k (tk_sta_tsk tskid stacd k).1 (tk_sta_tsk-Stays k tskid stacd).current_kept
          b.idle;
    quiet = (tk_sta_tsk-Quieted b.idle tskid stacd).msip_kept ∙ b.quiet;
    objects = (tk_sta_tsk-Holds k b.objects tskid stacd).objects;
  }

  -- A task that has been started can run.
  started_kernel :
      (tskid stacd : ℤ)
      → has_current k ≡ false
      → is_ok (tk_sta_tsk tskid stacd k).0 ≡ true
      → (pos_part tskid - 1 < cfn_max_tskid)
        × ((tk_sta_tsk tskid stacd k).1 ≡ ei k.mie (make_started (pos_part tskid - 1) stacd (di k)))
  unfolding is_ok
  started_kernel tskid stacd idle =
      tk_sta_tsk_cases
        (λ r.
          is_ok r.0 ≡ true
          → (pos_part tskid - 1 < cfn_max_tskid)
            × (r.1 ≡ ei k.mie (make_started (pos_part tskid - 1) stacd (di k))))
        tskid stacd k (λ h. absurd (cc)) (λ e x h. absurd (cc)) (λ _ _ c h. absurd (cc))
        (λ lt _ _ h. (lt, refl))

  tk_sta_tsk-SomeRuns :
      (tskid stacd : ℤ)
      → Booting k
      → is_ok (tk_sta_tsk tskid stacd k).0 ≡ true
      → SomeRuns (tk_sta_tsk tskid stacd k).1
  unfolding make_started
  tk_sta_tsk-SomeRuns tskid stacd b h =
      let i = pos_part tskid - 1 in
      let (lt, e) = started_kernel tskid stacd b.idle h in
      let w = subst Inv e (tk_sta_tsk-Inv tskid stacd k b.inv).kept in
      subst SomeRuns (sym e) (record {
        task = i;
        runs = record { in_table = lt; ready = ground (arith, w.placed i lt) };
      })

-- The end of the start.
module _ (k : Kernel) (b : Booting k) where
  launch-Sys : (i : ℕ) → IsRunnable k.tcbs k.heads k.waits i → Sys (booted (launch k))
  unfolding launch start_timer get_highest_priority_task
  launch-Sys i r = elim (Option-cases (get_highest_priority_task k)) [
    | inl e ↦ absurd (subst (IsHighest k) e (get_highest_priority_task-IsHighest k b.inv) i r)
    | inr (n, e) ↦
        rw (e, booted)
          (record {
            inv = run-Inv n k b.inv (chosen-IsHighest n k b.inv e).0;
            decided = record { chosen = e ∙ rw b.quiet refl };
            running = refl;
            objects = b.objects;
          })
  ]

-- Booted as far as the first task, if the start has not stopped.
abbrev pub is_launched : Boot → Bool
is_launched (launched sp k) = true
is_launched (fatal_startup stage error k) = false

-- One of the two blocks of the start.
create_and_start-Sys :
    (create start : Stage) (p : TCtsk) (a0 : ℤ) (onward : Kernel → Boot) (r : Created × Kernel)
    → Booting r.1
    → ((k : Kernel)
        → Booting k
        → SomeRuns k
        → is_launched (onward k) ≡ true
        → Sys (booted (onward k)))
    → is_launched (create_and_start create start p a0 onward r) ≡ true
    → Sys (booted (create_and_start create start p a0 onward r))
unfolding create_and_start
create_and_start-Sys create start p a0 onward (refused e, k) b h = λ l. absurd (cc)
create_and_start-Sys create start p a0 onward (made id, k) b h =
    let started = tk_sta_tsk (pos id) a0 k in
    elim (Bool-cases (is_ok started.0)) [
      | inl e ↦
          rw e (
            h started.1 (tk_sta_tsk-Booting k (pos id) a0 b)
              (tk_sta_tsk-SomeRuns k (pos id) a0 b e))
      | inr e ↦ rw e (λ l. absurd (cc))
    ]

-- Where no task is the current one and no software interrupt is pending before the start, on
-- memory of which nothing else is known but what lies outside the tables: if tkmc_start launches a
-- task, then the kernel that it launches is a first state as Reach-Sys asks for, with consistent
-- tables, the choice of the next task, a current task and unused objects on the free lists.
pub start_kernel-Sys :
    (ini idl : TCtsk) (a0 : ℤ) (k : Kernel)
    → IsBlank k
    → has_current k ≡ false
    → k.msip ≡ false
    → is_launched (start_kernel ini idl a0 k) ≡ true
    → Sys (booted (start_kernel ini idl a0 k))
unfolding start_kernel
start_kernel-Sys ini idl a0 k b idle quiet =
    create_and_start-Sys initial_create initial_start ini a0 _
      (tk_cre_tsk (some ini) (init_kernel k))
      (tk_cre_tsk-Booting (init_kernel k) (some ini) (init_kernel-Booting k b idle quiet))
      (λ k' b' _.
        create_and_start-Sys idle_create idle_start idl a0 launch (tk_cre_tsk (some idl) k')
          (tk_cre_tsk-Booting k' (some idl) b') (λ r b'' s _. launch-Sys r b'' s.task s.runs))
