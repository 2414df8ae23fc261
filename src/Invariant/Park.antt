-- ===== src/Invariant/Park.antt =====
-- The invariant, and the running task that gives up the processor to wait.
use tsukumo_core.Common.{Bool-cases, ==_refl, ℤ, pos_part, ltb_ℤ, update-update, ℕ, refl, inl, inr}
use tsukumo_core.Invariant.Defs.{Awaits, Inv}
use tsukumo_core.Invariant.Retask.{SameBut}
use tsukumo_core.Invariant.Switch.{IsRunnable, IsParked-alone, IsParked-timer, park-Inv}
use tsukumo_core.Kernel.{TaskWait, WaitInfo, Kernel, set_waits}
use tsukumo_core.Kernel.Codes.{tmo_pol}
use tsukumo_core.Rings.{Rings}
use tsukumo_core.Rings.Linked.{IsLinked}
use tsukumo_core.Semaphore.{begin_wait, set_winfo}
use tsukumo_core.Task.{switch_away}
use tsukumo_core.Timer.{schedule_timer, wait_forever}
use tsukumo_core.Timer.Clock.{ms_to_ticks}

-- A wait of the running task `i` for something with the wait information `w`.
module _ (i : ℕ) (k : Kernel) (v : Inv k) (r : IsRunnable k.tcbs k.heads k.waits i)
    (tskwait : TaskWait) (winfo : WaitInfo) (w : Rings) (linked : IsLinked w)
    (same : SameBut i k.waits w) (awaits : Awaits tskwait winfo (w.link i)) where
  pub schedule_timer-Inv :
      (ticks : ℕ) → Inv (schedule_timer i ticks tskwait (set_waits w (set_winfo i winfo k)))
  unfolding schedule_timer switch_away
  schedule_timer-Inv ticks =
      rw (update-update k.tcbs i, ==_refl i)
        (park-Inv i k _ _ w v r (IsParked-timer i k.heads v.heads_linked) linked same awaits refl
          (refl, refl, refl))

  pub wait_forever-Inv : Inv (wait_forever i tskwait (set_waits w (set_winfo i winfo k)))
  unfolding wait_forever switch_away
  wait_forever-Inv =
      rw (update-update k.tcbs i, ==_refl i)
        (park-Inv i k _ _ w v r (IsParked-alone i k.heads v.heads_linked) linked same awaits refl
          (refl, refl, refl))

  pub begin_wait-Inv :
      (tmout : ℤ) → Inv (begin_wait tmout tskwait i (set_waits w (set_winfo i winfo k)))
  unfolding begin_wait
  begin_wait-Inv tmout = elim (Bool-cases (ltb_ℤ tmo_pol tmout)) [
    | inl e ↦ rw e (schedule_timer-Inv (ms_to_ticks (pos_part tmout)))
    | inr e ↦ rw e wait_forever-Inv
  ]
