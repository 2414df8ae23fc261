-- ===== src/System/Decided/Interrupts.antt =====
-- The choice of the next task in the timer interrupt and in the switch.
use tsukumo_core.Common.{
  Option-cases, length, ℕ, suc, ◌≡◌, refl, ◌∙◌, inl, inr, true, false, some, arith,
}
use tsukumo_core.Context.{has_current}
use tsukumo_core.Kernel.{cfn_max_pri, timer_queue, Kernel}
use tsukumo_core.Start.{schedule, software_interrupt}
use tsukumo_core.System.{has_next}
use tsukumo_core.System.Decided.{Decided, reschedule-Decided, Quiet-Decided}
use tsukumo_core.System.Frame.{expire_loop-Frame, expire_loop-idle}
use tsukumo_core.Task.Queue.{first_ready}
use tsukumo_core.Timer.{timer_handler}
use tsukumo_core.Timer.Cases.{compared, elapsed, expired, timer_handler_cases}

module _ (k : Kernel) (d : Decided k) where
  pub timer_handler-Decided : Decided (timer_handler k)
  timer_handler-Decided =
      let fuel = suc (length (k.heads.ring timer_queue)) in
      let f = expire_loop-Frame fuel (elapsed k) false (compared k) in
      timer_handler_cases Decided k (λ _. d) (λ _ _. reschedule-Decided (expired k).1)
        (λ _ n.
          Quiet-Decided k (expired k).1
            (record {
              frame = record {
                current_same = f.current_same;
                next_same = f.next_same;
                msip_same = f.msip_same;
              };
              heads_same = expire_loop-idle fuel (elapsed k) (compared k) n;
            })
            d)

  -- The switch that is asked for: the next task is the current one afterwards.
  pub software_interrupt-Decided :
      (sp : ℕ)
      → k.msip ≡ true
      → has_next k ≡ true
      → has_current k ≡ true
      → Decided (software_interrupt sp k) × (has_current (software_interrupt sp k) ≡ true)
  unfolding software_interrupt schedule
  software_interrupt-Decided sp m n h = elim (Option-cases k.current) [
    | inl e ↦ absurd (ground (arith, h, e))
    | inr (c, e) ↦ elim (Option-cases k.next) [
      | inl f ↦ absurd (ground (arith, n, m, f))
      | inr (a, f) ↦
          let g : first_ready cfn_max_pri 0 k.heads ≡ some a = d.chosen ∙ rw m f in
          rw (e, f) (record { chosen = g }, refl)
    ]
  ]
