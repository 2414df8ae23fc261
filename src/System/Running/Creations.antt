-- ===== src/System/Running/Creations.antt =====
-- The current task in the creations.
use tsukumo_core.Common.{
  Option-cases, if_cases, pos_part, ℕ, ◌+◌, ◌≡◌, refl, inl, inr, not, Option, none, some, List, [],
  ◌∷◌,
}
use tsukumo_core.Context.{di}
use tsukumo_core.EventFlag.{TCflg, allocate_flgcb, tk_cre_flg}
use tsukumo_core.Kernel.{Created, free_tcb, Kernel}
use tsukumo_core.Kernel.Codes.{not_32, has_bits, is_ok}
use tsukumo_core.Mailbox.{TCmbx, allocate_mbxcb, tk_cre_mbx}
use tsukumo_core.Rings.{first_entry}
use tsukumo_core.Semaphore.{TCsem, check_csem, allocate_semcb, tk_cre_sem}
use tsukumo_core.System.Running.{Stays}
use tsukumo_core.Task.{TCtsk, reset_tcb, new_task, allocate_tcb, tk_cre_tsk}
use tsukumo_core.Task.Cases.{tk_cre_tsk_cases}

module _ (k : Kernel) where
  allocate_tcb-Stays : (p : TCtsk) (stack_end : ℕ) → Stays k (allocate_tcb p stack_end (di k))
  unfolding allocate_tcb new_task reset_tcb
  allocate_tcb-Stays p stack_end = elim (Option-cases (first_entry k.heads free_tcb)) [
    | inl e ↦ rw (e, allocate_tcb) (record { current_kept = refl })
    | inr (i, e) ↦ rw (e, allocate_tcb) (record { current_kept = refl })
  ]

  pub tk_cre_tsk-Stays : (p : Option TCtsk) → Stays k (tk_cre_tsk p k)
  tk_cre_tsk-Stays p =
      tk_cre_tsk_cases (Stays k) p k (λ e. record { current_kept = refl })
        (λ q _ _. record {
          current_kept = (allocate_tcb-Stays q (q.bufptr + pos_part q.stksz)).current_kept;
        })

  semcb-current : (p : TCsem) (l : List ℕ) → (allocate_semcb p l (di k)).1.current ≡ k.current
  unfolding allocate_semcb
  semcb-current p [] = refl
  semcb-current p (s ∷ l) = refl

  pub tk_cre_sem-Stays : (p : Option TCsem) → Stays k (tk_cre_sem p k)
  unfolding tk_cre_sem
  tk_cre_sem-Stays none = record { current_kept = refl }
  tk_cre_sem-Stays (some p) =
      if_cases {A = Created × Kernel} (Stays k) (not (is_ok (check_csem p)))
        (λ _. record { current_kept = refl })
        (λ _. record { current_kept = semcb-current p k.free_semcb })

  flgcb-current : (p : TCflg) (l : List ℕ) → (allocate_flgcb p l (di k)).1.current ≡ k.current
  unfolding allocate_flgcb
  flgcb-current p [] = refl
  flgcb-current p (s ∷ l) = refl

  pub tk_cre_flg-Stays : (p : Option TCflg) → Stays k (tk_cre_flg p k)
  unfolding tk_cre_flg
  tk_cre_flg-Stays none = record { current_kept = refl }
  tk_cre_flg-Stays (some p) =
      if_cases {A = Created × Kernel} (Stays k) (has_bits p.flgatr (not_32 0x09))
        (λ _. record { current_kept = refl })
        (λ _. record { current_kept = flgcb-current p k.free_flgcb })

  mbxcb-current : (p : TCmbx) (l : List ℕ) → (allocate_mbxcb p l (di k)).1.current ≡ k.current
  unfolding allocate_mbxcb
  mbxcb-current p [] = refl
  mbxcb-current p (s ∷ l) = refl

  pub tk_cre_mbx-Stays : (p : Option TCmbx) → Stays k (tk_cre_mbx p k)
  unfolding tk_cre_mbx
  tk_cre_mbx-Stays none = record { current_kept = refl }
  tk_cre_mbx-Stays (some p) =
      if_cases {A = Created × Kernel} (Stays k) (has_bits p.mbxatr (not_32 0x03))
        (λ _. record { current_kept = refl })
        (λ _. record { current_kept = mbxcb-current p k.free_mbxcb })
