-- ===== src/System/Decided/Creations.antt =====
-- The choice of the next task in the creations.
use tsukumo_core.Common.{
  Option-cases, if_cases, pos_part, first, ℕ, ◌+◌, ◌<◌, ◌≡◌, ◌∙◌, inl, inr, not, Option, none, some,
  List, [], ◌∷◌, arith,
}
use tsukumo_core.Context.{di}
use tsukumo_core.EventFlag.{TCflg, allocate_flgcb, tk_cre_flg}
use tsukumo_core.Invariant.Defs.{Inv}
use tsukumo_core.Invariant.Wait.{Queued-heads, first-Queued}
use tsukumo_core.Kernel.{cfn_max_pri, Created, free_tcb, Kernel}
use tsukumo_core.Kernel.Codes.{not_32, has_bits, is_ok}
use tsukumo_core.Mailbox.{TCmbx, allocate_mbxcb, tk_cre_mbx}
use tsukumo_core.Rings.{on, Rings, init_link, first_entry, list_del}
use tsukumo_core.Semaphore.{TCsem, check_csem, allocate_semcb, tk_cre_sem}
use tsukumo_core.System.Decided.{Decided, ei-Decided, first_ready-same, Decides}
use tsukumo_core.Task.{TCtsk, reset_tcb, new_task, allocate_tcb, tk_cre_tsk}
use tsukumo_core.Task.Cases.{tk_cre_tsk_cases}

first_entry-first :
    (q : ℕ) (r : Rings) (i : ℕ) → first_entry r q ≡ some i → first (r.ring q) ≡ some i
unfolding first_entry
first_entry-first q r i e = e

module _ (k : Kernel) (d : Decided k) where
  -- A new task leaves the list of free TCBs, and no ready queue.
  new_task-ring :
      (i q : ℕ)
      → k.heads.link i ≡ on free_tcb
      → q < cfn_max_pri
      → (init_link i (init_link i (list_del i k.heads))).ring q ≡ k.heads.ring q
  unfolding init_link list_del
  new_task-ring i q e h = ground (arith, h, e)

  allocate_tcb-Decides :
      (p : TCtsk) (stack_end : ℕ) → Inv k → Decides (allocate_tcb p stack_end (di k))
  unfolding allocate_tcb new_task reset_tcb
  allocate_tcb-Decides p stack_end v = elim (Option-cases (first_entry k.heads free_tcb)) [
    | inl e ↦ rw (e, allocate_tcb) (record { after_it = record { chosen = d.chosen } })
    | inr (i, e) ↦
        let (here, link) =
          first-Queued i free_tcb k.heads (k.heads.ring free_tcb) (Queued-heads free_tcb k v)
            (first_entry-first free_tcb k.heads i e) in
        let h =
          first_ready-same cfn_max_pri 0 k.heads (init_link i (init_link i (list_del i k.heads)))
            (λ q lo hi. new_task-ring i q link (omega arith)) in
        rw (e, allocate_tcb) (record { after_it = record { chosen = h ∙ d.chosen } })
  ]

  pub tk_cre_tsk-Decides : (p : Option TCtsk) → Inv k → Decides (tk_cre_tsk p k)
  tk_cre_tsk-Decides p v =
      tk_cre_tsk_cases Decides p k (λ e. record { after_it = d })
        (λ q _ _. record {
          after_it =
              ei-Decided k.mie _ (allocate_tcb-Decides q (q.bufptr + pos_part q.stksz) v).after_it;
        })

  tk_cre_sem_at : (p : TCsem) (l : List ℕ) → Decided (allocate_semcb p l (di k)).1
  unfolding allocate_semcb
  tk_cre_sem_at p [] = record { chosen = d.chosen }
  tk_cre_sem_at p (s ∷ l) = record { chosen = d.chosen }

  pub tk_cre_sem-Decides : (p : Option TCsem) → Decides (tk_cre_sem p k)
  unfolding tk_cre_sem
  tk_cre_sem-Decides none = record { after_it = d }
  tk_cre_sem-Decides (some p) =
      if_cases {A = Created × Kernel} Decides (not (is_ok (check_csem p)))
        (λ _. record { after_it = d })
        (λ _. record { after_it = ei-Decided k.mie _ (tk_cre_sem_at p k.free_semcb) })

  tk_cre_flg_at : (p : TCflg) (l : List ℕ) → Decided (allocate_flgcb p l (di k)).1
  unfolding allocate_flgcb
  tk_cre_flg_at p [] = record { chosen = d.chosen }
  tk_cre_flg_at p (s ∷ l) = record { chosen = d.chosen }

  pub tk_cre_flg-Decides : (p : Option TCflg) → Decides (tk_cre_flg p k)
  unfolding tk_cre_flg
  tk_cre_flg-Decides none = record { after_it = d }
  tk_cre_flg-Decides (some p) =
      if_cases {A = Created × Kernel} Decides (has_bits p.flgatr (not_32 0x09))
        (λ _. record { after_it = d })
        (λ _. record { after_it = ei-Decided k.mie _ (tk_cre_flg_at p k.free_flgcb) })

  tk_cre_mbx_at : (p : TCmbx) (l : List ℕ) → Decided (allocate_mbxcb p l (di k)).1
  unfolding allocate_mbxcb
  tk_cre_mbx_at p [] = record { chosen = d.chosen }
  tk_cre_mbx_at p (s ∷ l) = record { chosen = d.chosen }

  pub tk_cre_mbx-Decides : (p : Option TCmbx) → Decides (tk_cre_mbx p k)
  unfolding tk_cre_mbx
  tk_cre_mbx-Decides none = record { after_it = d }
  tk_cre_mbx-Decides (some p) =
      if_cases {A = Created × Kernel} Decides (has_bits p.mbxatr (not_32 0x03))
        (λ _. record { after_it = d })
        (λ _. record { after_it = ei-Decided k.mie _ (tk_cre_mbx_at p k.free_mbxcb) })
