-- ===== src/Invariant/Retask.antt =====
-- The invariant, and a change of one task and its links.
use tsukumo_core.Common.{
  ◌==◌, Bool-cases, ==_refl, update, ℕ, ◌+◌, ◌≤◌, ◌<◌, ◌≡◌, ◌≢◌, inl, inr, arith,
}
use tsukumo_core.Invariant.Defs.{Placed, Inv}
use tsukumo_core.Kernel.{cfn_max_tskid, tk_wakeup_maxcnt, Tcb, Kernel, set_tcb}
use tsukumo_core.Rings.{Rings}
use tsukumo_core.Rings.Linked.{IsLinked}

-- The links of every task but `i` are as they were.
abbrev pub SameBut : ℕ → Rings → Rings → Type 0
SameBut i r r' = (j : ℕ) → i ≢ j → r'.link j ≡ r.link j

-- What a call has to say of the one task `i` that it moves.
pub record Moved (i : ℕ) (k : Kernel) (t : Tcb) (h w : Rings) : Type 0 where
  pub in_table : i < cfn_max_tskid
  pub heads_linked : IsLinked h
  pub waits_linked : IsLinked w
  pub same_heads : SameBut i k.heads h
  pub same_waits : SameBut i k.waits w
  pub place : Placed t.tskstat t (h.link i) (w.link i)
  pub name : t.tskid ≡ i + 1
  pub wakeup : t.wupcnt ≤ tk_wakeup_maxcnt

module _ (i : ℕ) (k : Kernel) (t : Tcb) (h w : Rings) (v : Inv k) (m : Moved i k t h w) where
  retask-Placed :
      (j : ℕ)
      → j < cfn_max_tskid
      → Placed (update k.tcbs i t j).tskstat (update k.tcbs i t j) (h.link j) (w.link j)
  retask-Placed j lj = elim (Bool-cases (i == j)) [
    | inl e ↦ let e' : i ≡ j = ground arith in rw (← e') (rw (==_refl i) m.place)
    | inr e ↦ rw (e, m.same_heads j (ground arith), m.same_waits j (ground arith)) (v.placed j lj)
  ]

  pub retask-Inv : Inv (record k { tcbs = update k.tcbs i t; heads = h; waits = w })
  retask-Inv = record {
    heads_linked = m.heads_linked;
    waits_linked = m.waits_linked;
    placed = retask-Placed;
    named = λ j lj. ground (arith, m.name, v.named j lj);
    stray = λ j lj. ground (arith, m.in_table, m.same_heads j, m.same_waits j, v.stray j lj);
    wakeups = λ j. ground (arith, m.wakeup, v.wakeups j);
    units = v.units;
  }

-- A change of one TCB that leaves its links, its state and what the state asks for.
pub record Kept (t t' : Tcb) : Type 0 where
  pub tskid : t'.tskid ≡ t.tskid
  pub itskpri : t'.itskpri ≡ t.itskpri
  pub tskstat : t'.tskstat ≡ t.tskstat
  pub tskwait : t'.tskwait ≡ t.tskwait
  pub winfo : t'.winfo ≡ t.winfo
  pub wakeup : t'.wupcnt ≤ tk_wakeup_maxcnt

pub edit-Inv : (i : ℕ) (k : Kernel) (t : Tcb) → Inv k → Kept (k.tcbs i) t → Inv (set_tcb i t k)
edit-Inv i k t v e = record {
  heads_linked = v.heads_linked;
  waits_linked = v.waits_linked;
  placed = λ j lj. ground (arith, v.placed j lj, e);
  named = λ j lj. ground (arith, v.named j lj, e);
  stray = v.stray;
  wakeups = λ j. ground (arith, v.wakeups j, e);
  units = v.units;
}
