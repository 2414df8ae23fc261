-- ===== src/EventFlag/Release.antt =====
-- The walk of `tk_set_flg` of kernel/event_flag.c, and who waits after it.
use tsukumo_core.Common.{
  ◌==◌, Bool-cases, if_cases, ℤ, pos_part, is_empty, count, count-nil, count-cons, bit_and-zero,
  bit_and_assoc, bit_and_idem, bit_and_comm, ℕ, ◌-◌, ◌<◌, bit_and, bit_or, ◌≡◌, refl, sym, ap, ◌∙◌,
  ◌≢◌, inl, inr, true, false, not, List, [], ◌∷◌, arith,
}
use tsukumo_core.Context.{di}
use tsukumo_core.EventFlag.{
  twf_orw, twf_clr, twf_bitclr, check_ptn, clear_ptn, set_flgptn, wanted_ptn, wanted_mode,
  grant_ptn, set_loop, set_ptn, tk_set_flg,
}
use tsukumo_core.EventFlag.Cases.{tk_set_flg_cases, set_round_cases}
use tsukumo_core.Invariant.Defs.{Inv}
use tsukumo_core.Invariant.Flags.{Queued-grant_ptn}
use tsukumo_core.Invariant.Wait.{Queued, Queued-ring}
use tsukumo_core.Kernel.{e_ok, flg_queue, Kernel}
use tsukumo_core.Kernel.Codes.{not_32, has_bits, is_tmout, is_rlwai, same_task}
use tsukumo_core.Rings.{on, init_link, link_empty, list_del}
use tsukumo_core.Task.Queue.{get_highest_priority_task, reschedule}
use tsukumo_core.Task.Wait.{end_wait, complete_wait, complete_wait_ok}

-- A condition that does not hold of a pattern holds of no part of the pattern.
check_ptn-part : (x y w m : ℕ) → bit_and x y ≡ x → check_ptn y w m ≡ false → check_ptn x w m ≡ false
unfolding check_ptn
check_ptn-part x y w m part fails = elim (Bool-cases (has_bits m twf_orw)) [
  | inl e ↦ rw e (
      let none_of_y : bit_and y w ≡ 0 = ground arith in
      let none_of_x : bit_and x w ≡ 0 =
        ap (λ (p : ℕ). bit_and p w) (sym part)
        ∙ bit_and_assoc x y w
        ∙ ap (bit_and x) none_of_y
        ∙ bit_and_comm x 0
        ∙ bit_and-zero x in
      ground arith)
  | inr e ↦ rw e (elim (Bool-cases (bit_and x w == w)) [
    | inl all ↦
        let of_x : bit_and x w ≡ w = ground arith in
        let of_y : bit_and y w ≡ w =
          ap (bit_and y) (sym of_x)
          ∙ sym (bit_and_assoc y x w)
          ∙ ap (λ (p : ℕ). bit_and p w) (bit_and_comm y x ∙ part)
          ∙ of_x in
        absurd (ground arith)
    | inr some_missing ↦ some_missing
  ])
]

-- What is left of a pattern is a part of it.
clear_ptn-part : (p w m : ℕ) → bit_and (clear_ptn p w m) p ≡ clear_ptn p w m
unfolding clear_ptn
clear_ptn-part p w m =
    if_cases (λ r. bit_and r p ≡ r) (has_bits m twf_clr) (λ _. bit_and-zero p)
      (λ _.
        if_cases (λ r. bit_and r p ≡ r) (has_bits m twf_bitclr)
          (λ _.
            bit_and_comm (bit_and p (not_32 w)) p
            ∙ sym (bit_and_assoc p p (not_32 w))
            ∙ ap (λ (x : ℕ). bit_and x (not_32 w)) (bit_and_idem p))
          (λ _. bit_and_idem p))

part_trans : (x y z : ℕ) → bit_and x y ≡ x → bit_and y z ≡ y → bit_and x z ≡ x
part_trans x y z f g =
    ap (λ (p : ℕ). bit_and p z) (sym f) ∙ bit_and_assoc x y z ∙ ap (bit_and x) g ∙ f

-- A round of the walk: the waiter whose condition holds is gone, the pattern only loses bits, and
-- what the waiters want stays as it was.
record Round (s : ℕ) (k k' : Kernel) : Type 0 where
  part : bit_and (k'.flgcbs s).flgptn (k.flgcbs s).flgptn ≡ (k'.flgcbs s).flgptn
  wants :
      (j : ℕ)
      → (wanted_ptn (k'.tcbs j).winfo ≡ wanted_ptn (k.tcbs j).winfo)
        × (wanted_mode (k'.tcbs j).winfo ≡ wanted_mode (k.tcbs j).winfo)

module _ (s i : ℕ) (k : Kernel) where
  grant_ptn-Round : Round s k (grant_ptn s i k)
  unfolding grant_ptn complete_wait end_wait is_tmout is_rlwai
  grant_ptn-Round = rw complete_wait_ok (record {
    part = ground (
      arith,
      clear_ptn-part (k.flgcbs s).flgptn (wanted_ptn (k.tcbs i).winfo)
          (wanted_mode (k.tcbs i).winfo),
    );
    wants = λ j. ground arith;
  })

  grant_ptn-link : (j : ℕ) → i ≢ j → (grant_ptn s i k).waits.link j ≡ k.waits.link j
  unfolding grant_ptn end_wait link_empty list_del init_link
  grant_ptn-link j ne = rw complete_wait_ok (ground arith)

  grant_ptn-link_self : (q : ℕ) → ¬ ((grant_ptn s i k).waits.link i ≡ on q)
  unfolding grant_ptn end_wait link_empty list_del init_link
  grant_ptn-link_self q = rw complete_wait_ok (ground arith)

-- The walk as a whole is made of such rounds.
Round-refl : (s : ℕ) (k : Kernel) → Round s k k
Round-refl s k = record { part = bit_and_idem (k.flgcbs s).flgptn; wants = λ j. (refl, refl) }

Round-trans : (s : ℕ) (a b c : Kernel) → Round s a b → Round s b c → Round s a c
Round-trans s a b c f g = record {
  part = part_trans (c.flgcbs s).flgptn (b.flgcbs s).flgptn (a.flgcbs s).flgptn g.part f.part;
  wants = λ j. ((g.wants j).0 ∙ (f.wants j).0, (g.wants j).1 ∙ (f.wants j).1);
}

set_loop-Round : (s : ℕ) (l : List ℕ) (k : Kernel) → Round s k (set_loop s l k)
unfolding set_loop
set_loop-Round s [] k = Round-refl s k
set_loop-Round s (i ∷ l) k =
    set_round_cases (λ k'. Round s k (set_loop s l k')) s i k
      (λ _.
        Round-trans s k (grant_ptn s i k) (set_loop s l (grant_ptn s i k)) (grant_ptn-Round s i k)
          (set_loop-Round s l (grant_ptn s i k)))
      (λ _. set_loop-Round s l k)

set_loop-link :
    (s : ℕ) (l : List ℕ) (k : Kernel) (j : ℕ)
    → count j l ≡ 0
    → (set_loop s l k).waits.link j ≡ k.waits.link j
unfolding set_loop
set_loop-link s [] k j out = refl
set_loop-link s (i ∷ l) k j out =
    let out_tail : count j l ≡ 0 = omega (arith, count-cons j i l) in
    let ne : i ≢ j = ground (arith, count-cons j i l) in
    set_round_cases (λ k'. (set_loop s l k').waits.link j ≡ k.waits.link j) s i k
      (λ _. set_loop-link s l (grant_ptn s i k) j out_tail ∙ grant_ptn-link s i k j ne)
      (λ _. set_loop-link s l k j out_tail)

-- Task `j`, if it is still in the queue of event flag `s`, waits for what the pattern does not
-- satisfy.
abbrev pub Unmet : ℕ → Kernel → ℕ → Type 0
Unmet s k j =
    k.waits.link j ≡ on (flg_queue s)
    → check_ptn (k.flgcbs s).flgptn (wanted_ptn (k.tcbs j).winfo) (wanted_mode (k.tcbs j).winfo)
      ≡ false

-- A waiter that a round has passed over stays unmet, since the pattern only loses bits.
Unmet-Round :
    (s : ℕ) (k k' : Kernel) (j : ℕ)
    → Round s k k'
    → check_ptn (k.flgcbs s).flgptn (wanted_ptn (k.tcbs j).winfo) (wanted_mode (k.tcbs j).winfo)
      ≡ false
    → Unmet s k' j
Unmet-Round s k k' j f passed here =
    rw ((f.wants j).0, (f.wants j).1)
      (check_ptn-part (k'.flgcbs s).flgptn (k.flgcbs s).flgptn (wanted_ptn (k.tcbs j).winfo)
        (wanted_mode (k.tcbs j).winfo) f.part passed)

set_loop-Unmet :
    (s : ℕ) (l : List ℕ) (k : Kernel)
    → Queued (flg_queue s) k.waits l
    → (j : ℕ) → 0 < count j l
    → Unmet s (set_loop s l k) j
unfolding set_loop
set_loop-Unmet s [] k m j h = absurd (ground (arith, count-nil j))
set_loop-Unmet s (i ∷ l) k m j h =
    let rest = Queued-grant_ptn s i k l m.2 m.3 in
    set_round_cases (λ k'. Unmet s (set_loop s l k') j) s i k
      (λ met here. elim (Bool-cases (i == j)) [
        | inl same ↦ absurd (
            ground (
              arith,
              set_loop-link s l (grant_ptn s i k) i m.2,
              grant_ptn-link_self s i k (flg_queue s),
            ))
        | inr other ↦
            set_loop-Unmet s l (grant_ptn s i k) rest j (ground (arith, count-cons j i l)) here
      ])
      (λ unmet here. elim (Bool-cases (i == j)) [
        | inl same ↦
            Unmet-Round s k (set_loop s l k) j (set_loop-Round s l k) (ground (arith, unmet)) here
        | inr other ↦ set_loop-Unmet s l k m.3 j (ground (arith, count-cons j i l)) here
      ])

set_loop-ring-Unmet :
    (s : ℕ) (k : Kernel) → Inv k → (j : ℕ) → Unmet s (set_loop s (k.waits.ring (flg_queue s)) k) j
set_loop-ring-Unmet s k v j here =
    let l = k.waits.ring (flg_queue s) in
    let all = set_loop-Unmet s l k (Queued-ring (flg_queue s) k v) j in
    elim (Bool-cases (count j l == 0)) [
      | inl out ↦ absurd (
          ground
            (arith, here, set_loop-link s l k j (ground arith), v.waits_linked j (flg_queue s)))
      | inr queued ↦ all (ground arith) here
    ]

reschedule-Unmet : (s : ℕ) (k : Kernel) (j : ℕ) → Unmet s k j → Unmet s (reschedule k) j
unfolding reschedule
reschedule-Unmet s k j h =
    if_cases (λ r. Unmet s r j) (not (same_task (get_highest_priority_task k) k.current)) (λ _. h)
      (λ _. h)

count-is_empty : (j : ℕ) (l : List ℕ) → is_empty l ≡ true → count j l ≡ 0
count-is_empty j [] e = count-nil j
count-is_empty j (x ∷ l) e = cc

set_ptn-Unmet : (s setptn : ℕ) (k : Kernel) → Inv k → (j : ℕ) → Unmet s (set_ptn s setptn k) j
unfolding set_ptn
set_ptn-Unmet s setptn k v j =
    let k' = set_flgptn s (bit_or (k.flgcbs s).flgptn setptn) k in
    let l = k.waits.ring (flg_queue s) in
    elim (Bool-cases (is_empty l)) [
      | inl e ↦ rw e (λ here.
          absurd (ground (arith, here, v.waits_linked j (flg_queue s), count-is_empty j l e)))
      | inr e ↦ rw e (reschedule-Unmet s (set_loop s l k') j (set_loop-ring-Unmet s k' v j))
    ]

-- Where the invariant holds, a tk_set_flg that returns E_OK leaves nobody in the event flag's
-- queue whose condition the flag's pattern satisfies.
pub tk_set_flg-Unmet :
    (flgid : ℤ) (setptn : ℕ) (k : Kernel)
    → Inv k
    → (tk_set_flg flgid setptn k).0 ≡ e_ok
    → (j : ℕ) → Unmet (pos_part flgid - 1) (tk_set_flg flgid setptn k).1 j
tk_set_flg-Unmet flgid setptn k v =
    tk_set_flg_cases (λ r. r.0 ≡ e_ok → (j : ℕ) → Unmet (pos_part flgid - 1) r.1 j) flgid setptn k
      (λ ok. absurd (ground arith)) (λ ok. absurd (ground arith))
      (λ _ _. set_ptn-Unmet (pos_part flgid - 1) setptn (di k) v)
