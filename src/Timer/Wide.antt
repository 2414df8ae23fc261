-- ===== src/Timer/Wide.antt =====
-- kernel/timer.c: the 64-bit registers of the machine timer, read and written by words of 32 bits.
-- `clock` gives the value of mtime at each load, one after the other. A register is a number below
-- 2 ^ 64, so that its high word is the quotient by 2 ^ 32.
use tsukumo_core.Common.{
  ◌==◌, if◌then◌else◌, Bool-cases, ℕ, zero, suc, ◌+◌, ◌*◌, ◌/◌, ◌%◌, ◌^◌, ◌≤◌, ◌<◌, ◌≡◌, sym, ap,
  ◌∙◌, subst, ◌≢◌, ◌⊎◌, inl, inr, true, Option, none, some, arith,
}

-- read_mtime, from the load `n` on. `rounds` bounds the loop.
unfoldable pub read_mtime : ℕ → (ℕ → ℕ) → ℕ → Option ℕ
read_mtime zero clock n = none
read_mtime (suc rounds) clock n =
    let high = clock n / 2 ^ 32 in
    let low = clock (n + 1) % 2 ^ 32 in
    let next_high = clock (n + 2) / 2 ^ 32 in
    let rest = read_mtime rounds clock (n + 3) in
    if high == next_high then some (high * 2 ^ 32 + low) else rest

-- out_w to the low and to the high word of a register.
abbrev pub out_low : ℕ → ℕ → ℕ
out_low w c = c / 2 ^ 32 * 2 ^ 32 + w

abbrev pub out_high : ℕ → ℕ → ℕ
out_high w c = w * 2 ^ 32 + c % 2 ^ 32

-- write_mtimecmp: the compare register after each of the three stores.
unfoldable pub write_mtimecmp : ℕ → ℕ → ℕ × ℕ × ℕ
write_mtimecmp value c =
    let raised = out_low 0xffffffff c in
    let moved = out_high (value / 2 ^ 32) raised in (raised, moved, out_low (value % 2 ^ 32) moved)

-- Loads of a clock that does not run backwards, between two of the same high word.
between :
    (a b c : ℕ) → a ≤ b → b ≤ c → a / 2 ^ 32 ≡ c / 2 ^ 32 → a / 2 ^ 32 * 2 ^ 32 + b % 2 ^ 32 ≡ b
between a b c le le' e = omega arith

-- At most one of two rounds in a row meets a carry.
one_carry :
    (a c d f : ℕ)
    → a ≤ c
    → c ≤ d
    → d ≤ f
    → f < a + 2 ^ 32
    → a / 2 ^ 32 ≢ c / 2 ^ 32
    → d / 2 ^ 32 ≡ f / 2 ^ 32
one_carry a c d f le le' le'' lt ne = omega arith

module _ (clock : ℕ → ℕ) (forward : (n : ℕ) → clock n ≤ clock (n + 1)) where
  next : (m p : ℕ) → p ≡ m + 1 → clock m ≤ clock p
  next m p e = subst (λ q. clock m ≤ clock q) (sym e) (forward m)

  -- For a clock that does not run backwards and goes on by less than 2^32 in six loads, read_mtime
  -- ends in its first or its second round, and gives the value that the clock had when the low
  -- word was loaded.
  pub read_mtime-IsRead :
      (rounds n : ℕ)
      → clock (n + 5) < clock n + 2 ^ 32
      → (read_mtime (suc (suc rounds)) clock n ≡ some (clock (n + 1)))
        ⊎ (read_mtime (suc (suc rounds)) clock n ≡ some (clock (n + 4)))
  unfolding read_mtime
  read_mtime-IsRead rounds n lt =
      let f0 : clock n ≤ clock (n + 1) = forward n in
      let f1 : clock (n + 1) ≤ clock (n + 2) = next (n + 1) (n + 2) (omega arith) in
      let f2 : clock (n + 2) ≤ clock (n + 3) = next (n + 2) (n + 3) (omega arith) in
      let f3 : clock (n + 3) ≤ clock (n + 3 + 1) = next (n + 3) (n + 3 + 1) (omega arith) in
      let f4 : clock (n + 3 + 1) ≤ clock (n + 3 + 2) = next (n + 3 + 1) (n + 3 + 2) (omega arith) in
      let lt' : clock (n + 3 + 2) < clock n + 2 ^ 32 =
        subst (λ q. clock q < clock n + 2 ^ 32) (omega arith) lt in
      elim (Bool-cases (clock n / 2 ^ 32 == clock (n + 2) / 2 ^ 32)) [
        | inl e ↦ inl (
            rw e (
              ap some
                (between (clock n) (clock (n + 1)) (clock (n + 2)) f0 f1 (ground (arith, e)))))
        | inr e ↦
            let s =
              one_carry (clock n) (clock (n + 2)) (clock (n + 3)) (clock (n + 3 + 2))
                (omega (arith, f0, f1)) f2 (omega (arith, f3, f4)) lt' (ground (arith, e)) in
            let t : (clock (n + 3) / 2 ^ 32 == clock (n + 3 + 2) / 2 ^ 32) ≡ true =
              ground (arith, s) in
            inr (
              rw e (
                rw t (
                  ap some (
                    between (clock (n + 3)) (clock (n + 3 + 1)) (clock (n + 3 + 2)) f3 f4 s
                    ∙ ap clock (omega arith)))))
      ]

-- While write_mtimecmp replaces a compare value, the register is never below the old value after
-- the first store and never below the new one after the second, and it is the new value after the
-- third.
pub write_mtimecmp-IsLate :
    (value c : ℕ)
    → (c ≤ (write_mtimecmp value c).0)
      × (value ≤ (write_mtimecmp value c).1)
      × ((write_mtimecmp value c).2 ≡ value)
unfolding write_mtimecmp
write_mtimecmp-IsLate value c = (omega arith, omega arith, omega arith)
