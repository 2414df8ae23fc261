-- ===== src/Common/Bits.antt =====
-- `bit_and` at variables: its laws, by way of a conjunction of the lowest `n` digits.
use Prim.Native.Nat.{
  ℕ, zero, suc, ◌+◌, ◌-◌, ◌*◌, ◌/◌, ◌%◌, ◌≤◌, min, bit_and, digits, bit_and-bitwise,
}
use mathlib.Core.Path.{◌≡◌, refl, ◌∙◌, ap, sym}
use native.Mathlib.Omega.{arith}

-- The lowest `n` digits of the conjunction.
pub and_below : (n x y : ℕ) → ℕ
and_below zero x y = 0
and_below (suc n) x y = 2 * and_below n (x / 2) (y / 2) + min (x % 2) (y % 2)

pub and_below-suc :
    (n x y : ℕ) → and_below (suc n) x y ≡ 2 * and_below n (x / 2) (y / 2) + min (x % 2) (y % 2)
unfolding and_below
and_below-suc n x y = refl

and_below_comm : (n x y : ℕ) → and_below n x y ≡ and_below n y x
unfolding and_below
and_below_comm zero x y = refl
and_below_comm (suc n) x y = omega (arith, and_below_comm n (x / 2) (y / 2))

and_below-half : (n x y : ℕ) → and_below (suc n) x y / 2 ≡ and_below n (x / 2) (y / 2)
unfolding and_below
and_below-half n x y = omega arith

and_below_assoc : (n x y z : ℕ) → and_below n (and_below n x y) z ≡ and_below n x (and_below n y z)
unfolding and_below
and_below_assoc zero x y z = refl
and_below_assoc (suc n) x y z =
    let left = ap (λ (h : ℕ). and_below n h (z / 2)) (and_below-half n x y) in
    let right = ap (and_below n (x / 2)) (and_below-half n y z) in
    omega (arith, left, right, and_below_assoc n (x / 2) (y / 2) (z / 2))

and_below_idem : (n x : ℕ) → x ≤ n → and_below n x x ≡ x
unfolding and_below
and_below_idem zero x h = omega arith
and_below_idem (suc n) x h = omega (arith, and_below_idem n (x / 2) (omega arith))

-- One digit more than the number has adds nothing.
and_below-more : (n x y : ℕ) → x ≤ n → and_below (suc n) x y ≡ and_below n x y
unfolding and_below
and_below-more zero x y h = omega arith
and_below-more (suc n) x y h = omega (arith, and_below-more n (x / 2) (y / 2) (omega arith))

and_below-many : (d n x y : ℕ) → x ≤ n → and_below (n + d) x y ≡ and_below n x y
and_below-many zero n x y h = ap (λ (m : ℕ). and_below m x y) (omega arith)
and_below-many (suc d) n x y h =
    ap (λ (m : ℕ). and_below m x y) (omega arith)
    ∙ and_below-more (n + d) x y (omega arith)
    ∙ and_below-many d n x y h

and_below-zero : (n y : ℕ) → and_below n 0 y ≡ 0
unfolding and_below
and_below-zero zero y = refl
and_below-zero (suc n) y = omega (arith, and_below-zero n (y / 2))

digits-and_below : (n x y : ℕ) → digits (λ h. zero) min n x y ≡ and_below n x y
unfolding and_below
digits-and_below zero zero y = refl
digits-and_below zero (suc x) y = refl
digits-and_below (suc n) zero y = omega (arith, and_below-zero n (y / 2))
digits-and_below (suc n) (suc x) y = omega (arith, digits-and_below n (suc x / 2) (y / 2))

-- Enough digits give `bit_and`.
pub bit_and-and_below : (n x y : ℕ) → x ≤ n → bit_and x y ≡ and_below n x y
bit_and-and_below n x y h =
    bit_and-bitwise x y
    ∙ digits-and_below x x y
    ∙ sym (and_below-many (n - x) x x y (omega arith))
    ∙ ap (λ (m : ℕ). and_below m x y) (omega arith)

pub bit_and-zero : (y : ℕ) → bit_and 0 y ≡ 0
bit_and-zero y = bit_and-and_below 0 0 y (omega arith) ∙ and_below-zero 0 y

pub bit_and_comm : (x y : ℕ) → bit_and x y ≡ bit_and y x
bit_and_comm x y =
    bit_and-and_below (x + y) x y (omega arith)
    ∙ and_below_comm (x + y) x y
    ∙ sym (bit_and-and_below (x + y) y x (omega arith))

pub bit_and_idem : (x : ℕ) → bit_and x x ≡ x
bit_and_idem x = bit_and-and_below x x x (omega arith) ∙ and_below_idem x x (omega arith)

pub bit_and_assoc : (x y z : ℕ) → bit_and (bit_and x y) z ≡ bit_and x (bit_and y z)
bit_and_assoc x y z =
    let n = x + y + bit_and x y in
    bit_and-and_below n (bit_and x y) z (omega arith)
    ∙ ap (λ (h : ℕ). and_below n h z) (bit_and-and_below n x y (omega arith))
    ∙ and_below_assoc n x y z
    ∙ ap (and_below n x) (sym (bit_and-and_below n y z (omega arith)))
    ∙ sym (bit_and-and_below n x (bit_and y z) (omega arith))

-- The mask of the lowest two bits.
pub bit_and-3 : (x : ℕ) → bit_and x 3 ≡ x % 4
unfolding and_below
bit_and-3 x = bit_and_comm x 3 ∙ bit_and-and_below 3 3 x (omega arith) ∙ omega arith

-- The mask of the lowest bit.
pub bit_and-1 : (x : ℕ) → bit_and x 1 ≡ x % 2
unfolding and_below
bit_and-1 x = bit_and_comm x 1 ∙ bit_and-and_below 1 1 x (omega arith) ∙ omega arith
