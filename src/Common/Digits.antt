-- ===== src/Common/Digits.antt =====
-- The binary digits of numbers, and of the results of `bit_or` and `bit_xor` at variables.
use Prim.Native.Nat.{
  ℕ, zero, suc, ◌+◌, ◌-◌, ◌*◌, ◌/◌, ◌%◌, ◌^◌, ◌≤◌, ◌<◌, min, max, differ, bit_and, bit_or, bit_xor,
  digits, bit_or-bitwise, bit_xor-bitwise,
}
use native.Mathlib.Nat.{div-div-eq-div-mul}
use mathlib.Core.Path.{◌≡◌, refl, ◌∙◌, ap, sym}
use native.Mathlib.Omega.{arith}
use tsukumo_core.Common.Bits.{and_below, and_below-suc, bit_and-and_below, bit_and-1}
use tsukumo_core.Common.Tests.{◌==◌, if◌then◌else◌}

-- The digit of weight 2 to the `k`.
pub digit : ℕ → ℕ → ℕ
digit zero x = x % 2
digit (suc k) x = digit k (x / 2)

-- The lowest `n` digits of two numbers, put together by `f`.
combine : (ℕ → ℕ → ℕ) → ℕ → ℕ → ℕ → ℕ
combine f zero x y = 0
combine f (suc n) x y = 2 * combine f n (x / 2) (y / 2) + f (x % 2) (y % 2)

combine-suc :
    (f : ℕ → ℕ → ℕ) (n x y : ℕ)
    → combine f (suc n) x y ≡ 2 * combine f n (x / 2) (y / 2) + f (x % 2) (y % 2)
unfolding combine
combine-suc f n x y = refl

module _ (f : ℕ → ℕ → ℕ) (left_zero : (y : ℕ) → f 0 y ≡ y) where
  combine-zero : (n y : ℕ) → y ≤ n → combine f n 0 y ≡ y
  unfolding combine
  combine-zero zero y h = omega arith
  combine-zero (suc n) y h = omega (arith, combine-zero n (y / 2) (omega arith), left_zero (y % 2))

  digits-combine : (n m x y : ℕ) → x ≤ n → x ≤ m → y ≤ m → digits (λ b. b) f n x y ≡ combine f m x y
  digits-combine zero m zero y h i j = sym (combine-zero m y j)
  digits-combine zero m (suc x) y h i j = absurd (omega arith)
  digits-combine (suc n) m zero y h i j = sym (combine-zero m y j)
  digits-combine (suc n) zero (suc x) y h i j = absurd (omega arith)
  digits-combine (suc n) (suc m) (suc x) y h i j = omega (
    arith,
    digits-combine n m (suc x / 2) (y / 2) (omega arith) (omega arith) (omega arith),
    combine-suc f m (suc x) y,
  )

-- A digit of the combination is that of the two digits.
digit-combine :
    (f : ℕ → ℕ → ℕ) (small : (x y : ℕ) → x < 2 → y < 2 → f x y < 2) (k n x y : ℕ)
    → k < n
    → digit k (combine f n x y) ≡ f (digit k x) (digit k y)
unfolding digit
digit-combine f small zero (suc n) x y h =
    omega (arith, combine-suc f n x y, small (x % 2) (y % 2) (omega arith) (omega arith))
digit-combine f small k zero x y h = absurd (omega arith)
digit-combine f small (suc k) (suc n) x y h =
    let s = small (x % 2) (y % 2) (omega arith) (omega arith) in
    ap (digit k) (omega (arith, combine-suc f n x y, s))
    ∙ digit-combine f small k n (x / 2) (y / 2) (omega arith)

bit_or-combine : (n x y : ℕ) → x ≤ n → y ≤ n → bit_or x y ≡ combine max n x y
bit_or-combine n x y h i =
    bit_or-bitwise x y ∙ digits-combine max (λ z. omega arith) x n x y (omega arith) h i

pub digit-bit_or : (k x y : ℕ) → digit k (bit_or x y) ≡ max (digit k x) (digit k y)
digit-bit_or k x y =
    ap (digit k) (bit_or-combine (suc (k + x + y)) x y (omega arith) (omega arith))
    ∙ digit-combine max (λ a b h i. omega arith) k (suc (k + x + y)) x y (omega arith)

differ-mod : (x y : ℕ) → x < 2 → y < 2 → differ x y ≡ (x + y) % 2
differ-mod zero y h i = omega arith
differ-mod (suc x) zero h i = omega arith
differ-mod (suc zero) (suc zero) h i = refl
differ-mod (suc zero) (suc (suc y)) h i = absurd (omega arith)
differ-mod (suc (suc x)) (suc y) h i = absurd (omega arith)

bit_xor-combine : (n x y : ℕ) → x ≤ n → y ≤ n → bit_xor x y ≡ combine differ n x y
bit_xor-combine n x y h i =
    bit_xor-bitwise x y ∙ digits-combine differ (λ z. refl) x n x y (omega arith) h i

-- Numbers whose lowest two digits do not differ.
pub bit_xor-mod_4 : (x y : ℕ) → bit_xor x y % 4 ≡ 0 → x % 4 ≡ y % 4
bit_xor-mod_4 x y h =
    let n = x + y in
    let low = differ-mod (x % 2) (y % 2) (omega arith) (omega arith) in
    let high = differ-mod (x / 2 % 2) (y / 2 % 2) (omega arith) (omega arith) in
    omega (
      arith,
      bit_xor-combine (suc (suc n)) x y (omega arith) (omega arith),
      combine-suc differ (suc n) x y,
      combine-suc differ n (x / 2) (y / 2),
      low,
      high,
    )

pub digit-lt : (k x : ℕ) → digit k x < 2
unfolding digit
digit-lt zero x = omega arith
digit-lt (suc k) x = digit-lt k (x / 2)

digit-and_below : (k n x y : ℕ) → k < n → digit k (and_below n x y) ≡ min (digit k x) (digit k y)
unfolding digit
digit-and_below zero (suc n) x y h = omega (arith, and_below-suc n x y)
digit-and_below k zero x y h = absurd (omega arith)
digit-and_below (suc k) (suc n) x y h =
    ap (digit k) (omega (arith, and_below-suc n x y))
    ∙ digit-and_below k n (x / 2) (y / 2) (omega arith)

pub digit-bit_and : (k x y : ℕ) → digit k (bit_and x y) ≡ min (digit k x) (digit k y)
digit-bit_and k x y =
    ap (digit k) (bit_and-and_below (suc (k + x)) x y (omega arith))
    ∙ digit-and_below k (suc (k + x)) x y (omega arith)

pub digit-zero : (k : ℕ) → digit k 0 ≡ 0
unfolding digit
digit-zero zero = refl
digit-zero (suc k) = digit-zero k

pow-suc : (k : ℕ) → 2 ^ suc k ≡ 2 * 2 ^ k
pow-suc k = omega arith

pub digit-pow : (j k : ℕ) → digit j (2 ^ k) ≡ (if k == j then 1 else 0)
unfolding digit
digit-pow zero zero = refl
digit-pow (suc j) zero = digit-zero j ∙ ground arith
digit-pow zero (suc k) = ground (arith, pow-suc k)
digit-pow (suc j) (suc k) = ap (digit j) (omega (arith, pow-suc k)) ∙ digit-pow j k ∙ ground arith

pub pow-positive : (k : ℕ) → 0 < 2 ^ k
pow-positive zero = omega arith
pow-positive (suc k) = omega (arith, pow-suc k, pow-positive k)

-- The complement of a number of `w` digits.
digit-complement : (w j x : ℕ) → j < w → x < 2 ^ w → digit j (2 ^ w - 1 - x) ≡ 1 - digit j x
unfolding digit
digit-complement zero j x h i = absurd (omega arith)
digit-complement (suc w) zero x h i = omega (arith, pow-suc w)
digit-complement (suc w) (suc j) x h i =
    ap (digit j) (omega (arith, pow-suc w))
    ∙ digit-complement w j (x / 2) (omega arith) (omega (arith, pow-suc w))

pub pow-lt : (j k : ℕ) → j < k → 2 ^ j < 2 ^ k
pow-lt j zero h = absurd (omega arith)
pow-lt zero (suc k) h = omega (arith, pow-suc k, pow-positive k)
pow-lt (suc j) (suc k) h = omega (arith, pow-suc k, pow-suc j, pow-lt j k)

-- The digits of a word with one bit put in, or taken out.
pub digit-bit_in : (j k x : ℕ) → digit j (bit_or x (2 ^ k)) ≡ (if k == j then 1 else digit j x)
digit-bit_in j k x = ground (arith, digit-bit_or j x (2 ^ k), digit-pow j k, digit-lt j x)

pub digit-bit_out :
    (w j k x : ℕ)
    → j < w
    → k < w
    → digit j (bit_and x (2 ^ w - 1 - 2 ^ k)) ≡ (if k == j then 0 else digit j x)
digit-bit_out w j k x h i = ground (
  arith,
  digit-bit_and j x (2 ^ w - 1 - 2 ^ k),
  digit-complement w j (2 ^ k) h (pow-lt k w i),
  digit-pow j k,
  digit-lt j x,
)

-- `(x >> k) & 1`
pub bit_and-shift : (k x : ℕ) → bit_and (x / 2 ^ k) 1 ≡ digit k x
unfolding digit
bit_and-shift zero x = bit_and-1 (x / 1) ∙ omega arith
bit_and-shift (suc k) x =
    ap (λ (y : ℕ). bit_and (x / y) 1) (pow-suc k)
    ∙ ap (λ (y : ℕ). bit_and y 1) (sym (div-div-eq-div-mul x 2 (2 ^ k)))
    ∙ bit_and-shift k (x / 2)
