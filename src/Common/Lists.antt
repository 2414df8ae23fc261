-- ===== src/Common/Lists.antt =====
-- Lists measured by native numbers, lists of numbers as rings see them, and tables.
use Prim.Native.Nat.{ℕ, suc, ◌+◌, ◌-◌, ◌≤◌, ◌<◌}
use mathlib.Core.Path.{◌≡◌, refl, fun_ext}
use mathlib.Core.Logic.{◌≢◌}
use mathlib.Core.Bool.{Bool, true, false}
use mathlib.Core.List.{List, [], ◌∷◌, ◌++◌}
use mathlib.Core.Option.{Option, none, some}
use native.Mathlib.Omega.{arith}
use tsukumo_core.Common.Tests.{◌==◌, if◌then◌else◌}

module _ {ℓ} {A : Type ℓ} where
  abbrev pub length : List A → ℕ
  length [] = 0
  length (x ∷ xs) = suc (length xs)

  abbrev pub is_empty : List A → Bool
  is_empty [] = true
  is_empty (x ∷ xs) = false

  abbrev pub first : List A → Option A
  first [] = none
  first (x ∷ xs) = some x

  -- A table indexed by a number, with one entry replaced.
  abbrev pub update : (ℕ → A) → ℕ → A → ℕ → A
  update f i a j = if i == j then a else f j

module _ {ℓ} {A : Type ℓ} where
  pub length-append : (xs ys : List A) → length (xs ++ ys) ≡ length xs + length ys
  length-append [] ys = omega arith
  length-append (x ∷ xs) ys = omega (arith, length-append xs ys)

  pub nil_of_length : (xs : List A) → length xs ≡ 0 → xs ≡ []
  nil_of_length [] h = refl
  nil_of_length (x ∷ xs) h = absurd (omega arith)

-- How often a number stands in a list.
unfoldable pub count : ℕ → List ℕ → ℕ
count i [] = 0
count i (x ∷ xs) = (if x == i then 1 else 0) + count i xs

-- The list without the first occurrence of a number.
unfoldable pub erase : ℕ → List ℕ → List ℕ
erase i [] = []
erase i (x ∷ xs) = if x == i then xs else x ∷ erase i xs

-- The list with `n` put in front of the first occurrence of `i`, or at the end.
unfoldable pub insert_before : ℕ → ℕ → List ℕ → List ℕ
insert_before i n [] = n ∷ []
insert_before i n (x ∷ xs) = if x == i then n ∷ x ∷ xs else x ∷ insert_before i n xs

pub count-nil : (i : ℕ) → count i [] ≡ 0
unfolding count
count-nil i = refl

pub count-cons : (i x : ℕ) (xs : List ℕ) → count i (x ∷ xs) ≡ (if x == i then 1 else 0) + count i xs
unfolding count
count-cons i x xs = refl

pub count-append : (i : ℕ) (xs ys : List ℕ) → count i (xs ++ ys) ≡ count i xs + count i ys
unfolding count
count-append i [] ys = omega arith
count-append i (x ∷ xs) ys = ground (arith, count-append i xs ys)

pub count-snoc :
    (i x : ℕ) (xs : List ℕ) → count i (xs ++ x ∷ []) ≡ count i xs + (if x == i then 1 else 0)
unfolding count
count-snoc i x xs = ground (arith, count-append i xs (x ∷ []))

pub count-erase_self : (i : ℕ) (xs : List ℕ) → count i (erase i xs) ≡ count i xs - 1
unfolding count erase
count-erase_self i [] = refl
count-erase_self i (x ∷ xs) = ground (arith, count-erase_self i xs)

pub count-erase_ne : (i j : ℕ) (xs : List ℕ) → i ≢ j → count j (erase i xs) ≡ count j xs
unfolding count erase
count-erase_ne i j [] h = refl
count-erase_ne i j (x ∷ xs) h = ground (arith, count-erase_ne i j xs h)

pub count-insert_before :
    (i j n : ℕ) (xs : List ℕ)
    → count j (insert_before i n xs) ≡ count j xs + (if n == j then 1 else 0)
unfolding count insert_before
count-insert_before i j n [] = ground arith
count-insert_before i j n (x ∷ xs) = ground (arith, count-insert_before i j n xs)

pub length-erase : (i : ℕ) (xs : List ℕ) → 0 < count i xs → suc (length (erase i xs)) ≡ length xs
unfolding count erase
length-erase i [] h = absurd (omega arith)
length-erase i (x ∷ xs) h = ground (arith, length-erase i xs)

pub length-erase-le : (i : ℕ) (xs : List ℕ) → length (erase i xs) ≤ length xs
unfolding erase
length-erase-le i [] = omega arith
length-erase-le i (x ∷ xs) = ground (arith, length-erase-le i xs)

-- Two writes to one entry, and a write of what stands there.
pub update-update {ℓ} :
    {A : Type ℓ} (f : ℕ → A) (i : ℕ) (a b : A) → update (update f i a) i b ≡ update f i b
update-update f i a b = fun_ext λ j. ground arith

pub update_self {ℓ} : {A : Type ℓ} (f : ℕ → A) (i : ℕ) → update f i (f i) ≡ f
update_self f i = fun_ext λ j. ground arith
