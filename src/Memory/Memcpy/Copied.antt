-- ===== src/Memory/Memcpy/Copied.antt =====
-- The loops of tkmc_memcpy against a copy byte by byte.
-- The bytes from `d` on are those of `m` from `s` on, `n` of them; the others are those of `m`.
use tsukumo_core.Common.{
  ltb, leb, if◌then◌else◌, update, ℕ, zero, suc, ◌+◌, ◌-◌, ◌*◌, ◌/◌, ◌%◌, ◌≤◌, ◌<◌, fun_ext, ◌≡◌,
  refl, ap, ◌∙◌, ◌⊎◌, inl, inr, ◌&&◌, some, arith,
}
use tsukumo_core.Memory.{Memory, load_word, store_word}
use tsukumo_core.Memory.Memcpy.{copy_bytes, copy_word, copy_block}

abbrev pub copied : ℕ → ℕ → ℕ → Memory → Memory
copied d s n m j = if leb d j && ltb j (d + n) then m (s + (j - d)) else m j

-- What `restrict` asks for: the objects do not overlap.
abbrev pub AreApart : ℕ → ℕ → ℕ → Type 0
AreApart d s n = (d + n ≤ s) ⊎ (s + n ≤ d)

abbrev pub IsBytes : Memory → Type 0
IsBytes m = (a : ℕ) → m a < 256

copied-at :
    (d s k n : ℕ) (m : Memory) (j : ℕ)
    → AreApart d s (k + n)
    → copied (d + k) (s + k) n (copied d s k m) j ≡ copied d s (k + n) m j
copied-at d s k n m j (inl h) = ground (arith, h)
copied-at d s k n m j (inr h) = ground (arith, h)

pub copied-copied :
    (d s k n : ℕ) (m : Memory)
    → AreApart d s (k + n)
    → copied (d + k) (s + k) n (copied d s k m) ≡ copied d s (k + n) m
copied-copied d s k n m h = fun_ext λ j. copied-at d s k n m j h

pub copied-IsBytes : (d s n : ℕ) (m : Memory) → IsBytes m → IsBytes (copied d s n m)
copied-IsBytes d s n m h j = ground (arith, h j, h (s + (j - d)))

copied-byte :
    (n d s : ℕ) (m : Memory) (j : ℕ)
    → AreApart d s (suc n)
    → copied (d + 1) (s + 1) n (update m d (m s)) j ≡ copied d s (suc n) m j
copied-byte n d s m j (inl h) = ground (arith, h)
copied-byte n d s m j (inr h) = ground (arith, h)

AreApart-suc : (d s n : ℕ) → AreApart d s (suc n) → AreApart (d + 1) (s + 1) n
AreApart-suc d s n (inl h) = inl (omega arith)
AreApart-suc d s n (inr h) = inr (omega arith)

pub copy_bytes-copied :
    (n d s : ℕ) (m : Memory) → AreApart d s n → copy_bytes n d s m ≡ copied d s n m
unfolding copy_bytes
copy_bytes-copied zero d s m h = fun_ext λ j. ground arith
copy_bytes-copied (suc n) d s m h =
    copy_bytes-copied n (d + 1) (s + 1) (update m d (m s)) (AreApart-suc d s n h)
    ∙ (fun_ext λ j. copied-byte n d s m j h)

-- Stored bytes of a loaded word are those that were loaded.
four_bytes :
    (d s : ℕ) (m : Memory)
    → AreApart d s 4
    → update
        (update (update (update m d (m s)) (d + 1) (m (s + 1))) (d + 2) (m (s + 2)))
        (d + 3)
        (m (s + 3))
      ≡ copied d s 4 m
four_bytes d s m h = fun_ext λ j. ground (arith, h)

abbrev word : ℕ → ℕ → ℕ → ℕ → ℕ
word a b c d = a + 256 * b + 65536 * c + 16777216 * d

store_word-word :
    (a b0 b1 b2 b3 : ℕ) (m : Memory)
    → a % 4 ≡ 0
    → b0 < 256
    → b1 < 256
    → b2 < 256
    → b3 < 256
    → store_word a (word b0 b1 b2 b3) m
      ≡ some (update (update (update (update m a b0) (a + 1) b1) (a + 2) b2) (a + 3) b3)
unfolding store_word
store_word-word a b0 b1 b2 b3 m e h0 h1 h2 h3 =
    let e0 : word b0 b1 b2 b3 % 256 ≡ b0 = omega arith in
    let e1 : word b0 b1 b2 b3 / 256 % 256 ≡ b1 = omega arith in
    let e2 : word b0 b1 b2 b3 / 65536 % 256 ≡ b2 = omega arith in
    let e3 : word b0 b1 b2 b3 / 16777216 % 256 ≡ b3 = omega arith in rw (e, e0, e1, e2, e3) refl

pub copy_word-copied :
    (d s : ℕ) (m : Memory)
    → IsBytes m
    → AreApart d s 4
    → d % 4 ≡ 0
    → s % 4 ≡ 0
    → copy_word d s m ≡ some (copied d s 4 m)
unfolding copy_word load_word
copy_word-copied d s m b h e f =
    rw
      (
        f,
        store_word-word d (m s) (m (s + 1)) (m (s + 2)) (m (s + 3)) m e (b s) (b (s + 1))
            (b (s + 2)) (b (s + 3)),
      )
      (ap some (four_bytes d s m h))

pub AreApart-part : (k d s n l : ℕ) → k + n ≤ l → AreApart d s l → AreApart (d + k) (s + k) n
AreApart-part k d s n l i (inl h) = inl (omega arith)
AreApart-part k d s n l i (inr h) = inr (omega arith)

pub AreApart-first : (d s n l : ℕ) → n ≤ l → AreApart d s l → AreApart d s n
AreApart-first d s n l i (inl h) = inl (omega arith)
AreApart-first d s n l i (inr h) = inr (omega arith)

-- A word more behind `k` bytes that are copied, of 32.
more :
    (k d s : ℕ) (m : Memory)
    → IsBytes m
    → AreApart d s 32
    → k < 29
    → (d + k) % 4 ≡ 0
    → (s + k) % 4 ≡ 0
    → copy_word (d + k) (s + k) (copied d s k m) ≡ some (copied d s (k + 4) m)
more k d s m b h l e f =
    copy_word-copied (d + k) (s + k) (copied d s k m) (copied-IsBytes d s k m b)
      (AreApart-part k d s 4 32 (omega arith) h) e f
    ∙ ap some (copied-copied d s k 4 m (AreApart-first d s (k + 4) 32 (omega arith) h))

pub copy_block-copied :
    (d s : ℕ) (m : Memory)
    → IsBytes m
    → AreApart d s 32
    → d % 4 ≡ 0
    → s % 4 ≡ 0
    → copy_block d s m ≡ some (copied d s 32 m)
unfolding copy_block
copy_block-copied d s m b h e f =
    rw
      (
        copy_word-copied d s m b (AreApart-first d s 4 32 (omega arith) h) e f,
        more 4 d s m b h (omega arith) (omega arith) (omega arith),
        more 8 d s m b h (omega arith) (omega arith) (omega arith),
        more 12 d s m b h (omega arith) (omega arith) (omega arith),
        more 16 d s m b h (omega arith) (omega arith) (omega arith),
        more 20 d s m b h (omega arith) (omega arith) (omega arith),
        more 24 d s m b h (omega arith) (omega arith) (omega arith),
      )
      (more 28 d s m b h (omega arith) (omega arith) (omega arith))
