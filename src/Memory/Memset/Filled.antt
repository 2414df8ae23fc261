-- ===== src/Memory/Memset/Filled.antt =====
-- The fill byte by byte, and the loops of tkmc_memset against it.
-- The bytes from `a` on are `v`, `n` of them; the others are those of `m`.
use tsukumo_core.Common.{
  ltb, leb, ◌==◌, if◌then◌else◌, Bool-cases, if_cases, ℤ, pos, negsuc, update, bit_and-3, ℕ, zero,
  suc, ◌+◌, ◌-◌, ◌*◌, ◌/◌, ◌%◌, ◌^◌, ◌≤◌, ◌<◌, bit_and, fun_ext, ◌≡◌, refl, ap, ◌∙◌, inl, inr, ◌&&◌,
  some, arith,
}
use tsukumo_core.Memory.{Memory, store_word}
use tsukumo_core.Memory.Memset.{
  Cursor, fill_bytes, fill_to_word, store_block, fill_blocks, fill_words, fill_aligned, to_byte,
  memset,
}

abbrev pub filled : ℕ → ℕ → ℕ → Memory → Memory
filled a n v m j = if leb a j && ltb j (a + n) then v else m j

filled-filled :
    (a k n v : ℕ) (m : Memory) → filled (a + k) n v (filled a k v m) ≡ filled a (k + n) v m
filled-filled a k n v m = fun_ext λ j. ground arith

fill_bytes-filled : (n a v : ℕ) (m : Memory) → fill_bytes n a v m ≡ filled a n v m
unfolding fill_bytes
fill_bytes-filled zero a v m = fun_ext λ j. ground arith
fill_bytes-filled (suc n) a v m =
    fill_bytes-filled n (a + 1) v (update m a v) ∙ (fun_ext λ j. ground arith)

four_bytes :
    (a v : ℕ) (m : Memory)
    → update (update (update (update m a v) (a + 1) v) (a + 2) v) (a + 3) v ≡ filled a 4 v m
four_bytes a v m = fun_ext λ j. ground arith

-- A word whose bytes are all `v`.
store_word-bytes :
    (a w v : ℕ) (m : Memory)
    → a % 4 ≡ 0
    → w % 256 ≡ v
    → w / 256 % 256 ≡ v
    → w / 65536 % 256 ≡ v
    → w / 16777216 % 256 ≡ v
    → store_word a w m ≡ some (filled a 4 v m)
unfolding store_word
store_word-bytes a w v m e h0 h1 h2 h3 = rw (e, h0, h1, h2, h3) (ap some (four_bytes a v m))

-- The word that the source multiplies out.
abbrev word_of : ℕ → ℕ
word_of v = v * 0x01010101 % 2 ^ 32

store_word-filled :
    (a v : ℕ) (m : Memory)
    → v < 256
    → a % 4 ≡ 0
    → store_word a (word_of v) m ≡ some (filled a 4 v m)
store_word-filled a v m h e =
    store_word-bytes a (word_of v) v m e (omega arith) (omega arith) (omega arith) (omega arith)

-- A word more behind `k` bytes that are filled.
more :
    (k a v : ℕ) (m : Memory)
    → v < 256
    → (a + k) % 4 ≡ 0
    → store_word (a + k) (word_of v) (filled a k v m) ≡ some (filled a (k + 4) v m)
more k a v m h e =
    store_word-filled (a + k) v (filled a k v m) h e ∙ ap some (filled-filled a k 4 v m)

store_block-filled :
    (a v : ℕ) (m : Memory)
    → v < 256
    → a % 4 ≡ 0
    → store_block a (word_of v) m ≡ some (filled a 32 v m)
unfolding store_block
store_block-filled a v m h e =
    rw
      (
        store_word-filled a v m h e,
        more 4 a v m h (omega arith),
        more 8 a v m h (omega arith),
        more 12 a v m h (omega arith),
        more 16 a v m h (omega arith),
        more 20 a v m h (omega arith),
        more 24 a v m h (omega arith),
      )
      (more 28 a v m h (omega arith))

-- The loops move the cursor over bytes that they fill.
pub record Fills (v : ℕ) (c d : Cursor) : Type 0 where
  pub ends : d.dest + d.n ≡ c.dest + c.n
  pub forward : c.dest ≤ d.dest
  pub written : d.memory ≡ filled c.dest (d.dest - c.dest) v c.memory

Fills-refl : (v : ℕ) (c : Cursor) → Fills v c c
Fills-refl v c = record { ends = refl; forward = omega arith; written = fun_ext λ j. ground arith }

Fills-trans : (v : ℕ) (c d e : Cursor) → Fills v c d → Fills v d e → Fills v c e
Fills-trans v c d e f g = record {
  ends = g.ends ∙ f.ends;
  forward = omega (arith, f.forward, g.forward);
  written = fun_ext λ j. ground (
    arith,
    f.forward,
    g.forward,
    ap (λ (m : Memory). m j) f.written,
    ap (λ (m : Memory). m j) g.written,
  );
}

abbrev cursor : ℕ → ℕ → Memory → Cursor
cursor a n m = record { dest = a; n = n; memory = m }

-- A step of `k` bytes.
Fills-step :
    (k a n v : ℕ) (m : Memory)
    → k ≤ n
    → Fills v (cursor a n m) (cursor (a + k) (n - k) (filled a k v m))
Fills-step k a n v m h = record {
  ends = omega arith;
  forward = omega arith;
  written = ap (λ (l : ℕ). filled a l v m) (omega arith);
}

-- A byte.
Fills-byte :
    (a n v : ℕ) (m : Memory) → Fills v (cursor a (suc n) m) (cursor (a + 1) n (update m a v))
Fills-byte a n v m = record {
  ends = omega arith;
  forward = omega arith;
  written = fun_ext λ j. ground arith;
}

fill_to_word-Fills : (n a v : ℕ) (m : Memory) → Fills v (cursor a n m) (fill_to_word n a v m)
unfolding fill_to_word
fill_to_word-Fills zero a v m = Fills-refl v (cursor a 0 m)
fill_to_word-Fills (suc n) a v m =
    if_cases (Fills v (cursor a (suc n) m)) (bit_and a 3 == 0)
      (λ t. Fills-refl v (cursor a (suc n) m))
      (λ t.
        Fills-trans v (cursor a (suc n) m) (cursor (a + 1) n (update m a v))
          (fill_to_word n (a + 1) v (update m a v)) (Fills-byte a n v m)
          (fill_to_word-Fills n (a + 1) v (update m a v)))

fill_to_word-aligned :
    (n a v : ℕ) (m : Memory) → 0 < (fill_to_word n a v m).n → (fill_to_word n a v m).dest % 4 ≡ 0
unfolding fill_to_word
fill_to_word-aligned zero a v m = λ h. absurd (omega arith)
fill_to_word-aligned (suc n) a v m =
    if_cases (λ (c : Cursor). 0 < c.n → c.dest % 4 ≡ 0) (bit_and a 3 == 0)
      (λ t h. ground (arith, bit_and-3 a))
      (λ t h. fill_to_word-aligned n (a + 1) v (update m a v) h)

fill_blocks-Fills :
    (f v : ℕ) (c : Cursor)
    → v < 256
    → c.n < f
    → c.dest % 4 ≡ 0
    → (d : Cursor) × (fill_blocks f (word_of v) c ≡ some d) × Fills v c d × (d.dest % 4 ≡ 0)
unfolding fill_blocks
fill_blocks-Fills zero v c h l e = absurd (omega arith)
fill_blocks-Fills (suc f) v c h l e = elim (Bool-cases (ltb c.n 32)) [
  | inl t ↦ rw (t, fill_blocks) (c, refl, Fills-refl v c, e)
  | inr t ↦
      let next = cursor (c.dest + 32) (c.n - 32) (filled c.dest 32 v c.memory) in
      let (d, r, g, a) = fill_blocks-Fills f v next h (ground arith) (omega arith) in
      let step = Fills-step 32 c.dest c.n v c.memory (ground arith) in
      rw (t, fill_blocks, store_block-filled c.dest v c.memory h e)
        (d, r, Fills-trans v c next d step g, a)
]

fill_words-Fills :
    (f v : ℕ) (c : Cursor)
    → v < 256
    → c.n < f
    → c.dest % 4 ≡ 0
    → (d : Cursor) × (fill_words f (word_of v) c ≡ some d) × Fills v c d
unfolding fill_words
fill_words-Fills zero v c h l e = absurd (omega arith)
fill_words-Fills (suc f) v c h l e = elim (Bool-cases (ltb c.n 4)) [
  | inl t ↦ rw (t, fill_words) (c, refl, Fills-refl v c)
  | inr t ↦
      let next = cursor (c.dest + 4) (c.n - 4) (filled c.dest 4 v c.memory) in
      let (d, r, g) = fill_words-Fills f v next h (ground arith) (omega arith) in
      let step = Fills-step 4 c.dest c.n v c.memory (ground arith) in
      rw (t, fill_words, store_word-filled c.dest v c.memory h e)
        (d, r, Fills-trans v c next d step g)
]

fill_aligned-Fills :
    (v : ℕ) (c : Cursor)
    → v < 256
    → (0 < c.n → c.dest % 4 ≡ 0)
    → (d : Cursor) × (fill_aligned v c ≡ some d) × Fills v c d
unfolding fill_aligned
fill_aligned-Fills v c h e = elim (Bool-cases (ltb c.n 4)) [
  | inl t ↦ rw t (c, refl, Fills-refl v c)
  | inr t ↦
      let (b, r, f, a) = fill_blocks-Fills (suc c.n) v c h (omega arith) (e (ground arith)) in
      let (d, s, g) = fill_words-Fills (suc b.n) v b h (omega arith) a in
      rw (t, r) (d, s, Fills-trans v c b d f g)
]

-- The bytes behind the words end the fill.
fill_bytes-rest :
    (v : ℕ) (c d : Cursor)
    → Fills v c d
    → fill_bytes d.n d.dest v d.memory ≡ filled c.dest c.n v c.memory
fill_bytes-rest v c d f =
    fill_bytes-filled d.n d.dest v d.memory
    ∙ (fun_ext λ j. ground (arith, f.ends, f.forward, ap (λ (m : Memory). m j) f.written))

to_byte-lt : (c : ℤ) → to_byte c < 256
unfolding to_byte
to_byte-lt (pos n) = omega arith
to_byte-lt (negsuc n) = omega arith

-- For every destination, value and size, tkmc_memset ends with no misaligned word access, each of
-- the n bytes from dest on is the value as an unsigned char, and every other byte is as it was.
pub memset-filled :
    (dest n : ℕ) (c : ℤ) (m : Memory) → memset dest c n m ≡ some (filled dest n (to_byte c) m)
unfolding memset
memset-filled dest n c m =
    let v = to_byte c in
    elim (Bool-cases (ltb n 32)) [
      | inl t ↦ rw t (ap some (fill_bytes-filled n dest (to_byte c) m))
      | inr t ↦
          let start = fill_to_word n dest (to_byte c) m in
          let (d, r, f) =
            fill_aligned-Fills (to_byte c) start (to_byte-lt c)
              (fill_to_word-aligned n dest (to_byte c) m) in
          rw (t, r)
            (ap some (
              fill_bytes-rest (to_byte c) (cursor dest n m) d (
                Fills-trans (to_byte c) (cursor dest n m) start d
                  (fill_to_word-Fills n dest (to_byte c) m) f)))
    ]
