-- ===== src/Memory/Memcpy/Whole.antt =====
-- The loops of tkmc_memcpy, and the whole of it.
use tsukumo_core.Common.{
  ltb, ◌==◌, Bool-cases, if_cases, update, bit_and-3, bit_xor-mod_4, ℕ, zero, suc, ◌+◌, ◌%◌, ◌<◌,
  bit_and, bit_xor, ◌≡◌, refl, ap, ◌∙◌, inl, inr, some, arith,
}
use tsukumo_core.Memory.{Memory}
use tsukumo_core.Memory.Memcpy.{
  Cursor, copy_bytes, copy_to_word, move_on, copy_blocks, copy_words, copy_aligned, memcpy,
}
use tsukumo_core.Memory.Memcpy.Copied.{
  copied, AreApart, IsBytes, copy_bytes-copied, copy_word-copied, AreApart-first, copy_block-copied,
}
use tsukumo_core.Memory.Memcpy.Loops.{
  Copies, IsCopyable, IsAligned, Copies-refl, Copies-AreApart, Copies-IsCopyable, written_trans,
  Copies-trans, Copies-step, cursor, Copies-byte,
}

copy_to_word-Copies :
    (n d s : ℕ) (m : Memory)
    → IsCopyable (cursor d s n m)
    → Copies (cursor d s n m) (copy_to_word n d s m)
unfolding copy_to_word
copy_to_word-Copies zero d s m r = Copies-refl (cursor d s 0 m)
copy_to_word-Copies (suc n) d s m r =
    let next = cursor (d + 1) (s + 1) n (update m d (m s)) in
    let step = Copies-byte d s n m in
    if_cases (Copies (cursor d s (suc n) m)) (bit_and d 3 == 0)
      (λ t. Copies-refl (cursor d s (suc n) m))
      (λ t.
        Copies-trans (cursor d s (suc n) m) next (copy_to_word n (d + 1) (s + 1) (update m d (m s)))
          r step
          (copy_to_word-Copies n (d + 1) (s + 1) (update m d (m s))
            (Copies-IsCopyable (cursor d s (suc n) m) next step r)))

-- With a byte left, the first loop ends where the destination is aligned, and the source with it.
copy_to_word-IsAligned :
    (n d s : ℕ) (m : Memory)
    → d % 4 ≡ s % 4
    → 0 < (copy_to_word n d s m).n
    → IsAligned (copy_to_word n d s m)
unfolding copy_to_word
copy_to_word-IsAligned zero d s m e = λ h. absurd (omega arith)
copy_to_word-IsAligned (suc n) d s m e =
    if_cases (λ (c : Cursor). 0 < c.n → IsAligned c) (bit_and d 3 == 0)
      (λ t h. (ground (arith, bit_and-3 d), ground (arith, bit_and-3 d)))
      (λ t h. copy_to_word-IsAligned n (d + 1) (s + 1) (update m d (m s)) (omega arith) h)

copy_blocks-Copies :
    (f : ℕ) (c : Cursor)
    → IsCopyable c
    → c.n < f
    → (0 < c.n → IsAligned c)
    → (e : Cursor) × (copy_blocks f c ≡ some e) × Copies c e × (0 < e.n → IsAligned e)
unfolding copy_blocks
copy_blocks-Copies zero c r l a = absurd (omega arith)
copy_blocks-Copies (suc f) c r l a = elim (Bool-cases (ltb c.n 32)) [
  | inl t ↦ rw (t, copy_blocks) (c, refl, Copies-refl c, a)
  | inr t ↦
      let next = move_on 32 c (copied c.dest c.src 32 c.memory) in
      let step = Copies-step 32 c (ground arith) in
      let (ed, es) = a (ground arith) in
      let (e, q, g, b) =
        copy_blocks-Copies f next (Copies-IsCopyable c next step r) (ground arith)
          (λ h. (omega arith, omega arith)) in
      let block =
        copy_block-copied c.dest c.src c.memory r.bytes
          (AreApart-first c.dest c.src 32 c.n (ground arith) r.apart) ed es in
      rw (t, copy_blocks, block) (e, q, Copies-trans c next e r step g, b)
]

copy_words-Copies :
    (f : ℕ) (c : Cursor)
    → IsCopyable c
    → c.n < f
    → (0 < c.n → IsAligned c)
    → (e : Cursor) × (copy_words f c ≡ some e) × Copies c e
unfolding copy_words
copy_words-Copies zero c r l a = absurd (omega arith)
copy_words-Copies (suc f) c r l a = elim (Bool-cases (ltb c.n 4)) [
  | inl t ↦ rw (t, copy_words) (c, refl, Copies-refl c)
  | inr t ↦
      let next = move_on 4 c (copied c.dest c.src 4 c.memory) in
      let step = Copies-step 4 c (ground arith) in
      let (ed, es) = a (ground arith) in
      let (e, q, g) =
        copy_words-Copies f next (Copies-IsCopyable c next step r) (ground arith)
          (λ h. (omega arith, omega arith)) in
      let word =
        copy_word-copied c.dest c.src c.memory r.bytes
          (AreApart-first c.dest c.src 4 c.n (ground arith) r.apart) ed es in
      rw (t, copy_words, word) (e, q, Copies-trans c next e r step g)
]

-- The bytes behind the words end the copy.
copy_bytes-rest :
    (c e : Cursor)
    → IsCopyable c
    → Copies c e
    → copy_bytes e.n e.dest e.src e.memory ≡ copied c.dest c.src c.n c.memory
copy_bytes-rest c e r f =
    let last = cursor (e.dest + e.n) (e.src + e.n) 0 (copied e.dest e.src e.n e.memory) in
    let apart = Copies-AreApart c e f r.apart in
    copy_bytes-copied e.n e.dest e.src e.memory apart
    ∙ written_trans c e last r.apart f (record {
      ends = omega arith;
      forward = omega arith;
      together = omega arith;
      written = ap (λ (l : ℕ). copied e.dest e.src l e.memory) (omega arith);
    })
    ∙ ap (λ (l : ℕ). copied c.dest c.src l c.memory) (omega (arith, f.ends))

copy_aligned-copied :
    (c : Cursor)
    → IsCopyable c
    → (0 < c.n → IsAligned c)
    → (e : Cursor) × (copy_aligned c ≡ some (copy_bytes e.n e.dest e.src e.memory)) × Copies c e
unfolding copy_aligned
copy_aligned-copied c r a =
    let (b, q, f, al) = copy_blocks-Copies (suc c.n) c r (omega arith) a in
    let (e, p, g) = copy_words-Copies (suc b.n) b (Copies-IsCopyable c b f r) (omega arith) al in
    rw (q, p) (e, refl, Copies-trans c b e r f g)

-- Where the memory holds bytes and source and destination do not overlap, tkmc_memcpy ends with no
-- misaligned word access, each of the n bytes from dest on is the byte of the source at its place,
-- and every other byte is as it was.
pub memcpy-copied :
    (dest src n : ℕ) (m : Memory)
    → IsBytes m
    → AreApart dest src n
    → memcpy dest src n m ≡ some (copied dest src n m)
unfolding memcpy
memcpy-copied dest src n m b h =
    let c = cursor dest src n m in
    let r : IsCopyable (cursor dest src n m) = record { apart = h; bytes = b } in
    let bytes = ap some (copy_bytes-copied n dest src m h) in
    elim (Bool-cases (ltb n 32)) [
      | inl t ↦ rw t bytes
      | inr t ↦ elim (Bool-cases (bit_and (bit_xor dest src) 3 == 0)) [
        | inr u ↦ rw (t, u) bytes
        | inl u ↦
            let low = bit_xor-mod_4 dest src (ground (arith, bit_and-3 (bit_xor dest src))) in
            let start = copy_to_word n dest src m in
            let f = copy_to_word-Copies n dest src m r in
            let (e, q, g) =
              copy_aligned-copied start (Copies-IsCopyable c start f r)
                (copy_to_word-IsAligned n dest src m low) in
            rw (t, u, q) (ap some (copy_bytes-rest c e r (Copies-trans c start e r f g)))
      ]
    ]
