-- ===== src/Memory/Memcpy/Loops.antt =====
-- The cursor that tkmc_memcpy moves over the bytes that it copies.
-- From one cursor to a later one, the bytes between them are copied.
use tsukumo_core.Common.{
  update, ℕ, suc, ◌+◌, ◌-◌, ◌%◌, ◌≤◌, fun_ext, ◌≡◌, refl, sym, ap, ◌∙◌, subst, inl, inr, arith,
}
use tsukumo_core.Memory.{Memory}
use tsukumo_core.Memory.Memcpy.{Cursor, move_on}
use tsukumo_core.Memory.Memcpy.Copied.{
  copied, AreApart, IsBytes, copied-copied, copied-IsBytes, AreApart-first,
}

pub record Copies (c e : Cursor) : Type 0 where
  pub ends : e.dest + e.n ≡ c.dest + c.n
  pub forward : c.dest ≤ e.dest
  pub together : e.src + c.dest ≡ c.src + e.dest
  pub written : e.memory ≡ copied c.dest c.src (e.dest - c.dest) c.memory

-- What the loops need of a cursor: the bytes to copy and those to write are apart.
pub record IsCopyable (c : Cursor) : Type 0 where
  pub apart : AreApart c.dest c.src c.n
  pub bytes : IsBytes c.memory

-- Destination and source are multiples of four.
abbrev pub IsAligned : Cursor → Type 0
IsAligned c = (c.dest % 4 ≡ 0) × (c.src % 4 ≡ 0)

pub Copies-refl : (c : Cursor) → Copies c c
Copies-refl c = record {
  ends = refl;
  forward = omega arith;
  together = omega arith;
  written = fun_ext λ j. ground arith;
}

pub Copies-AreApart :
    (c e : Cursor) → Copies c e → AreApart c.dest c.src c.n → AreApart e.dest e.src e.n
Copies-AreApart c e f (inl h) = inl (omega (arith, f.ends, f.forward, f.together))
Copies-AreApart c e f (inr h) = inr (omega (arith, f.ends, f.forward, f.together))

pub Copies-IsCopyable : (c e : Cursor) → Copies c e → IsCopyable c → IsCopyable e
Copies-IsCopyable c e f r = record {
  apart = Copies-AreApart c e f r.apart;
  bytes =
      subst IsBytes (sym f.written)
        (copied-IsBytes c.dest c.src (e.dest - c.dest) c.memory r.bytes);
}

pub written_trans :
    (c d e : Cursor)
    → AreApart c.dest c.src c.n
    → Copies c d
    → Copies d e
    → e.memory ≡ copied c.dest c.src (e.dest - c.dest) c.memory
written_trans c d e h f g =
    let k = d.dest - c.dest in
    let l = e.dest - d.dest in
    let from : d.dest ≡ c.dest + (d.dest - c.dest) = omega (arith, f.forward) in
    let at_src : d.src ≡ c.src + (d.dest - c.dest) = omega (arith, f.together, f.forward) in
    let apart =
      AreApart-first c.dest c.src (k + l) c.n (omega (arith, f.forward, g.forward, f.ends, g.ends))
        h in
    g.written
    ∙ (λ i. copied (from i) (at_src i) l (f.written i))
    ∙ copied-copied c.dest c.src k l c.memory apart
    ∙ ap (λ (t : ℕ). copied c.dest c.src t c.memory) (omega (arith, f.forward, g.forward))

pub Copies-trans : (c d e : Cursor) → IsCopyable c → Copies c d → Copies d e → Copies c e
Copies-trans c d e r f g = record {
  ends = g.ends ∙ f.ends;
  forward = omega (arith, f.forward, g.forward);
  together = omega (arith, f.together, g.together);
  written = written_trans c d e r.apart f g;
}

-- A step of `k` bytes.
pub Copies-step :
    (k : ℕ) (c : Cursor) → k ≤ c.n → Copies c (move_on k c (copied c.dest c.src k c.memory))
Copies-step k c h = record {
  ends = omega arith;
  forward = omega arith;
  together = omega arith;
  written = ap (λ (l : ℕ). copied c.dest c.src l c.memory) (omega arith);
}

abbrev pub cursor : ℕ → ℕ → ℕ → Memory → Cursor
cursor d s n m = record { dest = d; src = s; n = n; memory = m }

pub Copies-byte :
    (d s n : ℕ) (m : Memory)
    → Copies (cursor d s (suc n) m) (cursor (d + 1) (s + 1) n (update m d (m s)))
Copies-byte d s n m = record {
  ends = omega arith;
  forward = omega arith;
  together = omega arith;
  written = fun_ext λ j. ground arith;
}
