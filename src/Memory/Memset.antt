-- ===== src/Memory/Memset.antt =====
-- kernel/memset.c: tkmc_memset, which fills words where it can, beside a fill byte by byte.
pub mod Filled
use tsukumo_core.Common.{
  ltb, ◌==◌, if◌then◌else◌, ℤ, pos, negsuc, update, ℕ, zero, suc, ◌+◌, ◌-◌, ◌*◌, ◌%◌, ◌^◌, bit_and,
  true, false, Option, none, some,
}
use tsukumo_core.Memory.{Memory, ◌>>=◌, store_word}

pub record Cursor : Type 0 where
  pub dest : ℕ
  pub n : ℕ
  pub memory : Memory

-- `while (n--) *d8++ = value;`
unfoldable pub fill_bytes : ℕ → ℕ → ℕ → Memory → Memory
fill_bytes zero a v m = m
fill_bytes (suc n) a v m = fill_bytes n (a + 1) v (update m a v)

-- The loop up to the first multiple of four, of `n` bytes at most.
unfoldable pub fill_to_word : ℕ → ℕ → ℕ → Memory → Cursor
fill_to_word zero a v m = record { dest = a; n = 0; memory = m }
fill_to_word (suc n) a v m =
    let rest = fill_to_word n (a + 1) v (update m a v) in
    if bit_and a 3 == 0 then record { dest = a; n = suc n; memory = m } else rest

-- The eight stores of a round of the first word loop.
unfoldable pub store_block : ℕ → ℕ → Memory → Option Memory
store_block a w m =
    store_word a w m
    >>= store_word (a + 4) w
    >>= store_word (a + 8) w
    >>= store_word (a + 12) w
    >>= store_word (a + 16) w
    >>= store_word (a + 20) w
    >>= store_word (a + 24) w
    >>= store_word (a + 28) w

-- `while (n >= 32)`, of as many rounds as the fuel at most.
unfoldable pub fill_blocks : ℕ → ℕ → Cursor → Option Cursor
fill_blocks zero w c = none
fill_blocks (suc f) w c = elim (ltb c.n 32) [
  | true ↦ some c
  | false ↦ store_block c.dest w c.memory >>= λ m.
      fill_blocks f w (record { dest = c.dest + 32; n = c.n - 32; memory = m })
]

-- `while (n >= 4)`, of as many rounds as the fuel at most.
unfoldable pub fill_words : ℕ → ℕ → Cursor → Option Cursor
fill_words zero w c = none
fill_words (suc f) w c = elim (ltb c.n 4) [
  | true ↦ some c
  | false ↦ store_word c.dest w c.memory >>= λ m.
      fill_words f w (record { dest = c.dest + 4; n = c.n - 4; memory = m })
]

-- The part under `if (n >= 4)`.
unfoldable pub fill_aligned : ℕ → Cursor → Option Cursor
fill_aligned v c =
    if ltb c.n 4
    then some c
    else let w = v * 0x01010101 % 2 ^ 32 in
      (fill_blocks (suc c.n) w c >>= λ d. fill_words (suc d.n) w d)

-- `(UB)c`
unfoldable pub to_byte : ℤ → ℕ
to_byte (pos n) = n % 256
to_byte (negsuc n) = 255 - n % 256

-- The memory after `tkmc_memset(dest, c, n)`, which returns `dest`.
unfoldable pub memset : ℕ → ℤ → ℕ → Memory → Option Memory
memset dest c n m =
    let v = to_byte c in
    if ltb n 32
    then some (fill_bytes n dest v m)
    else (fill_aligned v (fill_to_word n dest v m) >>= λ d. some (fill_bytes d.n d.dest v d.memory))
