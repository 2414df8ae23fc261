-- ===== src/Memory/Memcpy.antt =====
-- kernel/memcpy.c: tkmc_memcpy, which copies words where source and destination can be aligned
-- together. The source's `restrict` is a condition of the theorems and not of the definitions.
pub mod Copied
pub mod Loops
pub mod Whole
use tsukumo_core.Common.{
  ltb, ◌==◌, if◌then◌else◌, update, ℕ, zero, suc, ◌+◌, ◌-◌, bit_and, bit_xor, true, false, Option,
  none, some,
}
use tsukumo_core.Memory.{Memory, ◌>>=◌, load_word, store_word}

pub record Cursor : Type 0 where
  pub dest : ℕ
  pub src : ℕ
  pub n : ℕ
  pub memory : Memory

-- `while (n--) *d8++ = *s8++;`
unfoldable pub copy_bytes : ℕ → ℕ → ℕ → Memory → Memory
copy_bytes zero d s m = m
copy_bytes (suc n) d s m = copy_bytes n (d + 1) (s + 1) (update m d (m s))

-- The loop up to the first multiple of four, of `n` bytes at most.
unfoldable pub copy_to_word : ℕ → ℕ → ℕ → Memory → Cursor
copy_to_word zero d s m = record { dest = d; src = s; n = 0; memory = m }
copy_to_word (suc n) d s m =
    let rest = copy_to_word n (d + 1) (s + 1) (update m d (m s)) in
    if bit_and d 3 == 0 then record { dest = d; src = s; n = suc n; memory = m } else rest

-- `*dw = *sw`
unfoldable pub copy_word : ℕ → ℕ → Memory → Option Memory
copy_word d s m = load_word s m >>= λ w. store_word d w m

-- The eight assignments of a round of the first word loop.
unfoldable pub copy_block : ℕ → ℕ → Memory → Option Memory
copy_block d s m =
    copy_word d s m
    >>= copy_word (d + 4) (s + 4)
    >>= copy_word (d + 8) (s + 8)
    >>= copy_word (d + 12) (s + 12)
    >>= copy_word (d + 16) (s + 16)
    >>= copy_word (d + 20) (s + 20)
    >>= copy_word (d + 24) (s + 24)
    >>= copy_word (d + 28) (s + 28)

-- The cursor `k` bytes on, over the memory written.
abbrev pub move_on : ℕ → Cursor → Memory → Cursor
move_on k c m = record { dest = c.dest + k; src = c.src + k; n = c.n - k; memory = m }

-- `while (n >= 32)`, of as many rounds as the fuel at most.
unfoldable pub copy_blocks : ℕ → Cursor → Option Cursor
copy_blocks zero c = none
copy_blocks (suc f) c = elim (ltb c.n 32) [
  | true ↦ some c
  | false ↦ copy_block c.dest c.src c.memory >>= λ m. copy_blocks f (move_on 32 c m)
]

-- `while (n >= 4)`, of as many rounds as the fuel at most.
unfoldable pub copy_words : ℕ → Cursor → Option Cursor
copy_words zero c = none
copy_words (suc f) c = elim (ltb c.n 4) [
  | true ↦ some c
  | false ↦ copy_word c.dest c.src c.memory >>= λ m. copy_words f (move_on 4 c m)
]

-- The word loops and the bytes behind them.
unfoldable pub copy_aligned : Cursor → Option Memory
copy_aligned c = copy_blocks (suc c.n) c >>= (λ b. copy_words (suc b.n) b) >>= λ e.
    some (copy_bytes e.n e.dest e.src e.memory)

-- The memory after `tkmc_memcpy(dest, src, n)`, which returns `dest`.
unfoldable pub memcpy : ℕ → ℕ → ℕ → Memory → Option Memory
memcpy dest src n m =
    if ltb n 32
    then some (copy_bytes n dest src m)
    else (if bit_and (bit_xor dest src) 3 == 0
        then copy_aligned (copy_to_word n dest src m)
        else some (copy_bytes n dest src m))
