-- ===== src/Memory.antt =====
-- Memory as bytes by address, and the 32-bit accesses of RV32 that the word loops of
-- kernel/memset.c and kernel/memcpy.c make. A word is little-endian, and an access to an address
-- that is not a multiple of four is the address exception that the comments of memcpy.c name: none.
-- An object does not wrap at the end of the address space, so addresses are natural numbers.
pub mod Memset
pub mod Memcpy
use tsukumo_core.Common.{◌==◌, if◌then◌else◌, update, ℕ, ◌+◌, ◌*◌, ◌/◌, ◌%◌, Option, none, some}

abbrev pub Memory : Type 0
Memory = ℕ → ℕ

infixl 5 ◌>>=◌
abbrev pub ◌>>=◌ {ℓ κ} : {A : Type ℓ} {B : Type κ} → Option A → (A → Option B) → Option B
none >>= f = none
some a >>= f = f a

unfoldable pub load_word : ℕ → Memory → Option ℕ
load_word a m =
    if a % 4 == 0
    then some (m a + 256 * m (a + 1) + 65536 * m (a + 2) + 16777216 * m (a + 3))
    else none

unfoldable pub store_word : ℕ → ℕ → Memory → Option Memory
store_word a w m =
    if a % 4 == 0
    then some (
        update
          (update (update (update m a (w % 256)) (a + 1) (w / 256 % 256)) (a + 2) (w / 65536 % 256))
          (a + 3) (w / 16777216 % 256))
    else none
