-- ===== src/Interrupt/Bits.antt =====
-- The enable bits of the sources, of which 32 share a word.
use tsukumo_core.Common.{
  ◌==◌, if◌then◌else◌, digit, digit-bit_in, digit-bit_out, bit_and-shift, ℕ, ◌/◌, ◌%◌, ◌≡◌, refl,
  Bool, true, false, not, arith,
}
use tsukumo_core.Interrupt.{Machine, is_enabled, set_enabled}

pub is_enabled-digit :
    (src : ℕ) (s : Machine)
    → is_enabled src s ≡ not (digit (src % 32) (s.plic.enable (src / 32)) == 0)
unfolding is_enabled
is_enabled-digit src s = rw (bit_and-shift (src % 32) (s.plic.enable (src / 32))) refl

-- The enable bit of every source, after one of them is set or cleared.
pub set_enabled-is_enabled :
    (src other : ℕ) (is_on : Bool) (s : Machine)
    → is_enabled other (set_enabled src is_on s)
      ≡ (if src == other then is_on else is_enabled other s)
unfolding set_enabled
set_enabled-is_enabled src other true s =
    rw (is_enabled-digit other (set_enabled src true s), is_enabled-digit other s)
      (ground (arith, digit-bit_in (other % 32) (src % 32) (s.plic.enable (src / 32))))
set_enabled-is_enabled src other false s =
    rw (is_enabled-digit other (set_enabled src false s), is_enabled-digit other s)
      (ground (
        arith,
        digit-bit_out 32 (other % 32) (src % 32) (s.plic.enable (src / 32)) (omega arith)
            (omega arith),
      ))

pub is_enabled-enable :
    (src : ℕ) (r h : Machine) → r.plic.enable ≡ h.plic.enable → is_enabled src r ≡ is_enabled src h
unfolding is_enabled
is_enabled-enable src r h c = rw c refl
