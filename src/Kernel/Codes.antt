-- ===== src/Kernel/Codes.antt =====
-- Tests on the enumerations, on attribute words and on IDs: the comparisons of the C files,
-- kernel/object_id.h, and the words of 32 bits.
use tsukumo_core.Common.{
  ◌==◌, ℤ, pos, negsuc, leb_ℤ, ℕ, ◌-◌, ◌^◌, bit_and, Bool, true, false, not, ◌&&◌, Option, none,
  some,
}
use tsukumo_core.Kernel.{
  Er, e_ok, e_rlwai, e_tmout, TaskState, noexs, run, rdy, wai, dmt, TaskWait, slp, sem, mbx,
}

-- ~x on 32 bits.
abbrev pub not_32 : ℕ → ℕ
not_32 x = 2 ^ 32 - 1 - x

abbrev pub noexs_mask : ℕ
noexs_mask = 0x80000000

-- (word & mask) != 0
abbrev pub has_bits : ℕ → ℕ → Bool
has_bits word mask = not (bit_and word mask == 0)

-- tkmc_id_in_range
unfoldable pub id_in_range : ℤ → ℕ → Bool
id_in_range id max = leb_ℤ (pos 1) id && leb_ℤ id (pos max)

unfoldable pub is_ok : Er → Bool
is_ok e_ok = true
is_ok _ = false

unfoldable pub is_tmout : Er → Bool
is_tmout e_tmout = true
is_tmout _ = false

unfoldable pub is_rlwai : Er → Bool
is_rlwai e_rlwai = true
is_rlwai _ = false

abbrev pub is_noexs : TaskState → Bool
is_noexs noexs = true
is_noexs _ = false

abbrev pub is_run : TaskState → Bool
is_run run = true
is_run _ = false

abbrev pub is_rdy : TaskState → Bool
is_rdy rdy = true
is_rdy _ = false

abbrev pub is_wai : TaskState → Bool
is_wai wai = true
is_wai _ = false

abbrev pub is_dmt : TaskState → Bool
is_dmt dmt = true
is_dmt _ = false

abbrev pub is_slp : TaskWait → Bool
is_slp slp = true
is_slp _ = false

abbrev pub is_sem : TaskWait → Bool
is_sem sem = true
is_sem _ = false

abbrev pub is_mbx : TaskWait → Bool
is_mbx mbx = true
is_mbx _ = false

-- Whether the pointer, which may be NULL, points to the control block `i`.
abbrev pub points_to : Option ℕ → ℕ → Bool
points_to none i = false
points_to (some j) i = j == i

-- Whether two pointers to control blocks are equal.
abbrev pub same_task : Option ℕ → Option ℕ → Bool
same_task none none = true
same_task none (some j) = false
same_task (some i) none = false
same_task (some i) (some j) = i == j

-- TMO_POL and TMO_FEVR.
abbrev pub tmo_pol : ℤ
tmo_pol = pos 0

abbrev pub tmo_fevr : ℤ
tmo_fevr = negsuc 0

abbrev pub is_pol : ℤ → Bool
is_pol (pos n) = n == 0
is_pol (negsuc n) = false
