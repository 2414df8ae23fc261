-- ===== src/Context.antt =====
-- The interrupt state and the request for a task switch: include/sys/interrupt.h,
-- kernel/context.h, kernel/dispatch.h.
use tsukumo_core.Common.{◌==◌, if◌then◌else◌, Bool, true, false, not, ◌&&◌, none, some}
use tsukumo_core.Kernel.{Kernel}

-- DI: the caller keeps the bit that was set, and interrupts are off.
abbrev pub di : Kernel → Kernel
di k = record k { mie = false }

-- EI: sets the bit again if it was set at the DI; it never clears it.
abbrev pub ei : Bool → Kernel → Kernel
ei intsts k = record k { mie = if intsts then true else k.mie }

-- isDI, of the state that DI kept.
abbrev pub is_di : Bool → Bool
is_di intsts = not intsts

abbrev pub in_isr : Kernel → Bool
in_isr k = not (k.isr_depth == 0)

abbrev pub has_current : Kernel → Bool
has_current k = elim k.current [ none ↦ false | some i ↦ true ]

-- tkmc_can_block
abbrev pub can_block : Bool → Kernel → Bool
can_block intsts k = not (is_di intsts) && (has_current k && not (in_isr k))

-- dispatch: the machine software interrupt is raised.
abbrev pub dispatch : Kernel → Kernel
dispatch k = record k { msip = true }
