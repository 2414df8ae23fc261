-- ===== src/Interrupt.antt =====
-- kernel/intctl.c: the handlers of the external interrupts and the PLIC (asm/rv32/address.h).
-- The priority, enable and threshold registers hold what is written to them. A read of the claim
-- register gives a number that the device chooses; a write to it is kept with the enable word of
-- its source at that moment. An FP is an address, and none is NULL.
pub mod Bits
pub mod Calls
pub mod Service
use tsukumo_core.Common.{
  ltb, leb, ◌==◌, if◌then◌else◌, ℤ, pos, pos_part, ltb_ℤ, update, ℕ, zero, suc, ◌+◌, ◌-◌, ◌*◌, ◌/◌,
  ◌%◌, ◌^◌, bit_and, bit_or, Bool, true, false, not, ◌&&◌, ◌||◌, Option, none, some, List, [], ◌∷◌,
  ◌++◌,
}
use tsukumo_core.Context.{di, ei, is_di, in_isr}
use tsukumo_core.Kernel.{Er, e_ok, e_rsatr, e_par, e_ctx, Kernel}
use tsukumo_core.Kernel.Codes.{not_32}

abbrev pub cfn_max_intno : ℕ
cfn_max_intno = 32

abbrev pub plic_source_count : ℕ
plic_source_count = 96

abbrev pub plic_max_priority : ℕ
plic_max_priority = 7

abbrev pub ta_hlng : ℕ
ta_hlng = 1

-- A write to the claim register, and the enable word of the source.
pub record Completion : Type 0 where
  pub source : ℕ
  pub enable_word : ℕ

-- `priority` is indexed by source, `enable` by word.
pub record Plic : Type 0 where
  pub priority : ℕ → ℕ
  pub enable : ℕ → ℕ
  pub threshold : ℕ
  pub completions : List Completion

-- The kernel, the controller and s_handlers.
pub record Machine : Type 0 where
  pub kernel : Kernel
  pub plic : Plic
  pub s_handlers : ℕ → Option ℕ

-- T_DINT
pub record Tdint : Type 0 where
  pub intatr : ℕ
  pub inthdr : Option ℕ

abbrev pub set_kernel : Kernel → Machine → Machine
set_kernel k s = record s { kernel = k }

-- `out_w` to the registers.
abbrev pub out_priority : ℕ → ℕ → Machine → Machine
out_priority src v s = record s { plic = record s.plic { priority = update s.plic.priority src v } }

abbrev pub out_enable : ℕ → ℕ → Machine → Machine
out_enable word v s = record s { plic = record s.plic { enable = update s.plic.enable word v } }

abbrev pub out_threshold : ℕ → Machine → Machine
out_threshold v s = record s { plic = record s.plic { threshold = v } }

abbrev pub out_claim : ℕ → Machine → Machine
out_claim src s = record s {
  plic = record s.plic {
    completions =
        s.plic.completions
        ++ (record { source = src; enable_word = s.plic.enable (src / 32) }) ∷ [];
  };
}

unfoldable pub is_intno : ℕ → Bool
is_intno intno = leb 1 intno && ltb intno cfn_max_intno

unfoldable pub is_enabled : ℕ → Machine → Bool
is_enabled src s = not (bit_and (s.plic.enable (src / 32) / 2 ^ (src % 32)) 1 == 0)

unfoldable pub set_enabled : ℕ → Bool → Machine → Machine
set_enabled src is_on s =
    let word = s.plic.enable (src / 32) in
    let bit = 2 ^ (src % 32) in
    out_enable (src / 32) (if is_on then bit_or word bit else bit_and word (not_32 bit)) s

-- The three loops of tkmc_init_intctl, each by the number of rounds.
unfoldable pub clear_handlers : ℕ → Machine → Machine
clear_handlers zero s = s
clear_handlers (suc n) s =
    let r = clear_handlers n s in record r { s_handlers = update r.s_handlers n none }

unfoldable pub clear_priorities : ℕ → Machine → Machine
clear_priorities zero s = s
clear_priorities (suc n) s = out_priority (n + 1) 0 (clear_priorities n s)

unfoldable pub clear_enables : ℕ → Machine → Machine
clear_enables zero s = s
clear_enables (suc n) s = out_enable (32 * n / 32) 0 (clear_enables n s)

unfoldable pub init_intctl : Machine → Machine
init_intctl s = out_threshold 0 (
    clear_enables ((plic_source_count + 31) / 32)
      (clear_priorities (plic_source_count - 1) (clear_handlers cfn_max_intno s)))

abbrev pub set_handler : ℕ → Option ℕ → Machine → Machine
set_handler intno handler s = record s { s_handlers = update s.s_handlers intno handler }

-- The handler that a packet defines, or the code that refuses it.
unfoldable pub def_packet : ℕ → Option Tdint → Machine → Er × Machine
def_packet intno none s = (e_ok, set_handler intno none s)
def_packet intno (some pk) s = if not (pk.intatr == ta_hlng) then (e_rsatr, s) else elim pk.inthdr [
  | none ↦ (e_par, s)
  | some handler ↦ (e_ok, set_handler intno (some handler) s)
]

unfoldable pub def_int : Bool → ℕ → Option Tdint → Machine → Er × Machine
def_int intsts intno pk s =
    if is_di intsts || in_isr s.kernel
    then (e_ctx, s)
    else (if not (is_intno intno) then (e_par, s) else def_packet intno pk s)

unfoldable pub tk_def_int : ℕ → Option Tdint → Machine → Er × Machine
unfolding def_int def_packet
tk_def_int intno pk s =
    let intsts = s.kernel.mie in
    let (ercd, r) = def_int intsts intno pk (set_kernel (di s.kernel) s) in
    (ercd, set_kernel (ei intsts r.kernel) r)

-- EnableInt
unfoldable pub enable_int : ℕ → ℤ → Machine → Machine
enable_int intno level s =
    if not (is_intno intno) || (ltb_ℤ level (pos 1) || ltb_ℤ (pos plic_max_priority) level)
    then s
    else (let intsts = s.kernel.mie in
        let r =
          set_enabled intno true
            (out_priority intno (pos_part level) (set_kernel (di s.kernel) s)) in
        let t = out_threshold r.plic.threshold r in set_kernel (ei intsts t.kernel) t)

-- DisableInt
unfoldable pub disable_int : ℕ → Machine → Machine
disable_int intno s =
    if not (is_intno intno)
    then s
    else (let intsts = s.kernel.mie in
        let r = set_enabled intno false (set_kernel (di s.kernel) s) in
        set_kernel (ei intsts r.kernel) r)

abbrev pub is_some : Option ℕ → Bool
is_some none = false
is_some (some a) = true

-- The call of a handler, with the threshold at the priority of the source.
unfoldable pub call_handler : (ℕ → ℕ → Machine → Machine) → ℕ → Option ℕ → Machine → Machine
call_handler body intno none s = s
call_handler body intno (some handler) s =
    out_threshold s.plic.threshold (body handler intno (out_threshold (s.plic.priority intno) s))

-- tkmc_external_interrupt, where the claim register reads as `intno`. `body` is what the handler at
-- an address does.
unfoldable pub external_interrupt : (ℕ → ℕ → Machine → Machine) → ℕ → Machine → Machine
unfolding call_handler
external_interrupt body intno s =
    if intno == 0
    then s
    else (let handler = if is_intno intno then s.s_handlers intno else none in
        let r = call_handler body intno handler s in
        let stays_on = is_some handler && is_enabled intno r in
        let t = out_claim intno (set_enabled intno true r) in
        if not stays_on then set_enabled intno false t else t)
