-- ===== src/Examples/Parts.antt =====
-- The lists with their pointers, memory and the interrupt controller at small inputs.
use tsukumo_core.Common.{
  ◌==◌, if◌then◌else◌, pos, negsuc, count-nil, count-cons, ℕ, zero, suc, ◌+◌, ◌*◌, ◌%◌, ◌≡◌, refl,
  inl, true, false, Option, some, [], ◌∷◌, arith,
}
use tsukumo_core.Examples.{some_kernel}
use tsukumo_core.Interrupt.{
  Machine, Tdint, out_threshold, is_intno, init_intctl, tk_def_int, enable_int, disable_int,
  external_interrupt,
}
use tsukumo_core.Interrupt.Calls.{
  IsDecided, tk_def_int-IsDecided, IsSwitched, enable_int-IsSwitched, disable_int-IsSwitched,
  IsQuiet, init_intctl-IsQuiet,
}
use tsukumo_core.Interrupt.Service.{IsServed, external_interrupt-IsServed}
use tsukumo_core.Memory.Memcpy.{memcpy}
use tsukumo_core.Memory.Memcpy.Copied.{copied}
use tsukumo_core.Memory.Memcpy.Whole.{memcpy-copied}
use tsukumo_core.Memory.Memset.{to_byte, memset}
use tsukumo_core.Memory.Memset.Filled.{filled, memset-filled}
use tsukumo_core.Rings.{
  alone, on, Rings, list_empty, first_entry, list_del, list_add_tail, list_add_before,
}
use tsukumo_core.Rings.Linked.{IsLinked}
use tsukumo_core.Rings.Pointers.{
  Pointers, tkmc_list_empty, tkmc_list_del, tkmc_list_add, tkmc_list_add_tail,
  tkmc_list_first_entry,
}
use tsukumo_core.Rings.Pointers.Operations.{
  entry_address, list_add_tail-Shows, list_add_before-Shows, list_del-Shows, reads-Shows,
}
use tsukumo_core.Rings.Pointers.Refinement.{map, Addresses, AreDistinct, HoldsLink, Shows}
use tsukumo_core.Rings.Pointers.Segments.{IsSegment}

memset-filled_example :
    memset 5 (negsuc 0) 40 (λ a. 0) ≡ some (filled 5 40 (to_byte (negsuc 0)) (λ a. 0))
memset-filled_example = memset-filled 5 40 (negsuc 0) (λ a. 0)

memcpy-copied_example : memcpy 5 101 40 (λ a. a % 256) ≡ some (copied 5 101 40 (λ a. a % 256))
memcpy-copied_example = memcpy-copied 5 101 40 (λ a. a % 256) (λ a. omega arith) (inl (omega arith))

abbrev some_addresses : Addresses
some_addresses = record { head = λ a. 2 * a; node = λ n. 2 * n + 1 }

some_addresses-AreDistinct : AreDistinct some_addresses
some_addresses-AreDistinct = record {
  heads = λ a b e. omega arith;
  nodes = λ n m e. omega arith;
  kinds = λ a n e. omega arith;
}

-- Object 0 is on ring 0.
abbrev some_rings : Rings
some_rings = record {
  link = λ n. if n == 0 then on 0 else alone;
  ring = λ a. if a == 0 then 0 ∷ [] else [];
}

abbrev some_pointers : Pointers
some_pointers = record {
  next = λ x. if x == 0 then 1 else if x == 1 then 0 else x;
  prev = λ x. if x == 0 then 1 else if x == 1 then 0 else x;
}

some_rings-IsLinked : IsLinked some_rings
some_rings-IsLinked n a = ground (arith, count-nil n, count-cons n 0 [])

some_pointers-segments :
    (a : ℕ) → IsSegment some_pointers (2 * a) (map some_addresses.node (some_rings.ring a)) (2 * a)
some_pointers-segments zero = (refl, refl, (refl, refl))
some_pointers-segments (suc a) =
    let e : (suc a == 0) ≡ false = ground arith in rw e (ground arith, ground arith)

some_pointers-links : (n : ℕ) → HoldsLink some_pointers (2 * n + 1) (some_rings.link n)
some_pointers-links zero = tt
some_pointers-links (suc n) =
    let e : (suc n == 0) ≡ false = ground arith in rw e (ground arith, ground arith)

some_pointers-Shows : Shows some_addresses some_pointers some_rings
some_pointers-Shows = record { segments = some_pointers-segments; links = some_pointers-links }

list_del-Shows_example :
    Shows some_addresses (tkmc_list_del 1 some_pointers) (list_del 0 some_rings)
list_del-Shows_example =
    list_del-Shows some_addresses some_addresses-AreDistinct some_pointers some_rings
      some_rings-IsLinked some_pointers-Shows 0 (λ e. cc)

list_add_tail-Shows_example :
    Shows some_addresses (tkmc_list_add_tail 3 0 some_pointers) (list_add_tail 1 0 some_rings)
list_add_tail-Shows_example =
    list_add_tail-Shows some_addresses some_addresses-AreDistinct some_pointers some_rings
      some_rings-IsLinked some_pointers-Shows 1 0 (λ a. refl)

list_add_before-Shows_example :
    Shows some_addresses
      (tkmc_list_add 3 (some_pointers.prev 1) some_pointers)
      (list_add_before 1 0 0 some_rings)
list_add_before-Shows_example =
    list_add_before-Shows some_addresses some_addresses-AreDistinct some_pointers some_rings
      some_rings-IsLinked some_pointers-Shows 1 0 0 refl (λ a. refl)

reads-Shows_example :
    (tkmc_list_empty some_pointers 0 ≡ list_empty some_rings 0)
    × (tkmc_list_first_entry some_pointers 0
        ≡ entry_address some_addresses 0 (first_entry some_rings 0))
reads-Shows_example =
    reads-Shows some_addresses some_addresses-AreDistinct some_pointers some_rings
      some_rings-IsLinked some_pointers-Shows 0

-- Every interrupt number has a handler, at address 64.
abbrev some_machine : Machine
some_machine = record {
  kernel = some_kernel;
  plic = record { priority = λ s. 3; enable = λ w. 1024; threshold = 0; completions = [] };
  s_handlers = λ i. some 64;
}

abbrev some_body : ℕ → ℕ → Machine → Machine
some_body handler intno s = out_threshold 7 s

external_interrupt-IsServed_example :
    IsServed 10 true some_machine
      (some_body 64 10 (out_threshold 3 some_machine))
      (external_interrupt some_body 10 some_machine)
unfolding is_intno
external_interrupt-IsServed_example =
    external_interrupt-IsServed some_body 10 some_machine (omega arith)

abbrev some_packet : Option Tdint
some_packet = some (record { intatr = 1; inthdr = some 128 })

tk_def_int-IsDecided_example :
    IsDecided 10 some_packet some_machine (tk_def_int 10 some_packet some_machine)
tk_def_int-IsDecided_example = tk_def_int-IsDecided 10 some_packet some_machine

enable_int-IsSwitched_example :
    IsSwitched 11 true some_machine (enable_int 11 (pos 2) some_machine)
    × ((src : ℕ)
        → (enable_int 11 (pos 2) some_machine).plic.priority src
          ≡ (if 11 == src then 2 else some_machine.plic.priority src))
enable_int-IsSwitched_example =
    enable_int-IsSwitched 11 2 some_machine (omega arith) (omega arith) (omega arith) (omega arith)

disable_int-IsSwitched_example :
    IsSwitched 10 false some_machine (disable_int 10 some_machine)
    × ((disable_int 10 some_machine).plic.priority ≡ some_machine.plic.priority)
disable_int-IsSwitched_example = disable_int-IsSwitched 10 some_machine (omega arith) (omega arith)

init_intctl-IsQuiet_example : IsQuiet (init_intctl some_machine)
init_intctl-IsQuiet_example = init_intctl-IsQuiet some_machine
