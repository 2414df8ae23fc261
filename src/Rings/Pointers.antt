-- ===== src/Rings/Pointers.antt =====
-- The circular lists of kernel/list.h with their pointers: a tkmc_list_head is an address, and
-- memory holds its two fields.
pub mod Segments
pub mod Refinement
pub mod Operations
pub mod Preserved
use tsukumo_core.Common.{◌==◌, update, ℕ, Bool}

pub record Pointers : Type 0 where
  pub next : ℕ → ℕ
  pub prev : ℕ → ℕ

-- `p->next = v`
abbrev set_next : ℕ → ℕ → Pointers → Pointers
set_next a v p = record p { next = update p.next a v }

-- `p->prev = v`
abbrev set_prev : ℕ → ℕ → Pointers → Pointers
set_prev a v p = record p { prev = update p.prev a v }

abbrev pub poison : ℕ
poison = 0xdeadbeef

unfoldable pub tkmc_init_list_head : ℕ → Pointers → Pointers
tkmc_init_list_head head p = set_prev head head (set_next head head p)

unfoldable pub tkmc_list_empty : Pointers → ℕ → Bool
tkmc_list_empty p head = head == p.next head

unfoldable pub tkmc_list_del : ℕ → Pointers → Pointers
tkmc_list_del head p =
    let prev = p.prev head in
    let next = p.next head in
    set_next head poison (set_prev head poison (set_prev next prev (set_next prev next p)))

unfoldable pub tkmc_list_add_between : ℕ → ℕ → ℕ → Pointers → Pointers
tkmc_list_add_between new prev next p =
    set_next prev new (set_prev new prev (set_next new next (set_prev next new p)))

unfoldable pub tkmc_list_add : ℕ → ℕ → Pointers → Pointers
tkmc_list_add new head p = tkmc_list_add_between new head (p.next head) p

unfoldable pub tkmc_list_add_tail : ℕ → ℕ → Pointers → Pointers
tkmc_list_add_tail new head p = tkmc_list_add_between new (p.prev head) head p

-- The link that `tkmc_list_first_entry` takes the object around.
unfoldable pub tkmc_list_first_entry : Pointers → ℕ → ℕ
tkmc_list_first_entry p ptr = p.next ptr
