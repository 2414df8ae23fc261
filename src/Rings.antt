-- ===== src/Rings.antt =====
-- The circular lists of kernel/list.h, seen as sequences. A family of rings is told apart by the
-- number of the ring's head; the links that the rings join are told apart by the number of the
-- object that they stand in. A link knows the ring that it is on, points to itself, or holds the
-- 0xdeadbeef that `tkmc_list_del` leaves.
pub mod Linked
pub mod Pointers
use tsukumo_core.Common.{
  is_empty, first, update, erase, insert_before, ℕ, Bool, true, false, Option, List, [], ◌∷◌, ◌++◌,
}

pub data Link : Type 0 where
  alone poisoned : Link
  on : ℕ → Link

pub record Rings : Type 0 where
  pub link : ℕ → Link
  pub ring : ℕ → List ℕ

-- `tkmc_init_list_head` of a link: it points to itself.
unfoldable pub init_link : ℕ → Rings → Rings
init_link n r = record r { link = update r.link n alone }

-- `tkmc_init_list_head` of a ring's head.
unfoldable pub init_head : ℕ → Rings → Rings
init_head a r = record r { ring = update r.ring a [] }

unfoldable pub is_alone : Link → Bool
is_alone alone = true
is_alone poisoned = false
is_alone (on a) = false

-- `tkmc_list_empty` of a link: whether it points to itself.
unfoldable pub link_empty : Rings → ℕ → Bool
unfolding is_alone
link_empty r n = is_alone (r.link n)

-- `tkmc_list_empty` of a ring's head.
unfoldable pub list_empty : Rings → ℕ → Bool
list_empty r a = is_empty (r.ring a)

-- The object of `tkmc_list_first_entry`, if the ring is not empty.
unfoldable pub first_entry : Rings → ℕ → Option ℕ
first_entry r a = first (r.ring a)

unfoldable pub del_from : Link → ℕ → Rings → Rings
del_from (on a) n r = record {
  link = update r.link n poisoned;
  ring = update r.ring a (erase n (r.ring a));
}
del_from alone n r = record r { link = update r.link n poisoned }
del_from poisoned n r = r

-- `tkmc_list_del`. On a poisoned link the source writes through 0xdeadbeef; no call of the kernel
-- reaches that while the rings are well formed.
unfoldable pub list_del : ℕ → Rings → Rings
unfolding del_from
list_del n r = del_from (r.link n) n r

-- `tkmc_list_add_tail`
unfoldable pub list_add_tail : ℕ → ℕ → Rings → Rings
list_add_tail n a r = record {
  link = update r.link n (on a);
  ring = update r.ring a (r.ring a ++ n ∷ []);
}

-- `tkmc_list_add(new, pos->prev)`: the new link goes in front of the queued one at `i`.
unfoldable pub list_add_before : ℕ → ℕ → ℕ → Rings → Rings
list_add_before n i a r = record {
  link = update r.link n (on a);
  ring = update r.ring a (insert_before i n (r.ring a));
}
