-- ===== src/Rings/Linked.antt =====
-- Rings and links agree: an object is on a ring once if its link says so, and on no other ring.
use tsukumo_core.Common.{
  ◌==◌, if◌then◌else◌, count, count-snoc, count-erase_self, count-erase_ne, count-insert_before, ℕ,
  ◌≡◌, ◌≢◌, arith,
}
use tsukumo_core.Rings.{
  Link, alone, poisoned, on, Rings, init_link, list_del, list_add_tail, list_add_before,
}

-- How often a link says that it is on ring `a`.
abbrev pub times_on : Link → ℕ → ℕ
times_on (on b) a = if b == a then 1 else 0
times_on alone a = 0
times_on poisoned a = 0

abbrev pub IsLinked : Rings → Type 0
IsLinked r = (n a : ℕ) → count n (r.ring a) ≡ times_on (r.link n) a

-- The link is on no ring.
abbrev pub IsOff : Link → Type 0
IsOff l = (a : ℕ) → times_on l a ≡ 0

pub list_del-IsLinked : (n : ℕ) (r : Rings) → IsLinked r → IsLinked (list_del n r)
unfolding list_del
list_del-IsLinked n r v m a =
    ground (arith, v m a, v n a, count-erase_self n (r.ring a), count-erase_ne n m (r.ring a))

pub list_add_tail-IsLinked :
    (n b : ℕ) (r : Rings) → IsOff (r.link n) → IsLinked r → IsLinked (list_add_tail n b r)
unfolding list_add_tail
list_add_tail-IsLinked n b r off v m a =
    ground (arith, v m a, v n a, off a, count-snoc m n (r.ring a))

pub list_add_before-IsLinked :
    (n i b : ℕ) (r : Rings) → IsOff (r.link n) → IsLinked r → IsLinked (list_add_before n i b r)
unfolding list_add_before
list_add_before-IsLinked n i b r off v m a =
    ground (arith, v m a, v n a, off a, count-insert_before i m n (r.ring a))

pub init_link-IsLinked :
    (n : ℕ) (r : Rings) → IsOff (r.link n) → IsLinked r → IsLinked (init_link n r)
unfolding init_link
init_link-IsLinked n r off v m a = ground (arith, v m a, off a)

-- What the operations do to the links.
module _ (n m : ℕ) (r : Rings) where
  pub list_del-link : n ≢ m → (list_del n r).link m ≡ r.link m
  unfolding list_del
  list_del-link h = ground arith

  pub list_add_tail-link : (a : ℕ) → n ≢ m → (list_add_tail n a r).link m ≡ r.link m
  unfolding list_add_tail
  list_add_tail-link a h = ground arith

  pub list_add_before-link : (i a : ℕ) → n ≢ m → (list_add_before n i a r).link m ≡ r.link m
  unfolding list_add_before
  list_add_before-link i a h = ground arith

  pub init_link-link : n ≢ m → (init_link n r).link m ≡ r.link m
  unfolding init_link
  init_link-link h = ground arith

module _ (n : ℕ) (r : Rings) where
  pub list_add_tail-link_self : (a : ℕ) → (list_add_tail n a r).link n ≡ on a
  unfolding list_add_tail
  list_add_tail-link_self a = ground arith

  pub list_add_before-link_self : (i a : ℕ) → (list_add_before n i a r).link n ≡ on a
  unfolding list_add_before
  list_add_before-link_self i a = ground arith

  pub init_link-link_self : (init_link n r).link n ≡ alone
  unfolding init_link
  init_link-link_self = ground arith

  pub list_del-link_self : (list_del n r).link n ≡ poisoned
  unfolding list_del
  list_del-link_self = ground arith

  pub list_del-IsOff : IsOff ((list_del n r).link n)
  unfolding list_del
  list_del-IsOff a = ground arith
