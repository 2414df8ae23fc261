-- ===== src/Rings/Pointers/Refinement.antt =====
-- The lists with their pointers against the lists as sequences. The addresses of the ring's heads
-- and of the links are parameters: those of different objects differ.
use tsukumo_core.Common.{
  ◌==◌, Bool-cases, count, erase, insert_before, ℕ, ◌≤◌, ◌<◌, ◌≡◌, refl, ap, ◌≢◌, inl, inr, List,
  [], ◌∷◌, ◌++◌, arith,
}
use tsukumo_core.Rings.{Link, alone, poisoned, on, Rings}
use tsukumo_core.Rings.Pointers.{Pointers, poison}
use tsukumo_core.Rings.Pointers.Segments.{IsSegment}

abbrev pub map : (ℕ → ℕ) → List ℕ → List ℕ
map f [] = []
map f (x ∷ l) = f x ∷ map f l

-- Where the heads and the links of one family stand in memory.
pub record Addresses : Type 0 where
  pub head : ℕ → ℕ
  pub node : ℕ → ℕ

-- Different objects have different addresses.
pub record AreDistinct (at : Addresses) : Type 0 where
  pub heads : (a b : ℕ) → at.head a ≡ at.head b → a ≡ b
  pub nodes : (n m : ℕ) → at.node n ≡ at.node m → n ≡ m
  pub kinds : (a n : ℕ) → at.head a ≢ at.node n

-- What the pointers of a link hold, when it is on no ring.
abbrev pub HoldsLink : Pointers → ℕ → Link → Type 0
HoldsLink p x alone = (p.next x ≡ x) × (p.prev x ≡ x)
HoldsLink p x poisoned = (p.next x ≡ poison) × (p.prev x ≡ poison)
HoldsLink p x (on a) = Unit {0}

-- The pointers show the rings and the links.
pub record Shows (at : Addresses) (p : Pointers) (r : Rings) : Type 0 where
  pub segments : (a : ℕ) → IsSegment p (at.head a) (map at.node (r.ring a)) (at.head a)
  pub links : (n : ℕ) → HoldsLink p (at.node n) (r.link n)

module _ (at : Addresses) (d : AreDistinct at) where
  pub count-map : (n : ℕ) (l : List ℕ) → count (at.node n) (map at.node l) ≡ count n l
  unfolding count
  count-map n [] = refl
  count-map n (x ∷ l) = ground (arith, count-map n l, d.nodes x n, ap at.node)

  pub count-map_head : (a : ℕ) (l : List ℕ) → count (at.head a) (map at.node l) ≡ 0
  unfolding count
  count-map_head a [] = refl
  count-map_head a (x ∷ l) = ground (arith, count-map_head a l, d.kinds a x)

  pub count-map-le : (y : ℕ) (l : List ℕ) → ((x : ℕ) → count x l ≤ 1) → count y (map at.node l) ≤ 1
  unfolding count
  count-map-le y [] h = omega arith
  count-map-le y (x ∷ l) h =
      ground (arith, count-map-le y l (λ z. ground (arith, h z)), h x, count-map x l)

  -- An address of the mapped list is that of an entry.
  pub in_map :
      (y : ℕ) (l : List ℕ)
      → 0 < count y (map at.node l)
      → (n : ℕ) × (at.node n ≡ y) × (0 < count n l)
  unfolding count
  in_map y [] h = absurd (omega arith)
  in_map y (x ∷ l) h = elim (Bool-cases (at.node x == y)) [
    | inl e ↦ (x, ground arith, ground arith)
    | inr e ↦ let (n, f, g) = in_map y l (ground arith) in (n, f, ground arith)
  ]

  pub map-erase : (n : ℕ) (l : List ℕ) → map at.node (erase n l) ≡ erase (at.node n) (map at.node l)
  unfolding erase
  map-erase n [] = refl
  map-erase n (x ∷ l) = ground (arith, map-erase n l, d.nodes x n)

  pub map-insert_before :
      (i n : ℕ) (l : List ℕ)
      → map at.node (insert_before i n l) ≡ insert_before (at.node i) (at.node n) (map at.node l)
  unfolding insert_before
  map-insert_before i n [] = refl
  map-insert_before i n (x ∷ l) = ground (arith, map-insert_before i n l, d.nodes x i)

  pub map-snoc : (n : ℕ) (l : List ℕ) → map at.node (l ++ n ∷ []) ≡ map at.node l ++ at.node n ∷ []
  map-snoc n [] = refl
  map-snoc n (x ∷ l) = ap (λ (t : List ℕ). at.node x ∷ t) (map-snoc n l)
