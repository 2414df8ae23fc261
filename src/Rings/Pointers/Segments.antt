-- ===== src/Rings/Pointers/Segments.antt =====
-- Segments of a list: the entries between two addresses, linked both ways.
use tsukumo_core.Common.{
  ◌==◌, if_cases, count, erase, insert_before, ℕ, ◌≤◌, ◌<◌, ◌≡◌, sym, ◌∙◌, subst, List, [], ◌∷◌,
  ◌++◌, arith,
}
use tsukumo_core.Rings.Pointers.{Pointers, tkmc_list_del, tkmc_list_add_between, tkmc_list_add_tail}

abbrev pub IsSegment : Pointers → ℕ → List ℕ → ℕ → Type 0
IsSegment p a [] b = (p.next a ≡ b) × (p.prev b ≡ a)
IsSegment p a (x ∷ l) b = (p.next a ≡ x) × (p.prev x ≡ a) × IsSegment p x l b

-- The entry before one of the segment is in it, or is its start.
pub prev_in_segment :
    (x a b : ℕ) (l : List ℕ) (p : Pointers)
    → IsSegment p a l b
    → 0 < count x l
    → 0 < count (p.prev x) (a ∷ l)
unfolding count
prev_in_segment x a b [] p s h = absurd (omega arith)
prev_in_segment x a b (y ∷ l) p (n, q, s) h = ground (arith, prev_in_segment x y b l p s)

-- The entry behind one of the segment is in it, or is its end.
pub next_in_segment :
    (x a b : ℕ) (l : List ℕ) (p : Pointers)
    → IsSegment p a l b
    → 0 < count x (a ∷ l)
    → 0 < count (p.next x) (b ∷ l)
unfolding count
next_in_segment x a b [] p (n, q) h = ground arith
next_in_segment x a b (y ∷ l) p (n, q, s) h = ground (arith, next_in_segment x y b l p s)

-- The last entry, or the start.
pub last_in_segment :
    (a b : ℕ) (l : List ℕ) (p : Pointers) → IsSegment p a l b → 0 < count (p.prev b) (a ∷ l)
unfolding count
last_in_segment a b [] p (n, q) = ground arith
last_in_segment a b (y ∷ l) p (n, q, s) = ground (arith, last_in_segment y b l p s)

-- A segment is where its pointers are the same.
pub IsSegment-frame :
    (a b : ℕ) (l : List ℕ) (p q : Pointers)
    → ((x : ℕ) → 0 < count x (a ∷ l) → q.next x ≡ p.next x)
    → ((x : ℕ) → 0 < count x (b ∷ l) → q.prev x ≡ p.prev x)
    → IsSegment p a l b
    → IsSegment q a l b
unfolding count
IsSegment-frame a b [] p q f g (n, r) = (f a (ground arith) ∙ n, g b (ground arith) ∙ r)
IsSegment-frame a b (y ∷ l) p q f g (n, r, s) = (
  f a (ground arith) ∙ n,
  g y (ground arith) ∙ r,
  IsSegment-frame y b l p q (λ x h. f x (ground (arith, h))) (λ x h. g x (ground (arith, h))) s,
)

-- A new entry at the end.
pub IsSegment-tkmc_list_add_tail :
    (n a b : ℕ) (l : List ℕ) (p : Pointers)
    → count n (a ∷ b ∷ l) ≡ 0
    → count b l ≡ 0
    → count a l ≡ 0
    → ((x : ℕ) → count x l ≤ 1)
    → IsSegment p a l b
    → IsSegment (tkmc_list_add_tail n b p) a (l ++ n ∷ []) b
unfolding count tkmc_list_add_tail tkmc_list_add_between
IsSegment-tkmc_list_add_tail n a b [] p h i c d (e, r) =
    (ground arith, ground arith, (ground arith, ground arith))
IsSegment-tkmc_list_add_tail n a b (y ∷ l) p h i c d (e, r, s) = (
  ground (arith, last_in_segment y b l p s),
  ground (arith),
  IsSegment-tkmc_list_add_tail n y b l p (ground arith) (ground arith) (ground (arith, d y))
      (λ x. ground (arith, d x)) s,
)

-- An entry stands behind the one before it.
pub next-prev :
    (x a b : ℕ) (l : List ℕ) (p : Pointers)
    → IsSegment p a l b
    → 0 < count x l
    → p.next (p.prev x) ≡ x
unfolding count
next-prev x a b [] p s h = absurd (omega arith)
next-prev x a b (y ∷ l) p (n, q, s) h = ground (arith, next-prev x y b l p s, n, q)

-- The segment starts with the entry that a new one goes in front of.
between-first :
    (n a b y : ℕ) (l : List ℕ) (p : Pointers)
    → count n (a ∷ b ∷ y ∷ l) ≡ 0
    → count a (y ∷ l) ≡ 0
    → count b (y ∷ l) ≡ 0
    → ((x : ℕ) → count x (y ∷ l) ≤ 1)
    → IsSegment p a (y ∷ l) b
    → IsSegment (tkmc_list_add_between n a y p) a (n ∷ y ∷ l) b
unfolding count tkmc_list_add_between
between-first n a b y l p h c k d (e, r, s) =
    let q = tkmc_list_add_between n a y p in
    let rest =
      IsSegment-frame y b l p (tkmc_list_add_between n a y p) (λ x m. ground (arith, m))
        (λ x m. ground (arith, m, d y)) s in
    (ground arith, ground arith, (ground arith, ground arith, rest))

-- The segment starts with the entry that leaves it.
del-first :
    (a b y : ℕ) (l : List ℕ) (p : Pointers)
    → count a (y ∷ l) ≡ 0
    → count b (y ∷ l) ≡ 0
    → ((x : ℕ) → count x (y ∷ l) ≤ 1)
    → IsSegment p a (y ∷ l) b
    → IsSegment (tkmc_list_del y p) a l b
unfolding count tkmc_list_del
del-first a b y [] p c k d (e, r, (f, g)) = (ground arith, ground arith)
del-first a b y (z ∷ l) p c k d (e, r, (f, g, s)) =
    let rest =
      IsSegment-frame z b l p (tkmc_list_del y p) (λ x m. ground (arith, m, d y))
        (λ x m. ground (arith, m, d y, d z)) s in
    (ground arith, ground (arith, d y), rest)

-- A new entry in front of `i`, and the entry `i` taken out.
module _ (i : ℕ) (p : Pointers) where
  pub IsSegment-between :
      (n a b : ℕ) (l : List ℕ)
      → 0 < count i l
      → count n (a ∷ b ∷ l) ≡ 0
      → count a l ≡ 0
      → count b l ≡ 0
      → ((x : ℕ) → count x l ≤ 1)
      → IsSegment p a l b
      → IsSegment (tkmc_list_add_between n (p.prev i) i p) a (insert_before i n l) b
  unfolding count tkmc_list_add_between insert_before
  IsSegment-between n a b [] u h c k d s = absurd (omega arith)
  IsSegment-between n a b (y ∷ l) u h c k d (e, r, s) =
      let q = tkmc_list_add_between n (p.prev i) i p in
      if_cases (λ m. IsSegment (tkmc_list_add_between n (p.prev i) i p) a m b) (y == i)
        (λ t.
          let g : y ≡ i = ground arith in
          let start = between-first n a b y l p (ground arith) c k d (e, r, s) in
          subst (λ z. IsSegment (tkmc_list_add_between n (p.prev z) z p) a (n ∷ y ∷ l) b) g
            (subst (λ w. IsSegment (tkmc_list_add_between n w y p) a (n ∷ y ∷ l) b) (sym r) start))
        (λ t.
          let m : 0 < count i l = ground arith in
          let rest =
            IsSegment-between n y b l m (ground arith) (ground (arith, d y)) (ground arith)
              (λ x. ground (arith, d x)) s in
          (ground (arith, prev_in_segment i y b l p s m), ground arith, rest))

  pub IsSegment-erase :
      (a b : ℕ) (l : List ℕ)
      → 0 < count i l
      → count a l ≡ 0
      → count b l ≡ 0
      → ((x : ℕ) → count x l ≤ 1)
      → IsSegment p a l b
      → IsSegment (tkmc_list_del i p) a (erase i l) b
  unfolding count tkmc_list_del erase
  IsSegment-erase a b [] u c k d s = absurd (omega arith)
  IsSegment-erase a b (y ∷ l) u c k d (e, r, s) =
      if_cases (λ m. IsSegment (tkmc_list_del i p) a m b) (y == i)
        (λ t.
          let g : y ≡ i = ground arith in
          subst (λ z. IsSegment (tkmc_list_del z p) a l b) g (del-first a b y l p c k d (e, r, s)))
        (λ t.
          let m : 0 < count i l = ground arith in
          let rest =
            IsSegment-erase y b l m (ground (arith, d y)) (ground arith) (λ x. ground (arith, d x))
              s in
          let inside = prev_in_segment i y b l p s m in
          let next = next_in_segment i y b l p s (ground arith) in
          (ground (arith, inside, next, d y), ground (arith, inside, next, d y), rest))
