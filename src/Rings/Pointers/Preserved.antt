-- ===== src/Rings/Pointers/Preserved.antt =====
-- The operations on the pointers beside those on the sequences.
-- Outside the entry `n` and the ring `a`, no pointer has changed.
use tsukumo_core.Common.{
  ◌==◌, Bool-cases, ==_refl, update, count, ℕ, ◌≤◌, ◌<◌, ◌≡◌, refl, ap, ◌∙◌, subst, ◌≢◌, inl, inr,
  List, ◌∷◌, arith,
}
use tsukumo_core.Rings.{Link, alone, poisoned, on, Rings}
use tsukumo_core.Rings.Linked.{times_on, IsLinked}
use tsukumo_core.Rings.Pointers.{Pointers}
use tsukumo_core.Rings.Pointers.Refinement.{
  map, Addresses, AreDistinct, HoldsLink, Shows, count-map, count-map_head, count-map-le, in_map,
}
use tsukumo_core.Rings.Pointers.Segments.{IsSegment, IsSegment-frame}

pub record Touches (at : Addresses) (p q : Pointers) (r : Rings) (n a : ℕ) : Type 0 where
  pub next_kept :
      (x : ℕ) → count x (at.node n ∷ at.head a ∷ map at.node (r.ring a)) ≡ 0 → q.next x ≡ p.next x
  pub prev_kept :
      (x : ℕ) → count x (at.node n ∷ at.head a ∷ map at.node (r.ring a)) ≡ 0 → q.prev x ≡ p.prev x

times_on-le : (l : Link) (a : ℕ) → times_on l a ≤ 1
times_on-le (on b) a = ground arith
times_on-le alone a = omega arith
times_on-le poisoned a = omega arith

times_on-other : (l : Link) (a b : ℕ) → a ≢ b → 0 < times_on l b → times_on l a ≡ 0
times_on-other (on c) a b h u = ground (arith, h)
times_on-other alone a b h u = refl
times_on-other poisoned a b h u = refl

module _ (at : Addresses) (d : AreDistinct at) (p : Pointers) (r : Rings) (v : IsLinked r) where
  pub once : (a x : ℕ) → count x (map at.node (r.ring a)) ≤ 1
  once a x = count-map-le at d x (r.ring a) (λ y. omega (arith, v y a, times_on-le (r.link y) a))

  -- An entry of another ring.
  separate :
      (n a b x : ℕ)
      → a ≢ b
      → count n (r.ring b) ≡ 0
      → 0 < count x (at.head b ∷ map at.node (r.ring b))
      → count x (at.node n ∷ at.head a ∷ map at.node (r.ring a)) ≡ 0
  unfolding count
  separate n a b x h o m = elim (Bool-cases (at.head b == x)) [
    | inl e ↦
        let f : at.head b ≡ x = ground arith in
        subst (λ y. count y (at.node n ∷ at.head a ∷ map at.node (r.ring a)) ≡ 0) f
          (ground (arith, d.kinds b n, d.heads a b, count-map_head at d b (r.ring a)))
    | inr e ↦
        let (k, f, g) = in_map at d x (r.ring b) (ground arith) in
        subst (λ y. count y (at.node n ∷ at.head a ∷ map at.node (r.ring a)) ≡ 0) f
          (ground (
            arith,
            d.kinds a k,
            d.nodes n k,
            count-map at d k (r.ring a),
            v k a,
            v k b,
            times_on-other (r.link k) a b h,
          ))
  ]

  -- A link that is on another ring, or on none.
  separate_link :
      (n a m : ℕ)
      → n ≢ m
      → times_on (r.link m) a ≡ 0
      → count (at.node m) (at.node n ∷ at.head a ∷ map at.node (r.ring a)) ≡ 0
  unfolding count
  separate_link n a m h o =
      ground (arith, d.kinds a m, d.nodes n m, count-map at d m (r.ring a), v m a)

  kept_link :
      (q : Pointers) (n a m : ℕ) (l : Link)
      → Touches at p q r n a
      → count (at.node m) (at.node n ∷ at.head a ∷ map at.node (r.ring a)) ≡ 0
      → HoldsLink p (at.node m) l
      → HoldsLink q (at.node m) l
  kept_link q n a m (on b) t o h = h
  kept_link q n a m alone t o (e, f) =
      (t.next_kept (at.node m) o ∙ e, t.prev_kept (at.node m) o ∙ f)
  kept_link q n a m poisoned t o (e, f) =
      (t.next_kept (at.node m) o ∙ e, t.prev_kept (at.node m) o ∙ f)

  -- The link of another object.
  other_link :
      (q : Pointers) (n a m : ℕ) (l : Link)
      → r.link m ≡ l
      → n ≢ m
      → Touches at p q r n a
      → HoldsLink p (at.node m) l
      → HoldsLink q (at.node m) l
  other_link q n a m (on b) e h t s = s
  other_link q n a m alone e h t s =
      kept_link q n a m alone t (separate_link n a m h (ap (λ (k : Link). times_on k a) e)) s
  other_link q n a m poisoned e h t s =
      kept_link q n a m poisoned t (separate_link n a m h (ap (λ (k : Link). times_on k a) e)) s

  -- One link and one ring are replaced.
  pub Shows-update :
      (q : Pointers) (n a : ℕ) (k : Link) (l : List ℕ)
      → Shows at p r
      → Touches at p q r n a
      → ((b : ℕ) → a ≢ b → count n (r.ring b) ≡ 0)
      → IsSegment q (at.head a) (map at.node l) (at.head a)
      → HoldsLink q (at.node n) k
      → Shows at q (record { link = update r.link n k; ring = update r.ring a l })
  Shows-update q n a k l s t o g h = record {
    segments = λ b. elim (Bool-cases (a == b)) [
      | inl e ↦
          let f : a ≡ b = ground arith in
          subst (λ c. IsSegment q (at.head c) (map at.node (update r.ring a l c)) (at.head c)) f
            (rw (==_refl a) g)
      | inr e ↦
          let f : a ≢ b = ground arith in
          rw e (
            IsSegment-frame (at.head b) (at.head b) (map at.node (r.ring b)) p q
              (λ x m. t.next_kept x (separate n a b x f (o b f) m))
              (λ x m. t.prev_kept x (separate n a b x f (o b f) m)) (s.segments b))
    ];
    links = λ m. elim (Bool-cases (n == m)) [
      | inl e ↦
          let f : n ≡ m = ground arith in
          subst (λ c. HoldsLink q (at.node c) (update r.link n k c)) f (rw (==_refl n) h)
      | inr e ↦ rw e (other_link q n a m (r.link m) refl (ground arith) t (s.links m))
    ];
  }
