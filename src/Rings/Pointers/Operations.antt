-- ===== src/Rings/Pointers/Operations.antt =====
-- The operations of kernel/list.h on the pointers beside those on the sequences.
use tsukumo_core.Common.{
  is_empty, first, update, count, erase, insert_before, update_self, ℕ, ◌<◌, ◌≡◌, refl, ◌∙◌, subst,
  ◌≢◌, Option, none, some, List, [], ◌∷◌, ◌++◌, arith,
}
use tsukumo_core.Rings.{
  Link, alone, poisoned, on, Rings, init_link, list_empty, first_entry, list_del, list_add_tail,
  list_add_before,
}
use tsukumo_core.Rings.Linked.{times_on, IsLinked, IsOff}
use tsukumo_core.Rings.Pointers.{
  Pointers, tkmc_init_list_head, tkmc_list_empty, tkmc_list_del, tkmc_list_add_between,
  tkmc_list_add, tkmc_list_add_tail, tkmc_list_first_entry,
}
use tsukumo_core.Rings.Pointers.Preserved.{Touches, once, Shows-update}
use tsukumo_core.Rings.Pointers.Refinement.{
  map, Addresses, AreDistinct, HoldsLink, Shows, count-map, count-map_head, map-erase,
  map-insert_before, map-snoc,
}
use tsukumo_core.Rings.Pointers.Segments.{
  IsSegment, prev_in_segment, next_in_segment, last_in_segment, IsSegment-frame,
  IsSegment-tkmc_list_add_tail, next-prev, IsSegment-between, IsSegment-erase,
}

-- The link of the first entry; the head itself, where there is none.
abbrev pub entry_address : Addresses → ℕ → Option ℕ → ℕ
entry_address at a none = at.head a
entry_address at a (some n) = at.node n

module _ (at : Addresses) (d : AreDistinct at) (p : Pointers) (r : Rings) (v : IsLinked r)
    (s : Shows at p r) where
  elsewhere : (n a b : ℕ) → r.link n ≡ on a → a ≢ b → count n (r.ring b) ≡ 0
  elsewhere n a b e h = v n b ∙ rw e (ground (arith, h))

  nowhere : (n b : ℕ) → IsOff (r.link n) → count n (r.ring b) ≡ 0
  nowhere n b o = v n b ∙ o b

  queued : (n a : ℕ) → r.link n ≡ on a → 0 < count (at.node n) (map at.node (r.ring a))
  queued n a e =
      let f : times_on (r.link n) a ≡ 1 = rw e (ground arith) in
      omega (arith, count-map at d n (r.ring a), v n a, f)

  unqueued :
      (n a : ℕ)
      → IsOff (r.link n)
      → count (at.node n) (at.head a ∷ at.head a ∷ map at.node (r.ring a)) ≡ 0
  unfolding count
  unqueued n a o = ground (arith, count-map at d n (r.ring a), v n a, o a, d.kinds a n)

  del-Touches : (n a : ℕ) → r.link n ≡ on a → Touches at p (tkmc_list_del (at.node n) p) r n a
  unfolding count tkmc_list_del
  del-Touches n a e =
      let l = map at.node (r.ring a) in
      let u = queued n a e in
      let before =
        prev_in_segment (at.node n) (at.head a) (at.head a) (map at.node (r.ring a)) p
          (s.segments a) u in
      let behind =
        next_in_segment (at.node n) (at.head a) (at.head a) (map at.node (r.ring a)) p
          (s.segments a) (ground arith) in
      record {
        next_kept = λ x m. ground (arith, m, before);
        prev_kept = λ x m. ground (arith, m, behind);
      }

  del_queued-Shows :
      (n a : ℕ)
      → r.link n ≡ on a
      → Shows at
          (tkmc_list_del (at.node n) p)
          (record { link = update r.link n poisoned; ring = update r.ring a (erase n (r.ring a)) })
  unfolding tkmc_list_del
  del_queued-Shows n a e =
      let l = map at.node (r.ring a) in
      let c = count-map_head at d a (r.ring a) in
      let g =
        IsSegment-erase (at.node n) p (at.head a) (at.head a) l (queued n a e) c c
          (once at d p r v a) (s.segments a) in
      Shows-update at d p r v (tkmc_list_del (at.node n) p) n a poisoned (erase n (r.ring a)) s
        (del-Touches n a e) (λ b. elsewhere n a b e) (rw (map-erase at d n (r.ring a)) g)
        (ground arith, ground arith)

  -- Only the pointers of a link on no ring have changed.
  link_only-Shows :
      (q : Pointers) (n : ℕ) (k : Link)
      → IsOff (r.link n)
      → ((x : ℕ) → at.node n ≢ x → q.next x ≡ p.next x)
      → ((x : ℕ) → at.node n ≢ x → q.prev x ≡ p.prev x)
      → HoldsLink q (at.node n) k
      → Shows at q (record r { link = update r.link n k })
  unfolding count
  link_only-Shows q n k o f g h =
      let l = map at.node (r.ring 0) in
      let t : Touches at p q r n 0 = record {
        next_kept = λ x m. f x (ground (arith, m));
        prev_kept = λ x m. g x (ground (arith, m));
      } in
      let u = unqueued n 0 o in
      let same =
        IsSegment-frame (at.head 0) (at.head 0) (map at.node (r.ring 0)) p q
          (λ x m. f x (ground (arith, m))) (λ x m. g x (ground (arith, m))) (s.segments 0) in
      subst (λ (ring : ℕ → List ℕ). Shows at q (record { link = update r.link n k; ring = ring }))
        (update_self r.ring 0)
        (Shows-update at d p r v q n 0 k (r.ring 0) s t (λ b e. nowhere n b o) same h)

  del_alone-Shows :
      (n : ℕ)
      → r.link n ≡ alone
      → Shows at (tkmc_list_del (at.node n) p) (record r { link = update r.link n poisoned })
  unfolding tkmc_list_del
  del_alone-Shows n e =
      let (f, g) = subst (HoldsLink p (at.node n)) e (s.links n) in
      link_only-Shows (tkmc_list_del (at.node n) p) n poisoned (λ a. rw e refl)
        (λ x h. ground (arith, h, f, g)) (λ x h. ground (arith, h, f, g))
        (ground arith, ground arith)

  pub init_link-Shows :
      (n : ℕ) → IsOff (r.link n) → Shows at (tkmc_init_list_head (at.node n) p) (init_link n r)
  unfolding init_link tkmc_init_list_head
  init_link-Shows n o =
      link_only-Shows (tkmc_init_list_head (at.node n) p) n alone o (λ x h. ground (arith, h))
        (λ x h. ground (arith, h)) (ground arith, ground arith)

  add_tail-Touches : (n a : ℕ) → Touches at p (tkmc_list_add_tail (at.node n) (at.head a) p) r n a
  unfolding count tkmc_list_add_tail tkmc_list_add_between
  add_tail-Touches n a =
      let last =
        last_in_segment (at.head a) (at.head a) (map at.node (r.ring a)) p (s.segments a) in
      record {
        next_kept = λ x m. ground (arith, m, last);
        prev_kept = λ x m. ground (arith, m, last);
      }

  -- Where the pointers of kernel/list.h show the rings and the links, the addresses differ and
  -- rings and links agree, tkmc_list_add_tail of a link that is on no ring leaves pointers that
  -- show the ring with it at the end.
  pub list_add_tail-Shows :
      (n a : ℕ)
      → IsOff (r.link n)
      → Shows at (tkmc_list_add_tail (at.node n) (at.head a) p) (list_add_tail n a r)
  unfolding list_add_tail
  list_add_tail-Shows n a o =
      let l = map at.node (r.ring a) in
      let c = count-map_head at d a (r.ring a) in
      let g =
        IsSegment-tkmc_list_add_tail (at.node n) (at.head a) (at.head a) l p (unqueued n a o) c c
          (once at d p r v a) (s.segments a) in
      Shows-update at d p r v (tkmc_list_add_tail (at.node n) (at.head a) p) n a (on a)
        (r.ring a ++ n ∷ []) s (add_tail-Touches n a) (λ b e. nowhere n b o)
        (rw (map-snoc at d n (r.ring a)) g) tt

  between-Touches :
      (n i a : ℕ)
      → r.link i ≡ on a
      → Touches at p (tkmc_list_add_between (at.node n) (p.prev (at.node i)) (at.node i) p) r n a
  unfolding count tkmc_list_add_between
  between-Touches n i a e =
      let u = queued i a e in
      let before =
        prev_in_segment (at.node i) (at.head a) (at.head a) (map at.node (r.ring a)) p
          (s.segments a) u in
      record {
        next_kept = λ x m. ground (arith, m, before, u);
        prev_kept = λ x m. ground (arith, m, before, u);
      }

  -- Where the pointers of kernel/list.h show the rings and the links, the addresses differ and
  -- rings and links agree, tkmc_list_add of a link that is on no ring behind the prev of a queued
  -- link leaves pointers that show the ring with the new link in front of the queued one.
  pub list_add_before-Shows :
      (n i a : ℕ)
      → r.link i ≡ on a
      → IsOff (r.link n)
      → Shows at (tkmc_list_add (at.node n) (p.prev (at.node i)) p) (list_add_before n i a r)
  unfolding list_add_before tkmc_list_add
  list_add_before-Shows n i a e o =
      let l = map at.node (r.ring a) in
      let c = count-map_head at d a (r.ring a) in
      let u = queued i a e in
      let g =
        IsSegment-between (at.node i) p (at.node n) (at.head a) (at.head a) l u (unqueued n a o) c c
          (once at d p r v a) (s.segments a) in
      let back =
        next-prev (at.node i) (at.head a) (at.head a) (map at.node (r.ring a)) p (s.segments a) u in
      rw back (
        Shows-update at d p r v
          (tkmc_list_add_between (at.node n) (p.prev (at.node i)) (at.node i) p) n a (on a)
          (insert_before i n (r.ring a)) s (between-Touches n i a e) (λ b f. nowhere n b o)
          (rw (map-insert_before at d i n (r.ring a)) g) tt)

  del-at :
      (n : ℕ) (k : Link)
      → r.link n ≡ k
      → k ≢ poisoned
      → Shows at (tkmc_list_del (at.node n) p) (list_del n r)
  unfolding list_del
  del-at n (on a) e h = rw e (del_queued-Shows n a e)
  del-at n alone e h = rw e (del_alone-Shows n e)
  del-at n poisoned e h = absurd (h refl)

  -- Where the pointers of kernel/list.h show the rings and the links, the addresses differ and
  -- rings and links agree, tkmc_list_del of a link that is not deleted already leaves pointers
  -- that show the rings without it and the link as deleted.
  pub list_del-Shows :
      (n : ℕ) → r.link n ≢ poisoned → Shows at (tkmc_list_del (at.node n) p) (list_del n r)
  list_del-Shows n h = del-at n (r.link n) refl h

  read_at :
      (a : ℕ) (l : List ℕ)
      → IsSegment p (at.head a) (map at.node l) (at.head a)
      → (tkmc_list_empty p (at.head a) ≡ is_empty l)
        × (tkmc_list_first_entry p (at.head a) ≡ entry_address at a (first l))
  unfolding tkmc_list_empty tkmc_list_first_entry
  read_at a [] (f, g) = (ground (arith, f), f)
  read_at a (x ∷ l) (f, g, h) = (ground (arith, f, d.kinds a x), f)

  -- Where the pointers of kernel/list.h show the rings and the links, the addresses differ and
  -- rings and links agree, tkmc_list_empty of a ring's head says whether the ring is empty, and
  -- tkmc_list_first_entry gives the link of its first entry.
  pub reads-Shows :
      (a : ℕ)
      → (tkmc_list_empty p (at.head a) ≡ list_empty r a)
        × (tkmc_list_first_entry p (at.head a) ≡ entry_address at a (first_entry r a))
  unfolding list_empty first_entry
  reads-Shows a = read_at a (r.ring a) (s.segments a)
