-- ===== src/Timer/Leaving.antt =====
-- What the end of a wait in kernel/task.c does to the timer queue and to the delays.
use tsukumo_core.Common.{
  Bool-cases, length, length-erase, length-erase-le, ℕ, ◌≤◌, ◌<◌, ◌≡◌, refl, ◌∙◌, inl, inr, List,
  [], ◌∷◌, arith,
}
use tsukumo_core.Invariant.Defs.{Inv}
use tsukumo_core.Invariant.Wait.{
  end_wait-Inv, Queued, Queued-ring, Queued-end_wait, wai_of_queued, serve_one-Inv,
}
use tsukumo_core.Kernel.{cfn_max_tskid, Er, e_ok, wai, timer_queue, sem_queue, Kernel}
use tsukumo_core.Rings.{on, link_empty, list_del, list_add_tail}
use tsukumo_core.Task.Wait.{
  sem_request, sem_awaited, end_wait, take_units, serve_loop, serve_loop_cases, sem_serve_waiters,
  hands_on, complete_wait,
}

-- Tasks only leave the timer queue.
pub record OnlyLeaves (k k' : Kernel) : Type 0 where
  pub stays :
      (j : ℕ)
      → k'.heads.link j ≡ on timer_queue
      → (k.heads.link j ≡ on timer_queue) × ((k'.tcbs j).delay_ticks ≡ (k.tcbs j).delay_ticks)
  pub shorter : length (k'.heads.ring timer_queue) ≤ length (k.heads.ring timer_queue)
  pub sooner : (j : ℕ) → (k'.tcbs j).delay_ticks ≤ (k.tcbs j).delay_ticks

OnlyLeaves-refl : (k : Kernel) → OnlyLeaves k k
OnlyLeaves-refl k = record {
  stays = λ j e. (e, refl);
  shorter = omega arith;
  sooner = λ j. omega arith;
}

OnlyLeaves-trans : (a b c : Kernel) → OnlyLeaves a b → OnlyLeaves b c → OnlyLeaves a c
OnlyLeaves-trans a b c f g = record {
  stays =
      λ j e. let (e', same) = g.stays j e in let (e'', same') = f.stays j e' in (e'', same ∙ same');
  shorter = omega (arith, f.shorter, g.shorter);
  sooner = λ j. omega (arith, f.sooner j, g.sooner j);
}

module _ (i : ℕ) (cause : Er) (k : Kernel) (v : Inv k) (lt : i < cfn_max_tskid)
    (w : (k.tcbs i).tskstat ≡ wai) where
  end_wait-stays :
      (j : ℕ)
      → (end_wait i cause k).heads.link j ≡ on timer_queue
      → (k.heads.link j ≡ on timer_queue)
        × (((end_wait i cause k).tcbs j).delay_ticks ≡ (k.tcbs j).delay_ticks)
  unfolding end_wait link_empty list_del list_add_tail
  end_wait-stays j = ground (arith, v.placed i lt)

  end_wait-shorter :
      length ((end_wait i cause k).heads.ring timer_queue) ≤ length (k.heads.ring timer_queue)
  unfolding end_wait link_empty list_del list_add_tail
  end_wait-shorter = ground (arith, v.placed i lt, length-erase-le i (k.heads.ring timer_queue))

  -- A task that leaves the timer queue makes it shorter.
  end_wait-shorter_by :
      k.heads.link i ≡ on timer_queue
      → length ((end_wait i cause k).heads.ring timer_queue) < length (k.heads.ring timer_queue)
  unfolding end_wait link_empty list_del list_add_tail
  end_wait-shorter_by h = ground (
    arith,
    v.placed i lt,
    v.heads_linked i timer_queue,
    length-erase i (k.heads.ring timer_queue),
  )

  end_wait-OnlyLeaves : OnlyLeaves k (end_wait i cause k)
  unfolding end_wait
  end_wait-OnlyLeaves = record {
    stays = end_wait-stays;
    shorter = end_wait-shorter;
    sooner = λ j. ground arith;
  }

take_units-OnlyLeaves :
    (s req : ℕ) (k k' : Kernel) → OnlyLeaves k k' → OnlyLeaves k (take_units s req k')
take_units-OnlyLeaves s req k k' h = record {
  stays = h.stays;
  shorter = h.shorter;
  sooner = h.sooner;
}

serve_loop-OnlyLeaves :
    (s : ℕ) (l : List ℕ) (k : Kernel)
    → Queued (sem_queue s) k.waits l
    → Inv k
    → OnlyLeaves k (serve_loop s l k)
unfolding serve_loop
serve_loop-OnlyLeaves s [] k m v = OnlyLeaves-refl k
serve_loop-OnlyLeaves s (i ∷ l) k m v =
    let req = sem_request (k.tcbs i).winfo in
    let k' = take_units s req (end_wait i e_ok k) in
    let here = wai_of_queued i (sem_queue s) k v m.0 m.1 in
    let v' = serve_one-Inv s i req l k m v in
    let once =
      take_units-OnlyLeaves s req k (end_wait i e_ok k) (end_wait-OnlyLeaves i e_ok k v m.0 here) in
    let rest = Queued-end_wait (sem_queue s) i e_ok k l m.2 m.3 in
    serve_loop_cases (OnlyLeaves k) s i l k (λ _ _. OnlyLeaves-refl k)
      (λ _ _. serve_loop-OnlyLeaves s l k m.3 v) (λ _ _. once)
      (λ _. OnlyLeaves-trans k k' (serve_loop s l k') once (serve_loop-OnlyLeaves s l k' rest v'))

-- The end of a wait: tasks only leave the timer queue, and the task itself does.
pub complete_wait-OnlyLeaves :
    (i : ℕ) (cause : Er) (k : Kernel)
    → Inv k
    → i < cfn_max_tskid
    → (k.tcbs i).tskstat ≡ wai
    → k.heads.link i ≡ on timer_queue
    → OnlyLeaves k (complete_wait i cause k)
      × (length ((complete_wait i cause k).heads.ring timer_queue)
          < length (k.heads.ring timer_queue))
unfolding complete_wait sem_serve_waiters
complete_wait-OnlyLeaves i cause k v lt w h =
    let k' = end_wait i cause k in
    let once = end_wait-OnlyLeaves i cause k v lt w in
    let less = end_wait-shorter_by i cause k v lt w h in
    let s = sem_awaited (k'.tcbs i).winfo in
    let v' = end_wait-Inv i cause k v lt w in
    let served = serve_loop-OnlyLeaves s _ k' (Queued-ring (sem_queue s) k' v') v' in
    elim (Bool-cases (hands_on (k.tcbs i).tskwait cause)) [
      | inl e ↦ rw e (OnlyLeaves-trans k k' _ once served, omega (arith, less, served.shorter))
      | inr e ↦ rw e (once, less)
    ]
