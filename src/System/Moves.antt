-- ===== src/System/Moves.antt =====
-- What holds from a kernel to the kernel that its loops leave: the loops are made of a few moves,
-- and a relation that each of them keeps is kept by the loops.
use tsukumo_core.Common.{
  ltb, if◌then◌else◌, Option-cases, if_cases, length, ℕ, zero, suc, ◌-◌, inl, inr, Bool, true, ◌&&◌,
  Option, List, [], ◌∷◌,
}
use tsukumo_core.EventFlag.{
  clear_ptn, set_flgptn, wanted_ptn, wanted_mode, grant_ptn, set_round, set_loop,
}
use tsukumo_core.EventFlag.Cases.{set_round_cases}
use tsukumo_core.Kernel.{
  Er, e_ok, e_tmout, e_dlt, WaitInfo, event_flag, mailbox, timer_queue, sem_queue, mbx_queue_of,
  Kernel, set_waits,
}
use tsukumo_core.Kernel.Codes.{is_wai, is_mbx}
use tsukumo_core.Mailbox.{pop_loop, pop_waiting_receiver, make_waiter_ready, release_receivers}
use tsukumo_core.Rings.{init_link, first_entry, list_del}
use tsukumo_core.Semaphore.{set_winfo, release_all}
use tsukumo_core.Task.Wait.{
  sem_request, sem_awaited, end_wait, take_units, serve_loop, serve_loop_cases, sem_serve_waiters,
  hands_on, complete_wait,
}
use tsukumo_core.Timer.{first_deadline, advance, expire_loop}

pub record Moves (R : Kernel → Kernel → Type 0) : Type 0 where
  pub same : (k : Kernel) → R k k
  pub then_on : (a b c : Kernel) → R a b → R b c → R a c
  pub wakes : (i : ℕ) (cause : Er) (k : Kernel) → R k (end_wait i cause k)
  pub takes : (s req : ℕ) (k : Kernel) → R k (take_units s req k)
  pub notes : (i : ℕ) (w : WaitInfo) (k : Kernel) → R k (set_winfo i w k)
  pub sets : (s ptn : ℕ) (k : Kernel) → R k (set_flgptn s ptn k)
  pub pops : (i : ℕ) (k : Kernel) → R k (set_waits (init_link i (list_del i k.waits)) k)
  pub counts :
      (step : ℕ) (l : List ℕ) (k : Kernel) → R k (record k { tcbs = advance step l k.tcbs })

module _ (R : Kernel → Kernel → Type 0) (m : Moves R) where
  pub served-moved : (s i req : ℕ) (k : Kernel) → R k (take_units s req (end_wait i e_ok k))
  served-moved s i req k =
      m.then_on k (end_wait i e_ok k) (take_units s req (end_wait i e_ok k)) (m.wakes i e_ok k)
        (m.takes s req (end_wait i e_ok k))

  pub serve_loop-moved : (s : ℕ) (l : List ℕ) (k : Kernel) → R k (serve_loop s l k)
  unfolding serve_loop
  serve_loop-moved s [] k = m.same k
  serve_loop-moved s (i ∷ l) k =
      let req = sem_request (k.tcbs i).winfo in
      let served = take_units s req (end_wait i e_ok k) in
      serve_loop_cases (R k) s i l k (λ _ _. m.same k) (λ _ _. serve_loop-moved s l k)
        (λ _ _. served-moved s i req k)
        (λ _.
          m.then_on k served (serve_loop s l served) (served-moved s i req k)
            (serve_loop-moved s l served))

  pub sem_serve_waiters-moved : (s : ℕ) (k : Kernel) → R k (sem_serve_waiters s k)
  unfolding sem_serve_waiters
  sem_serve_waiters-moved s k = serve_loop-moved s (k.waits.ring (sem_queue s)) k

  pub complete_wait-moved : (i : ℕ) (cause : Er) (k : Kernel) → R k (complete_wait i cause k)
  unfolding complete_wait
  complete_wait-moved i cause k =
      let woken = end_wait i cause k in
      let s = sem_awaited (woken.tcbs i).winfo in
      if_cases (R k) (hands_on (k.tcbs i).tskwait cause)
        (λ _.
          m.then_on k woken (sem_serve_waiters s woken) (m.wakes i cause k)
            (sem_serve_waiters-moved s woken))
        (λ _. m.wakes i cause k)

  pub set_round-moved : (s i : ℕ) (k : Kernel) → R k (set_round s i k)
  unfolding grant_ptn
  set_round-moved s i k =
      let w = (k.tcbs i).winfo in
      let ptn = (k.flgcbs s).flgptn in
      let noted = set_winfo i (event_flag (wanted_ptn w) (wanted_mode w) ptn) k in
      let set_to = set_flgptn s (clear_ptn ptn (wanted_ptn w) (wanted_mode w)) noted in
      set_round_cases (R k) s i k
        (λ _.
          m.then_on k set_to (complete_wait i e_ok set_to)
            (m.then_on k noted set_to (m.notes i (event_flag (wanted_ptn w) (wanted_mode w) ptn) k)
              (m.sets s (clear_ptn ptn (wanted_ptn w) (wanted_mode w)) noted))
            (complete_wait-moved i e_ok set_to))
        (λ _. m.same k)

  pub set_loop-moved : (s : ℕ) (l : List ℕ) (k : Kernel) → R k (set_loop s l k)
  unfolding set_loop
  set_loop-moved s [] k = m.same k
  set_loop-moved s (i ∷ l) k =
      m.then_on k (set_round s i k) (set_loop s l (set_round s i k)) (set_round-moved s i k)
        (set_loop-moved s l (set_round s i k))

  pub release_all-moved : (f q : ℕ) (k : Kernel) → R k (release_all f q k)
  unfolding release_all
  release_all-moved zero q k = m.same k
  release_all-moved (suc f) q k = elim (Option-cases (first_entry k.waits q)) [
    | inl e ↦ rw (e, release_all) (m.same k)
    | inr (i, e) ↦
        let r = complete_wait i e_dlt k in
        rw (e, release_all)
          (m.then_on k r (release_all f q r) (complete_wait-moved i e_dlt k)
            (release_all-moved f q r))
  ]

  pub pop_loop-moved : (f b : ℕ) (k : Kernel) → R k (pop_loop f b k).1
  unfolding pop_loop
  pop_loop-moved zero b k = m.same k
  pop_loop-moved (suc f) b k = elim (Option-cases (first_entry k.waits (mbx_queue_of b))) [
    | inl e ↦ rw (e, pop_loop) (m.same k)
    | inr (i, e) ↦
        let k' = set_waits (init_link i (list_del i k.waits)) k in
        let rest = pop_loop-moved f b k' in
        rw (e, pop_loop)
          (if_cases (λ (r : Option ℕ × Kernel). R k r.1)
            (is_wai (k.tcbs i).tskstat && is_mbx (k.tcbs i).tskwait) (λ _. m.pops i k)
            (λ _. m.then_on k k' (pop_loop f b k').1 (m.pops i k) rest))
  ]

  pub pop_waiting_receiver-moved : (b : ℕ) (k : Kernel) → R k (pop_waiting_receiver b k).1
  unfolding pop_waiting_receiver
  pop_waiting_receiver-moved b k = pop_loop-moved (length (k.waits.ring (mbx_queue_of b))) b k

  pub make_waiter_ready-moved :
      (i : ℕ) (cause : Er) (msg : ℕ) (k : Kernel) → R k (make_waiter_ready i cause msg k)
  unfolding make_waiter_ready
  make_waiter_ready-moved i cause msg k =
      let noted = set_winfo i (mailbox msg) k in
      m.then_on k noted (complete_wait i cause noted) (m.notes i (mailbox msg) k)
        (complete_wait-moved i cause noted)

  pub release_receivers-moved : (f b : ℕ) (k : Kernel) → R k (release_receivers f b k)
  unfolding release_receivers
  release_receivers-moved zero b k = m.same k
  release_receivers-moved (suc f) b k =
      let p = (pop_waiting_receiver b k).1 in
      let q = (pop_waiting_receiver-moved b k) in
      elim (Option-cases (pop_waiting_receiver b k).0) [
        | inl e ↦ rw (e, release_receivers) q
        | inr (i, e) ↦
            let w = make_waiter_ready i e_dlt 0 p in
            let g = m.then_on k p w q (make_waiter_ready-moved i e_dlt 0 p) in
            rw (e, release_receivers)
              (m.then_on k w (release_receivers f b w) g (release_receivers-moved f b w))
      ]

  pub expire_loop-moved :
      (f periods : ℕ) (any : Bool) (k : Kernel) → R k (expire_loop f periods any k).1
  unfolding expire_loop
  expire_loop-moved zero periods any k = m.same k
  expire_loop-moved (suc f) periods any k = elim (Option-cases (first_deadline k)) [
    | inl e ↦ rw (e, expire_loop) (m.same k)
    | inr (i, e) ↦
        let ticks = (k.tcbs i).delay_ticks in
        let step = if ltb ticks periods then ticks else periods in
        let k' = record k { tcbs = advance step (k.heads.ring timer_queue) k.tcbs } in
        let c = complete_wait i e_tmout k' in
        let g = m.counts step (k.heads.ring timer_queue) k in
        let h = m.then_on k k' c g (complete_wait-moved i e_tmout k') in
        rw (e, expire_loop)
          (if_cases (λ (r : Bool × Kernel). R k r.1) (ltb step ticks) (λ _. g)
            (λ _.
              m.then_on k c (expire_loop f (periods - step) true c).1 h
                (expire_loop-moved f (periods - step) true c)))
  ]
