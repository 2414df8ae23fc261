-- ===== src/Invariant/Enqueue.antt =====
-- A task that enters a wait queue: the rings and its link after that.
use tsukumo_core.Common.{Option-cases, ℤ, update, ℕ, ◌≡◌, ◌∙◌, inl, inr, Bool, true, false, arith}
use tsukumo_core.Invariant.Defs.{Awaits, Inv}
use tsukumo_core.Invariant.Park.{begin_wait-Inv}
use tsukumo_core.Invariant.Retask.{SameBut}
use tsukumo_core.Invariant.Switch.{IsRunnable}
use tsukumo_core.Kernel.{TaskWait, WaitInfo, Tcb, Kernel}
use tsukumo_core.Rings.{alone, on, Rings, init_link, list_add_tail, list_add_before}
use tsukumo_core.Rings.Linked.{
  IsLinked, IsOff, list_add_tail-IsLinked, list_add_before-IsLinked, init_link-IsLinked,
  list_add_tail-link, list_add_before-link, init_link-link, list_add_tail-link_self,
  list_add_before-link_self, init_link-link_self,
}
use tsukumo_core.Semaphore.{lower_waiter, enter_queue, enqueue, begin_wait, set_winfo}

-- What entering a queue does.
pub record IsEntered (i q : ℕ) (r r' : Rings) : Type 0 where
  pub linked : IsLinked r'
  pub same : SameBut i r r'
  pub entered : r'.link i ≡ on q

module _ (i q : ℕ) (r : Rings) (v : IsLinked r) (off : r.link i ≡ alone) where
  init_link-IsOff' : IsOff (r.link i)
  init_link-IsOff' a = ground arith

  init_link-IsOff : IsOff ((init_link i r).link i)
  init_link-IsOff a = rw (init_link-link_self i r)

  tail-IsEntered : IsEntered i q r (list_add_tail i q (init_link i r))
  tail-IsEntered = record {
    linked =
        list_add_tail-IsLinked i q (init_link i r) init_link-IsOff
          (init_link-IsLinked i r init_link-IsOff' v);
    same = λ j ne. list_add_tail-link i j (init_link i r) q ne ∙ init_link-link i j r ne;
    entered = list_add_tail-link_self i (init_link i r) q;
  }

  before-IsEntered : (p : ℕ) → IsEntered i q r (list_add_before i p q (init_link i r))
  before-IsEntered p = record {
    linked =
        list_add_before-IsLinked i p q (init_link i r) init_link-IsOff
          (init_link-IsLinked i r init_link-IsOff' v);
    same = λ j ne. list_add_before-link i j (init_link i r) p q ne ∙ init_link-link i j r ne;
    entered = list_add_before-link_self i (init_link i r) p q;
  }

  pub enter_queue-IsEntered :
      (by_pri : Bool) (tcbs : ℕ → Tcb) → IsEntered i q r (enter_queue by_pri q i tcbs r)
  unfolding enter_queue
  enter_queue-IsEntered false tcbs = tail-IsEntered
  enter_queue-IsEntered true tcbs =
      elim (Option-cases (lower_waiter tcbs (tcbs i).itskpri ((init_link i r).ring q))) [
        | inl e ↦ rw e tail-IsEntered
        | inr (p, e) ↦ rw e (before-IsEntered p)
      ]

-- The running task waits on the queue `q` of an object.
pub begin_wait-enqueue-Inv :
    (i q : ℕ) (by_pri : Bool) (tmout : ℤ) (tskwait : TaskWait) (winfo : WaitInfo) (k : Kernel)
    → Inv k
    → IsRunnable k.tcbs k.heads k.waits i
    → Awaits tskwait winfo (on q)
    → Inv (begin_wait tmout tskwait i (enqueue by_pri q i (set_winfo i winfo k)))
begin_wait-enqueue-Inv i q by_pri tmout tskwait winfo k v r a =
    let tcbs = update k.tcbs i (record (k.tcbs i) { winfo = winfo }) in
    let e = enter_queue-IsEntered i q k.waits v.waits_linked r.ready.free by_pri tcbs in
    begin_wait-Inv i k v r tskwait winfo _ e.linked e.same (rw e.entered a) tmout
