-- ===== src/System/Create.antt =====
-- The invariant, the creations of semaphores, event flags and mailboxes, and the code behind the
-- waits.
use tsukumo_core.Common.{
  if_cases, pos_part, is_empty, update, update_self, ℕ, ◌≤◌, ◌≡◌, refl, sym, ap, ◌∙◌, subst, true,
  not, Option, none, some, List, [], ◌∷◌, arith,
}
use tsukumo_core.Context.{di}
use tsukumo_core.EventFlag.{TCflg, allocate_flgcb, tk_cre_flg}
use tsukumo_core.Invariant.Defs.{Tables, Inv, Keeps}
use tsukumo_core.Invariant.Switch.{IsRunnable}
use tsukumo_core.Invariant.Switching.{restate-Inv}
use tsukumo_core.Kernel.{
  e_ok, Created, unwaited, mailbox, sem_queue, flg_queue, mbx_queue_of, Kernel, set_waits,
}
use tsukumo_core.Kernel.Codes.{not_32, has_bits, is_ok}
use tsukumo_core.Mailbox.{TCmbx, allocate_mbxcb, tk_cre_mbx, rcv_mbx_return}
use tsukumo_core.Rings.{alone, Rings, init_head, link_empty}
use tsukumo_core.Semaphore.{TCsem, check_csem, allocate_semcb, tk_cre_sem}
use tsukumo_core.System.{fresh}
use tsukumo_core.System.Decided.{nil_of_empty}
use tsukumo_core.Task.Wait.{leave_wait}

init_head-same : (q : ℕ) (r : Rings) → r.ring q ≡ [] → init_head q r ≡ r
unfolding init_head
init_head-same q r e =
    ap (λ (l : List ℕ). record r { ring = update r.ring q l }) (sym e)
    ∙ ap (λ (f : ℕ → List ℕ). record r { ring = f }) (update_self r.ring q)

-- A ring that is empty is initialised again.
emptied-Inv :
    (q : ℕ) (k : Kernel)
    → Inv k
    → is_empty (k.waits.ring q) ≡ true
    → Inv (set_waits (init_head q k.waits) k)
emptied-Inv q k v e =
    subst (λ w. Tables k.tcbs k.heads w k.semcbs)
      (sym (init_head-same q k.waits (nil_of_empty (k.waits.ring q) e))) v

check_csem-units :
    (p : TCsem) → is_ok (check_csem p) ≡ true → pos_part p.isemcnt ≤ pos_part p.maxsem
unfolding check_csem is_ok
check_csem-units p h = ground arith

allocate_semcb-Inv :
    (p : TCsem) (l : List ℕ) (k : Kernel)
    → is_ok (check_csem p) ≡ true
    → Inv k
    → fresh sem_queue l k.waits ≡ true
    → Inv (allocate_semcb p l k).1
unfolding allocate_semcb
allocate_semcb-Inv p [] k ok v f = v
allocate_semcb-Inv p (s ∷ l) k ok v f =
    let w = emptied-Inv (sem_queue s) k v f in
    record {
      heads_linked = w.heads_linked;
      waits_linked = w.waits_linked;
      placed = w.placed;
      named = w.named;
      stray = w.stray;
      wakeups = w.wakeups;
      units = λ n. ground (arith, w.units n, check_csem-units p ok);
    }

pub tk_cre_sem-Inv :
    (p : Option TCsem) (k : Kernel)
    → Inv k
    → fresh sem_queue k.free_semcb k.waits ≡ true
    → Keeps (tk_cre_sem p k)
unfolding tk_cre_sem
tk_cre_sem-Inv none k v f = record { kept = v }
tk_cre_sem-Inv (some p) k v f =
    if_cases {A = Created × Kernel} Keeps (not (is_ok (check_csem p))) (λ _. record { kept = v })
      (λ t. record { kept = allocate_semcb-Inv p k.free_semcb (di k) (ground arith) v f })

allocate_flgcb-Inv :
    (p : TCflg) (l : List ℕ) (k : Kernel)
    → Inv k
    → fresh flg_queue l k.waits ≡ true
    → Inv (allocate_flgcb p l k).1
unfolding allocate_flgcb
allocate_flgcb-Inv p [] k v f = v
allocate_flgcb-Inv p (s ∷ l) k v f = emptied-Inv (flg_queue s) k v f

pub tk_cre_flg-Inv :
    (p : Option TCflg) (k : Kernel)
    → Inv k
    → fresh flg_queue k.free_flgcb k.waits ≡ true
    → Keeps (tk_cre_flg p k)
unfolding tk_cre_flg
tk_cre_flg-Inv none k v f = record { kept = v }
tk_cre_flg-Inv (some p) k v f =
    if_cases {A = Created × Kernel} Keeps (has_bits p.flgatr (not_32 0x09))
      (λ _. record { kept = v })
      (λ t. record { kept = allocate_flgcb-Inv p k.free_flgcb (di k) v f })

allocate_mbxcb-Inv :
    (p : TCmbx) (l : List ℕ) (k : Kernel)
    → Inv k
    → fresh mbx_queue_of l k.waits ≡ true
    → Inv (allocate_mbxcb p l k).1
unfolding allocate_mbxcb
allocate_mbxcb-Inv p [] k v f = v
allocate_mbxcb-Inv p (s ∷ l) k v f = emptied-Inv (mbx_queue_of s) k v f

pub tk_cre_mbx-Inv :
    (p : Option TCmbx) (k : Kernel)
    → Inv k
    → fresh mbx_queue_of k.free_mbxcb k.waits ≡ true
    → Keeps (tk_cre_mbx p k)
unfolding tk_cre_mbx
tk_cre_mbx-Inv none k v f = record { kept = v }
tk_cre_mbx-Inv (some p) k v f =
    if_cases {A = Created × Kernel} Keeps (has_bits p.mbxatr (not_32 0x03))
      (λ _. record { kept = v })
      (λ t. record { kept = allocate_mbxcb-Inv p k.free_mbxcb (di k) v f })

-- The running task is on no wait queue, and stays off them.
leave_wait-same : (i : ℕ) (r : Rings) → r.link i ≡ alone → leave_wait i r ≡ r
unfolding link_empty
leave_wait-same i r e = rw e refl

pub rcv_mbx_return-Inv :
    (i : ℕ) (k : Kernel) → Inv k → IsRunnable k.tcbs k.heads k.waits i → Keeps (rcv_mbx_return i k)
unfolding rcv_mbx_return
rcv_mbx_return-Inv i k v r =
    let t = record (k.tcbs i) {
      winfo = mailbox 0;
      wupcause = e_ok;
      delay_ticks = 0;
      tskwait = unwaited;
    } in
    let w =
      restate-Inv i k t v
        (λ lt. ground (arith, v.placed i lt, r.ready.queued, r.ready.unwaiting, r.ready.free)) refl
        refl in
    record {
      kept =
          subst (λ z. Tables (update k.tcbs i t) k.heads z k.semcbs)
            (sym (leave_wait-same i k.waits r.ready.free)) w;
    }
