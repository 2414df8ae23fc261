-- ===== src/Semaphore/Serve.antt =====
-- What `tkmc_sem_serve_waiters` of kernel/semaphore.c leaves behind: who still waits, and which
-- units are gone.
use tsukumo_core.Common.{
  ◌==◌, if◌then◌else◌, first, count, erase, count-nil, count-cons, ℕ, ◌+◌, ◌-◌, ◌≤◌, ◌<◌, ◌≡◌, refl,
  ◌∙◌, ◌≢◌, true, false, some, List, [], ◌∷◌, arith,
}
use tsukumo_core.Invariant.Defs.{Inv}
use tsukumo_core.Invariant.Wait.{Queued, Queued-end_wait}
use tsukumo_core.Kernel.{cfn_max_semid, e_ok, Tcb, sem_queue, Kernel}
use tsukumo_core.Kernel.Codes.{has_bits}
use tsukumo_core.Rings.{on, init_link, link_empty, first_entry, list_del}
use tsukumo_core.Rings.Linked.{times_on}
use tsukumo_core.Task.Wait.{ta_cnt, sem_request, end_wait, take_units, serve_loop, serve_loop_cases}

-- What a round of the walk does to one semaphore and to one task.
module _ (s i : ℕ) (req : ℕ) (k : Kernel) where
  served-winfo : (j : ℕ) → ((take_units s req (end_wait i e_ok k)).tcbs j).winfo ≡ (k.tcbs j).winfo
  unfolding end_wait
  served-winfo j = ground arith

  pub served-sematr : ((take_units s req (end_wait i e_ok k)).semcbs s).sematr ≡ (k.semcbs s).sematr
  unfolding end_wait
  served-sematr = ground arith

  served-semcnt :
      ((take_units s req (end_wait i e_ok k)).semcbs s).semcnt ≡ (k.semcbs s).semcnt - req
  unfolding end_wait
  served-semcnt = ground arith

  served-link :
      (j : ℕ) → i ≢ j → (take_units s req (end_wait i e_ok k)).waits.link j ≡ k.waits.link j
  unfolding end_wait link_empty list_del init_link
  served-link j ne = ground arith

  served-link_self : (q : ℕ) → ¬ ((take_units s req (end_wait i e_ok k)).waits.link i ≡ on q)
  unfolding end_wait link_empty list_del init_link
  served-link_self q = ground arith

served-ring :
    (s i req : ℕ) (k : Kernel) (l : List ℕ)
    → k.waits.ring (sem_queue s) ≡ i ∷ l
    → k.waits.link i ≡ on (sem_queue s)
    → (take_units s req (end_wait i e_ok k)).waits.ring (sem_queue s) ≡ l
unfolding end_wait link_empty list_del init_link erase
served-ring s i req k l r h = ground arith

-- The walk asks for nothing: it only ends waits.
serve_loop-winfo :
    (s : ℕ) (l : List ℕ) (k : Kernel) (j : ℕ) → ((serve_loop s l k).tcbs j).winfo ≡ (k.tcbs j).winfo
unfolding serve_loop
serve_loop-winfo s [] k j = refl
serve_loop-winfo s (i ∷ l) k j =
    let req = sem_request (k.tcbs i).winfo in
    let same = served-winfo s i req k j in
    serve_loop_cases (λ r. (r.tcbs j).winfo ≡ (k.tcbs j).winfo) s i l k (λ _ _. refl)
      (λ _ _. serve_loop-winfo s l k j) (λ _ _. same)
      (λ _. serve_loop-winfo s l (take_units s req (end_wait i e_ok k)) j ∙ same)

serve_loop-semcnt-le :
    (s : ℕ) (l : List ℕ) (k : Kernel) → ((serve_loop s l k).semcbs s).semcnt ≤ (k.semcbs s).semcnt
unfolding serve_loop
serve_loop-semcnt-le s [] k = omega arith
serve_loop-semcnt-le s (i ∷ l) k =
    let req = sem_request (k.tcbs i).winfo in
    let less = served-semcnt s i req k in
    let rest = serve_loop-semcnt-le s l (take_units s req (end_wait i e_ok k)) in
    serve_loop_cases (λ r. (r.semcbs s).semcnt ≤ (k.semcbs s).semcnt) s i l k (λ _ _. omega arith)
      (λ _ _. serve_loop-semcnt-le s l k) (λ _ _. omega (arith, less))
      (λ _. omega (arith, less, rest))

-- A task that is not in the list keeps its link.
pub serve_loop-link :
    (s : ℕ) (l : List ℕ) (k : Kernel) (j : ℕ)
    → count j l ≡ 0
    → (serve_loop s l k).waits.link j ≡ k.waits.link j
unfolding serve_loop
serve_loop-link s [] k j out = refl
serve_loop-link s (i ∷ l) k j out =
    let req = sem_request (k.tcbs i).winfo in
    let out_tail : count j l ≡ 0 = omega (arith, count-cons j i l) in
    let same = served-link s i req k j (ground (arith, count-cons j i l)) in
    serve_loop_cases (λ r. r.waits.link j ≡ k.waits.link j) s i l k (λ _ _. refl)
      (λ _ _. serve_loop-link s l k j out_tail) (λ _ _. same)
      (λ _. serve_loop-link s l (take_units s req (end_wait i e_ok k)) j out_tail ∙ same)

-- Task `j`, if it is still in the queue of semaphore `s`, asks for more than there is.
abbrev pub Starved : ℕ → Kernel → ℕ → Type 0
Starved s k j =
    k.waits.link j ≡ on (sem_queue s) → (k.semcbs s).semcnt < sem_request (k.tcbs j).winfo

-- Each task of a list asks for a unit at least.
abbrev pub Asking : (ℕ → Tcb) → List ℕ → Type 0
Asking tcbs [] = Unit {0}
Asking tcbs (i ∷ l) = (0 < sem_request (tcbs i).winfo) × Asking tcbs l

Asking-served :
    (s i req : ℕ) (k : Kernel) (l : List ℕ)
    → Asking k.tcbs l
    → Asking (take_units s req (end_wait i e_ok k)).tcbs l
Asking-served s i req k [] a = tt
Asking-served s i req k (j ∷ l) a =
    (rw (served-winfo s i req k j) a.0, Asking-served s i req k l a.1)

Asking-of :
    (tcbs : ℕ → Tcb) (l : List ℕ) (j : ℕ)
    → Asking tcbs l
    → 0 < count j l
    → 0 < sem_request (tcbs j).winfo
Asking-of tcbs [] j a h = absurd (ground (arith, count-nil j))
Asking-of tcbs (i ∷ l) j a h = ground (arith, count-cons j i l, Asking-of tcbs l j a.1)

first-Asking :
    (tcbs : ℕ → Tcb) (l : List ℕ) (j : ℕ)
    → Asking tcbs l
    → first l ≡ some j
    → 0 < sem_request (tcbs j).winfo
first-Asking tcbs [] j a e = cc
first-Asking tcbs (i ∷ l) j a e = ground (arith, a)

-- A walk that skips the waiters that it cannot serve leaves no waiter that it could.
pub serve_loop-Starved :
    (s : ℕ) (l : List ℕ) (k : Kernel)
    → has_bits (k.semcbs s).sematr ta_cnt ≡ true
    → Queued (sem_queue s) k.waits l
    → Asking k.tcbs l
    → (j : ℕ) → 0 < count j l
    → Starved s (serve_loop s l k) j
serve_loop-Starved s [] k cnt m a j h = absurd (ground (arith, count-nil j))
serve_loop-Starved s (i ∷ l) k cnt m a j h =
    let req = sem_request (k.tcbs i).winfo in
    let k' = take_units s req (end_wait i e_ok k) in
    let here = served-semcnt s i req k in
    let rest =
      serve_loop-Starved s l k' (rw (served-sematr s i req k) cnt)
        (Queued-end_wait (sem_queue s) i e_ok k l m.2 m.3) (Asking-served s i req k l a.1) j in
    let skipped = serve_loop-Starved s l k cnt m.3 a.1 j in
    let gone = served-link_self s i req k (sem_queue s) in
    serve_loop_cases (λ r. Starved s r j) s i l k (λ few c _. absurd cc)
      (λ few _ on_q.
        ground
          (arith, count-cons j i l, skipped, serve_loop-semcnt-le s l k, serve_loop-winfo s l k j))
      (λ enough z on_q.
        ground (arith, count-cons j i l, gone, Asking-of k.tcbs l j a.1, served-winfo s i req k j))
      (λ enough on_q. ground (arith, count-cons j i l, gone, rest, serve_loop-link s l k' i m.2))

-- The waiters of a semaphore ask for a unit at least.
pub Asking-ring :
    (s : ℕ) (k : Kernel) (l : List ℕ)
    → Inv k
    → s < cfn_max_semid
    → Queued (sem_queue s) k.waits l
    → Asking k.tcbs l
Asking-ring s k [] v lt m = tt
Asking-ring s k (i ∷ l) v lt m = (ground (arith, v.placed i m.0, m.1), Asking-ring s k l v lt m.3)

-- The units that the walk has handed out: what the tasks that are gone from the queue asked for.
abbrev pub handed_out : ℕ → Kernel → List ℕ → ℕ
handed_out s k [] = 0
handed_out s k (i ∷ l) =
    (if times_on (k.waits.link i) (sem_queue s) == 1 then 0 else sem_request (k.tcbs i).winfo)
    + handed_out s k l

handed_out_none :
    (s : ℕ) (k : Kernel) (l : List ℕ) → Queued (sem_queue s) k.waits l → handed_out s k l ≡ 0
handed_out_none s k [] m = refl
handed_out_none s k (i ∷ l) m = ground (arith, handed_out_none s k l m.3, m.1)

pub serve_loop-handed_out :
    (s : ℕ) (l : List ℕ) (k : Kernel)
    → Queued (sem_queue s) k.waits l
    → ((serve_loop s l k).semcbs s).semcnt + handed_out s (serve_loop s l k) l ≡ (k.semcbs s).semcnt
unfolding serve_loop
serve_loop-handed_out s [] k m = omega arith
serve_loop-handed_out s (i ∷ l) k m =
    let req = sem_request (k.tcbs i).winfo in
    let k' = take_units s req (end_wait i e_ok k) in
    let here = served-semcnt s i req k in
    let gone = served-link_self s i req k (sem_queue s) in
    let still = Queued-end_wait (sem_queue s) i e_ok k l m.2 m.3 in
    let rest = serve_loop-handed_out s l k' still in
    serve_loop_cases (λ r. (r.semcbs s).semcnt + handed_out s r (i ∷ l) ≡ (k.semcbs s).semcnt) s i l
      k (λ few c. ground (arith, m.1, handed_out_none s k l m.3))
      (λ few _. ground (arith, m.1, serve_loop-link s l k i m.2, serve_loop-handed_out s l k m.3))
      (λ enough z. ground (arith, gone, handed_out_none s k' l still, served-winfo s i req k i))
      (λ enough. ground (
        arith,
        gone,
        rest,
        serve_loop-link s l k' i m.2,
        served-winfo s i req k i,
        serve_loop-winfo s l k' i,
      ))

-- A walk that stops at the first waiter that it cannot serve serves the waiters in the order of
-- the queue: the new head asks for more than there is.
pub serve_loop-first :
    (s : ℕ) (l : List ℕ) (k : Kernel)
    → has_bits (k.semcbs s).sematr ta_cnt ≡ false
    → k.waits.ring (sem_queue s) ≡ l
    → Queued (sem_queue s) k.waits l
    → Asking k.tcbs l
    → (j : ℕ) → first_entry (serve_loop s l k).waits (sem_queue s) ≡ some j
    → ((serve_loop s l k).semcbs s).semcnt < sem_request ((serve_loop s l k).tcbs j).winfo
unfolding serve_loop first_entry
serve_loop-first s [] k c r m a j = ground arith
serve_loop-first s (i ∷ l) k c r m a j =
    let req = sem_request (k.tcbs i).winfo in
    let k' = take_units s req (end_wait i e_ok k) in
    let here = served-semcnt s i req k in
    let ring : k'.waits.ring (sem_queue s) ≡ l = served-ring s i req k l r m.1 in
    let rest =
      serve_loop-first s l k' (rw (served-sematr s i req k) c) ring
        (Queued-end_wait (sem_queue s) i e_ok k l m.2 m.3) (Asking-served s i req k l a.1) j in
    serve_loop_cases
      (λ x.
        first_entry x.waits (sem_queue s) ≡ some j
        → (x.semcbs s).semcnt < sem_request (x.tcbs j).winfo)
      s i l k (λ few _ f. ground (arith, r)) (λ few c'. absurd (ground arith))
      (λ enough z f. ground (arith, ring, first-Asking k.tcbs l j a.1, served-winfo s i req k j))
      (λ enough. rest)
