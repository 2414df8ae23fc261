-- ===== src/System/Unused/Shrinks.antt =====
-- Waits end, and no queue is filled.
use tsukumo_core.Common.{if_cases, erase, ℕ, ◌≡◌, refl, ◌∙◌, not, List, [], arith}
use tsukumo_core.Kernel.{
  cfn_max_semid, cfn_max_flgid, cfn_max_mbxid, sem_queue, flg_queue, mbx_queue_of, Kernel,
  set_waits,
}
use tsukumo_core.Mailbox.{set_messages}
use tsukumo_core.Rings.{Rings, init_link, link_empty, del_from, list_del}
use tsukumo_core.System.Moves.{Moves}
use tsukumo_core.System.Unused.{sem_ids, flg_ids, mbx_ids, Objects, Unused-same}
use tsukumo_core.Task.Wait.{leave_wait, end_wait}

pub record Shrinks (k k' : Kernel) : Type 0 where
  pub rings : (q : ℕ) → k.waits.ring q ≡ [] → k'.waits.ring q ≡ []
  pub semids : (s : ℕ) → sem_ids k' s ≡ sem_ids k s
  pub flgids : (s : ℕ) → flg_ids k' s ≡ flg_ids k s
  pub mbxids : (b : ℕ) → mbx_ids k' b ≡ mbx_ids k b
  pub free_sems : k'.free_semcb ≡ k.free_semcb
  pub free_flgs : k'.free_flgcb ≡ k.free_flgcb
  pub free_mbxs : k'.free_mbxcb ≡ k.free_mbxcb

pub Shrinks-refl : (k : Kernel) → Shrinks k k
Shrinks-refl k = record {
  rings = λ q e. e;
  semids = λ s. refl;
  flgids = λ s. refl;
  mbxids = λ b. refl;
  free_sems = refl;
  free_flgs = refl;
  free_mbxs = refl;
}

pub Shrinks-trans : (a b c : Kernel) → Shrinks a b → Shrinks b c → Shrinks a c
Shrinks-trans a b c f g = record {
  rings = λ q e. g.rings q (f.rings q e);
  semids = λ s. g.semids s ∙ f.semids s;
  flgids = λ s. g.flgids s ∙ f.flgids s;
  mbxids = λ s. g.mbxids s ∙ f.mbxids s;
  free_sems = g.free_sems ∙ f.free_sems;
  free_flgs = g.free_flgs ∙ f.free_flgs;
  free_mbxs = g.free_mbxs ∙ f.free_mbxs;
}

pub Objects-Shrinks : (k k' : Kernel) → Shrinks k k' → Objects k → Objects k'
Objects-Shrinks k k' f (a, b, c) = (
  Unused-same cfn_max_semid (sem_ids k) (sem_ids k') sem_queue k.free_semcb k'.free_semcb k.waits
      k'.waits f.free_sems f.semids f.rings a,
  Unused-same cfn_max_flgid (flg_ids k) (flg_ids k') flg_queue k.free_flgcb k'.free_flgcb k.waits
      k'.waits f.free_flgs f.flgids f.rings b,
  Unused-same cfn_max_mbxid (mbx_ids k) (mbx_ids k') mbx_queue_of k.free_mbxcb k'.free_mbxcb k.waits
      k'.waits f.free_mbxs f.mbxids f.rings c,
)

-- The waits alone have changed.
pub waits-Shrinks :
    (k : Kernel) (w : Rings)
    → ((q : ℕ) → k.waits.ring q ≡ [] → w.ring q ≡ [])
    → Shrinks k (set_waits w k)
waits-Shrinks k w h = record {
  rings = h;
  semids = λ s. refl;
  flgids = λ s. refl;
  mbxids = λ b. refl;
  free_sems = refl;
  free_flgs = refl;
  free_mbxs = refl;
}

list_del-empty : (i q : ℕ) (r : Rings) → r.ring q ≡ [] → (list_del i r).ring q ≡ []
unfolding list_del del_from erase
list_del-empty i q r e = ground (arith, e)

pop-empty : (i q : ℕ) (r : Rings) → r.ring q ≡ [] → (init_link i (list_del i r)).ring q ≡ []
unfolding init_link
pop-empty i q r e = list_del-empty i q r e

pub leave_wait-empty : (i q : ℕ) (r : Rings) → r.ring q ≡ [] → (leave_wait i r).ring q ≡ []
unfolding init_link
leave_wait-empty i q r e =
    if_cases {A = Rings} (λ s. s.ring q ≡ []) (not (link_empty r i)) (λ _. list_del-empty i q r e)
      (λ _. e)

pub Shrinks-Moves : Moves Shrinks
unfolding end_wait
Shrinks-Moves = record {
  same = Shrinks-refl;
  then_on = Shrinks-trans;
  wakes = λ i cause k. record {
    rings = λ q e. leave_wait-empty i q k.waits e;
    semids = λ s. refl;
    flgids = λ s. refl;
    mbxids = λ b. refl;
    free_sems = refl;
    free_flgs = refl;
    free_mbxs = refl;
  };
  takes = λ s req k. record {
    rings = λ q e. e;
    semids = λ j. ground arith;
    flgids = λ j. refl;
    mbxids = λ b. refl;
    free_sems = refl;
    free_flgs = refl;
    free_mbxs = refl;
  };
  notes = λ i w k. record {
    rings = λ q e. e;
    semids = λ s. refl;
    flgids = λ s. refl;
    mbxids = λ b. refl;
    free_sems = refl;
    free_flgs = refl;
    free_mbxs = refl;
  };
  sets = λ s ptn k. record {
    rings = λ q e. e;
    semids = λ j. refl;
    flgids = λ j. ground arith;
    mbxids = λ b. refl;
    free_sems = refl;
    free_flgs = refl;
    free_mbxs = refl;
  };
  pops = λ i k. waits-Shrinks k (init_link i (list_del i k.waits)) (λ q e. pop-empty i q k.waits e);
  counts = λ step l k. record {
    rings = λ q e. e;
    semids = λ s. refl;
    flgids = λ s. refl;
    mbxids = λ b. refl;
    free_sems = refl;
    free_flgs = refl;
    free_mbxs = refl;
  };
}

-- The messages of a mailbox have no part in it.
pub set_messages-Shrinks : (b : ℕ) (ms : List ℕ) (k : Kernel) → Shrinks k (set_messages b ms k)
set_messages-Shrinks b ms k = record {
  rings = λ q e. e;
  semids = λ s. refl;
  flgids = λ s. refl;
  mbxids = λ j. ground arith;
  free_sems = refl;
  free_flgs = refl;
  free_mbxs = refl;
}
