-- ===== src/Task/Queue.antt =====
-- kernel/task.c: the choice of the next task from the ready queues.
use tsukumo_core.Common.{if◌then◌else◌, ℕ, zero, suc, not, Option, none}
use tsukumo_core.Context.{dispatch}
use tsukumo_core.Kernel.{cfn_max_pri, ready_queue, Kernel}
use tsukumo_core.Kernel.Codes.{same_task}
use tsukumo_core.Rings.{Rings, list_empty, first_entry}

-- The loop of `tkmc_get_highest_priority_task`, with `n` queues left from `i` on.
unfoldable pub first_ready : ℕ → ℕ → Rings → Option ℕ
first_ready zero i r = none
first_ready (suc n) i r =
    if not (list_empty r (ready_queue i))
    then first_entry r (ready_queue i)
    else first_ready n (suc i) r

unfoldable pub get_highest_priority_task : Kernel → Option ℕ
get_highest_priority_task k = first_ready cfn_max_pri 0 k.heads

-- `next = tkmc_get_highest_priority_task(); if (next != current) dispatch();`
unfoldable pub reschedule : Kernel → Kernel
reschedule k =
    let n = get_highest_priority_task k in
    let k' = record k { next = n } in if not (same_task n k.current) then dispatch k' else k'
