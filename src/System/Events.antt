-- ===== src/System/Events.antt =====
-- Every event keeps what holds of the reachable states.
use tsukumo_core.Common.{◌==◌, ◌≡◌, true, not, ◌&&◌, arith}
use tsukumo_core.Context.{can_block}
use tsukumo_core.EventFlag.{tk_cre_flg, tk_wai_flg, wai_flg_return, tk_set_flg, tk_clr_flg}
use tsukumo_core.Invariant.Create.{tk_cre_tsk-Inv, tk_ext_tsk-Inv, tk_exd_tsk-Inv}
use tsukumo_core.Invariant.Drain.{tk_del_mbx-Inv}
use tsukumo_core.Invariant.Flags.{tk_wai_flg-Inv, tk_set_flg-Inv, tk_clr_flg-Inv}
use tsukumo_core.Invariant.Mailbox.{tk_snd_mbx-Inv, tk_rcv_mbx-Inv}
use tsukumo_core.Invariant.ObjectCalls.{tk_wai_sem-Inv, tk_sig_sem-Inv, tk_del_sem-Inv}
use tsukumo_core.Invariant.TaskCalls.{tk_rel_wai-Inv, tk_wup_tsk-Inv, tk_sta_tsk-Inv}
use tsukumo_core.Invariant.Timer.{tk_dly_tsk-Inv, tk_slp_tsk-Inv}
use tsukumo_core.Kernel.{
  cfn_max_semid, cfn_max_flgid, cfn_max_mbxid, sem_queue, flg_queue, mbx_queue_of, Kernel,
}
use tsukumo_core.Mailbox.{tk_cre_mbx, tk_del_mbx, tk_snd_mbx, tk_rcv_mbx, rcv_mbx_return}
use tsukumo_core.Semaphore.{tk_cre_sem, tk_wai_sem, wai_sem_return, tk_sig_sem, tk_del_sem}
use tsukumo_core.System.{
  Event, cre_tsk, sta_tsk, ext_tsk, exd_tsk, slp_tsk, dly_tsk, rel_wai, wup_tsk, cre_sem, del_sem,
  sig_sem, wai_sem, cre_flg, set_flg, clr_flg, wai_flg, cre_mbx, del_mbx, snd_mbx, rcv_mbx,
  slp_return, dly_return, sem_return, flg_return, mbx_return, disable, enable, enter_isr, exit_isr,
  switch, timer, time, perform, goes_on, has_next, entered, allowed,
}
use tsukumo_core.System.Blocked.{
  tk_dly_tsk-blocked, tk_slp_tsk-blocked, tk_wai_sem-blocked, tk_wai_flg-blocked,
  tk_rcv_mbx-blocked,
}
use tsukumo_core.System.Create.{tk_cre_sem-Inv, tk_cre_flg-Inv, tk_cre_mbx-Inv}
use tsukumo_core.System.Decided.Creations.{
  tk_cre_tsk-Decides, tk_cre_sem-Decides, tk_cre_flg-Decides, tk_cre_mbx-Decides,
}
use tsukumo_core.System.Decided.Interrupts.{software_interrupt-Decided}
use tsukumo_core.System.Decided.Mailboxes.{tk_snd_mbx-Decides, tk_del_mbx-Decides}
use tsukumo_core.System.Decided.Objects.{
  tk_sig_sem-Decides, tk_wai_sem-Decides, tk_del_sem-Decides, tk_set_flg-Decides,
  tk_clr_flg-Decides, tk_wai_flg-Decides, tk_rcv_mbx-Decides,
}
use tsukumo_core.System.Decided.Tasks.{
  tk_sta_tsk-Decides, tk_ext_tsk-Decides, tk_exd_tsk-Decides, tk_rel_wai-Decides,
  tk_wup_tsk-Decides, tk_dly_tsk-Decides, tk_slp_tsk-Decides,
}
use tsukumo_core.System.Kept.{
  Sys, CurrentRuns-of, by_current_cases, software_interrupt-Inv, software_interrupt-Objects,
  timer_interrupt-Sys, build, blocking, rcv_mbx_return-Sys, slp_tsk_return-Sys, dly_tsk_return-Sys,
  wai_sem_return-Sys, wai_flg_return-Sys, both,
}
use tsukumo_core.System.Running.Creations.{
  tk_cre_tsk-Stays, tk_cre_sem-Stays, tk_cre_flg-Stays, tk_cre_mbx-Stays,
}
use tsukumo_core.System.Running.Objects.{
  tk_sig_sem-Stays, tk_wai_sem-Stays, tk_del_sem-Stays, tk_set_flg-Stays, tk_clr_flg-Stays,
  tk_wai_flg-Stays, tk_rcv_mbx-Stays, tk_snd_mbx-Stays, tk_del_mbx-Stays,
}
use tsukumo_core.System.Running.Tasks.{
  tk_sta_tsk-Stays, tk_ext_tsk-Stays, tk_exd_tsk-Stays, tk_rel_wai-Stays, tk_wup_tsk-Stays,
  tk_dly_tsk-Stays, tk_slp_tsk-Stays,
}
use tsukumo_core.System.Unused.{sem_ids, flg_ids, mbx_ids}
use tsukumo_core.System.Unused.Calls.{
  tk_sta_tsk-Holds, tk_ext_tsk-Holds, tk_exd_tsk-Holds, tk_rel_wai-Holds, tk_wup_tsk-Holds,
  tk_dly_tsk-Holds, tk_slp_tsk-Holds, tk_sig_sem-Holds, tk_set_flg-Holds, tk_clr_flg-Holds,
  tk_snd_mbx-Holds,
}
use tsukumo_core.System.Unused.Creations.{
  Unused-fresh, tk_cre_sem-Holds, tk_cre_flg-Holds, tk_cre_mbx-Holds, tk_cre_tsk-Holds,
}
use tsukumo_core.System.Unused.Deletions.{tk_del_sem-Holds, tk_del_mbx-Holds}
use tsukumo_core.System.Unused.Objects.{tk_wai_sem-Holds, tk_wai_flg-Holds, tk_rcv_mbx-Holds}
use tsukumo_core.Task.{
  tk_cre_tsk, tk_sta_tsk, ended, tk_ext_tsk, tk_exd_tsk, tk_rel_wai, tk_wup_tsk,
}
use tsukumo_core.Timer.{
  after, timer_handler, tk_dly_tsk, dly_tsk_return, tk_slp_tsk, slp_tsk_return,
}

pub perform-Sys : (e : Event) (k : Kernel) → Sys k → allowed e k ≡ true → Sys (perform e k)
unfolding perform allowed
perform-Sys (cre_tsk p) k s a =
    build k (tk_cre_tsk p k).1 s (tk_cre_tsk-Inv p k s.inv).kept
      (tk_cre_tsk-Decides k s.decided p s.inv).after_it (tk_cre_tsk-Stays k p).current_kept
      (tk_cre_tsk-Holds k s.objects p).objects
perform-Sys (sta_tsk tskid stacd) k s a =
    build k (tk_sta_tsk tskid stacd k).1 s (tk_sta_tsk-Inv tskid stacd k s.inv).kept
      (tk_sta_tsk-Decides k s.decided tskid stacd s.running).after_it
      (tk_sta_tsk-Stays k tskid stacd).current_kept
      (tk_sta_tsk-Holds k s.objects tskid stacd).objects
perform-Sys ext_tsk k s a =
    let (g, b) = both (goes_on k) (can_block k.mie k) a in
    build k (ended (tk_ext_tsk k)) s (tk_ext_tsk-Inv k s.inv (CurrentRuns-of k s g b)).kept
      (tk_ext_tsk-Decides k s.decided).after_it (tk_ext_tsk-Stays k).current_kept
      (tk_ext_tsk-Holds k s.objects).objects
perform-Sys exd_tsk k s a =
    let (g, b) = both (goes_on k) (can_block k.mie k) a in
    build k (ended (tk_exd_tsk k)) s (tk_exd_tsk-Inv k s.inv (CurrentRuns-of k s g b)).kept
      (tk_exd_tsk-Decides k s.decided).after_it (tk_exd_tsk-Stays k).current_kept
      (tk_exd_tsk-Holds k s.objects).objects
perform-Sys (slp_tsk tmout) k s a =
    blocking k (after (tk_slp_tsk tmout k)) s a (λ b. tk_slp_tsk-blocked k b tmout)
      (λ r. (tk_slp_tsk-Inv tmout k s.inv r).kept) (tk_slp_tsk-Decides k s.decided tmout).after_it
      (tk_slp_tsk-Stays k tmout).current_kept (tk_slp_tsk-Holds k s.objects tmout).objects
perform-Sys (dly_tsk dlytm) k s a =
    blocking k (after (tk_dly_tsk dlytm k)) s a (λ b. tk_dly_tsk-blocked k b dlytm)
      (λ r. (tk_dly_tsk-Inv dlytm k s.inv r).kept) (tk_dly_tsk-Decides k s.decided dlytm).after_it
      (tk_dly_tsk-Stays k dlytm).current_kept (tk_dly_tsk-Holds k s.objects dlytm).objects
perform-Sys (rel_wai tskid) k s a =
    build k (tk_rel_wai tskid k).1 s (tk_rel_wai-Inv tskid k s.inv).kept
      (tk_rel_wai-Decides k s.decided tskid).after_it (tk_rel_wai-Stays k tskid).current_kept
      (tk_rel_wai-Holds k s.objects tskid).objects
perform-Sys (wup_tsk tskid) k s a =
    build k (tk_wup_tsk tskid k).1 s (tk_wup_tsk-Inv tskid k s.inv).kept
      (tk_wup_tsk-Decides k s.decided tskid).after_it (tk_wup_tsk-Stays k tskid).current_kept
      (tk_wup_tsk-Holds k s.objects tskid).objects
perform-Sys (cre_sem p) k s a =
    let f = Unused-fresh cfn_max_semid (sem_ids k) sem_queue k.free_semcb k.waits s.objects.0 in
    build k (tk_cre_sem p k).1 s (tk_cre_sem-Inv p k s.inv f).kept
      (tk_cre_sem-Decides k s.decided p).after_it (tk_cre_sem-Stays k p).current_kept
      (tk_cre_sem-Holds k s.objects p).objects
perform-Sys (del_sem semid) k s a =
    build k (tk_del_sem semid k).1 s (tk_del_sem-Inv semid k s.inv).kept
      (tk_del_sem-Decides k s.decided semid).after_it (tk_del_sem-Stays k semid).current_kept
      (tk_del_sem-Holds k s.objects semid s.inv).objects
perform-Sys (sig_sem semid cnt) k s a =
    build k (tk_sig_sem semid cnt k).1 s (tk_sig_sem-Inv semid cnt k s.inv).kept
      (tk_sig_sem-Decides k s.decided semid cnt).after_it
      (tk_sig_sem-Stays k semid cnt).current_kept (tk_sig_sem-Holds k s.objects semid cnt).objects
perform-Sys (wai_sem semid cnt tmout) k s a =
    blocking k (after (tk_wai_sem semid cnt tmout k)) s a
      (λ b. tk_wai_sem-blocked k b semid cnt tmout)
      (λ r. (tk_wai_sem-Inv semid cnt tmout k s.inv r).kept)
      (tk_wai_sem-Decides k s.decided semid cnt tmout).after_it
      (tk_wai_sem-Stays k semid cnt tmout).current_kept
      (tk_wai_sem-Holds k s.objects semid cnt tmout).objects
perform-Sys (cre_flg p) k s a =
    let f = Unused-fresh cfn_max_flgid (flg_ids k) flg_queue k.free_flgcb k.waits s.objects.1 in
    build k (tk_cre_flg p k).1 s (tk_cre_flg-Inv p k s.inv f).kept
      (tk_cre_flg-Decides k s.decided p).after_it (tk_cre_flg-Stays k p).current_kept
      (tk_cre_flg-Holds k s.objects p).objects
perform-Sys (set_flg flgid setptn) k s a =
    build k (tk_set_flg flgid setptn k).1 s (tk_set_flg-Inv flgid setptn k s.inv).kept
      (tk_set_flg-Decides k s.decided flgid setptn).after_it
      (tk_set_flg-Stays k flgid setptn).current_kept
      (tk_set_flg-Holds k s.objects flgid setptn).objects
perform-Sys (clr_flg flgid clrptn) k s a =
    build k (tk_clr_flg flgid clrptn k).1 s (tk_clr_flg-Inv flgid clrptn k s.inv).kept
      (tk_clr_flg-Decides k s.decided flgid clrptn).after_it
      (tk_clr_flg-Stays k flgid clrptn).current_kept
      (tk_clr_flg-Holds k s.objects flgid clrptn).objects
perform-Sys (wai_flg flgid waiptn wfmode has_ptr tmout) k s a =
    blocking k (after (tk_wai_flg flgid waiptn wfmode has_ptr tmout k)) s a
      (λ b. tk_wai_flg-blocked k b flgid waiptn wfmode has_ptr tmout)
      (λ r. (tk_wai_flg-Inv flgid waiptn wfmode has_ptr tmout k s.inv r).kept)
      (tk_wai_flg-Decides k s.decided flgid waiptn wfmode has_ptr tmout).after_it
      (tk_wai_flg-Stays k flgid waiptn wfmode has_ptr tmout).current_kept
      (tk_wai_flg-Holds k s.objects flgid waiptn wfmode has_ptr tmout).objects
perform-Sys (cre_mbx p) k s a =
    let f = Unused-fresh cfn_max_mbxid (mbx_ids k) mbx_queue_of k.free_mbxcb k.waits s.objects.2 in
    build k (tk_cre_mbx p k).1 s (tk_cre_mbx-Inv p k s.inv f).kept
      (tk_cre_mbx-Decides k s.decided p).after_it (tk_cre_mbx-Stays k p).current_kept
      (tk_cre_mbx-Holds k s.objects p).objects
perform-Sys (del_mbx mbxid) k s a =
    build k (tk_del_mbx mbxid k).1 s (tk_del_mbx-Inv mbxid k s.inv).kept
      (tk_del_mbx-Decides k s.decided mbxid s.running).after_it
      (tk_del_mbx-Stays k mbxid).current_kept (tk_del_mbx-Holds k s.objects mbxid s.inv).objects
perform-Sys (snd_mbx mbxid msg) k s a =
    build k (tk_snd_mbx mbxid msg k).1 s (tk_snd_mbx-Inv mbxid msg k s.inv).kept
      (tk_snd_mbx-Decides k s.decided mbxid msg s.running).after_it
      (tk_snd_mbx-Stays k mbxid msg).current_kept (tk_snd_mbx-Holds k s.objects mbxid msg).objects
perform-Sys (rcv_mbx mbxid has_ptr tmout) k s a =
    blocking k (after (tk_rcv_mbx mbxid has_ptr tmout k)) s a
      (λ b. tk_rcv_mbx-blocked k b mbxid has_ptr tmout)
      (λ r. (tk_rcv_mbx-Inv mbxid has_ptr tmout k s.inv r).kept)
      (tk_rcv_mbx-Decides k s.decided mbxid has_ptr tmout).after_it
      (tk_rcv_mbx-Stays k mbxid has_ptr tmout).current_kept
      (tk_rcv_mbx-Holds k s.objects mbxid has_ptr tmout).objects
perform-Sys slp_return k s a =
    by_current_cases Sys (λ i r. (slp_tsk_return i r).1) k s (λ i e. slp_tsk_return-Sys i k s)
perform-Sys dly_return k s a =
    by_current_cases Sys (λ i r. (dly_tsk_return i r).1) k s (λ i e. dly_tsk_return-Sys i k s)
perform-Sys sem_return k s a =
    by_current_cases Sys (λ i r. (wai_sem_return i r).1) k s (λ i e. wai_sem_return-Sys i k s)
perform-Sys flg_return k s a =
    by_current_cases Sys (λ i r. (wai_flg_return i r).1) k s (λ i e. wai_flg_return-Sys i k s)
perform-Sys mbx_return k s a =
    let (g, b) = both (goes_on k) (can_block k.mie k) a in
    by_current_cases Sys (λ i r. (rcv_mbx_return i r).1) k s
      (λ i e. rcv_mbx_return-Sys i k s (CurrentRuns-of k s g b i e))
perform-Sys disable k s a = record {
  inv = s.inv;
  decided = record { chosen = s.decided.chosen };
  running = s.running;
  objects = s.objects;
}
perform-Sys enable k s a = record {
  inv = s.inv;
  decided = record { chosen = s.decided.chosen };
  running = s.running;
  objects = s.objects;
}
perform-Sys enter_isr k s a = record {
  inv = s.inv;
  decided = record { chosen = s.decided.chosen };
  running = s.running;
  objects = s.objects;
}
perform-Sys exit_isr k s a = record {
  inv = s.inv;
  decided = record { chosen = s.decided.chosen };
  running = s.running;
  objects = s.objects;
}
perform-Sys (switch sp) k s a =
    let (g, n) = both (not (goes_on k)) (has_next k) a in
    let m : k.msip ≡ true = ground (arith, g) in
    let (d, c) = software_interrupt-Decided k s.decided sp m n s.running in
    record {
      inv = software_interrupt-Inv sp k s.inv s.decided m;
      decided = d;
      running = c;
      objects = software_interrupt-Objects sp k s.objects;
    }
perform-Sys (timer sp) k s a =
    let (t, b) =
      both (k.mie && (k.isr_depth == 0)) (goes_on k && has_next (timer_handler (entered k))) a in
    let (g, n) = both (goes_on k) (has_next (timer_handler (entered k))) b in
    timer_interrupt-Sys sp k s n
perform-Sys (time t) k s a = record {
  inv = s.inv;
  decided = record { chosen = s.decided.chosen };
  running = s.running;
  objects = s.objects;
}
