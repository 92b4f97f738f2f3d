-- ===== src/Capacity/Always.antt =====
-- The soundness of the database through every call, and through a history of calls.
use eastwatch.Prelude.{
  ◌≤◌, String, Bool, some, List, [], ◌∷◌, ◌≡◌, refl, subst, arith, str_eq, eq_iff,
}
use eastwatch.Table.{find_where}
use eastwatch.Table.Every.{find-All, find-holds}
use eastwatch.Schema.{Db, Workspace}
use eastwatch.Store.Workspaces.{mark_workspace_ready}
use eastwatch.Store.Events.{
  record_event, record_dispatch_event, queue_pending, clear_pending, enqueue_job,
}
use eastwatch.Store.Outbox.{claim_outbox, mark_outbox_delivered, mark_outbox_failed}
use eastwatch.Store.Leases.{mark_started, heartbeat}
use eastwatch.Store.Complete.{complete_job, fail_unstarted}
use eastwatch.Store.Reap.{reap_expired}
use eastwatch.Store.Actions.{claim_workspace_actions}
use eastwatch.Store.Finish.{finish_workspace_action}
use eastwatch.Jobs.Rows.{Keyed}
use eastwatch.Jobs.Inserts.{enqueue_job-Enters, record_dispatch_event-Enters}
use eastwatch.Jobs.Starts.{mark_started-Settles, heartbeat-Settles}
use eastwatch.Jobs.Completions.{complete_job-Settles, fail_unstarted-Settles}
use eastwatch.Jobs.Reaps.{reap_expired-Settles}
use eastwatch.Jobs.Compactions.{claim_workspace_actions-jobs, finish_workspace_action-Settles}
use eastwatch.History.{
  Call, step, run, ready, receives, dispatches, queues, clears, enqueues, claims_outbox, delivers,
  fails_delivery, claims, starts, beats, completes, fails, reaps, claims_actions, finishes_action,
}
use eastwatch.History.Steps.{
  step-Grows, record_event-jobs, queue_pending-jobs, ready-jobs, delivered-jobs, failed-jobs,
}
use eastwatch.Capacity.{IsSound, active_count}
use eastwatch.Capacity.Rooms.{
  ready-rooms, heartbeat-rooms, record_event-rooms, dispatch-rooms, queue_pending-rooms,
  enqueue-rooms, delivered-rooms, failed-rooms, started-rooms, complete_job-rooms,
  fail_unstarted-rooms, reap-rooms, claim_workspace_actions-rooms, finish_workspace_action-rooms,
}
use eastwatch.Capacity.Effects.{
  IsSound-step, same_step, settled_step, settled_less, entered_step, claim_jobs-IsSound,
}

step_keyed :
    (text_le : String → String → Bool) (c : Call) (db : Db) → IsSound db → Keyed (step text_le c db)
step_keyed text_le c db s = (step-Grows text_le c db s.job_ids).1

pub step-IsSound :
    (text_le : String → String → Bool) (c : Call) (db : Db)
    → IsSound db
    → IsSound (step text_le c db)
unfolding step clear_pending claim_outbox
step-IsSound text_le (ready w now) db s =
    IsSound-step db (mark_workspace_ready w now db).1 s (step_keyed text_le (ready w now) db s)
      (ready-rooms w now db) (λ id. rw (ready-jobs w now db) (omega arith))
step-IsSound text_le (receives r) db s =
    same_step db (record_event r db).1 s (step_keyed text_le (receives r) db s)
      (record_event-rooms r db) (record_event-jobs r db)
step-IsSound text_le (dispatches e kind actor payload now) db s =
    entered_step db (record_dispatch_event e kind actor payload now db).1 s
      (step_keyed text_le (dispatches e kind actor payload now) db s)
      (dispatch-rooms e kind actor payload now db)
      (record_dispatch_event-Enters e kind actor payload now db s.job_ids)
step-IsSound text_le (queues key entry r now) db s =
    same_step db (queue_pending key entry r now db).1 s
      (step_keyed text_le (queues key entry r now) db s) (queue_pending-rooms key entry r now db)
      (queue_pending-jobs key entry r now db)
step-IsSound text_le (clears key count now) db s =
    same_step db (clear_pending key count now db).1 s
      (step_keyed text_le (clears key count now) db s) refl refl
step-IsSound text_le (enqueues e now) db s =
    entered_step db (enqueue_job e now db).1 s (step_keyed text_le (enqueues e now) db s)
      (enqueue-rooms e now db) (enqueue_job-Enters e now db s.job_ids)
step-IsSound text_le (claims_outbox limit seconds now) db s =
    same_step db (claim_outbox limit seconds now db).1 s
      (step_keyed text_le (claims_outbox limit seconds now) db s) refl refl
step-IsSound text_le (delivers id generation now) db s =
    same_step db (mark_outbox_delivered id generation now db).1 s
      (step_keyed text_le (delivers id generation now) db s) (delivered-rooms id generation now db)
      (delivered-jobs id generation now db)
step-IsSound text_le (fails_delivery id generation error retry_at) db s =
    same_step db (mark_outbox_failed id generation error retry_at db).1 s
      (step_keyed text_le (fails_delivery id generation error retry_at) db s)
      (failed-rooms id generation error retry_at db) (failed-jobs id generation error retry_at db)
step-IsSound text_le (claims w limit seconds now) db s =
    claim_jobs-IsSound text_le w limit seconds now db s
      (step_keyed text_le (claims w limit seconds now) db s)
step-IsSound text_le (starts w job generation refs now) db s =
    settled_step db (mark_started w job generation refs now db).1 s
      (step_keyed text_le (starts w job generation refs now) db s)
      (started-rooms w job generation refs now db)
      (mark_started-Settles w job generation refs now db s.job_ids)
step-IsSound text_le (beats w active seconds now) db s =
    IsSound-step db (heartbeat w active seconds now db).1 s
      (step_keyed text_le (beats w active seconds now) db s)
      (heartbeat-rooms w active seconds now db)
      (settled_less db (heartbeat w active seconds now db).1
        (heartbeat-Settles w active seconds now db))
step-IsSound text_le (completes w job generation c now) db s =
    settled_step db (complete_job w job generation c now db).1 s
      (step_keyed text_le (completes w job generation c now) db s)
      (complete_job-rooms w job generation c now db)
      (complete_job-Settles w job generation c now db s.job_ids)
step-IsSound text_le (fails w job generation d now) db s =
    settled_step db (fail_unstarted w job generation d now db).1 s
      (step_keyed text_le (fails w job generation d now) db s)
      (fail_unstarted-rooms w job generation d now db)
      (fail_unstarted-Settles w job generation d now db s.job_ids)
step-IsSound text_le (reaps now) db s =
    settled_step db (reap_expired now db).1 s (step_keyed text_le (reaps now) db s)
      (reap-rooms now db) (reap_expired-Settles now db)
step-IsSound text_le (claims_actions w limit seconds now) db s =
    same_step db (claim_workspace_actions text_le w limit seconds now db).1 s
      (step_keyed text_le (claims_actions w limit seconds now) db s)
      (claim_workspace_actions-rooms text_le w limit seconds now db)
      (claim_workspace_actions-jobs text_le w limit seconds now db)
step-IsSound text_le (finishes_action w action generation success error now) db s =
    settled_step db (finish_workspace_action w action generation success error now db).1 s
      (step_keyed text_le (finishes_action w action generation success error now) db s)
      (finish_workspace_action-rooms w action generation success error now db)
      (finish_workspace_action-Settles w action generation success error now db)

pub run-IsSound :
    (text_le : String → String → Bool) (cs : List Call) (db : Db)
    → IsSound db
    → IsSound (run text_le cs db)
unfolding run
run-IsSound text_le [] db s = s
run-IsSound text_le (c ∷ cs) db s =
    run-IsSound text_le cs (step text_le c db) (step-IsSound text_le c db s)

-- From a sound database, after any calls, a workspace has no more leased and running jobs than its
-- capacity.
pub capacity_bound :
    (text_le : String → String → Bool) (cs : List Call) (db : Db) (id : String) (w : Workspace)
    → IsSound db
    → find_where (λ (x : Workspace). str_eq x.workspace_id id) (run text_le cs db).workspaces
      ≡ some w
    → active_count id (run text_le cs db) ≤ w.capacity
capacity_bound text_le cs db id w s found =
    subst (λ k. active_count k (run text_le cs db) ≤ w.capacity)
      ((eq_iff w.workspace_id id).0 (
        find-holds (λ (x : Workspace). str_eq x.workspace_id id) (run text_le cs db).workspaces w
          found))
      (find-All (λ (x : Workspace). active_count x.workspace_id (run text_le cs db) ≤ x.capacity)
        (λ (x : Workspace). str_eq x.workspace_id id) (run text_le cs db).workspaces w
        (run-IsSound text_le cs db s).within found)
