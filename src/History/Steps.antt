-- ===== src/History/Steps.antt =====
-- One call of the store as a step in the life of every job.
use eastwatch.Prelude.{ℕ, Bool, String, ◌≡◌, refl, arith}
use eastwatch.Table.Follows.{Match-refl, Match-map, Match-Follows, Match-Unique}
use eastwatch.Schema.{Db, Receipt, Pending}
use eastwatch.Store.Claim.{claim_jobs}
use eastwatch.Store.Leases.{mark_started, heartbeat}
use eastwatch.Store.Complete.{complete_job, fail_unstarted}
use eastwatch.Store.Reap.{reap_expired}
use eastwatch.Store.Actions.{claim_workspace_actions}
use eastwatch.Store.Finish.{finish_workspace_action}
use eastwatch.Store.Workspaces.{mark_workspace_ready}
use eastwatch.Store.Events.{
  record_event, record_dispatch_event, enqueue_job, queue_pending, clear_pending,
}
use eastwatch.Store.Outbox.{claim_outbox, mark_outbox_delivered, mark_outbox_failed}
use eastwatch.Jobs.{Evolves, Evolves-refl, Settles}
use eastwatch.Jobs.Rows.{job_key, Keyed, JobsEvolve, JobsSettle}
use eastwatch.Jobs.Inserts.{Grows, Enters, enqueue_job-Enters, record_dispatch_event-Enters}
use eastwatch.Jobs.Starts.{mark_started-Settles, heartbeat-Settles}
use eastwatch.Jobs.Completions.{complete_job-Settles, fail_unstarted-Settles}
use eastwatch.Jobs.Claims.{claim_jobs-Evolves}
use eastwatch.Jobs.Reaps.{reap_expired-Settles}
use eastwatch.Jobs.Compactions.{claim_workspace_actions-jobs, finish_workspace_action-Settles}
use eastwatch.History.{
  Call, step, ready, receives, dispatches, queues, clears, enqueues, claims_outbox, delivers,
  fails_delivery, claims, starts, beats, completes, fails, reaps, claims_actions, finishes_action,
}

evolved : (db db' : Db) → Keyed db → JobsEvolve db db' → Grows db db'
evolved db db' u h = (
  Match-Follows Evolves db.jobs db'.jobs h,
  Match-Unique Evolves job_key (λ j k e. e.same_id) db.jobs db'.jobs h u,
)

entered : (db db' : Db) → Enters db db' → Grows db db'
entered db db' e = (e.follows, e.keyed)

settled : (db db' : Db) → Keyed db → JobsSettle db db' → Grows db db'
settled db db' u h =
    evolved db db' u (Match-map Settles Evolves (λ j k s. s.life) db.jobs db'.jobs h)

unchanged : (db db' : Db) → Keyed db → db'.jobs ≡ db.jobs → Grows db db'
unchanged db db' u e = evolved db db' u (rw e (Match-refl Evolves Evolves-refl db.jobs))

pub record_event-jobs : (r : Receipt) (db : Db) → (record_event r db).1.jobs ≡ db.jobs
unfolding record_event
record_event-jobs r db = ground arith

pub queue_pending-jobs :
    (key : String) (entry : Pending) (r : Receipt) (now : ℕ) (db : Db)
    → (queue_pending key entry r now db).1.jobs ≡ db.jobs
unfolding queue_pending
queue_pending-jobs key entry r now db = ground arith

pub ready-jobs : (w : String) (now : ℕ) (db : Db) → (mark_workspace_ready w now db).1.jobs ≡ db.jobs
unfolding mark_workspace_ready
ready-jobs w now db = ground arith

pub delivered-jobs :
    (id generation now : ℕ) (db : Db)
    → (mark_outbox_delivered id generation now db).1.jobs ≡ db.jobs
unfolding mark_outbox_delivered
delivered-jobs id generation now db = ground arith

pub failed-jobs :
    (id generation : ℕ) (error : String) (retry_at : ℕ) (db : Db)
    → (mark_outbox_failed id generation error retry_at db).1.jobs ≡ db.jobs
unfolding mark_outbox_failed
failed-jobs id generation error retry_at db = ground arith

-- Whatever a method does, and whether it returns or raises, every job obeys its life and no two jobs
-- have one id.
pub step-Grows :
    (text_le : String → String → Bool) (c : Call) (db : Db)
    → Keyed db
    → Grows db (step text_le c db)
unfolding step clear_pending claim_outbox
step-Grows text_le (ready w now) db u =
    unchanged db (mark_workspace_ready w now db).1 u (ready-jobs w now db)
step-Grows text_le (receives r) db u = unchanged db (record_event r db).1 u (record_event-jobs r db)
step-Grows text_le (dispatches e kind actor payload now) db u =
    entered db (record_dispatch_event e kind actor payload now db).1
      (record_dispatch_event-Enters e kind actor payload now db u)
step-Grows text_le (queues key entry r now) db u =
    unchanged db (queue_pending key entry r now db).1 u (queue_pending-jobs key entry r now db)
step-Grows text_le (clears key count now) db u =
    unchanged db (clear_pending key count now db).1 u refl
step-Grows text_le (enqueues e now) db u =
    entered db (enqueue_job e now db).1 (enqueue_job-Enters e now db u)
step-Grows text_le (claims_outbox limit seconds now) db u =
    unchanged db (claim_outbox limit seconds now db).1 u refl
step-Grows text_le (delivers id generation now) db u =
    unchanged db (mark_outbox_delivered id generation now db).1 u
      (delivered-jobs id generation now db)
step-Grows text_le (fails_delivery id generation error retry_at) db u =
    unchanged db (mark_outbox_failed id generation error retry_at db).1 u
      (failed-jobs id generation error retry_at db)
step-Grows text_le (claims w limit seconds now) db u =
    evolved db (claim_jobs text_le w limit seconds now db).1 u
      (claim_jobs-Evolves text_le w limit seconds now db u)
step-Grows text_le (starts w job generation refs now) db u =
    settled db (mark_started w job generation refs now db).1 u
      (mark_started-Settles w job generation refs now db u)
step-Grows text_le (beats w active seconds now) db u =
    settled db (heartbeat w active seconds now db).1 u (heartbeat-Settles w active seconds now db)
step-Grows text_le (completes w job generation c now) db u =
    settled db (complete_job w job generation c now db).1 u
      (complete_job-Settles w job generation c now db u)
step-Grows text_le (fails w job generation d now) db u =
    settled db (fail_unstarted w job generation d now db).1 u
      (fail_unstarted-Settles w job generation d now db u)
step-Grows text_le (reaps now) db u =
    settled db (reap_expired now db).1 u (reap_expired-Settles now db)
step-Grows text_le (claims_actions w limit seconds now) db u =
    unchanged db (claim_workspace_actions text_le w limit seconds now db).1 u
      (claim_workspace_actions-jobs text_le w limit seconds now db)
step-Grows text_le (finishes_action w action generation success error now) db u =
    settled db (finish_workspace_action w action generation success error now db).1 u
      (finish_workspace_action-Settles w action generation success error now db)
