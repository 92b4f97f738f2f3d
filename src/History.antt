-- ===== src/History.antt =====
-- Any history of calls: the transactions of the controller run one after another, in whatever order
-- the runners, the dispatcher, the outbox and the reaper make their calls.
pub mod Steps
pub mod Laws
pub mod Once
use eastwatch.Prelude.{ℕ, Bool, String, Option, List, [], ◌∷◌, Dict}
use eastwatch.Models.{JobEnvelope, RunReferences, ActiveLease, Completion}
use eastwatch.Schema.{Db, Pending, Receipt}
use eastwatch.Store.Workspaces.{mark_workspace_ready}
use eastwatch.Store.Events.{
  record_event, record_dispatch_event, queue_pending, clear_pending, enqueue_job,
}
use eastwatch.Store.Outbox.{claim_outbox, mark_outbox_delivered, mark_outbox_failed}
use eastwatch.Store.Claim.{claim_jobs}
use eastwatch.Store.Leases.{mark_started, heartbeat}
use eastwatch.Store.Complete.{complete_job, fail_unstarted}
use eastwatch.Store.Reap.{reap_expired}
use eastwatch.Store.Actions.{claim_workspace_actions}
use eastwatch.Store.Finish.{finish_workspace_action}

-- A call of a method of ControllerStore that writes, with the time at which it is made.
pub data Call : Type 0 where
  ready : (workspace_id : String) (now : ℕ) → Call
  receives : Receipt → Call
  dispatches : JobEnvelope → (event_kind actor : String) → Dict → (now : ℕ) → Call
  queues : (key : String) → Pending → Receipt → (now : ℕ) → Call
  clears : (key : String) (count now : ℕ) → Call
  enqueues : JobEnvelope → (now : ℕ) → Call
  claims_outbox : (limit lease_seconds now : ℕ) → Call
  delivers : (outbox_id generation now : ℕ) → Call
  fails_delivery : (outbox_id generation : ℕ) → String → (retry_at : ℕ) → Call
  claims : (workspace_id : String) (limit lease_seconds now : ℕ) → Call
  starts : (workspace_id job_id : String) (generation : ℕ) → RunReferences → (now : ℕ) → Call
  beats : (workspace_id : String) → List ActiveLease → (lease_seconds now : ℕ) → Call
  completes : (workspace_id job_id : String) (generation : ℕ) → Completion → (now : ℕ) → Call
  fails : (workspace_id job_id : String) (generation : ℕ) → Dict → (now : ℕ) → Call
  reaps : (now : ℕ) → Call
  claims_actions : (workspace_id : String) (limit lease_seconds now : ℕ) → Call
  finishes_action :
      (workspace_id action_id : String) (generation : ℕ) → Bool → Option String → (now : ℕ) → Call

-- `text_le` is the order of the database's texts.
module _ (text_le : String → String → Bool) where
  -- The database behind a call, whether the call returns or raises.
  unfoldable pub step : Call → Db → Db
  step (ready w now) db = (mark_workspace_ready w now db).1
  step (receives r) db = (record_event r db).1
  step (dispatches e kind actor payload now) db =
      (record_dispatch_event e kind actor payload now db).1
  step (queues key entry r now) db = (queue_pending key entry r now db).1
  step (clears key count now) db = (clear_pending key count now db).1
  step (enqueues e now) db = (enqueue_job e now db).1
  step (claims_outbox limit seconds now) db = (claim_outbox limit seconds now db).1
  step (delivers id generation now) db = (mark_outbox_delivered id generation now db).1
  step (fails_delivery id generation error retry_at) db =
      (mark_outbox_failed id generation error retry_at db).1
  step (claims w limit seconds now) db = (claim_jobs text_le w limit seconds now db).1
  step (starts w job generation refs now) db = (mark_started w job generation refs now db).1
  step (beats w active seconds now) db = (heartbeat w active seconds now db).1
  step (completes w job generation c now) db = (complete_job w job generation c now db).1
  step (fails w job generation d now) db = (fail_unstarted w job generation d now db).1
  step (reaps now) db = (reap_expired now db).1
  step (claims_actions w limit seconds now) db =
      (claim_workspace_actions text_le w limit seconds now db).1
  step (finishes_action w action generation success error now) db =
      (finish_workspace_action w action generation success error now db).1

  unfoldable pub run : List Call → Db → Db
  run [] db = db
  run (c ∷ cs) db = run cs (step c db)
