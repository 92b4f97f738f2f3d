-- ===== src/Delivery/Silent.antt =====
-- The methods of the store that write no notice, and the outbox.
use eastwatch.Prelude.{
  ℕ, ◌+◌, Bool, String, Option, List, [], ◌∷◌, Dict, ◌≡◌, refl, ◌∙◌, ◌==◌, arith, inl, inr,
  Option-cases,
}
use eastwatch.Table.{find_where, count_where}
use eastwatch.Models.{JobEnvelope, ActiveLease}
use eastwatch.Schema.{Db, WorkspaceAction, Receipt, Pending}
use eastwatch.Transaction.{After, After-if, transaction, transaction_rule}
use eastwatch.Store.Workspaces.{enabled_id, mark_workspace_ready}
use eastwatch.Store.Events.{record_event, queue_pending, enqueue_job, record_dispatch_event}
use eastwatch.Store.Claim.{claim_jobs, claim_body}
use eastwatch.Store.Leases.{heartbeat, heartbeat_body}
use eastwatch.Store.Actions.{
  claim_action, claim_actions, claim_workspace_actions, release_actions, action_rows,
}
use eastwatch.Store.Finish.{
  finish_workspace_action, finish_body, finish_held, held_action, job_row, compact, fail_action,
}
use eastwatch.Jobs.Starts.{raise_stale-db}
use eastwatch.Delivery.{Sends}
use eastwatch.Delivery.Ledgers.{Sends-same}

-- The outbox and its numbers are the same.
abbrev Quiet : Db → Db → Type 0
Quiet db db' = (db'.outbox ≡ db.outbox) × (db'.outbox_seq ≡ db.outbox_seq)

sends : (db db' : Db) → Quiet db db' → Sends db db'
sends db db' q = Sends-same db db' q.0 q.1

pub ready-Sends : (w : String) (now : ℕ) (db : Db) → Sends db (mark_workspace_ready w now db).1
unfolding mark_workspace_ready
ready-Sends w now db = Sends-same db (mark_workspace_ready w now db).1 (ground arith) (ground arith)

pub record_event-Sends : (r : Receipt) (db : Db) → Sends db (record_event r db).1
unfolding record_event
record_event-Sends r db = Sends-same db (record_event r db).1 (ground arith) (ground arith)

pub queue_pending-Sends :
    (key : String) (entry : Pending) (r : Receipt) (now : ℕ) (db : Db)
    → Sends db (queue_pending key entry r now db).1
unfolding queue_pending
queue_pending-Sends key entry r now db =
    Sends-same db (queue_pending key entry r now db).1 (ground arith) (ground arith)

pub enqueue_job-Sends : (e : JobEnvelope) (now : ℕ) (db : Db) → Sends db (enqueue_job e now db).1
unfolding enqueue_job
enqueue_job-Sends e now db = Sends-same db (enqueue_job e now db).1 (ground arith) (ground arith)

pub record_dispatch_event-Sends :
    (e : JobEnvelope) (kind actor : String) (payload : Dict) (now : ℕ) (db : Db)
    → Sends db (record_dispatch_event e kind actor payload now db).1
unfolding record_dispatch_event
record_dispatch_event-Sends e kind actor payload now db =
    Sends-same db (record_dispatch_event e kind actor payload now db).1 (ground arith)
      (ground arith)

pub claim_jobs-Sends :
    (text_le : String → String → Bool) (w : String) (limit seconds now : ℕ) (db : Db)
    → Sends db (claim_jobs text_le w limit seconds now db).1
unfolding claim_jobs claim_body
claim_jobs-Sends text_le w limit seconds now db =
    Sends-same db (claim_jobs text_le w limit seconds now db).1 (ground arith) (ground arith)

pub heartbeat-Sends :
    (w : String) (active : List ActiveLease) (seconds now : ℕ) (db : Db)
    → Sends db (heartbeat w active seconds now db).1
unfolding heartbeat heartbeat_body
heartbeat-Sends w active seconds now db = rw raise_stale-db (
    sends db (transaction (heartbeat_body w active (now + seconds) now) db).1 (
      transaction_rule (Quiet db) (heartbeat_body w active (now + seconds) now) db (refl, refl)
        (After-if (Quiet db) (count_where (enabled_id w) db.workspaces == 1) _ _ (λ _. (refl, refl))
          (λ _. tt))))

claim_action-Quiet :
    (w : String) (now until : ℕ) (row : WorkspaceAction) (db : Db)
    → Quiet db (claim_action w now until row db).1
unfolding claim_action
claim_action-Quiet w now until row db = (ground arith, ground arith)

claim_actions-Quiet :
    (w : String) (now until : ℕ) (rows : List WorkspaceAction) (db : Db)
    → Quiet db (claim_actions w now until rows db).1
unfolding claim_actions
claim_actions-Quiet w now until [] db = (refl, refl)
claim_actions-Quiet w now until (row ∷ rows) db =
    let first = claim_action-Quiet w now until row db in
    let rest = claim_actions-Quiet w now until rows (claim_action w now until row db).1 in
    (rest.0 ∙ first.0, rest.1 ∙ first.1)

pub claim_workspace_actions-Sends :
    (text_le : String → String → Bool) (w : String) (limit seconds now : ℕ) (db : Db)
    → Sends db (claim_workspace_actions text_le w limit seconds now db).1
unfolding claim_workspace_actions release_actions
claim_workspace_actions-Sends text_le w limit seconds now db =
    sends db (claim_workspace_actions text_le w limit seconds now db).1 (
      claim_actions-Quiet w now (now + seconds)
        (action_rows text_le w limit (release_actions w now db)) (release_actions w now db))

finish_held-Quiet :
    (action : WorkspaceAction) (id : String) (success : Bool) (error : Option String) (now : ℕ)
    (db : Db)
    → After (Quiet db) (finish_held action id success error now db)
unfolding finish_held compact fail_action
finish_held-Quiet action id success error now db =
    elim (Option-cases (job_row action.payload.job_id db)) [
      | inl e ↦ rw (e, finish_held, After) (ground arith)
      | inr (row, e) ↦ rw (e, finish_held, After) (ground arith)
    ]

pub finish_workspace_action-Sends :
    (w id : String) (generation : ℕ) (success : Bool) (error : Option String) (now : ℕ) (db : Db)
    → Sends db (finish_workspace_action w id generation success error now db).1
unfolding finish_workspace_action finish_body
finish_workspace_action-Sends w id generation success error now db =
    sends db (finish_workspace_action w id generation success error now db).1 (
      transaction_rule (Quiet db) (finish_body w id generation success error now) db (refl, refl)
        (elim (Option-cases (find_where (held_action w id generation) db.actions)) [
          | inl e ↦ rw (e, After, finish_body) tt
          | inr (action, e) ↦
              rw (e, After, finish_body) (finish_held-Quiet action id success error now db)
        ]))
