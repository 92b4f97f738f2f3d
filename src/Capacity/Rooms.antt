-- ===== src/Capacity/Rooms.antt =====
-- What the methods do to the table of workspaces: at most the times and the readiness change.
use eastwatch.Prelude.{
  ℕ, ◌+◌, String, Bool, true, Option, some, List, [], ◌∷◌, Dict, ◌≡◌, ◌∙◌, refl, arith,
}
use eastwatch.Table.{update_where, select_where}
use eastwatch.Table.Every.{All-of}
use eastwatch.Table.Follows.{Match, Match-refl, Match-update}
use eastwatch.Models.{JobEnvelope, RunReferences, ActiveLease, Completion}
use eastwatch.Schema.{Db, Workspace, WorkspaceAction, Receipt, Pending}
use eastwatch.Transaction.{insert_notice}
use eastwatch.Store.Workspaces.{enabled_id, mark_workspace_ready}
use eastwatch.Store.Events.{record_event, record_dispatch_event, queue_pending, enqueue_job}
use eastwatch.Store.Outbox.{mark_outbox_delivered, mark_outbox_failed}
use eastwatch.Store.Leases.{mark_started, heartbeat, heartbeat_body}
use eastwatch.Store.Complete.{complete_job, fail_unstarted}
use eastwatch.Store.Reap.{lose_job, lose_jobs, requeue_expired, reap_expired, job_ids, run_expired}
use eastwatch.Store.Actions.{
  claim_action, claim_actions, claim_workspace_actions, release_actions, action_rows,
}
use eastwatch.Store.Finish.{finish_workspace_action, finish_body, finish_held}
use eastwatch.Jobs.Starts.{raise_stale-db}
use eastwatch.Capacity.{SameRoom}

abbrev pub RoomsKept : Db → Db → Type 0
RoomsKept db db' = Match SameRoom db.workspaces db'.workspaces

SameRoom-refl : (w : Workspace) → SameRoom w w
SameRoom-refl w = record { same_id = refl; same_capacity = refl }

pub RoomsKept-of_eq : (db db' : Db) → db'.workspaces ≡ db.workspaces → RoomsKept db db'
RoomsKept-of_eq db db' e = rw e (Match-refl SameRoom SameRoom-refl db.workspaces)

pub touched :
    (p : Workspace → Bool) (f : Workspace → Workspace)
    → ((w : Workspace) → SameRoom w (f w))
    → (rooms : List Workspace) → Match SameRoom rooms (update_where p f rooms)
touched p f same rooms =
    Match-update SameRoom SameRoom-refl p f rooms (All-of (λ w _. same w) rooms)

pub ready-rooms : (w : String) (now : ℕ) (db : Db) → RoomsKept db (mark_workspace_ready w now db).1
unfolding mark_workspace_ready
ready-rooms w now db = ground (
  arith,
  Match-refl SameRoom SameRoom-refl db.workspaces,
  touched (enabled_id w) (λ x. record x { ready = true; last_seen_at = some now })
      (λ x. record { same_id = refl; same_capacity = refl }) db.workspaces,
)

pub heartbeat-rooms :
    (w : String) (active : List ActiveLease) (seconds now : ℕ) (db : Db)
    → RoomsKept db (heartbeat w active seconds now db).1
unfolding heartbeat heartbeat_body
heartbeat-rooms w active seconds now db = rw raise_stale-db (
    ground (
      arith,
      Match-refl SameRoom SameRoom-refl db.workspaces,
      touched (enabled_id w) (λ x. record x { last_seen_at = some now })
          (λ x. record { same_id = refl; same_capacity = refl }) db.workspaces,
    ))

-- The other methods leave the workspaces as they are.
pub record_event-rooms : (r : Receipt) (db : Db) → (record_event r db).1.workspaces ≡ db.workspaces
unfolding record_event
record_event-rooms r db = ground arith

pub dispatch-rooms :
    (e : JobEnvelope) (kind actor : String) (payload : Dict) (now : ℕ) (db : Db)
    → (record_dispatch_event e kind actor payload now db).1.workspaces ≡ db.workspaces
unfolding record_dispatch_event
dispatch-rooms e kind actor payload now db = ground arith

pub queue_pending-rooms :
    (key : String) (entry : Pending) (r : Receipt) (now : ℕ) (db : Db)
    → (queue_pending key entry r now db).1.workspaces ≡ db.workspaces
unfolding queue_pending
queue_pending-rooms key entry r now db = ground arith

pub enqueue-rooms :
    (e : JobEnvelope) (now : ℕ) (db : Db) → (enqueue_job e now db).1.workspaces ≡ db.workspaces
unfolding enqueue_job
enqueue-rooms e now db = ground arith

pub delivered-rooms :
    (id generation now : ℕ) (db : Db)
    → (mark_outbox_delivered id generation now db).1.workspaces ≡ db.workspaces
unfolding mark_outbox_delivered
delivered-rooms id generation now db = ground arith

pub failed-rooms :
    (id generation : ℕ) (error : String) (retry_at : ℕ) (db : Db)
    → (mark_outbox_failed id generation error retry_at db).1.workspaces ≡ db.workspaces
unfolding mark_outbox_failed
failed-rooms id generation error retry_at db = ground arith

pub started-rooms :
    (w id : String) (generation : ℕ) (refs : RunReferences) (now : ℕ) (db : Db)
    → (mark_started w id generation refs now db).1.workspaces ≡ db.workspaces
unfolding mark_started insert_notice
started-rooms w id generation refs now db = ground arith

pub complete_job-rooms :
    (w id : String) (generation : ℕ) (c : Completion) (now : ℕ) (db : Db)
    → (complete_job w id generation c now db).1.workspaces ≡ db.workspaces
unfolding complete_job insert_notice
complete_job-rooms w id generation c now db = ground arith

pub fail_unstarted-rooms :
    (w id : String) (generation : ℕ) (d : Dict) (now : ℕ) (db : Db)
    → (fail_unstarted w id generation d now db).1.workspaces ≡ db.workspaces
unfolding fail_unstarted insert_notice
fail_unstarted-rooms w id generation d now db = ground arith

lose_jobs-rooms :
    (now : ℕ) (ids : List String) (db : Db) → (lose_jobs now ids db).workspaces ≡ db.workspaces
unfolding lose_jobs insert_notice
lose_jobs-rooms now [] db = refl
lose_jobs-rooms now (id ∷ ids) db = lose_jobs-rooms now ids (lose_job now id db) ∙ ground arith

pub reap-rooms : (now : ℕ) (db : Db) → (reap_expired now db).1.workspaces ≡ db.workspaces
unfolding reap_expired
reap-rooms now db =
    lose_jobs-rooms now (job_ids (select_where (run_expired now) (requeue_expired now db).jobs))
      (requeue_expired now db)

claim_actions-rooms :
    (w : String) (now until : ℕ) (rows : List WorkspaceAction) (db : Db)
    → (claim_actions w now until rows db).1.workspaces ≡ db.workspaces
unfolding claim_actions
claim_actions-rooms w now until [] db = refl
claim_actions-rooms w now until (row ∷ rows) db =
    claim_actions-rooms w now until rows (claim_action w now until row db).1 ∙ ground arith

pub claim_workspace_actions-rooms :
    (text_le : String → String → Bool) (w : String) (limit seconds now : ℕ) (db : Db)
    → (claim_workspace_actions text_le w limit seconds now db).1.workspaces ≡ db.workspaces
unfolding claim_workspace_actions
claim_workspace_actions-rooms text_le w limit seconds now db =
    claim_actions-rooms w now (now + seconds)
      (action_rows text_le w limit (release_actions w now db)) (release_actions w now db)

pub finish_workspace_action-rooms :
    (w action : String) (generation : ℕ) (success : Bool) (error : Option String) (now : ℕ)
    (db : Db)
    → (finish_workspace_action w action generation success error now db).1.workspaces
      ≡ db.workspaces
unfolding finish_workspace_action finish_body finish_held
finish_workspace_action-rooms w action generation success error now db = ground arith
