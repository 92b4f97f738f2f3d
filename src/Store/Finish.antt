-- ===== src/Store/Finish.antt =====
-- ControllerStore.finish_workspace_action: a runner reports the end of a cleanup, and a success
-- compacts what the database keeps of the run.
use eastwatch.Prelude.{
  ℕ, Bool, true, false, Option, none, some, String, List, [], ◌∷◌, or_default, last_1000, ok, err,
  Error, leb, str_eq, column_lt, is_some, ◌==◌, ◌&&◌, ◌||◌, not, if◌then◌else◌,
}
use eastwatch.Table.{find_where, select_where, update_where, count_where, sort_by}
use eastwatch.Schema.{
  Db, Project, Workspace, Conversation, Status, Job, Run, MergeRequest, ActionState,
  WorkspaceAction, Audit, AuditMergeRequest, RetentionRecord, action_leased,
}
use eastwatch.Transaction.{Body, Method, transaction}
use eastwatch.Store.Events.{keyed}
use eastwatch.Store.Leases.{set_status}
use eastwatch.Store.Actions.{job_conversation}

abbrev pub held_action : String → String → ℕ → WorkspaceAction → Bool
held_action workspace_id action_id generation a =
    str_eq a.action_id action_id
    && str_eq a.workspace_id workspace_id
    && a.lease_generation == generation

-- What the SELECT of `finish_workspace_action` joins for the job of an action.
pub record JobRow : Type 0 where
  pub job : Job
  pub conversation : Conversation
  pub project_key : String
  pub owner_username : String
  pub run : Option Run

unfoldable pub job_row : String → Db → Option JobRow
unfolding job_conversation
job_row job_id db = elim (job_conversation (λ j. str_eq j.job_id job_id) db) [
  | none ↦ none
  | some (j, c) ↦
      elim (find_where (λ (p : Project). str_eq p.project_key c.project_key) db.projects) [
        | none ↦ none
        | some p ↦
            elim (find_where (λ (w : Workspace). str_eq w.workspace_id j.workspace_id)
              db.workspaces) [
                | none ↦ none
                | some w ↦ some (record {
                  job = j;
                  conversation = c;
                  project_key = p.project_key;
                  owner_username = w.owner_username;
                  run = find_where (λ (r : Run). str_eq r.job_id j.job_id) db.runs;
                })
              ]
      ]
]

-- `run_id = ?` where the parameter may be NULL
abbrev pub run_id_eq : String → Option Run → Bool
run_id_eq run_id none = false
run_id_eq run_id (some r) = str_eq run_id r.run_id

abbrev pub audit_mr : MergeRequest → AuditMergeRequest
audit_mr m = record { iid = m.mr_iid; state = m.state; merged_at = m.merged_at }

abbrev pub audit_mrs : List MergeRequest → List AuditMergeRequest
audit_mrs [] = []
audit_mrs (m ∷ ms) = audit_mr m ∷ audit_mrs ms

abbrev pub run_id_of : Option Run → Option String
run_id_of none = none
run_id_of (some r) = some r.run_id

unfoldable pub audit_of : JobRow → List MergeRequest → Audit
audit_of row mrs = record {
  schema_version = 1;
  job_id = row.job.job_id;
  run_id = run_id_of row.run;
  conversation_key = row.conversation.conversation_key;
  project_key = row.project_key;
  issue_iid = row.conversation.issue_iid;
  owner_username = row.owner_username;
  provider = row.job.envelope.provider;
  model = row.job.envelope.model;
  effort = row.job.envelope.effort;
  state = row.job.state;
  failure_stage = row.job.failure_stage;
  created_at = row.job.created_at;
  started_at = row.job.started_at;
  finished_at = row.job.finished_at;
  merge_requests = audit_mrs (
      sort_by (λ (m n : MergeRequest). leb m.mr_iid n.mr_iid)
        (select_where (λ m. str_eq m.job_id row.job.job_id && run_id_eq m.run_id row.run) mrs));
}

abbrev pub uncompacted : Option Run → RetentionRecord → Bool
uncompacted run r = run_id_eq r.run_id run && not (is_some r.compacted_at)

-- What a compacted run and its conversation lose.
abbrev pub strip_run : Run → Run
strip_run r = record r { refs = none; result = none; error = none }

abbrev pub archive : ℕ → Conversation → Conversation
archive now c = record c { status = Status.archived; session_refs = none; updated_at = now }

unfoldable pub compact : String → ℕ → JobRow → Db → Db
unfolding audit_of
compact action_id now row db = record db {
  retention =
      update_where (uncompacted row.run)
        (λ r. record r { compacted_at = some now; audit = some (audit_of row db.merge_requests) })
        db.retention;
  jobs =
      update_where (λ (j : Job). str_eq j.job_id row.job.job_id)
        (λ j. record j { envelope = record row.job.envelope { messages = []; context = [] } })
        db.jobs;
  runs = update_where (λ (r : Run). run_id_eq r.run_id row.run) strip_run db.runs;
  conversations =
      update_where (keyed row.conversation.conversation_key) (archive now) db.conversations;
  actions =
      update_where (λ (a : WorkspaceAction). str_eq a.action_id action_id)
        (λ a. record a {
          state = ActionState.done;
          finished_at = some now;
          lease_until = none;
          error = none;
        })
        db.actions;
}

unfoldable pub fail_action : String → Option String → ℕ → JobRow → Db → Db
fail_action action_id error now row db = record db {
  actions =
      update_where (λ (a : WorkspaceAction). str_eq a.action_id action_id)
        (λ a. record a {
          state = ActionState.failed;
          finished_at = some now;
          lease_until = none;
          error = some (last_1000 (or_default error "cleanup failed"));
        })
        db.actions;
  conversations =
      update_where (keyed row.conversation.conversation_key) (set_status Status.cleanup_failed now)
        db.conversations;
}

abbrev pub is_over : ActionState → Bool
is_over ActionState.done = true
is_over ActionState.failed = true
is_over _ = false

unfoldable pub finish_held : WorkspaceAction → String → Bool → Option String → ℕ → Body Bool
unfolding job_row compact fail_action
finish_held action action_id success error now db =
    if is_over action.state
    then ok (false, db)
    else if not (action_leased action.state)
    then err Error.stale_lease
    else if not (is_some action.lease_until) || column_lt action.lease_until now
    then err Error.stale_lease
    else if not (str_eq action.kind "cleanup-run")
    then err Error.runtime
    else elim (job_row action.payload.job_id db) [
      | none ↦ err Error.runtime
      | some row ↦
          if not success
          then ok (true, fail_action action_id error now row db)
          else if count_where (uncompacted row.run) db.retention == 1
          then ok (true, compact action_id now row db)
          else err Error.runtime
    ]

unfoldable pub finish_body : String → String → ℕ → Bool → Option String → ℕ → Body Bool
unfolding finish_held
finish_body workspace_id action_id generation success error now db =
    elim (find_where (held_action workspace_id action_id generation) db.actions) [
      | none ↦ err Error.stale_lease
      | some action ↦ finish_held action action_id success error now db
    ]

unfoldable pub finish_workspace_action :
    (workspace_id action_id : String) (generation : ℕ) (success : Bool) (error : Option String)
    (now : ℕ)
    → Method Bool
unfolding transaction finish_body
finish_workspace_action workspace_id action_id generation success error now =
    transaction (finish_body workspace_id action_id generation success error now)
