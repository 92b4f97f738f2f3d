-- ===== src/Retention.antt =====
-- src/eastwatch/controller/retention.py and tokens.py: `RetentionManager` watches the merge requests
-- of the runs, and schedules the cleanup of a run a week after its last merge. The child holds its
-- law.
pub mod Refresh
pub mod Cleanups
pub mod Laws
use eastwatch.Prelude.{
  ℕ, zero, suc, ◌+◌, max, Bool, true, false, Option, none, some, String, List, [], ◌∷◌, ◌++◌, Dict,
  get, or_default, text_append, Result, ok, err, Error, ◌>>=◌, leb, ltb, str_eq, column_eq, is_some,
  ◌==◌, ◌&&◌, ◌||◌, not, if◌then◌else◌,
}
use eastwatch.Table.{length, find_where, select_where, update_where, has_where, sort_by}
use eastwatch.Models.{JobState, RunReferences}
use eastwatch.Schema.{
  Db, Project, Workspace, Conversation, Status, Job, Run, RunState, MergeRequest, ActionState,
  CleanupPayload, WorkspaceAction, RetentionRecord,
}
use eastwatch.Transaction.{Body, Method, transaction}
use eastwatch.Store.Events.{keyed}
use eastwatch.Store.Leases.{truthy}

-- One token for all projects, or a token for each.
pub data ProjectTokens : Type 0 where
  single : String → ProjectTokens
  by_project : Dict → ProjectTokens

unfoldable pub token_for_project : ProjectTokens → String → Result String
token_for_project (ProjectTokens.single token) key = ok token
token_for_project (ProjectTokens.by_project tokens) key = elim (get tokens key) [
  | none ↦ err Error.runtime
  | some token ↦ if str_eq token "" then err Error.runtime else ok token
]

-- Seconds.
abbrev pub merge_retention : ℕ
merge_retention = 604800

abbrev pub run_succeeded : RunState → Bool
run_succeeded RunState.succeeded = true
run_succeeded _ = false

abbrev pub job_succeeded : JobState → Bool
job_succeeded JobState.succeeded = true
job_succeeded _ = false

abbrev pub status_succeeded : Status → Bool
status_succeeded Status.succeeded = true
status_succeeded _ = false

-- A run with its job and its conversation.
pub record DueRow : Type 0 where
  pub run : Run
  pub job : Job
  pub conversation : Conversation

-- The WHERE clause of `schedule_due`.
abbrev pub has_succeeded : Run → Job → Conversation → Bool
has_succeeded r j c =
    run_succeeded r.state
    && job_succeeded j.state
    && column_eq c.current_job_id j.job_id
    && status_succeeded c.status

-- The joins of `schedule_due` for one run.
unfoldable pub due_row : Db → Run → Option DueRow
due_row db r = elim (find_where (λ (j : Job). str_eq j.job_id r.job_id) db.jobs) [
  | none ↦ none
  | some j ↦ elim (find_where (keyed j.conversation_key) db.conversations) [
    | none ↦ none
    | some c ↦
        if has_succeeded r j c then some (record { run = r; job = j; conversation = c }) else none
  ]
]

-- `merged_at` of a merge request that is merged
abbrev pub merged_time : MergeRequest → Option ℕ
merged_time m = if str_eq m.state "merged" then m.merged_at else none

abbrev pub later : Option ℕ → Option ℕ → Option ℕ
later none o = none
later (some m) none = none
later (some m) (some n) = some (max m n)

-- The last merge, if there are merge requests and all are merged.
unfoldable pub last_merge : List MergeRequest → Option ℕ
last_merge [] = none
last_merge (m ∷ []) = merged_time m
last_merge (m ∷ n ∷ ms) = later (merged_time m) (last_merge (n ∷ ms))

abbrev pub merge_requests_of : DueRow → List MergeRequest → List MergeRequest
merge_requests_of row =
    select_where λ m. str_eq m.job_id row.job.job_id && str_eq m.run_id row.run.run_id

abbrev pub worktree_of : Option RunReferences → Option String
worktree_of none = none
worktree_of (some refs) = some refs.worktree_relpath

abbrev pub run_dir_of : Option RunReferences → Option String
run_dir_of none = none
run_dir_of (some refs) = some refs.run_dir_relpath

abbrev pub session_of : Option Dict → Option String
session_of none = none
session_of (some d) = get d "session_file_relpath"

abbrev pub cleanup_id : DueRow → String
cleanup_id row = text_append "cleanup:" row.run.run_id

abbrev pub cleanup_action : DueRow → ℕ → WorkspaceAction
cleanup_action row now = record {
  action_id = cleanup_id row;
  workspace_id = row.job.workspace_id;
  kind = "cleanup-run";
  payload = record {
    job_id = row.job.job_id;
    run_id = row.run.run_id;
    conversation_key = row.conversation.conversation_key;
    host = row.job.envelope.host;
    project_path = row.job.envelope.project_path;
    worktree_relpath = worktree_of row.run.refs;
    run_dir_relpath = run_dir_of row.run.refs;
    session_file_relpath = session_of row.run.result;
  };
  state = ActionState.pending;
  lease_generation = 0;
  lease_until = none;
  created_at = now;
  finished_at = none;
  error = none;
}

abbrev pub new_record : String → ℕ → RetentionRecord
new_record run_id after = record {
  run_id = run_id;
  eligible_after = after;
  compacted_at = none;
  audit = none;
}

-- INSERT INTO retention_records … ON CONFLICT(run_id) DO UPDATE
unfoldable pub note_retention : String → ℕ → Db → Db
note_retention run_id after db =
    if has_where (λ (r : RetentionRecord). str_eq r.run_id run_id) db.retention
    then record db {
      retention =
          update_where (λ (r : RetentionRecord). str_eq r.run_id run_id)
            (λ r. record r { eligible_after = after }) db.retention;
    }
    else record db { retention = db.retention ++ new_record run_id after ∷ [] }

-- INSERT OR IGNORE INTO workspace_actions: the rowcount and the new database.
unfoldable pub insert_action : WorkspaceAction → Body ℕ
insert_action a db =
    if has_where (λ (x : WorkspaceAction). str_eq x.action_id a.action_id) db.actions
    then ok (0, db)
    else if has_where (λ (w : Workspace). str_eq w.workspace_id a.workspace_id) db.workspaces
    then ok (1, record db { actions = db.actions ++ a ∷ [] })
    else err Error.integrity

-- One round of the loop; its value is what it adds to `scheduled`.
unfoldable pub schedule_row : ℕ → DueRow → Body ℕ
unfolding last_merge note_retention insert_action
schedule_row now row db =
    if not (str_eq row.job.envelope.trigger_kind "agent::ready")
    then ok (0, db)
    else elim (last_merge (merge_requests_of row db.merge_requests)) [
      | none ↦ ok (0, db)
      | some merged ↦
          if ltb now (merged + merge_retention)
          then ok (0, note_retention row.run.run_id (merged + merge_retention) db)
          else insert_action (cleanup_action row now)
              (note_retention row.run.run_id (merged + merge_retention) db)
    ]

unfoldable pub schedule_rows : ℕ → List DueRow → Body ℕ
unfolding schedule_row
schedule_rows now [] db = ok (0, db)
schedule_rows now (row ∷ rows) db = do
  (first, db') ← schedule_row now row db
  (others, db'') ← schedule_rows now rows db'
  ok (first + others, db'')

unfoldable pub due_rows_of : Db → List Run → List DueRow
unfolding due_row
due_rows_of db [] = []
due_rows_of db (r ∷ rs) =
    let rest = due_rows_of db rs in elim (due_row db r) [ none ↦ rest | some row ↦ row ∷ rest ]

-- `schedule_due`: how many cleanups were scheduled.
unfoldable pub schedule_due : ℕ → Method ℕ
unfolding transaction schedule_rows due_rows_of
schedule_due now = transaction λ db. schedule_rows now (due_rows_of db db.runs) db
