-- ===== src/Schema.antt =====
-- src/eastwatch/controller/store.py, SCHEMA: the tables of the controller's database, a record for
-- the row of each. Times are whole seconds. The JSON columns hold what `json.dumps` was
-- given; a `REFERENCES`, `UNIQUE` or `PRIMARY KEY` that an INSERT can violate is tested by the insert.
use eastwatch.Prelude.{ℕ, Bool, true, false, Option, String, List, Dict, str_eq, ◌==◌, ◌&&◌}
use eastwatch.Models.{JobState, CompletionState, JobEnvelope, RunReferences}

pub record Project : Type 0 where
  pub project_key : String
  pub host : String
  pub project_path : String
  pub project_id : ℕ
  pub last_event_id : ℕ
  pub bootstrapped : Bool

pub record Receipt : Type 0 where
  pub project_key : String
  pub event_key : String
  pub event_kind : String
  pub actor_username : Option String
  pub payload : Dict
  pub observed_at : ℕ

pub record Workspace : Type 0 where
  pub workspace_id : String
  pub owner_username : String
  pub owner_user_id : ℕ
  pub token_sha256 : String
  pub enabled : Bool
  pub ready : Bool
  pub capacity : ℕ
  pub default_spec : String
  pub allowed_specs : List String
  pub container_name : String
  pub host_root : String
  pub last_seen_at : Option ℕ
  pub created_at : ℕ

-- The values of `conversations.status` that the controller writes: the last six come from
-- `record_terminal`, which also writes a job's state.
pub data Status : Type 0 where
  idle queued working finishing cleaning cleanup_failed archived parked : Status
  leased running succeeded failed cancelled : Status

-- An entry of `pending_json`: a comment that waits for the next run.
pub record Pending : Type 0 where
  pub messages : List String
  pub reply_target : Option Dict
  pub actor_username : String
  pub actor_user_id : Option ℕ
  pub event_key : String
  pub queued_at : ℕ

-- `session_refs_json`: the references of the run, with the session that its result names.
pub record SessionRefs : Type 0 where
  pub refs : Option RunReferences
  pub session_id : Option String
  pub session_file_relpath : Option String

pub record Conversation : Type 0 where
  pub conversation_key : String
  pub project_key : String
  pub issue_iid : ℕ
  pub workspace_id : String
  pub status : Status
  pub provider : String
  pub model : String
  pub effort : Option String
  pub pending : List Pending
  pub session_refs : Option SessionRefs
  pub current_job_id : Option String
  pub updated_at : ℕ

pub record Job : Type 0 where
  pub job_id : String
  pub conversation_key : String
  pub workspace_id : String
  pub trigger_event_key : String
  pub state : JobState
  pub envelope : JobEnvelope
  pub lease_generation : ℕ
  pub lease_until : Option ℕ
  pub last_heartbeat_at : Option ℕ
  pub created_at : ℕ
  pub started_at : Option ℕ
  pub finished_at : Option ℕ
  pub failure_stage : Option String
  pub failure_reason : Option String

pub data RunState : Type 0 where
  running succeeded failed : RunState

-- `refs` is `none` for the empty object '{}' that compaction leaves.
pub record Run : Type 0 where
  pub run_id : String
  pub job_id : String
  pub workspace_id : String
  pub lease_generation : ℕ
  pub state : RunState
  pub refs : Option RunReferences
  pub result : Option Dict
  pub error : Option Dict
  pub started_at : ℕ
  pub finished_at : Option ℕ

pub data OutboxState : Type 0 where
  pending delivering delivered : OutboxState

-- `outbox.kind` with the payload that its writer gives; the key by which `dedupe_key` is built is
-- read off the payload (`dedupe_eq`).
pub data Notice : Type 0 where
  job_started : String → Notice
  job_completed : (job_id workspace_id : String) → ℕ → CompletionState → Notice
  runner_lost : String → Notice
  dispatch_rejected : (event_key project_key : String) → ℕ → (reason : String) → Bool → ℕ → Notice

-- Whether two notices have one `dedupe_key`: `job-started:JOB`, `job-completed:JOB:GENERATION`,
-- `runner-lost:JOB` or `dispatch-rejected:EVENT`.
unfoldable pub dedupe_eq : Notice → Notice → Bool
dedupe_eq (Notice.job_started j) (Notice.job_started k) = str_eq j k
dedupe_eq (Notice.job_completed j _ m _) (Notice.job_completed k _ n _) = str_eq j k && m == n
dedupe_eq (Notice.runner_lost j) (Notice.runner_lost k) = str_eq j k
dedupe_eq (Notice.dispatch_rejected e _ _ _ _ _) (Notice.dispatch_rejected f _ _ _ _ _) = str_eq e f
dedupe_eq _ _ = false

pub record OutboxItem : Type 0 where
  pub outbox_id : ℕ
  pub notice : Notice
  pub state : OutboxState
  pub available_at : ℕ
  pub lease_until : Option ℕ
  pub lease_generation : ℕ
  pub attempts : ℕ
  pub last_error : Option String
  pub created_at : ℕ
  pub delivered_at : Option ℕ

pub record MergeRequest : Type 0 where
  pub project_key : String
  pub mr_iid : ℕ
  pub conversation_key : String
  pub job_id : String
  pub run_id : String
  pub state : String
  pub merged_at : Option ℕ
  pub updated_at : ℕ

pub data ActionState : Type 0 where
  pending leased done failed : ActionState

pub record CleanupPayload : Type 0 where
  pub job_id : String
  pub run_id : String
  pub conversation_key : String
  pub host : String
  pub project_path : String
  pub worktree_relpath : Option String
  pub run_dir_relpath : Option String
  pub session_file_relpath : Option String

pub record WorkspaceAction : Type 0 where
  pub action_id : String
  pub workspace_id : String
  pub kind : String
  pub payload : CleanupPayload
  pub state : ActionState
  pub lease_generation : ℕ
  pub lease_until : Option ℕ
  pub created_at : ℕ
  pub finished_at : Option ℕ
  pub error : Option String

pub record AuditMergeRequest : Type 0 where
  pub iid : ℕ
  pub state : String
  pub merged_at : Option ℕ

-- `audit_json`, the summary that outlives a compacted run
pub record Audit : Type 0 where
  pub schema_version : ℕ
  pub job_id : String
  pub run_id : Option String
  pub conversation_key : String
  pub project_key : String
  pub issue_iid : ℕ
  pub owner_username : String
  pub provider : String
  pub model : String
  pub effort : Option String
  pub state : JobState
  pub failure_stage : Option String
  pub created_at : ℕ
  pub started_at : Option ℕ
  pub finished_at : Option ℕ
  pub merge_requests : List AuditMergeRequest

pub record RetentionRecord : Type 0 where
  pub run_id : String
  pub eligible_after : ℕ
  pub compacted_at : Option ℕ
  pub audit : Option Audit

-- The database; `outbox_seq` is the last number that AUTOINCREMENT gave to `outbox.outbox_id`.
pub record Db : Type 0 where
  pub projects : List Project
  pub receipts : List Receipt
  pub workspaces : List Workspace
  pub conversations : List Conversation
  pub jobs : List Job
  pub runs : List Run
  pub outbox : List OutboxItem
  pub outbox_seq : ℕ
  pub merge_requests : List MergeRequest
  pub actions : List WorkspaceAction
  pub retention : List RetentionRecord

-- The tests on a state column that the statements make, `state = '…'` and `state IN (…)`.
abbrev pub is_queued : JobState → Bool
is_queued JobState.queued = true
is_queued _ = false

abbrev pub is_leased : JobState → Bool
is_leased JobState.leased = true
is_leased _ = false

abbrev pub is_running : JobState → Bool
is_running JobState.running = true
is_running _ = false

-- `state IN ('leased', 'running')`
abbrev pub is_active : JobState → Bool
is_active JobState.leased = true
is_active JobState.running = true
is_active _ = false

-- `state IN ('succeeded', 'failed')`
abbrev pub is_finished : JobState → Bool
is_finished JobState.succeeded = true
is_finished JobState.failed = true
is_finished _ = false

-- `state in ('succeeded', 'failed', 'cancelled')`
abbrev pub is_terminal : JobState → Bool
is_terminal JobState.succeeded = true
is_terminal JobState.failed = true
is_terminal JobState.cancelled = true
is_terminal _ = false

abbrev pub run_running : RunState → Bool
run_running RunState.running = true
run_running _ = false

abbrev pub item_pending : OutboxState → Bool
item_pending OutboxState.pending = true
item_pending _ = false

abbrev pub item_delivering : OutboxState → Bool
item_delivering OutboxState.delivering = true
item_delivering _ = false

abbrev pub action_pending : ActionState → Bool
action_pending ActionState.pending = true
action_pending _ = false

abbrev pub action_leased : ActionState → Bool
action_leased ActionState.leased = true
action_leased _ = false

-- The states that a completion gives to the job and to the run.
abbrev pub job_state_of : CompletionState → JobState
job_state_of CompletionState.succeeded = JobState.succeeded
job_state_of CompletionState.failed = JobState.failed

abbrev pub run_state_of : CompletionState → RunState
run_state_of CompletionState.succeeded = RunState.succeeded
run_state_of CompletionState.failed = RunState.failed
