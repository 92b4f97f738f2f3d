-- ===== src/Tests/Fixture.antt =====
-- The rows of the database.
use eastwatch.Prelude.{ℕ, Bool, true, Option, none, some, String, [], ◌∷◌}
use eastwatch.Models.{JobState, JobEnvelope, RunReferences, Completion, CompletionState}
use eastwatch.Schema.{
  Db, Project, Receipt, Workspace, Conversation, Status, Pending, Job, Run, RunState, OutboxItem,
  OutboxState, Notice,
}
use eastwatch.Dispatch.Requests.{Candidate, Clock}

-- Any order of the texts will do.
abbrev pub any_le : String → String → Bool
any_le s t = true

abbrev pub project : Project
project = record {
  project_key = "h/p";
  host = "h";
  project_path = "p";
  project_id = 5;
  last_event_id = 0;
  bootstrapped = true;
}

abbrev pub workspace : Workspace
workspace = record {
  workspace_id = "w";
  owner_username = "ann";
  owner_user_id = 7;
  token_sha256 = "digest";
  enabled = true;
  ready = true;
  capacity = 2;
  default_spec = "pi:m";
  allowed_specs = "pi:m" ∷ [];
  container_name = "box";
  host_root = "/srv/w";
  last_seen_at = none;
  created_at = 0;
}

abbrev pub conversation : String → ℕ → Status → String → Conversation
conversation key iid status job_id = record {
  conversation_key = key;
  project_key = "h/p";
  issue_iid = iid;
  workspace_id = "w";
  status = status;
  provider = "pi";
  model = "m";
  effort = none;
  pending = [];
  session_refs = none;
  current_job_id = some job_id;
  updated_at = 0;
}

abbrev pub envelope : String → String → String → JobEnvelope
envelope job_id key event = record {
  schema_version = 1;
  job_id = job_id;
  conversation_key = key;
  host = "h";
  project_path = "p";
  project_id = 5;
  issue_iid = 1;
  issue_url = "url";
  trigger_kind = "agent::ready";
  trigger_event_key = event;
  owner_username = "ann";
  provider = "pi";
  model = "m";
  effort = none;
  context = [];
  messages = [];
  reply_target = [];
}

abbrev pub job_of : String → String → String → JobState → ℕ → Option ℕ → Job
job_of job_id key event state generation until = record {
  job_id = job_id;
  conversation_key = key;
  workspace_id = "w";
  trigger_event_key = event;
  state = state;
  envelope = envelope job_id key event;
  lease_generation = generation;
  lease_until = until;
  last_heartbeat_at = none;
  created_at = 10;
  started_at = none;
  finished_at = none;
  failure_stage = none;
  failure_reason = none;
}

abbrev pub waiting : Job
waiting = job_of "q" "h/p#1" "e1" JobState.queued 0 none

abbrev pub claimed : Job
claimed = job_of "l" "h/p#2" "e2" JobState.leased 1 (some 100)

abbrev pub under_way : Job
under_way = job_of "r" "h/p#3" "e3" JobState.running 1 (some 100)

abbrev pub refs_of : String → RunReferences
refs_of run_id = record {
  run_id = run_id;
  tmux_session = "t";
  worktree_relpath = "tree";
  run_dir_relpath = "dir";
  session_file_relpath = none;
}

abbrev pub run_row : Run
run_row = record {
  run_id = "run-r";
  job_id = "r";
  workspace_id = "w";
  lease_generation = 1;
  state = RunState.running;
  refs = some (refs_of "run-r");
  result = none;
  error = none;
  started_at = 20;
  finished_at = none;
}

abbrev pub item : OutboxItem
item = record {
  outbox_id = 1;
  notice = Notice.job_started "r";
  state = OutboxState.pending;
  available_at = 20;
  lease_until = none;
  lease_generation = 0;
  attempts = 0;
  last_error = none;
  created_at = 20;
  delivered_at = none;
}

abbrev pub small_db : Db
small_db = record {
  projects = project ∷ [];
  receipts = [];
  workspaces = workspace ∷ [];
  conversations =
      conversation "h/p#1" 1 Status.queued "q"
      ∷ conversation "h/p#2" 2 Status.queued "l"
      ∷ conversation "h/p#3" 3 Status.working "r"
      ∷ [];
  jobs = waiting ∷ claimed ∷ under_way ∷ [];
  runs = run_row ∷ [];
  outbox = item ∷ [];
  outbox_seq = 1;
  merge_requests = [];
  actions = [];
  retention = [];
}

-- An item that was leased once, and its database.
abbrev pub retried : OutboxItem
retried = record item { lease_generation = 1; attempts = 1 }

abbrev pub retried_db : Db
retried_db = record small_db { outbox = retried ∷ [] }

-- A job that succeeded, with a merge request that was merged.
abbrev pub merged_db : Db
merged_db = record small_db {
  conversations = conversation "h/p#3" 3 Status.succeeded "r" ∷ [];
  jobs = job_of "r" "h/p#3" "e3" JobState.succeeded 1 none ∷ [];
  runs = record run_row { state = RunState.succeeded; finished_at = some 60 } ∷ [];
  merge_requests =
      record {
        project_key = "h/p";
        mr_iid = 8;
        conversation_key = "h/p#3";
        job_id = "r";
        run_id = "run-r";
        state = "merged";
        merged_at = some 70;
        updated_at = 70;
      }
      ∷ [];
}

abbrev pub success : Completion
success = record { state = CompletionState.succeeded; result = none; error = none }

abbrev pub receipt : Receipt
receipt = record {
  project_key = "h/p";
  event_key = "e9";
  event_kind = "comment";
  actor_username = some "ann";
  payload = [];
  observed_at = 30;
}

abbrev pub comment : Pending
comment = record {
  messages = "more" ∷ [];
  reply_target = none;
  actor_username = "ann";
  actor_user_id = none;
  event_key = "e9";
  queued_at = 30;
}

abbrev pub candidate : Candidate
candidate = record {
  host = "h";
  project_path = "p";
  project_id = 5;
  issue_iid = 4;
  issue_url = "url";
  issue_title = "title";
  issue_description = "text";
  event_key = "9";
  event_kind = "label";
  actor_username = "ann";
  trigger_kind = "agent::ready";
  assignees = [];
  hint_texts = "try [pi:m]" ∷ [];
  trigger_messages = [];
  thread_context = "";
  worker_briefing = none;
  jira_context = "";
  reply_target = none;
  actor_user_id = some 7;
}

abbrev pub clock : Clock
clock = record {
  queued_at = 30;
  pending_at = 30;
  upserted_at = 30;
  dispatched_at = 30;
  rejected_at = 30;
}
