-- ===== src/Models.antt =====
-- src/eastwatch/controller/models.py: what the controller and the runners exchange. Texts that the
-- store only copies stay texts; `dict[str, object]` is a JSON object of texts.
use eastwatch.Prelude.{ℕ, Option, String, List, Dict}

pub data JobState : Type 0 where
  queued leased running succeeded failed cancelled : JobState

pub data CompletionState : Type 0 where
  succeeded failed : CompletionState

pub record JobEnvelope : Type 0 where
  pub schema_version : ℕ
  pub job_id : String
  pub conversation_key : String
  pub host : String
  pub project_path : String
  pub project_id : ℕ
  pub issue_iid : ℕ
  pub issue_url : String
  pub trigger_kind : String
  pub trigger_event_key : String
  pub owner_username : String
  pub provider : String
  pub model : String
  pub effort : Option String
  pub context : Dict
  pub messages : List String
  pub reply_target : Dict

pub record ClaimedJob : Type 0 where
  pub envelope : JobEnvelope
  pub workspace_id : String
  pub lease_generation : ℕ
  pub lease_until : ℕ

pub record RunReferences : Type 0 where
  pub run_id : String
  pub tmux_session : String
  pub worktree_relpath : String
  pub run_dir_relpath : String
  pub session_file_relpath : Option String

pub record ActiveLease : Type 0 where
  pub job_id : String
  pub lease_generation : ℕ

pub record Completion : Type 0 where
  pub state : CompletionState
  pub result : Option Dict
  pub error : Option Dict
