-- ===== src/Dispatch/Requests.antt =====
-- What an event of the forge asks for, and the statements with which HostedDispatcher answers it.
-- Each statement reads the clock where the source does; `Clock` holds what it reads. A key of a JSON
-- object whose value is null is left out.
use eastwatch.Prelude.{
  ℕ, Bool, true, false, Option, none, some, String, List, [], ◌∷◌, ◌++◌, Dict, text_append,
  text_take, decimal, Result, ok, err, Error, ◌>>=◌, str_eq, ◌&&◌, not, if◌then◌else◌,
}
use eastwatch.Table.{find_where, update_where, has_where}
use eastwatch.Models.{JobState}
use eastwatch.Schema.{Db, Project, Workspace, Conversation, Pending, Receipt, Job, Notice}
use eastwatch.Transaction.{Method, transaction, insert_receipt, insert_notice}
use eastwatch.Store.Events.{keyed, triggered_by, queue_pending}
use eastwatch.Store.Complete.{dump_if_any}
use eastwatch.Dispatch.Hints.{Rejection}

pub record Assignee : Type 0 where
  pub username : String
  pub user_id : ℕ

pub record Candidate : Type 0 where
  pub host : String
  pub project_path : String
  pub project_id : ℕ
  pub issue_iid : ℕ
  pub issue_url : String
  pub issue_title : String
  pub issue_description : String
  pub event_key : String
  pub event_kind : String
  pub actor_username : String
  pub trigger_kind : String
  pub assignees : List Assignee
  pub hint_texts : List String
  pub trigger_messages : List String
  pub thread_context : String
  pub worker_briefing : Option String
  pub jira_context : String
  pub reply_target : Option Dict
  pub actor_user_id : Option ℕ

abbrev pub project_key : Candidate → String
project_key c = text_append c.host (text_append "/" c.project_path)

abbrev pub durable_event_key : Candidate → String
durable_event_key c =
    text_append (project_key c)
      (text_append ":" (text_append c.event_kind (text_append ":" c.event_key)))

abbrev pub conversation_key : Candidate → String
conversation_key c = text_append (project_key c) (text_append "#" (decimal c.issue_iid))

pub record DispatchResult : Type 0 where
  pub accepted : Bool
  pub job_id : Option String
  pub reason : Option String

-- What `time.time()` gives in the course of one dispatch.
pub record Clock : Type 0 where
  pub queued_at : ℕ
  pub pending_at : ℕ
  pub upserted_at : ℕ
  pub dispatched_at : ℕ
  pub rejected_at : ℕ

abbrev pub new_project : (key host path : String) → ℕ → Project
new_project key host path id = record {
  project_key = key;
  host = host;
  project_path = path;
  project_id = id;
  last_event_id = 0;
  bootstrapped = true;
}

abbrev pub project_keyed : String → Project → Bool
project_keyed key p = str_eq p.project_key key

-- A second row with one host and path.
abbrev pub project_clash : (key host path : String) → Project → Bool
project_clash key host path p =
    not (project_keyed key p) && (str_eq p.host host && str_eq p.project_path path)

-- INSERT INTO projects … ON CONFLICT(project_key) DO UPDATE; (host, project_path) is unique.
unfoldable pub upsert_project : (key host path : String) → ℕ → Db → Result Db
upsert_project key host path id db =
    if has_where (project_clash key host path) db.projects
    then err Error.integrity
    else if has_where (project_keyed key) db.projects
    then ok (record db {
      projects =
          update_where (project_keyed key)
            (λ p. record p { project_id = id; host = host; project_path = path }) db.projects;
    })
    else ok (record db { projects = db.projects ++ new_project key host path id ∷ [] })

-- `_ensure_project`
unfoldable pub ensure_project : Candidate → Method (Unit {0})
unfolding transaction upsert_project
ensure_project c = transaction λ db. do
  db' ← upsert_project (project_key c) c.host c.project_path c.project_id db
  ok (tt, db')

abbrev pub rejection_receipt : Candidate → String → ℕ → Receipt
rejection_receipt c reason now = record {
  project_key = project_key c;
  event_key = durable_event_key c;
  event_kind = c.event_kind;
  actor_username = some c.actor_username;
  payload = ("issue_iid", decimal c.issue_iid) ∷ ("reason", reason) ∷ [];
  observed_at = now;
}

-- `_reject`: the event is consumed, and the first time a notice tells the issue.
unfoldable pub reject : Candidate → Rejection → ℕ → Method DispatchResult
unfolding transaction insert_receipt insert_notice
reject c r now = transaction λ db. do
  (inserted, db') ← insert_receipt (rejection_receipt c r.reason now) db
  ok (
    record { accepted = false; job_id = none; reason = some r.reason },
    if inserted
        then insert_notice
            (Notice.dispatch_rejected (durable_event_key c) (project_key c) c.issue_iid r.reason
              r.set_failed_label now)
            now db'
        else db',
  )

abbrev pub owned_by : String → Workspace → Bool
owned_by username w = str_eq w.owner_username username && (w.enabled && w.ready)

-- `_active_run`: the conversation with the state of its current job, if it has one.
unfoldable pub active_run : String → Db → Option (Conversation × Option JobState)
active_run key db = elim (find_where (keyed key) db.conversations) [
  | none ↦ none
  | some c ↦ elim c.current_job_id [
    | none ↦ some (c, none)
    | some id ↦ elim (find_where (λ (j : Job). str_eq j.job_id id) db.jobs) [
      | none ↦ some (c, none)
      | some j ↦ some (c, some j.state)
    ]
  ]
]

abbrev pub pending_entry : Candidate → ℕ → Pending
pending_entry c now = record {
  messages = c.trigger_messages;
  reply_target = dump_if_any c.reply_target;
  actor_username = c.actor_username;
  actor_user_id = c.actor_user_id;
  event_key = durable_event_key c;
  queued_at = now;
}

abbrev pub pending_receipt : Candidate → ℕ → Receipt
pending_receipt c now = record {
  project_key = project_key c;
  event_key = durable_event_key c;
  event_kind = c.event_kind;
  actor_username = some c.actor_username;
  payload = ("reason", "queued for next run") ∷ [];
  observed_at = now;
}

abbrev pub refusal : String → DispatchResult
refusal reason = record { accepted = false; job_id = none; reason = some reason }

abbrev pub acceptance : String → DispatchResult
acceptance job_id = record { accepted = true; job_id = some job_id; reason = none }

-- The answer to a call that returned.
abbrev pub answer : DispatchResult → Result Bool × Db → Result DispatchResult × Db
answer a (ok inserted, db) = (ok a, db)
answer a (err e, db) = (err e, db)

-- `_queue_pending` of the dispatcher
unfoldable pub queue_comment : Candidate → Clock → Db → Result DispatchResult × Db
unfolding queue_pending
queue_comment c clock db = answer (refusal "queued for next run") (
    queue_pending (conversation_key c) (pending_entry c clock.queued_at)
      (pending_receipt c clock.pending_at) clock.pending_at db)

-- `consumed_event`
unfoldable pub consumed_event : (project_key event_key : String) → Db → Option DispatchResult
consumed_event project event db = elim (find_where (triggered_by event) db.jobs) [
  | some job ↦ some (acceptance job.job_id)
  | none ↦
      if has_where (λ (r : Receipt). str_eq r.project_key project && str_eq r.event_key event)
        db.receipts
      then some (refusal "event was already consumed")
      else none
]

-- `record_skipped_event`
unfoldable pub record_skipped_event :
    (project_key host project_path : String)
    → ℕ
    → (event_key event_kind actor reason : String) → ℕ
    → Method (Unit {0})
unfolding transaction upsert_project insert_receipt
record_skipped_event key host path id event_key event_kind actor reason now = transaction λ db. do
  db' ← upsert_project key host path id db
  (inserted, db'') ←
      insert_receipt
        (record {
          project_key = key;
          event_key = event_key;
          event_kind = event_kind;
          actor_username = some actor;
          payload = ("reason", reason) ∷ [];
          observed_at = now;
        })
        db'
  ok (tt, db'')

abbrev pub with_key : String → Option String → Dict → Dict
with_key key none d = d
with_key key (some v) d = (key, v) ∷ d

-- `_context`
abbrev pub context : Candidate → Dict
context c =
    ("issue_title", c.issue_title)
    ∷ ("issue_description", text_take 6000 c.issue_description)
    ∷ ("thread_context", text_take 12000 c.thread_context)
    ∷ with_key "worker_briefing" c.worker_briefing
        (("jira_context", text_take 12000 c.jira_context) ∷ [])
