-- ===== src/Store/Events.antt =====
-- ControllerStore.record_event, record_dispatch_event, queue_pending, pending_conversations,
-- clear_pending and enqueue_job: receipts of forge events, and the jobs that they start.
use eastwatch.Prelude.{
  ℕ, Bool, true, false, Option, none, some, String, List, [], ◌∷◌, ◌++◌, Dict, Result, ok, err,
  Error, ◌>>=◌, str_eq, ◌&&◌, ◌||◌, not, if◌then◌else◌,
}
use eastwatch.Table.{find_where, select_where, update_where, has_where, drop}
use eastwatch.Models.{JobState, JobEnvelope}
use eastwatch.Schema.{Db, Workspace, Conversation, Status, Pending, Job, Receipt, is_finished}
use eastwatch.Transaction.{Body, Method, transaction, insert_receipt}

unfoldable pub record_event : Receipt → Method Bool
unfolding transaction insert_receipt
record_event receipt = transaction (insert_receipt receipt)

-- The conversation of a key.
abbrev pub keyed : String → Conversation → Bool
keyed key c = str_eq c.conversation_key key

-- The owner's row: the conversation of the key with its workspace, if that is enabled.
unfoldable pub owner_row : String → Db → Option (Conversation × Workspace)
owner_row key db = elim (find_where (keyed key) db.conversations) [
  | none ↦ none
  | some c ↦
      elim (find_where (λ (w : Workspace). str_eq w.workspace_id c.workspace_id && w.enabled)
        db.workspaces) [ none ↦ none | some w ↦ some (c, w) ]
]

-- `_job_owner`: the workspace and the project of the envelope's conversation.
unfoldable pub job_owner : JobEnvelope → Db → Result (String × String)
unfolding owner_row
job_owner envelope db = elim (owner_row envelope.conversation_key db) [
  | none ↦ err Error.ownership
  | some (c, w) ↦
      if str_eq w.owner_username envelope.owner_username
      then ok (c.workspace_id, c.project_key)
      else err Error.ownership
]

unfoldable pub queued_job : JobEnvelope → String → ℕ → Job
queued_job envelope workspace_id created_at = record {
  job_id = envelope.job_id;
  conversation_key = envelope.conversation_key;
  workspace_id = workspace_id;
  trigger_event_key = envelope.trigger_event_key;
  state = JobState.queued;
  envelope = envelope;
  lease_generation = 0;
  lease_until = none;
  last_heartbeat_at = none;
  created_at = created_at;
  started_at = none;
  finished_at = none;
  failure_stage = none;
  failure_reason = none;
}

-- `_insert_job`: the job's id and its trigger event are unique.
unfoldable pub insert_job : JobEnvelope → String → ℕ → Db → Result Db
unfolding queued_job
insert_job envelope workspace_id created_at db =
    if has_where
      (λ (j : Job).
        str_eq j.job_id envelope.job_id || str_eq j.trigger_event_key envelope.trigger_event_key)
      db.jobs
    then err Error.integrity
    else ok (record db {
      jobs = db.jobs ++ queued_job envelope workspace_id created_at ∷ [];
      conversations =
          update_where (keyed envelope.conversation_key)
            (λ c. record c {
              current_job_id = some envelope.job_id;
              status = Status.queued;
              updated_at = created_at;
            })
            db.conversations;
    })

abbrev pub triggered_by : String → Job → Bool
triggered_by key j = str_eq j.trigger_event_key key

unfoldable pub enqueue_new : JobEnvelope → ℕ → Body String
unfolding job_owner insert_job
enqueue_new envelope created_at db = do
  (workspace_id, project_key) ← job_owner envelope db
  db' ← insert_job envelope workspace_id created_at db
  ok (envelope.job_id, db')

unfoldable pub enqueue_body : JobEnvelope → ℕ → Body String
unfolding enqueue_new
enqueue_body envelope created_at db =
    elim (find_where (triggered_by envelope.trigger_event_key) db.jobs) [
      | some existing ↦ ok (existing.job_id, db)
      | none ↦ enqueue_new envelope created_at db
    ]

unfoldable pub enqueue_job : JobEnvelope → ℕ → Method String
unfolding transaction enqueue_body
enqueue_job envelope created_at = transaction (enqueue_body envelope created_at)

-- The receipt and the job are written together; a receipt without its job is an error.
unfoldable pub dispatch_new :
    JobEnvelope → String → String → Dict → ℕ → Db → Result ((String × Bool) × Db)
unfolding job_owner insert_job insert_receipt
dispatch_new envelope event_kind actor payload now db = do
  (workspace_id, project_key) ← job_owner envelope db
  (inserted, db') ←
      insert_receipt
        (record {
          project_key = project_key;
          event_key = envelope.trigger_event_key;
          event_kind = event_kind;
          actor_username = some actor;
          payload = payload;
          observed_at = now;
        })
        db
  if not inserted
      then err Error.runtime
      else do db'' ← insert_job envelope workspace_id now db'; ok ((envelope.job_id, true), db'')

unfoldable pub dispatch_body : JobEnvelope → String → String → Dict → ℕ → Body (String × Bool)
unfolding dispatch_new
dispatch_body envelope event_kind actor payload now db =
    elim (find_where (triggered_by envelope.trigger_event_key) db.jobs) [
      | some existing ↦ ok ((existing.job_id, false), db)
      | none ↦ dispatch_new envelope event_kind actor payload now db
    ]

unfoldable pub record_dispatch_event :
    JobEnvelope → String → String → Dict → ℕ → Method (String × Bool)
unfolding transaction dispatch_body
record_dispatch_event envelope event_kind actor payload now =
    transaction (dispatch_body envelope event_kind actor payload now)

-- `queue_pending`: the receipt holds its keyword arguments, with the payload {"reason": …}. A missing
-- conversation reads as no entries, and its UPDATE changes no row.
unfoldable pub queue_pending : String → Pending → Receipt → ℕ → Method Bool
unfolding transaction insert_receipt
queue_pending key entry receipt observed_at = transaction λ db. do
  (inserted, db') ← insert_receipt receipt db
  if not inserted
      then ok (false, db)
      else ok (
        true,
        record db' {
          conversations =
              update_where (keyed key)
                (λ c. record c { pending = c.pending ++ entry ∷ []; updated_at = observed_at })
                db'.conversations;
        },
      )

-- `clear_pending`: drop the first `count` entries.
unfoldable pub clear_pending : String → ℕ → ℕ → Method (Unit {0})
unfolding transaction
clear_pending key count updated_at = transaction λ db. ok (
  tt,
  record db {
    conversations =
        update_where (keyed key)
          (λ c. record c { pending = drop count c.pending; updated_at = updated_at })
          db.conversations;
  },
)

abbrev pub is_nil : List Pending → Bool
is_nil [] = true
is_nil (x ∷ xs) = false

-- `status NOT IN ('finishing', 'cleaning', 'cleanup-failed')`
abbrev pub is_settled : Status → Bool
is_settled Status.finishing = false
is_settled Status.cleaning = false
is_settled Status.cleanup_failed = false
is_settled _ = true

-- `current_job_id IS NULL OR j.state IN ('succeeded', 'failed')`, with the LEFT JOIN on the job
unfoldable pub current_done : Option String → List Job → Bool
current_done none jobs = true
current_done (some id) jobs = elim (find_where (λ (j : Job). str_eq j.job_id id) jobs) [
  | none ↦ false
  | some j ↦ is_finished j.state
]

-- `pending_conversations`
unfoldable pub pending_conversations : String → Db → List Conversation
unfolding current_done
pending_conversations project_key db =
    select_where
      (λ (c : Conversation).
        str_eq c.project_key project_key
        && not (is_nil c.pending)
        && current_done c.current_job_id db.jobs
        && is_settled c.status)
      db.conversations
