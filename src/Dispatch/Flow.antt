-- ===== src/Dispatch/Flow.antt =====
-- `HostedDispatcher.dispatch`, put together from its steps.
use eastwatch.Prelude.{
  ℕ, Bool, true, false, Option, none, some, String, List, [], ◌∷◌, Dict, decimal, Result, ok, err,
  if◌then◌else◌,
}
use eastwatch.Models.{JobEnvelope}
use eastwatch.Schema.{Db, Workspace}
use eastwatch.Store.Events.{record_dispatch_event}
use eastwatch.Store.Complete.{dump_if_any}
use eastwatch.Dispatch.Requests.{
  Assignee, Candidate, project_key, durable_event_key, conversation_key, DispatchResult, Clock,
  ensure_project, reject, active_run, queue_comment, acceptance, consumed_event, context,
}
use eastwatch.Dispatch.Handler.{
  Checked, passed, rejected, failing, responsible, authorized, workspace_of, waits, spec_for,
  upsert_conversation,
}

infixl 5 ◌>>=◌
abbrev pub ◌>>=◌ : {A B : Type 0} → Checked A → (A → Checked B) → Checked B
passed a >>= f = f a
rejected r >>= f = rejected r

-- Go on if the test holds.
abbrev pub permit : Bool → List String → Checked Bool
permit true reason = passed true
permit false reason = failing reason

-- `candidate.reply_target or {"kind": "issue", "iid": …}`
abbrev pub or_issue : ℕ → Option Dict → Dict
or_issue iid none = ("kind", "issue") ∷ ("iid", decimal iid) ∷ []
or_issue iid (some target) = target

abbrev pub envelope_of :
    Candidate → String → Assignee → String × String × Option String → JobEnvelope
envelope_of c job_id a (provider, model, effort) = record {
  schema_version = 1;
  job_id = job_id;
  conversation_key = conversation_key c;
  host = c.host;
  project_path = c.project_path;
  project_id = c.project_id;
  issue_iid = c.issue_iid;
  issue_url = c.issue_url;
  trigger_kind = c.trigger_kind;
  trigger_event_key = durable_event_key c;
  owner_username = a.username;
  provider = provider;
  model = model;
  effort = effort;
  context = context c;
  messages = c.trigger_messages;
  reply_target = or_issue c.issue_iid (dump_if_any c.reply_target);
}

abbrev pub dispatch_payload : Candidate → Dict
dispatch_payload c = ("issue_iid", decimal c.issue_iid) ∷ ("trigger_kind", c.trigger_kind) ∷ []

-- The answer of `dispatch` to that of `record_dispatch_event`.
abbrev pub accept : Result (String × Bool) × Db → Result DispatchResult × Db
accept (ok (job_id, created), db) = (ok (acceptance job_id), db)
accept (err e, db) = (err e, db)

-- Behind the transaction on the conversation.
unfoldable pub submit : Candidate → JobEnvelope → ℕ → Db → Result Db → Result DispatchResult × Db
unfolding record_dispatch_event
submit c envelope now db (ok changed) =
    accept (
      record_dispatch_event envelope c.event_kind c.actor_username (dispatch_payload c) now changed)
submit c envelope now db (err e) = (err e, db)

-- `text_repr` and the new id of the job.
module _ (text_repr : String → String) (admins approved_bots : List String) (job_id : String) where
  -- The part of the `try` block that only reads: the assignee, the workspace, and whether the event waits.
  unfoldable pub admitted : Candidate → Db → Checked (Assignee × Workspace × Bool)
  unfolding responsible authorized workspace_of waits active_run
  admitted c db = do
    a ← responsible c
    allowed ←
        permit (authorized admins approved_bots c.actor_username a.username)
          ("@" ∷ c.actor_username ∷ " cannot dispatch work owned by @" ∷ a.username ∷ [])
    w ← workspace_of a db
    waiting ← waits c w (active_run (conversation_key c) db)
    passed (a, w, waiting)

  unfoldable pub launch :
      Candidate → Clock → Assignee → Workspace → Db → Checked (Result DispatchResult × Db)
  unfolding spec_for upsert_conversation submit
  launch c clock a w db = do
    parts ← spec_for text_repr c a w
    upserted ← upsert_conversation c w.workspace_id parts clock.upserted_at db
    passed (submit c (envelope_of c job_id a parts) clock.dispatched_at db upserted)

  -- The `try` block.
  unfoldable pub attempt : Candidate → Clock → Db → Checked (Result DispatchResult × Db)
  unfolding admitted launch queue_comment
  attempt c clock db = do
    (a, w, waiting) ← admitted c db
    if waiting then passed (queue_comment c clock db) else launch c clock a w db

  -- The `except DispatchRejected` clause.
  unfoldable pub conclude :
      Candidate → Clock → Db → Checked (Result DispatchResult × Db) → Result DispatchResult × Db
  unfolding reject
  conclude c clock db (passed r) = r
  conclude c clock db (rejected r) = reject c r clock.rejected_at db

  unfoldable pub dispatch_ensured :
      Candidate → Clock → Result (Unit {0}) × Db → Result DispatchResult × Db
  unfolding consumed_event attempt conclude
  dispatch_ensured c clock (err e, db) = (err e, db)
  dispatch_ensured c clock (ok t, db) =
      elim (consumed_event (project_key c) (durable_event_key c) db) [
        | some consumed ↦ (ok consumed, db)
        | none ↦ conclude c clock db (attempt c clock db)
      ]

  unfoldable pub dispatch : Candidate → Clock → Db → Result DispatchResult × Db
  unfolding ensure_project dispatch_ensured
  dispatch c clock db = dispatch_ensured c clock (ensure_project c db)
