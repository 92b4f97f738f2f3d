-- ===== src/Dispatch/Handler.antt =====
-- `HostedDispatcher.dispatch`: each exit raises DispatchRejected, returns, or goes on. `text_repr` is
-- Python's `repr` of a text, which stands in two of the reasons; `job_id` is the new id that
-- `ControllerStore.new_job_id` draws.
use eastwatch.Prelude.{
  ℕ, Bool, true, false, Option, none, some, String, List, [], ◌∷◌, ◌++◌, text_append, or_default,
  Result, ok, err, Error, str_eq, ◌==◌, ◌&&◌, ◌||◌, not, if◌then◌else◌,
}
use eastwatch.Table.{find_where, update_where, has_where}
use eastwatch.Models.{JobState}
use eastwatch.Schema.{Db, Workspace, Conversation, Status, Project, is_queued, is_active}
use eastwatch.Store.Events.{keyed}
use eastwatch.Dispatch.Hints.{Rejection, parse_hint, split_spec}
use eastwatch.Dispatch.Requests.{Assignee, Candidate, project_key, conversation_key, owned_by}

-- What a part of the `try` block does: it gives a value, or raises DispatchRejected.
pub data Checked (A : Type 0) : Type 0 where
  passed : A → Checked A
  rejected : Rejection → Checked A

-- The parts of an f-string.
abbrev pub concat : List String → String
concat [] = ""
concat (s ∷ []) = s
concat (s ∷ texts) = text_append s (concat texts)

-- With the failed label, as the default of DispatchRejected has it, or without.
abbrev pub failing : {A : Type 0} → List String → Checked A
failing reason = rejected (record { reason = concat reason; set_failed_label = true })

abbrev pub quiet : {A : Type 0} → List String → Checked A
quiet reason = rejected (record { reason = concat reason; set_failed_label = false })

abbrev pub only : Assignee → List Assignee → Checked Assignee
only a [] = passed a
only a (b ∷ others) = failing ("hosted dispatch requires at most one issue assignee" ∷ [])

-- The one who is answerable: the issue's assignee, or the actor if it has none.
unfoldable pub responsible : Candidate → Checked Assignee
responsible c = elim c.assignees [
  | [] ↦ elim c.actor_user_id [
    | none ↦
        failing (
          "issue has no assignee and actor @" ∷ c.actor_username ∷ " has no resolvable user id"
          ∷ [])
    | some id ↦ passed (record { username = c.actor_username; user_id = id })
  ]
  | a ∷ others ↦ only a others
]

-- `candidate.actor_username in {assignee.username, *admins, *approved_bots}`
unfoldable pub authorized : (admins bots : List String) → (actor assignee : String) → Bool
authorized admins bots actor assignee =
    str_eq assignee actor || (has_where (str_eq actor) admins || has_where (str_eq actor) bots)

-- `_workspace`
unfoldable pub workspace_of : Assignee → Db → Checked Workspace
workspace_of a db = elim (find_where (owned_by a.username) db.workspaces) [
  | none ↦ failing ("assignee @" ∷ a.username ∷ " has no dispatch-ready workspace" ∷ [])
  | some w ↦
      if w.owner_user_id == a.user_id
      then passed w
      else failing ("GitLab identity changed for @" ∷ a.username ∷ "; admin must reprovision" ∷ [])
]

-- `state in ("queued", "leased", "running")`, where NULL is in no list
abbrev pub is_open : Option JobState → Bool
is_open none = false
is_open (some s) = is_queued s || is_active s

-- `status in ("finishing", "cleaning")`
abbrev pub is_settling : Status → Bool
is_settling Status.finishing = true
is_settling Status.cleaning = true
is_settling _ = false

abbrev pub status_text : Status → String
status_text Status.idle = "idle"
status_text Status.queued = "queued"
status_text Status.working = "working"
status_text Status.finishing = "finishing"
status_text Status.cleaning = "cleaning"
status_text Status.cleanup_failed = "cleanup-failed"
status_text Status.archived = "archived"
status_text Status.parked = "parked"
status_text Status.leased = "leased"
status_text Status.running = "running"
status_text Status.succeeded = "succeeded"
status_text Status.failed = "failed"
status_text Status.cancelled = "cancelled"

abbrev pub unresolved : {A : Type 0} → Status → Checked A
unresolved status =
    quiet ("conversation is " ∷ status_text status ∷ "; resolve retention before dispatch" ∷ [])

-- What the present run of the conversation makes of the event: whether it waits for the next run.
unfoldable pub waits :
    Candidate → Workspace → Option (Conversation × Option JobState) → Checked Bool
waits c w none = passed false
waits c w (some (active, state)) =
    if not (is_open state || is_settling active.status)
    then passed false
    else if not (str_eq active.workspace_id w.workspace_id)
    then quiet ("issue was reassigned while its previous owner's run is active" ∷ [])
    else if str_eq c.event_kind "comment"
    then passed true
    else if is_open state
    then quiet ("issue already has an active hosted run" ∷ [])
    else unresolved active.status

abbrev pub is_pi : String × String × Option String → Bool
is_pi (provider, model, effort) = str_eq provider "pi"

-- The spec that the hints or the workspace name, if the workspace allows it.
unfoldable pub spec_for :
    (String → String) → Candidate → Assignee → Workspace → Checked (String × String × Option String)
spec_for text_repr c a w =
    let spec = or_default (parse_hint c.hint_texts) w.default_spec in
    if not (has_where (str_eq spec) w.allowed_specs)
    then failing ("model spec " ∷ text_repr spec ∷ " is not approved for @" ∷ a.username ∷ [])
    else elim (split_spec spec) [
      | none ↦ failing ("invalid model spec: " ∷ text_repr spec ∷ [])
      | some parts ↦
          if is_pi parts
          then passed parts
          else failing ("hosted pilot supports Pi model specs only" ∷ [])
    ]

abbrev pub is_blocked : Status → Bool
is_blocked Status.finishing = true
is_blocked Status.cleaning = true
is_blocked Status.cleanup_failed = true
is_blocked _ = false

abbrev pub new_conversation :
    Candidate → String → String × String × Option String → ℕ → Conversation
new_conversation c workspace_id (provider, model, effort) now = record {
  conversation_key = conversation_key c;
  project_key = project_key c;
  issue_iid = c.issue_iid;
  workspace_id = workspace_id;
  status = Status.idle;
  provider = provider;
  model = model;
  effort = effort;
  pending = [];
  session_refs = none;
  current_job_id = none;
  updated_at = now;
}

-- The columns that ON CONFLICT(conversation_key) DO UPDATE sets.
abbrev pub reassign : String → String × String × Option String → ℕ → Conversation → Conversation
reassign workspace_id (provider, model, effort) now c = record c {
  workspace_id = workspace_id;
  provider = provider;
  model = model;
  effort = effort;
  updated_at = now;
}

abbrev pub issue_clash : Candidate → Conversation → Bool
issue_clash c x =
    not (keyed (conversation_key c) x)
    && (str_eq x.project_key (project_key c) && x.issue_iid == c.issue_iid)

-- The INSERT of `_upsert_conversation`, with the UNIQUE and REFERENCES clauses of the table.
unfoldable pub insert_conversation :
    Candidate → String → String × String × Option String → ℕ → Db → Result Db
insert_conversation c workspace_id parts now db =
    if has_where (issue_clash c) db.conversations
    then err Error.integrity
    else if not (has_where (λ (w : Workspace). str_eq w.workspace_id workspace_id) db.workspaces)
    then err Error.integrity
    else if not (has_where (λ (p : Project). str_eq p.project_key (project_key c)) db.projects)
    then err Error.integrity
    else if has_where (keyed (conversation_key c)) db.conversations
    then ok (record db {
      conversations =
          update_where (keyed (conversation_key c)) (reassign workspace_id parts now)
            db.conversations;
    })
    else ok (record db {
      conversations = db.conversations ++ new_conversation c workspace_id parts now ∷ [];
    })

-- `_upsert_conversation`: what the transaction commits, or the rejection that rolls it back.
unfoldable pub upsert_conversation :
    Candidate → String → String × String × Option String → ℕ → Db → Checked (Result Db)
unfolding insert_conversation
upsert_conversation c workspace_id parts now db =
    elim (find_where (keyed (conversation_key c)) db.conversations) [
      | none ↦ passed (insert_conversation c workspace_id parts now db)
      | some current ↦
          if is_blocked current.status
          then unresolved current.status
          else passed (insert_conversation c workspace_id parts now db)
    ]
