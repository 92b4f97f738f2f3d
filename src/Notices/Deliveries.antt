-- ===== src/Notices/Deliveries.antt =====
-- `HostedOutbox.deliver` and `run_once`. `Forge` is what they call outside the database: the helpers
-- of src/eastwatch/watcher.py and the requests to GitLab. The texts of the notes are left to it.
use eastwatch.Prelude.{
  ℕ, ◌^◌, min, Bool, true, false, Option, none, some, String, List, [], ◌∷◌, Dict, get, decimal,
  Result, ok, err, Error, ◌>>=◌, ltb, str_eq, ◌==◌, ◌&&◌, ◌||◌, not, if◌then◌else◌,
}
use eastwatch.Table.{find_where}
use eastwatch.Models.{JobState}
use eastwatch.Schema.{
  Db, Project, Conversation, Status, Job, Run, job_completed, runner_lost, job_started,
  dispatch_rejected, is_queued, is_active,
}
use eastwatch.Transaction.{Method}
use eastwatch.Store.Outbox.{ClaimedItem}
use eastwatch.Store.Leases.{works_on}
use eastwatch.Retention.{ProjectTokens, token_for_project}
use eastwatch.Notices.{DeliveryRow, delivery_row, record_terminal}

-- The labels of an issue that a delivery sets.
pub data Label : Type 0 where
  parked mr_ready for_human failed researching working : Label

pub record MergeRequestInfo : Type 0 where
  pub author : String
  pub source_issue : Option String

-- `parks` tells whether the status line of a reply is "parked"; `mr_iids` finds the merge requests
-- that a reply names; `fetch_mr`, `note` and `set_label` ask or write the forge, and may raise.
-- `meanwhile` is what others do to the database while `deliver_job` talks to the forge.
pub record Forge : Type 0 where
  pub meanwhile : Db → Db
  pub parks : String → Bool
  pub mr_iids : (project_path reply : String) → List ℕ
  pub fetch_mr : (host token : String) → (project_id iid : ℕ) → Result (Option MergeRequestInfo)
  pub note : (host token : String) → (project_id : ℕ) → Dict → (outbox_id : ℕ) → Result ℕ
  pub set_label : (host token : String) → (project_id issue_iid : ℕ) → Label → Result (Unit {0})

-- `min(300.0, float(2 ** min(attempt, 8)))`, in seconds
abbrev pub retry_delay : ℕ → ℕ
retry_delay attempt = min 300 (2 ^ min attempt 8)

abbrev pub is_succeeded : JobState → Bool
is_succeeded JobState.succeeded = true
is_succeeded _ = false

abbrev pub reply_of : Dict → String
reply_of d = elim (get d "reply") [ none ↦ "" | some reply ↦ reply ]

-- `result_json`, if the run has one
abbrev pub result_of : Option Run → Option Dict
result_of none = none
result_of (some r) = r.result

abbrev pub is_nil_mrs : List ℕ → Bool
is_nil_mrs [] = true
is_nil_mrs (x ∷ xs) = false

abbrev pub is_parked : Label → Bool
is_parked Label.parked = true
is_parked _ = false

-- The label and the merge requests that `completion_body` gives beside its text.
unfoldable pub completion_outcome : Forge → DeliveryRow → Label × List ℕ
completion_outcome forge row = elim (result_of row.run) [
  | none ↦ (Label.failed, [])
  | some result ↦
      if not (is_succeeded row.job.state)
      then (Label.failed, [])
      else (let mrs =
            if str_eq row.job.envelope.trigger_kind "agent::ready"
            then forge.mr_iids row.project.project_path (reply_of result)
            else [] in
          if forge.parks (reply_of result)
          then (Label.parked, mrs)
          else if is_nil_mrs mrs
          then (Label.for_human, mrs)
          else (Label.mr_ready, mrs))
]

abbrev pub marks_issue : MergeRequestInfo → DeliveryRow → Bool
marks_issue mr row = elim mr.source_issue [
  | none ↦ false
  | some iid ↦ str_eq iid (decimal row.conversation.issue_iid)
]

-- The loop of `validate_mrs`: whether the merge requests are valid.
unfoldable pub valid_mrs : Forge → String → DeliveryRow → List ℕ → Result Bool
valid_mrs forge token row [] = ok true
valid_mrs forge token row (iid ∷ iids) = do
  found ← forge.fetch_mr row.project.host token row.project.project_id iid
  elim found [
    | none ↦ ok false
    | some mr ↦
        let others = valid_mrs forge token row iids in
        if not (str_eq mr.author row.workspace.owner_username)
        then ok false
        else if not (marks_issue mr row)
        then ok false
        else others
  ]

-- `validate_mrs`: a ValueError is `false`; other exceptions of the forge are raised.
unfoldable pub validate_mrs :
    Forge → String → DeliveryRow → List ℕ → (require_mr : Bool) → Result Bool
unfolding valid_mrs
validate_mrs forge token row iids require_mr =
    if require_mr && (str_eq row.job.envelope.trigger_kind "agent::ready" && is_nil_mrs iids)
    then ok false
    else valid_mrs forge token row iids

abbrev pub status_of_job : JobState → Status
status_of_job JobState.queued = Status.queued
status_of_job JobState.leased = Status.leased
status_of_job JobState.running = Status.running
status_of_job JobState.succeeded = Status.succeeded
status_of_job JobState.failed = Status.failed
status_of_job JobState.cancelled = Status.cancelled

-- The status that a delivery records.
abbrev pub terminal_status : Label → JobState → Status
terminal_status Label.parked state = Status.parked
terminal_status Label.failed state = Status.failed
terminal_status _ state = status_of_job state

abbrev pub or_issue_target : Dict → ℕ → Dict
or_issue_target [] iid = ("kind", "issue") ∷ ("iid", decimal iid) ∷ []
or_issue_target (x ∷ xs) iid = x ∷ xs

abbrev pub keep_valid : Bool → Label × List ℕ → Label × List ℕ
keep_valid true outcome = outcome
keep_valid false outcome = (Label.failed, [])

-- The requests of `deliver_job`: what to record when they are through.
unfoldable pub tell_issue : Forge → ProjectTokens → DeliveryRow → ℕ → Result (Label × List ℕ)
unfolding completion_outcome validate_mrs token_for_project
tell_issue forge tokens row outbox_id = do
  token ← token_for_project tokens row.project.project_key
  let (label, mrs) = completion_outcome forge row
  valid ← validate_mrs forge token row mrs (is_succeeded row.job.state && not (is_parked label))
  note ←
      forge.note row.project.host token row.project.project_id
        (or_issue_target row.job.envelope.reply_target row.conversation.issue_iid) outbox_id
  told ←
      forge.set_label row.project.host token row.project.project_id row.conversation.issue_iid
        (keep_valid valid (label, mrs)).0
  ok (keep_valid valid (label, mrs))

unfoldable pub deliver_job : Forge → ProjectTokens → ℕ → String → ℕ → Method (Unit {0})
unfolding delivery_row tell_issue record_terminal
deliver_job forge tokens outbox_id job_id now db = elim (delivery_row job_id db) [
  | err e ↦ (err e, db)
  | ok row ↦
      if not (works_on row.job.job_id row.conversation)
      then (ok tt, db)
      else elim (tell_issue forge tokens row outbox_id) [
        | err e ↦ (err e, forge.meanwhile db)
        | ok outcome ↦
            record_terminal row (terminal_status outcome.0 row.job.state) outcome.1 now
              (forge.meanwhile db)
      ]
]

-- The label of an issue whose job is under way.
unfoldable pub mark_under_way : Forge → ProjectTokens → DeliveryRow → Result (Unit {0})
unfolding token_for_project
mark_under_way forge tokens row = do
  token ← token_for_project tokens row.project.project_key
  forge.set_label row.project.host token row.project.project_id row.conversation.issue_iid (
      if str_eq row.job.envelope.trigger_kind "agent::ready-research"
      then Label.researching
      else Label.working)

unfoldable pub deliver_started : Forge → ProjectTokens → String → Db → Result (Unit {0})
unfolding delivery_row mark_under_way
deliver_started forge tokens job_id db = elim (delivery_row job_id db) [
  | err e ↦ err e
  | ok row ↦
      if not (works_on row.job.job_id row.conversation)
      then ok tt
      else if not (is_active row.job.state)
      then ok tt
      else mark_under_way forge tokens row
]

-- The current job of the issue's conversation.
unfoldable pub issue_job : String → ℕ → Db → Option Job
issue_job project_key iid db =
    elim (find_where (λ (c : Conversation). str_eq c.project_key project_key && c.issue_iid == iid)
      db.conversations) [
        | none ↦ none
        | some c ↦ find_where (λ (j : Job). works_on j.job_id c) db.jobs
      ]

-- Whether a job overtakes a rejection of `rejected_at`: it is under way, or newer.
abbrev pub overtakes : ℕ → Option Job → Bool
overtakes rejected_at none = false
overtakes rejected_at (some j) =
    is_queued j.state || is_active j.state || ltb rejected_at j.created_at

unfoldable pub deliver_rejection :
    Forge → ProjectTokens → ℕ → String → ℕ → Bool → ℕ → Db → Result (Unit {0})
unfolding issue_job token_for_project
deliver_rejection forge tokens outbox_id project_key iid set_failed_label rejected_at db =
    elim (find_where (λ (p : Project). str_eq p.project_key project_key) db.projects) [
      | none ↦ err Error.runtime
      | some p ↦ if overtakes rejected_at (issue_job project_key iid db) then ok tt else do
        token ← token_for_project tokens project_key
        note ←
            forge.note p.host token p.project_id (("kind", "issue") ∷ ("iid", decimal iid) ∷ [])
              outbox_id
        if set_failed_label
            then forge.set_label p.host token p.project_id iid Label.failed
            else ok tt
    ]

unfoldable pub deliver : Forge → ProjectTokens → ClaimedItem → ℕ → Method (Unit {0})
unfolding deliver_job deliver_started deliver_rejection
deliver forge tokens item now db = elim item.notice [
  | job_completed id w generation state ↦ deliver_job forge tokens item.outbox_id id now db
  | runner_lost id ↦ deliver_job forge tokens item.outbox_id id now db
  | job_started id ↦ (deliver_started forge tokens id db, db)
  | dispatch_rejected event key iid reason label at ↦
      (deliver_rejection forge tokens item.outbox_id key iid label at db, db)
]
