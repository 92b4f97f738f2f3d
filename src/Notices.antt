-- ===== src/Notices.antt =====
-- src/eastwatch/controller/outbox.py: `HostedOutbox` delivers the notices of the outbox to the forge.
-- This module holds what it reads and writes in the database; the children hold the deliveries, and
-- their laws.
pub mod Deliveries
pub mod Rounds
pub mod Laws
pub mod Notes
pub mod Markers
use eastwatch.Prelude.{
  ℕ, ◌+◌, Bool, true, false, Option, none, some, String, List, [], ◌∷◌, ◌++◌, Dict, get, Result, ok,
  err, Error, ◌>>=◌, leb, str_eq, ◌==◌, ◌&&◌, ◌||◌, not, if◌then◌else◌,
}
use eastwatch.Table.{find_where, select_where, update_where, count_where, has_where, sort_by}
use eastwatch.Models.{JobState}
use eastwatch.Schema.{
  Db, Project, Workspace, Conversation, Status, SessionRefs, Job, Run, MergeRequest,
}
use eastwatch.Transaction.{Body, Method, transaction}
use eastwatch.Store.Events.{keyed}
use eastwatch.Store.Leases.{truthy, works_on}

-- What the SELECT of `job_row` joins for a job.
pub record DeliveryRow : Type 0 where
  pub job : Job
  pub conversation : Conversation
  pub project : Project
  pub workspace : Workspace
  pub run : Option Run

abbrev pub head_of {ℓ} : {A : Type ℓ} → List A → Option A
head_of [] = none
head_of (x ∷ xs) = some x

-- ORDER BY r.started_at DESC LIMIT 1
unfoldable pub last_run : String → List Run → Option Run
last_run job_id runs = head_of (
    sort_by (λ (r s : Run). leb s.started_at r.started_at)
      (select_where (λ (r : Run). str_eq r.job_id job_id) runs))

-- `job_row`
unfoldable pub delivery_row : String → Db → Result DeliveryRow
unfolding last_run
delivery_row job_id db = elim (find_where (λ (j : Job). str_eq j.job_id job_id) db.jobs) [
  | none ↦ err Error.runtime
  | some j ↦ elim (find_where (keyed j.conversation_key) db.conversations) [
    | none ↦ err Error.runtime
    | some c ↦ elim (find_where (λ (p : Project). str_eq p.project_key c.project_key) db.projects) [
      | none ↦ err Error.runtime
      | some p ↦
          elim (find_where (λ (w : Workspace). str_eq w.workspace_id j.workspace_id)
            db.workspaces) [
              | none ↦ err Error.runtime
              | some w ↦ ok (record {
                job = j;
                conversation = c;
                project = p;
                workspace = w;
                run = last_run job_id db.runs;
              })
            ]
    ]
  ]
]

abbrev pub if_truthy : Option String → Option String
if_truthy o = if truthy o then o else none

abbrev pub field_of : Option Dict → String → Option String
field_of none key = none
field_of (some d) key = if_truthy (get d key)

-- `session_refs` of `record_terminal`
abbrev pub session_refs_of : Option Run → SessionRefs
session_refs_of none = record { refs = none; session_id = none; session_file_relpath = none }
session_refs_of (some r) = record {
  refs = r.refs;
  session_id = field_of r.result "session_id";
  session_file_relpath = field_of r.result "session_file_relpath";
}

abbrev pub mr_row : DeliveryRow → String → ℕ → ℕ → MergeRequest
mr_row row run_id now iid = record {
  project_key = row.project.project_key;
  mr_iid = iid;
  conversation_key = row.conversation.conversation_key;
  job_id = row.job.job_id;
  run_id = run_id;
  state = "opened";
  merged_at = none;
  updated_at = now;
}

abbrev pub mr_keyed : MergeRequest → MergeRequest → Bool
mr_keyed m n =
    str_eq n.project_key m.project_key
    && (n.mr_iid == m.mr_iid && (str_eq n.job_id m.job_id && str_eq n.run_id m.run_id))

-- INSERT INTO merge_requests … ON CONFLICT DO UPDATE
unfoldable pub upsert_mr : MergeRequest → List MergeRequest → List MergeRequest
upsert_mr m table =
    if has_where (mr_keyed m) table
    then update_where (mr_keyed m)
        (λ n. record n {
          conversation_key = m.conversation_key;
          job_id = m.job_id;
          run_id = m.run_id;
          state = m.state;
          updated_at = m.updated_at;
        })
        table
    else table ++ m ∷ []

-- The loop over the merge requests; `run_id` must not be NULL.
unfoldable pub upsert_mrs :
    DeliveryRow → ℕ → List ℕ → List MergeRequest → Result (List MergeRequest)
unfolding upsert_mr
upsert_mrs row now [] table = ok table
upsert_mrs row now (iid ∷ iids) table = elim row.run [
  | none ↦ err Error.integrity
  | some r ↦ upsert_mrs row now iids (upsert_mr (mr_row row r.run_id now iid) table)
]

-- The conversation of the row, if the job is still its current one.
abbrev pub current_row : DeliveryRow → Conversation → Bool
current_row row c = keyed row.conversation.conversation_key c && works_on row.job.job_id c

unfoldable pub terminal_body : DeliveryRow → Status → List ℕ → ℕ → Body (Unit {0})
unfolding upsert_mrs
terminal_body row status mr_iids now db =
    if not (count_where (current_row row) db.conversations == 1) then err Error.runtime else do
      mrs ← upsert_mrs row now mr_iids db.merge_requests
      ok (
        tt,
        record db {
          conversations =
              update_where (current_row row)
                (λ c. record c {
                  status = status;
                  session_refs = some (session_refs_of row.run);
                  updated_at = now;
                })
                db.conversations;
          merge_requests = mrs;
        },
      )

unfoldable pub record_terminal : DeliveryRow → Status → List ℕ → ℕ → Method (Unit {0})
unfolding transaction terminal_body
record_terminal row status mr_iids now = transaction (terminal_body row status mr_iids now)
