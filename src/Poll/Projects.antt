-- ===== src/Poll/Projects.antt =====
-- The row of a project in `hosted_cycle` of src/eastwatch/watcher.py: its registration, its cursor, the
-- labels of its first cycle, and the small tests of the cycle.
use eastwatch.Prelude.{
  ℕ, ◌-◌, Bool, true, false, Option, none, some, String, List, [], ◌∷◌, ◌++◌, decimal, Result, ok,
  err, Error, str_eq, column_eq, ◌||◌, if◌then◌else◌,
}
use eastwatch.Table.{find_where, update_where, has_where}
use eastwatch.Schema.{Project, Receipt, Pending}
use eastwatch.Transaction.{Method, transaction}
use eastwatch.Store.Events.{record_event}
use eastwatch.Dispatch.Requests.{DispatchResult, project_keyed, project_clash}
use eastwatch.Poll.{GitLab, ProjectConfig, Moment}
use eastwatch.Poll.Listings.{LabelFire, hosted_label_fires}
use eastwatch.Poll.Comments.{config_key, event_key}
use eastwatch.Poll.Sequence.{◌>>=◌, done}

-- The time, and the surroundings of the listing, of each label event, of each comment, and of the
-- queue of each issue.
pub record Surroundings : Type 0 where
  pub listing : Moment
  pub at_label : ℕ → Moment
  pub at_comment : ℕ → Moment
  pub at_queue : ℕ → Moment

abbrev pub polled_project : ProjectConfig → Project
polled_project proj = record {
  project_key = config_key proj;
  host = proj.host;
  project_path = proj.path;
  project_id = proj.project_id;
  last_event_id = 0;
  bootstrapped = false;
}

-- INSERT INTO projects … ON CONFLICT(project_key) DO UPDATE SET project_id
abbrev pub with_project : ProjectConfig → List Project → List Project
with_project proj rows =
    if has_where (project_keyed (config_key proj)) rows
    then update_where (project_keyed (config_key proj))
        (λ p. record p { project_id = proj.project_id }) rows
    else rows ++ polled_project proj ∷ []

-- The first transaction: the project's row, with its `last_event_id` and `bootstrapped`.
unfoldable pub register_project : ProjectConfig → Method (ℕ × Bool)
unfolding transaction
register_project proj = transaction λ db.
    if has_where (project_clash (config_key proj) proj.host proj.path) db.projects
    then err Error.integrity
    else elim (find_where (project_keyed (config_key proj)) (with_project proj db.projects)) [
      | none ↦ err Error.runtime
      | some p ↦ ok (
        (p.last_event_id, p.bootstrapped),
        record db { projects = with_project proj db.projects },
      )
    ]

-- UPDATE projects SET … WHERE project_key = ?
unfoldable pub update_project : ProjectConfig → (Project → Project) → Method (Unit {0})
unfolding transaction
update_project proj set = transaction λ db.
    ok (tt, record db { projects = update_where (project_keyed (config_key proj)) set db.projects })

abbrev pub move_cursor : ℕ → Project → Project
move_cursor cursor p = record p { last_event_id = cursor }

abbrev pub first_cursor : ℕ → Project → Project
first_cursor cursor p = record p { last_event_id = cursor; bootstrapped = true }

-- TRIGGER_LABELS
abbrev pub trigger_labels : List String
trigger_labels = "agent::ready" ∷ "agent::ready-research" ∷ []

abbrev pub has_trigger : ProjectConfig → String → Bool
has_trigger proj label = has_where (str_eq label) proj.triggers

abbrev pub label_fires : GitLab → ProjectConfig → List String → Result (List LabelFire)
label_fires gl proj [] = ok []
label_fires gl proj (label ∷ labels) =
    let others = label_fires gl proj labels in
    if has_trigger proj label then both (hosted_label_fires gl proj label) others else others
  where
    after : List LabelFire → Result (List LabelFire) → Result (List LabelFire)
    after fires (ok others) = ok (fires ++ others)
    after fires (err e) = err e

    both : Result (List LabelFire) → Result (List LabelFire) → Result (List LabelFire)
    both (ok fires) others = after fires others
    both (err e) others = err e

abbrev pub adoption : ProjectConfig → ℕ → LabelFire → Receipt
adoption proj now fire = record {
  project_key = config_key proj;
  event_key = event_key proj "label" fire.event_id;
  event_kind = "adopted-label";
  actor_username = some fire.actor_username;
  payload = ("issue_iid", decimal fire.issue.iid) ∷ ("label", fire.label) ∷ [];
  observed_at = now;
}

-- The first cycle of a project adopts the labels that it finds.
unfoldable pub adopt : Surroundings → ProjectConfig → LabelFire → Method (Unit {0})
unfolding record_event
adopt around proj fire = do
  inserted ← record_event (adoption proj (around.at_label fire.event_id).written_at fire)
  done tt

abbrev pub last_entry : Pending → List Pending → Pending
last_entry e [] = e
last_entry e (f ∷ fs) = last_entry f fs

abbrev pub all_messages : List Pending → List String
all_messages [] = []
all_messages (e ∷ es) = e.messages ++ all_messages es

-- Whether the queue is through: its messages have gone into a job.
abbrev pub is_drained : DispatchResult → Bool
is_drained a = a.accepted || column_eq a.reason "event was already consumed"

-- `halted_at - 1 if halted_at is not None else cursor`
abbrev pub next_cursor : ℕ → Option ℕ → ℕ
next_cursor cursor none = cursor
next_cursor cursor (some halted_at) = halted_at - 1
