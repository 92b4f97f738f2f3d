-- ===== src/Retention/Refresh.antt =====
-- `RetentionManager.refresh_merge_requests` and `run_once`. `fetch` asks the forge for the `state`
-- and the `merged_at` of a merge request, by host, token, project id and number; `instant` is
-- `datetime.fromisoformat(…).timestamp()`; either may raise. `text_le` is the order of the
-- database's texts, and `now` what the clock gives for each row.
use eastwatch.Prelude.{
  ℕ, ◌+◌, Bool, Option, none, some, String, List, [], ◌∷◌, or_default, Result, ok, err, ◌>>=◌, leb,
  str_eq, ◌==◌, ◌&&◌, not, if◌then◌else◌,
}
use eastwatch.Table.{length, find_where, select_where, update_where, sort_by}
use eastwatch.Schema.{Db, Project, MergeRequest}
use eastwatch.Transaction.{Method, transaction}
use eastwatch.Retention.{ProjectTokens, token_for_project, schedule_due}

pub record Observation : Type 0 where
  pub state : String
  pub merged_at : Option ℕ
  pub updated_at : ℕ
  pub project_key : String
  pub mr_iid : ℕ

-- ORDER BY project_key, mr_iid
abbrev pub mr_order : (String → String → Bool) → MergeRequest → MergeRequest → Bool
mr_order text_le m n =
    if str_eq m.project_key n.project_key
    then leb m.mr_iid n.mr_iid
    else text_le m.project_key n.project_key

unfoldable pub unmerged_rows : (String → String → Bool) → Db → List MergeRequest
unmerged_rows text_le db =
    sort_by (mr_order text_le)
      (select_where (λ (m : MergeRequest). not (str_eq m.state "merged")) db.merge_requests)

abbrev pub observed_row : Observation → MergeRequest → Bool
observed_row o m = str_eq m.project_key o.project_key && m.mr_iid == o.mr_iid

-- `executemany` of the UPDATE
unfoldable pub apply_observations : List Observation → List MergeRequest → List MergeRequest
apply_observations [] table = table
apply_observations (o ∷ os) table = apply_observations os (
    update_where (observed_row o)
      (λ m. record m { state = o.state; merged_at = o.merged_at; updated_at = o.updated_at }) table)

module _
    (fetch : (host token : String)
      → (project_id mr_iid : ℕ) → Result (Option String × Option String))
    (instant : String → Result ℕ) (text_le : String → String → Bool) (tokens : ProjectTokens) where
  -- `timestamp`
  unfoldable pub timestamp : Option String → Result (Option ℕ)
  timestamp none = ok none
  timestamp (some s) = if str_eq s "" then ok none else do t ← instant s; ok (some t)

  unfoldable pub observe : ℕ → MergeRequest → Project → Result Observation
  unfolding timestamp token_for_project
  observe now m p = do
    token ← token_for_project tokens m.project_key
    (state, merged_at) ← fetch p.host token p.project_id m.mr_iid
    merged ← timestamp merged_at
    ok (record {
      state = or_default state "unknown";
      merged_at = merged;
      updated_at = now;
      project_key = m.project_key;
      mr_iid = m.mr_iid;
    })

  -- The loop over the rows; the JOIN leaves out a row without its project.
  unfoldable pub observe_rows : ℕ → Db → List MergeRequest → Result (List Observation)
  unfolding observe
  observe_rows now db [] = ok []
  observe_rows now db (m ∷ ms) =
      elim (find_where (λ (p : Project). str_eq p.project_key m.project_key) db.projects) [
        | none ↦ observe_rows now db ms
        | some p ↦ do o ← observe now m p; os ← observe_rows now db ms; ok (o ∷ os)
      ]

  unfoldable pub refresh_merge_requests : ℕ → Method ℕ
  unfolding transaction unmerged_rows observe_rows apply_observations
  refresh_merge_requests now db = elim (observe_rows now db (unmerged_rows text_le db)) [
    | err e ↦ (err e, db)
    | ok os ↦
        (ok (length os), record db { merge_requests = apply_observations os db.merge_requests })
  ]

  -- `run_once`
  unfoldable pub maintain : (refreshed_at checked_at : ℕ) → Method ℕ
  unfolding refresh_merge_requests schedule_due
  maintain refreshed_at checked_at db = add_scheduled (refresh_merge_requests refreshed_at db)
    where
      add : ℕ → Result ℕ × Db → Result ℕ × Db
      add refreshed (ok scheduled, d) = (ok (refreshed + scheduled), d)
      add refreshed (err e, d) = (err e, d)

      add_scheduled : Result ℕ × Db → Result ℕ × Db
      add_scheduled (ok refreshed, d) = add refreshed (schedule_due checked_at d)
      add_scheduled (err e, d) = (err e, d)
