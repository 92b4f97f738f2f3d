-- ===== src/Jobs/Starts.antt =====
-- `mark_started` and `heartbeat` in the life of a job.
use eastwatch.Prelude.{
  ℕ, true, String, some, List, [], ◌∷◌, ◌≡◌, refl, ◌+◌, Result, ok, err, arith, str_eq, inl, inr,
  Option-cases,
}
use eastwatch.Table.{find_where, update_where}
use eastwatch.Table.Every.{All-of}
use eastwatch.Table.Follows.{Match, Match-refl, Match-update, Match-trans}
use eastwatch.Models.{RunReferences, ActiveLease}
use eastwatch.Schema.{Db, Job, is_leased}
use eastwatch.Transaction.{transaction_rule, insert_notice}
use eastwatch.Store.Leases.{
  held_by, start, mark_started, first_start, start_body, retry_start, renew, renewable, renew_all,
  heartbeat, heartbeat_body, raise_stale,
}
use eastwatch.Jobs.{Settles, Settles-refl, Settles-trans, Settles-columns}
use eastwatch.Jobs.Rows.{Keyed, JobsSettle, held_id, settle_alone}

start-Settles : (now : ℕ) (j : Job) → is_leased j.state ≡ true → Settles j (start now j)
start-Settles now j h = ground arith

module _ (workspace_id job_id : String) (generation : ℕ) (refs : RunReferences) (now : ℕ) where
  -- The row that the guards accepted is the only one of its id, so it alone is started.
  started_rows :
      (db : Db) (row : Job)
      → Keyed db
      → find_where (held_by workspace_id job_id generation) db.jobs ≡ some row
      → is_leased row.state ≡ true
      → Match Settles db.jobs
          (update_where (λ (j : Job). str_eq j.job_id job_id) (start now) db.jobs)
  started_rows db row u found leased =
      settle_alone (held_by workspace_id job_id generation) _ job_id (start now) (λ j h. h) db.jobs
        row u found (held_id workspace_id job_id generation db.jobs row found)
        (start-Settles now row leased)

  pub mark_started-Settles :
      (db : Db)
      → Keyed db
      → JobsSettle db (mark_started workspace_id job_id generation refs now db).1
  unfolding mark_started start_body first_start retry_start insert_notice
  mark_started-Settles db u =
      elim (Option-cases (find_where (held_by workspace_id job_id generation) db.jobs)) [
        | inl e ↦ rw (e, start_body) (Match-refl Settles Settles-refl db.jobs)
        | inr (row, e) ↦
            rw (e, start_body)
              (ground (arith, Match-refl Settles Settles-refl db.jobs, started_rows db row u e))
      ]

renew-Settles : (until now : ℕ) (j : Job) → Settles j (renew until now j)
renew-Settles until now j = Settles-columns j _ (refl, refl, refl, refl, refl, refl)

module _ (workspace_id : String) (until now : ℕ) where
  renew_all-Settles :
      (active : List ActiveLease) (jobs : List Job)
      → Match Settles jobs (renew_all workspace_id until now active jobs).1
  unfolding renew_all
  renew_all-Settles [] jobs = Match-refl Settles Settles-refl jobs
  renew_all-Settles (lease ∷ active) jobs =
      Match-trans Settles Settles-trans jobs _ _
        (Match-update Settles Settles-refl (renewable workspace_id now lease) (renew until now) jobs
          (All-of (λ j _. renew-Settles until now j) jobs))
        (renew_all-Settles active
          (update_where (renewable workspace_id now lease) (renew until now) jobs))

-- The exception behind the transaction changes nothing in the database.
pub raise_stale-db : (r : Result (List ActiveLease) × Db) → (raise_stale r).1 ≡ r.1
raise_stale-db (ok [], db) = refl
raise_stale-db (ok (x ∷ xs), db) = refl
raise_stale-db (err e, db) = refl

pub heartbeat-Settles :
    (workspace_id : String) (active : List ActiveLease) (lease_seconds now : ℕ) (db : Db)
    → JobsSettle db (heartbeat workspace_id active lease_seconds now db).1
unfolding heartbeat heartbeat_body
heartbeat-Settles workspace_id active lease_seconds now db = rw raise_stale-db (
    transaction_rule (JobsSettle db) (heartbeat_body workspace_id active (now + lease_seconds) now)
      db (Match-refl Settles Settles-refl db.jobs)
      (ground (arith, renew_all-Settles workspace_id (now + lease_seconds) now active db.jobs)))
