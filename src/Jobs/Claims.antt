-- ===== src/Jobs/Claims.antt =====
-- `claim_jobs` in the life of a job.
use eastwatch.Prelude.{
  ℕ, ◌+◌, Bool, true, String, List, [], ◌∷◌, ◌≡◌, refl, ap, arith, str_eq, min, inl, inr,
  Option-cases,
}
use eastwatch.Table.{find_where, update_where, select_where, count_where}
use eastwatch.Table.Every.{All, All-map, All-update, All-select, All-sort, All-take}
use eastwatch.Table.Keys.{Unique, Unique-update, Unique-alone}
use eastwatch.Table.Follows.{Match, Match-refl, Match-update, Match-trans}
use eastwatch.Schema.{Db, Workspace, Job}
use eastwatch.Store.Workspaces.{enabled_id}
use eastwatch.Store.Claim.{
  queued_in, queued_id, by_created_at, lease, lease_rows, claimable, available_slots, claim_body,
  claim_jobs, active_in,
}
use eastwatch.Jobs.{Evolves, Evolves-refl, Evolves-trans}
use eastwatch.Jobs.Rows.{job_key, Keyed, JobsEvolve}

-- While it is queued, the job of a selected row is as it was selected.
abbrev pub Fresh : List Job → Job → Type 0
Fresh jobs row =
    All
      (λ j.
        queued_id row.job_id j ≡ true
        → (j.lease_generation ≡ row.lease_generation) × (j.workspace_id ≡ row.workspace_id))
      jobs

module _ (until now : ℕ) (row : Job) where
  abbrev pub leased_table : List Job → List Job
  leased_table = update_where (queued_id row.job_id) (lease (row.lease_generation + 1) until now)

  lease-Evolves :
      (j : Job)
      → j.lease_generation ≡ row.lease_generation
      → queued_id row.job_id j ≡ true
      → Evolves j (lease (row.lease_generation + 1) until now j)
  lease-Evolves j same h = ground arith

  pub leased_table-Evolves :
      (jobs : List Job) → Fresh jobs row → Match Evolves jobs (leased_table jobs)
  leased_table-Evolves jobs fresh =
      Match-update Evolves Evolves-refl _ _ jobs
        (All-map (λ j f h. lease-Evolves j (f h).0 h) jobs fresh)

  pub leased_table-Fresh :
      (jobs : List Job) (other : Job) → Fresh jobs other → Fresh (leased_table jobs) other
  leased_table-Fresh jobs other fresh =
      All-update _ _ (λ j f hit queued. absurd (ground arith)) (λ j f miss queued. f queued) jobs
        fresh

  pub leased_table-Unique :
      (jobs : List Job) → Unique job_key jobs → Unique job_key (leased_table jobs)
  leased_table-Unique jobs u = Unique-update job_key _ _ (λ j. refl) jobs u

module _ (workspace_id : String) (until now : ℕ) where
  lease_rows-Evolves :
      (rows jobs : List Job)
      → All (Fresh jobs) rows
      → Match Evolves jobs (lease_rows workspace_id until now rows jobs).1
  unfolding lease_rows
  lease_rows-Evolves [] jobs fresh = Match-refl Evolves Evolves-refl jobs
  lease_rows-Evolves (row ∷ rows) jobs fresh =
      Match-trans Evolves Evolves-trans jobs _ _ (leased_table-Evolves until now row jobs fresh.0) (
        lease_rows-Evolves rows (leased_table until now row jobs)
          (All-map (leased_table-Fresh until now row jobs) rows fresh.1))

-- Rows of the table are fresh, since no other job has their ids.
Fresh-row :
    (jobs : List Job) (row : Job)
    → All (λ j. str_eq j.job_id row.job_id ≡ true → j ≡ row) jobs
    → Fresh jobs row
Fresh-row jobs row alone =
    All-map
      (λ j same h. (
        ap (λ (k : Job). k.lease_generation) (same (ground arith)),
        ap (λ (k : Job). k.workspace_id) (same (ground arith)),
      ))
      jobs alone

-- The selected rows: fresh, and queued in the workspace.
pub claimable-Fresh :
    (text_le : String → String → Bool) (workspace_id : String) (n : ℕ) (jobs : List Job)
    → Unique job_key jobs
    → All
        (λ row. Fresh jobs row × (queued_in workspace_id row ≡ true))
        (claimable text_le workspace_id n jobs)
unfolding claimable
claimable-Fresh text_le workspace_id n jobs u = All-take _ n _ (
    All-sort _ (by_created_at text_le) (select_where (queued_in workspace_id) jobs) (
      All-select (Fresh jobs) (queued_in workspace_id) jobs
        (All-map (Fresh-row jobs) jobs (Unique-alone job_key jobs u))))

pub claim_jobs-Evolves :
    (text_le : String → String → Bool) (workspace_id : String) (limit lease_seconds now : ℕ)
    (db : Db)
    → Keyed db
    → JobsEvolve db (claim_jobs text_le workspace_id limit lease_seconds now db).1
unfolding claim_jobs claim_body
claim_jobs-Evolves text_le workspace_id limit lease_seconds now db u =
    elim (Option-cases (find_where (enabled_id workspace_id) db.workspaces)) [
      | inl e ↦ rw (e, claim_body) (ground (arith, Match-refl Evolves Evolves-refl db.jobs))
      | inr (w, e) ↦
          rw (e, claim_body)
            (ground (
              arith,
              Match-refl Evolves Evolves-refl db.jobs,
              lease_rows-Evolves workspace_id (now + lease_seconds) now (rows w) db.jobs (
                  All-map (λ row h. h.0) (rows w)
                    (claimable-Fresh text_le workspace_id (slots w) db.jobs u)),
            ))
    ]
  where
    slots : Workspace → ℕ
    slots w =
        available_slots (min limit 10) w.capacity (count_where (active_in workspace_id) db.jobs)

    rows : Workspace → List Job
    rows w = claimable text_le workspace_id (slots w) db.jobs
