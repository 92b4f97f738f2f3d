-- ===== src/Store/Claim.antt =====
-- ControllerStore.claim_jobs: a runner leases queued jobs of its workspace, oldest first.
use eastwatch.Prelude.{
  ℕ, ◌+◌, ◌-◌, min, Bool, true, none, some, String, List, [], ◌∷◌, ok, err, Error, ltb, str_eq,
  ◌==◌, ◌&&◌, if◌then◌else◌,
}
use eastwatch.Table.{find_where, select_where, update_where, count_where, sort_by, take}
use eastwatch.Models.{JobState, ClaimedJob}
use eastwatch.Schema.{Workspace, Job, is_queued, is_active}
use eastwatch.Transaction.{Body, Method, transaction}
use eastwatch.Store.Workspaces.{enabled_id}

abbrev pub active_in : String → Job → Bool
active_in workspace_id j = str_eq j.workspace_id workspace_id && is_active j.state

abbrev pub queued_in : String → Job → Bool
queued_in workspace_id j = str_eq j.workspace_id workspace_id && is_queued j.state

abbrev pub queued_id : String → Job → Bool
queued_id job_id j = str_eq j.job_id job_id && is_queued j.state

-- ORDER BY created_at, job_id; `text_le` is the order of the database's texts.
abbrev pub by_created_at : (String → String → Bool) → Job → Job → Bool
by_created_at text_le x y =
    if ltb x.created_at y.created_at
    then true
    else x.created_at == y.created_at && text_le x.job_id y.job_id

abbrev pub lease : ℕ → ℕ → ℕ → Job → Job
lease generation lease_until claimed_at j = record j {
  state = JobState.leased;
  lease_generation = generation;
  lease_until = some lease_until;
  last_heartbeat_at = some claimed_at;
}

abbrev pub claimed_job : String → ℕ → Job → ClaimedJob
claimed_job workspace_id lease_until row = record {
  envelope = row.envelope;
  workspace_id = workspace_id;
  lease_generation = row.lease_generation + 1;
  lease_until = lease_until;
}

-- The loop over the selected rows: a row whose UPDATE does not change exactly one job is skipped.
unfoldable pub lease_rows : String → ℕ → ℕ → List Job → List Job → List ClaimedJob × List Job
lease_rows workspace_id lease_until claimed_at [] jobs = ([], jobs)
lease_rows workspace_id lease_until claimed_at (row ∷ rows) jobs =
    let (leases, jobs') = lease_rows workspace_id lease_until claimed_at rows (
      update_where (queued_id row.job_id) (lease (row.lease_generation + 1) lease_until claimed_at)
        jobs) in
    (
      if count_where (queued_id row.job_id) jobs == 1
          then claimed_job workspace_id lease_until row ∷ leases
          else leases,
      jobs',
    )

-- The rows that the SELECT gives.
unfoldable pub claimable : (String → String → Bool) → String → ℕ → List Job → List Job
claimable text_le workspace_id available jobs =
    take available (sort_by (by_created_at text_le) (select_where (queued_in workspace_id) jobs))

-- `max(0, min(requested, capacity - running))`: subtraction on ℕ stops at 0.
unfoldable pub available_slots : ℕ → ℕ → ℕ → ℕ
available_slots requested capacity running = min requested (capacity - running)

unfoldable pub claim_body : (String → String → Bool) → String → ℕ → ℕ → ℕ → Body (List ClaimedJob)
unfolding lease_rows claimable available_slots
claim_body text_le workspace_id requested lease_until claimed_at db =
    elim (find_where (enabled_id workspace_id) db.workspaces) [
      | none ↦ err Error.unknown_workspace
      | some w ↦
          let running = count_where (active_in workspace_id) db.jobs in
          let rows =
            claimable text_le workspace_id (available_slots requested w.capacity running) db.jobs in
          let (leases, jobs) = lease_rows workspace_id lease_until claimed_at rows db.jobs in
          ok (
            leases,
            record db {
              jobs = jobs;
              workspaces =
                  update_where (λ (x : Workspace). str_eq x.workspace_id workspace_id)
                    (λ x. record x { last_seen_at = some claimed_at }) db.workspaces;
            },
          )
    ]

-- A negative `limit` is 0, by its `max`.
unfoldable pub claim_jobs :
    (text_le : String → String → Bool)
    → String
    → (limit lease_seconds claimed_at : ℕ) → Method (List ClaimedJob)
unfolding transaction claim_body
claim_jobs text_le workspace_id limit lease_seconds claimed_at db =
    if min limit 10 == 0
    then (ok [], db)
    else transaction
        (claim_body text_le workspace_id (min limit 10) (claimed_at + lease_seconds) claimed_at) db
