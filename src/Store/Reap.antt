-- ===== src/Store/Reap.antt =====
-- ControllerStore.reap_expired: leases that ran out before the start go back to the queue, and
-- running jobs whose lease ran out are lost.
use eastwatch.Prelude.{ℕ, Bool, none, some, String, List, [], ◌∷◌, ok, str_eq, column_lt, ◌&&◌}
use eastwatch.Table.{select_where, update_where}
use eastwatch.Models.{JobState}
use eastwatch.Schema.{Db, Status, Job, Run, RunState, Notice, is_leased, is_running, run_running}
use eastwatch.Transaction.{Method, transaction, insert_notice}
use eastwatch.Store.Leases.{works_on, set_status}

abbrev pub lease_expired : ℕ → Job → Bool
lease_expired now j = is_leased j.state && column_lt j.lease_until now

abbrev pub run_expired : ℕ → Job → Bool
run_expired now j = is_running j.state && column_lt j.lease_until now

abbrev pub requeue : Job → Job
requeue j = record j { state = JobState.queued; lease_until = none }

abbrev pub running_id : String → Job → Bool
running_id job_id j = str_eq j.job_id job_id && is_running j.state

abbrev pub lose : ℕ → Job → Job
lose now j = record j {
  state = JobState.failed;
  finished_at = some now;
  lease_until = none;
  failure_stage = some "runner-lost";
  failure_reason = some "workspace heartbeat expired; inspect artifacts before retrying";
}

abbrev pub job_ids : List Job → List String
job_ids [] = []
job_ids (j ∷ jobs) = j.job_id ∷ job_ids jobs

-- The statements for one lost job.
unfoldable pub lose_job : ℕ → String → Db → Db
lose_job now job_id db = insert_notice (Notice.runner_lost job_id) now (record db {
  jobs = update_where (running_id job_id) (lose now) db.jobs;
  runs =
      update_where (λ (r : Run). str_eq r.job_id job_id && run_running r.state)
        (λ r. record r { state = RunState.failed; finished_at = some now }) db.runs;
  conversations = update_where (works_on job_id) (set_status Status.finishing now) db.conversations;
})

unfoldable pub lose_jobs : ℕ → List String → Db → Db
unfolding lose_job
lose_jobs now [] db = db
lose_jobs now (job_id ∷ ids) db = lose_jobs now ids (lose_job now job_id db)

unfoldable pub requeue_expired : ℕ → Db → Db
requeue_expired now db = record db { jobs = update_where (lease_expired now) requeue db.jobs }

-- The ids of the lost jobs are the value.
unfoldable pub reap_expired : ℕ → Method (List String)
unfolding transaction requeue_expired lose_jobs
reap_expired now = transaction λ db.
    let requeued = requeue_expired now db in
    let lost = job_ids (select_where (run_expired now) requeued.jobs) in
    ok (lost, lose_jobs now lost requeued)
