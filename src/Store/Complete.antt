-- ===== src/Store/Complete.antt =====
-- ControllerStore.complete_job and fail_unstarted: a runner reports the end of a job.
use eastwatch.Prelude.{
  ℕ, Bool, true, false, Option, none, some, String, List, [], ◌∷◌, Dict, get, or_default, last_1000,
  ok, err, Error, str_eq, column_lt, is_some, ◌==◌, ◌&&◌, ◌||◌, not, if◌then◌else◌,
}
use eastwatch.Table.{find_where, update_where}
use eastwatch.Models.{JobState, CompletionState, Completion}
use eastwatch.Schema.{
  Db, Status, Job, Run, Notice, is_running, is_leased, is_finished, run_running, job_state_of,
  run_state_of,
}
use eastwatch.Transaction.{Body, Method, transaction, insert_notice}
use eastwatch.Store.Leases.{held_by, works_on, set_status}

-- `json.dumps(d) if d else None`
abbrev pub dump_if_any : Option Dict → Option Dict
dump_if_any none = none
dump_if_any (some []) = none
dump_if_any (some (x ∷ xs)) = some (x ∷ xs)

-- `(completion.error or {}).get(key) if completion.state == "failed" else None`
abbrev pub error_field : CompletionState → Option Dict → String → Option String
error_field CompletionState.succeeded error key = none
error_field CompletionState.failed none key = none
error_field CompletionState.failed (some d) key = get d key

abbrev pub complete : Completion → ℕ → Job → Job
complete completion finished_at j = record j {
  state = job_state_of completion.state;
  finished_at = some finished_at;
  lease_until = none;
  failure_stage = error_field completion.state completion.error "kind";
  failure_reason = error_field completion.state completion.error "message";
}

abbrev pub complete_run : Completion → ℕ → Run → Run
complete_run completion finished_at r = record r {
  state = run_state_of completion.state;
  result = dump_if_any completion.result;
  error = dump_if_any completion.error;
  finished_at = some finished_at;
}

-- The LEFT JOIN: the run of the job's present lease.
unfoldable pub run_of : Job → List Run → Option Run
run_of j = find_where λ r. str_eq r.job_id j.job_id && r.lease_generation == j.lease_generation

unfoldable pub finish_job : String → String → ℕ → Completion → ℕ → Run → Db → Db
finish_job workspace_id job_id generation completion finished_at run db =
    insert_notice (Notice.job_completed job_id workspace_id generation completion.state) finished_at
      (record db {
        jobs =
            update_where (held_by workspace_id job_id generation) (complete completion finished_at)
              db.jobs;
        runs =
            update_where (λ (r : Run). str_eq r.run_id run.run_id && run_running r.state)
              (complete_run completion finished_at) db.runs;
        conversations =
            update_where (works_on job_id) (set_status Status.finishing finished_at)
              db.conversations;
      })

unfoldable pub complete_body : String → String → ℕ → Completion → ℕ → Body Bool
unfolding run_of finish_job
complete_body workspace_id job_id generation completion finished_at db =
    elim (find_where (held_by workspace_id job_id generation) db.jobs) [
      | none ↦ err Error.stale_lease
      | some row ↦
          if is_finished row.state
          then ok (false, db)
          else if not (is_running row.state)
          then err Error.stale_lease
          else elim (run_of row db.runs) [
            | none ↦ err Error.stale_lease
            | some run ↦
                if not (is_some row.lease_until) || column_lt row.lease_until finished_at
                then err Error.stale_lease
                else ok
                    (true, finish_job workspace_id job_id generation completion finished_at run db)
          ]
    ]

unfoldable pub complete_job :
    (workspace_id job_id : String) (generation : ℕ) → Completion → ℕ → Method Bool
unfolding transaction complete_body
complete_job workspace_id job_id generation completion finished_at =
    transaction (complete_body workspace_id job_id generation completion finished_at)

abbrev pub fail_before_start : Dict → ℕ → Job → Job
fail_before_start error finished_at j = record j {
  state = JobState.failed;
  finished_at = some finished_at;
  lease_until = none;
  failure_stage = some (or_default (get error "kind") "runner-preflight");
  failure_reason =
      some (last_1000 (or_default (get error "message") "runner failed before launch"));
}

abbrev pub is_failed : JobState → Bool
is_failed JobState.failed = true
is_failed _ = false

unfoldable pub fail_body : String → String → ℕ → Dict → ℕ → Body Bool
fail_body workspace_id job_id generation error finished_at db =
    elim (find_where (held_by workspace_id job_id generation) db.jobs) [
      | none ↦ err Error.stale_lease
      | some row ↦
          if is_failed row.state
          then ok (false, db)
          else if not (is_leased row.state && is_some row.lease_until)
          then err Error.stale_lease
          else if column_lt row.lease_until finished_at
          then err Error.stale_lease
          else ok (
            true,
            insert_notice
                (Notice.job_completed job_id workspace_id generation CompletionState.failed)
                finished_at
                (record db {
                  jobs =
                      update_where (λ (j : Job). str_eq j.job_id job_id)
                        (fail_before_start error finished_at) db.jobs;
                  conversations =
                      update_where (works_on job_id) (set_status Status.finishing finished_at)
                        db.conversations;
                }),
          )
    ]

unfoldable pub fail_unstarted :
    (workspace_id job_id : String) (generation : ℕ) → Dict → ℕ → Method Bool
unfolding transaction fail_body
fail_unstarted workspace_id job_id generation error finished_at =
    transaction (fail_body workspace_id job_id generation error finished_at)
