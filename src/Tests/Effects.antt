-- ===== src/Tests/Effects.antt =====
-- The theorems on what is written, applied to the small database.
use eastwatch.Prelude.{◌+◌, true, List, [], ◌∷◌, ok, ◌≡◌, refl, ◌⊎◌, arith}
use eastwatch.Table.{find_where, has_where, select_where, count_where, sort_by, insert_by}
use eastwatch.Table.Every.{All, Listed}
use eastwatch.Table.Follows.{Match}
use eastwatch.Models.{ClaimedJob}
use eastwatch.Schema.{Db, Workspace}
use eastwatch.Store.Leases.{mark_started}
use eastwatch.Store.Complete.{complete_job, fail_unstarted, run_of}
use eastwatch.Store.Claim.{claim_jobs, claimable, available_slots}
use eastwatch.Store.Reap.{reap_expired, job_ids}
use eastwatch.Dispatch.Flow.{dispatch}
use eastwatch.Dispatch.Entitled.{Entitled, dispatch-Entitled}
use eastwatch.Retention.{schedule_due}
use eastwatch.Retention.Cleanups.{Cleans}
use eastwatch.Retention.Laws.{schedule_due_justified}
use eastwatch.Jobs.Rows.{Keyed}
use eastwatch.Lifecycle.Ends.{
  Completed, complete_job_ends, Failed, fail_unstarted_ends, Running, mark_started_runs,
}
use eastwatch.Lifecycle.Claiming.{claimed_rows}
use eastwatch.Lifecycle.Leasing.{Handed, Claimed, claim_jobs_leases}
use eastwatch.Lifecycle.Reaping.{is_lost, Reaped, announced, reap_expired_lem}
use eastwatch.Tests.Fixture.{
  small_db, merged_db, workspace, refs_of, success, any_le, candidate, clock,
}

small-Keyed : Keyed small_db
small-Keyed = (refl, (refl, (refl, tt)))

dispatch-Entitled_example :
    ((dispatch (λ s. s) [] [] "new" candidate clock small_db).1.jobs ≡ small_db.jobs)
    ⊎ Entitled [] [] candidate small_db.workspaces
dispatch-Entitled_example = dispatch-Entitled (λ s. s) [] [] "new" candidate clock small_db

mark_started_runs_example :
    Running "w" "l" 1
      (refs_of "run-l")
      50
      small_db
      (mark_started "w" "l" 1 (refs_of "run-l") 50 small_db).1
unfolding mark_started find_where has_where
mark_started_runs_example =
    mark_started_runs "w" "l" 1 (refs_of "run-l") 50 small_db
      (mark_started "w" "l" 1 (refs_of "run-l") 50 small_db).1 small-Keyed refl

complete_job_ends_example :
    Completed "w" "r" 1 success 50 small_db (complete_job "w" "r" 1 success 50 small_db).1
unfolding complete_job find_where run_of
complete_job_ends_example =
    complete_job_ends "w" "r" 1 success 50 small_db (complete_job "w" "r" 1 success 50 small_db).1
      small-Keyed refl

fail_unstarted_ends_example :
    Failed "w" "l" 1 [] 50 small_db (fail_unstarted "w" "l" 1 [] 50 small_db).1
unfolding fail_unstarted find_where
fail_unstarted_ends_example =
    fail_unstarted_ends "w" "l" 1 [] 50 small_db (fail_unstarted "w" "l" 1 [] 50 small_db).1
      small-Keyed refl

-- A workspace with room for the queued job.
abbrev roomy : Workspace
roomy = record workspace { capacity = 3 }

abbrev roomy_db : Db
roomy_db = record small_db { workspaces = roomy ∷ [] }

one_row : job_ids (claimed_rows any_le "w" 2 roomy roomy_db) ≡ "q" ∷ []
unfolding claimable select_where sort_by insert_by count_where available_slots
one_row = refl

claim_jobs_leases_example :
    (leases : List ClaimedJob) × ((claim_jobs any_le "w" 2 60 50 roomy_db).0 ≡ ok leases)
    × Handed "w" (50 + 60) (claimed_rows any_le "w" 2 roomy roomy_db) leases
    × Match
        (Claimed (50 + 60) (claimed_rows any_le "w" 2 roomy roomy_db))
        roomy_db.jobs
        (claim_jobs any_le "w" 2 60 50 roomy_db).1.jobs
unfolding find_where
claim_jobs_leases_example =
    claim_jobs_leases any_le "w" 2 60 50 roomy_db roomy small-Keyed (omega arith) refl

reap_expired_lem_example :
    ((reap_expired 200 small_db).0 ≡ ok (job_ids (select_where (is_lost 200) small_db.jobs)))
    × Match (Reaped 200) small_db.jobs (reap_expired 200 small_db).1.jobs
    × All
        (λ id. announced id (reap_expired 200 small_db).1 ≡ true)
        (job_ids (select_where (is_lost 200) small_db.jobs))
reap_expired_lem_example = reap_expired_lem 200 small_db small-Keyed

schedule_due_justified_example :
    All
      (λ a. Listed a merged_db.actions ⊎ Cleans 700000 merged_db a)
      (schedule_due 700000 merged_db).1.actions
schedule_due_justified_example = schedule_due_justified 700000 merged_db
