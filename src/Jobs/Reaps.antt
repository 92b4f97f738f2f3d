-- ===== src/Jobs/Reaps.antt =====
-- `reap_expired` in the life of a job.
use eastwatch.Prelude.{ℕ, true, String, List, [], ◌∷◌, ◌≡◌, arith}
use eastwatch.Table.{select_where}
use eastwatch.Table.Every.{All-of}
use eastwatch.Table.Follows.{Match-refl, Match-update, Match-trans}
use eastwatch.Schema.{Db, Job, Notice}
use eastwatch.Transaction.{insert_notice}
use eastwatch.Store.Reap.{
  lease_expired, run_expired, requeue, requeue_expired, running_id, lose, lose_job, lose_jobs,
  job_ids, reap_expired,
}
use eastwatch.Jobs.{Settles, Settles-refl, Settles-trans}
use eastwatch.Jobs.Rows.{JobsSettle}

requeue-Settles : (now : ℕ) (j : Job) → lease_expired now j ≡ true → Settles j (requeue j)
requeue-Settles now j h = ground arith

lose-Settles :
    (job_id : String) (now : ℕ) (j : Job) → running_id job_id j ≡ true → Settles j (lose now j)
lose-Settles job_id now j h = ground arith

pub insert_notice-jobs : (n : Notice) (now : ℕ) (db : Db) → (insert_notice n now db).jobs ≡ db.jobs
unfolding insert_notice
insert_notice-jobs n now db = ground arith

requeue_expired-Settles : (now : ℕ) (db : Db) → JobsSettle db (requeue_expired now db)
unfolding requeue_expired
requeue_expired-Settles now db =
    Match-update Settles Settles-refl (lease_expired now) requeue db.jobs
      (All-of (requeue-Settles now) db.jobs)

lose_job-Settles : (now : ℕ) (job_id : String) (db : Db) → JobsSettle db (lose_job now job_id db)
unfolding lose_job
lose_job-Settles now job_id db = rw insert_notice-jobs (
    Match-update Settles Settles-refl (running_id job_id) (lose now) db.jobs
      (All-of (lose-Settles job_id now) db.jobs))

lose_jobs-Settles : (now : ℕ) (ids : List String) (db : Db) → JobsSettle db (lose_jobs now ids db)
unfolding lose_jobs
lose_jobs-Settles now [] db = Match-refl Settles Settles-refl db.jobs
lose_jobs-Settles now (id ∷ ids) db =
    Match-trans Settles Settles-trans db.jobs _ _ (lose_job-Settles now id db)
      (lose_jobs-Settles now ids (lose_job now id db))

pub reap_expired-Settles : (now : ℕ) (db : Db) → JobsSettle db (reap_expired now db).1
unfolding reap_expired
reap_expired-Settles now db =
    Match-trans Settles Settles-trans db.jobs _ _ (requeue_expired-Settles now db) (
      lose_jobs-Settles now (job_ids (select_where (run_expired now) (requeue_expired now db).jobs))
        (requeue_expired now db))
