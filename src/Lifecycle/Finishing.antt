-- ===== src/Lifecycle/Finishing.antt =====
-- `complete_job` and `fail_unstarted`: their guards, what they write, and their retries.
use eastwatch.Prelude.{
  ℕ, true, false, String, some, Dict, ok, ◌≡◌, ◌↔◌, refl, arith, str_eq, is_some, column_lt, inl,
  inr, Option-cases,
}
use eastwatch.Table.{find_where, update_where}
use eastwatch.Table.Finds.{find-update}
use eastwatch.Table.Every.{find-holds}
use eastwatch.Models.{Completion, CompletionState}
use eastwatch.Schema.{
  Db, Job, Run, Status, Notice, is_leased, is_running, is_finished, job_state_of,
}
use eastwatch.Transaction.{transaction-ok, ok-transaction, insert_notice}
use eastwatch.Store.Leases.{held_by, works_on, set_status}
use eastwatch.Store.Complete.{
  complete, run_of, finish_job, complete_job, complete_body, fail_before_start, fail_unstarted,
  fail_body,
}

module _ (w id : String) (generation : ℕ) where
  -- The guards of a completion: the caller holds the lease, which has not run out, of a running job
  -- whose run is recorded.
  pub record CanComplete (now : ℕ) (db : Db) (row : Job) (run : Run) : Type 0 where
    pub held : find_where (held_by w id generation) db.jobs ≡ some row
    pub running : is_running row.state ≡ true
    pub recorded : run_of row db.runs ≡ some run
    pub until : is_some row.lease_until ≡ true
    pub live : column_lt row.lease_until now ≡ false

  complete_body-true :
      (c : Completion) (now : ℕ) (db db' : Db)
      → complete_body w id generation c now db ≡ ok (true, db')
      → (row : Job) × (run : Run) × CanComplete now db row run
        × (db' ≡ finish_job w id generation c now run db)
  unfolding complete_body
  complete_body-true c now db db' h =
      elim (Option-cases (find_where (held_by w id generation) db.jobs)) [
        | inl e ↦ absurd (ground (arith, h, e))
        | inr (row, e) ↦
            let h' = rw (e, complete_body) at h in
            elim (Option-cases (run_of row db.runs)) [
              | inl r ↦ absurd (ground (arith, h', r))
              | inr (run, r) ↦ (
                row,
                run,
                record {
                  held = e;
                  running = ground (arith, h');
                  recorded = r;
                  until = ground (arith, h', r);
                  live = ground (arith, h', r);
                },
                ground (arith, h', r),
              )
            ]
      ]

  -- A call that completes a job passes all its guards, and leaves the database of `finish_job`; and
  -- every call that passes the guards completes the job.
  pub complete_job_iff :
      (c : Completion) (now : ℕ) (db db' : Db)
      → (complete_job w id generation c now db ≡ (ok true, db')) ↔ (
          (row : Job) × (run : Run) × CanComplete now db row run
          × (db' ≡ finish_job w id generation c now run db))
  unfolding complete_job complete_body
  complete_job_iff c now db db' = (
    λ h.
        complete_body-true c now db db'
          (transaction-ok (complete_body w id generation c now) db true db' h),
    λ (row, run, can, e). ok-transaction (complete_body w id generation c now) db true db' (
        rw (can.held, complete_body)
          (ground (arith, can.running, can.recorded, can.until, can.live, e))),
  )

  completed_job :
      (c : Completion) (now : ℕ) (run : Run) (db : Db) (row : Job)
      → find_where (held_by w id generation) db.jobs ≡ some row
      → find_where (held_by w id generation) (finish_job w id generation c now run db).jobs
        ≡ some (complete c now row)
  unfolding finish_job insert_notice
  completed_job c now run db row held = ground (
    arith,
    find-update (held_by w id generation) (held_by w id generation) (complete c now) (λ j. refl)
        db.jobs row held,
    find-holds (held_by w id generation) db.jobs row held,
  )

  completed_state : (s : CompletionState) → is_finished (job_state_of s) ≡ true
  completed_state s = ground arith

  -- A runner that repeats a completion, whatever the second report says, is answered False, and
  -- nothing changes.
  pub complete_job_again :
      (c c' : Completion) (now later : ℕ) (db db' : Db)
      → complete_job w id generation c now db ≡ (ok true, db')
      → complete_job w id generation c' later db' ≡ (ok false, db')
  unfolding complete_job complete_body
  complete_job_again c c' now later db db' h =
      let (row, run, can, e) = (complete_job_iff c now db db').0 h in
      ok-transaction (complete_body w id generation c' later) db' false db' (
        rw e (
          rw (completed_job c now run db row can.held, complete_body)
            (rw (completed_state c.state))))

  -- The guards of a failure before the start: the caller holds the lease, which has not run out, of
  -- a leased job.
  pub record CanFail (now : ℕ) (db : Db) (row : Job) : Type 0 where
    pub held : find_where (held_by w id generation) db.jobs ≡ some row
    pub leased : is_leased row.state ≡ true
    pub until : is_some row.lease_until ≡ true
    pub live : column_lt row.lease_until now ≡ false

  -- The database that it leaves.
  abbrev pub failed : Dict → ℕ → Db → Db
  failed d now db =
      insert_notice (Notice.job_completed id w generation CompletionState.failed) now (record db {
        jobs = update_where (λ (j : Job). str_eq j.job_id id) (fail_before_start d now) db.jobs;
        conversations =
            update_where (works_on id) (set_status Status.finishing now) db.conversations;
      })

  fail_body-true :
      (d : Dict) (now : ℕ) (db db' : Db)
      → fail_body w id generation d now db ≡ ok (true, db')
      → (row : Job) × CanFail now db row × (db' ≡ failed d now db)
  unfolding fail_body
  fail_body-true d now db db' h =
      elim (Option-cases (find_where (held_by w id generation) db.jobs)) [
        | inl e ↦ absurd (ground (arith, h, e))
        | inr (row, e) ↦
            let h' = rw (e, fail_body) at h in
            (
              row,
              record {
                held = e;
                leased = ground (arith, h');
                until = ground (arith, h');
                live = ground (arith, h');
              },
              ground (arith, h'),
            )
      ]

  -- A call that fails a job before its start passes all its guards, and leaves the database of
  -- `failed`; and every call that passes the guards fails the job.
  pub fail_unstarted_iff :
      (d : Dict) (now : ℕ) (db db' : Db)
      → (fail_unstarted w id generation d now db ≡ (ok true, db'))
        ↔ ((row : Job) × CanFail now db row × (db' ≡ failed d now db))
  unfolding fail_unstarted fail_body
  fail_unstarted_iff d now db db' = (
    λ h.
        fail_body-true d now db db'
          (transaction-ok (fail_body w id generation d now) db true db' h),
    λ (row, can, e).
        ok-transaction (fail_body w id generation d now) db true db'
          (rw (can.held, fail_body) (ground (arith, can.leased, can.until, can.live, e))),
  )

  failed_job :
      (d : Dict) (now : ℕ) (db : Db) (row : Job)
      → find_where (held_by w id generation) db.jobs ≡ some row
      → find_where (held_by w id generation) (failed d now db).jobs
        ≡ some (fail_before_start d now row)
  unfolding insert_notice
  failed_job d now db row held = ground (
    arith,
    find-update (held_by w id generation) (λ (j : Job). str_eq j.job_id id)
        (fail_before_start d now) (λ j. refl) db.jobs row held,
    find-holds (held_by w id generation) db.jobs row held,
  )

  -- A runner that repeats the failure is answered False, and nothing changes.
  pub fail_unstarted_again :
      (d d' : Dict) (now later : ℕ) (db db' : Db)
      → fail_unstarted w id generation d now db ≡ (ok true, db')
      → fail_unstarted w id generation d' later db' ≡ (ok false, db')
  unfolding fail_unstarted fail_body
  fail_unstarted_again d d' now later db db' h =
      let (row, can, e) = (fail_unstarted_iff d now db db').0 h in
      ok-transaction (fail_body w id generation d' later) db' false db'
        (rw e (rw (failed_job d now db row can.held, fail_body)))
