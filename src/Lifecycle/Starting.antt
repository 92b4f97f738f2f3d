-- ===== src/Lifecycle/Starting.antt =====
-- `mark_started`: its guards, what it writes, and its retry.
use eastwatch.Prelude.{
  ℕ, true, false, String, Option, none, some, [], ◌∷◌, ◌++◌, ok, ◌≡◌, ◌↔◌, refl, arith, str_eq,
  ◌==◌, ◌&&◌, ◌||◌, is_some, column_lt, inl, inr, Option-cases,
}
use eastwatch.Table.{find_where, has_where, update_where}
use eastwatch.Table.Finds.{find-update, find-append_none, find-none}
use eastwatch.Table.Every.{find-holds}
use eastwatch.Table.Keys.{str_eq_refl}
use eastwatch.Models.{RunReferences}
use eastwatch.Schema.{Db, Job, Run, Status, Notice, is_leased}
use eastwatch.Transaction.{transaction-ok, ok-transaction, insert_notice}
use eastwatch.Store.Leases.{
  held_by, held_run, start, new_run, works_on, set_status, same_refs, option_eq, mark_started,
  start_body, first_start, retry_start,
}

option_eq_refl : (o : Option String) → option_eq o o ≡ true
option_eq_refl none = refl
option_eq_refl (some s) = str_eq_refl s

same_refs_refl : (refs : RunReferences) → same_refs (some refs) refs ≡ true
same_refs_refl refs = ground (
  arith,
  str_eq_refl refs.run_id,
  str_eq_refl refs.tmux_session,
  str_eq_refl refs.worktree_relpath,
  str_eq_refl refs.run_dir_relpath,
  option_eq_refl refs.session_file_relpath,
)

module _ (w id : String) (generation : ℕ) (refs : RunReferences) (now : ℕ) where
  -- The database that a start leaves.
  abbrev pub started : Db → Db
  started db = insert_notice (Notice.job_started id) now (record db {
    jobs = update_where (λ (j : Job). str_eq j.job_id id) (start now) db.jobs;
    runs = db.runs ++ new_run w id generation refs now ∷ [];
    conversations = update_where (works_on id) (set_status Status.working now) db.conversations;
  })

  -- The guards of a start: the caller holds the lease, which has not run out, of a leased job.
  pub record CanStart (db : Db) (row : Job) : Type 0 where
    pub held : find_where (held_by w id generation) db.jobs ≡ some row
    pub leased : is_leased row.state ≡ true
    pub until : is_some row.lease_until ≡ true
    pub live : column_lt row.lease_until now ≡ false
    pub fresh_run :
        has_where
          (λ (r : Run).
            str_eq r.run_id refs.run_id || (str_eq r.job_id id && r.lease_generation == generation))
          db.runs
        ≡ false

  start_body-true :
      (db db' : Db)
      → start_body w id generation refs now db ≡ ok (true, db')
      → (row : Job) × CanStart db row × (db' ≡ started db)
  unfolding start_body first_start retry_start
  start_body-true db db' h = elim (Option-cases (find_where (held_by w id generation) db.jobs)) [
    | inl e ↦ absurd (ground (arith, h, e))
    | inr (row, e) ↦
        let h' = rw (e, start_body) at h in
        (
          row,
          record {
            held = e;
            leased = ground (arith, h');
            until = ground (arith, h');
            live = ground (arith, h');
            fresh_run = ground (arith, h');
          },
          ground (arith, h'),
        )
  ]

  -- A call that starts a job passes all its guards, and then the job runs, the run is recorded with
  -- its references, the conversation works and the start is announced; and every call that passes
  -- the guards starts the job.
  pub mark_started_iff :
      (db db' : Db)
      → (mark_started w id generation refs now db ≡ (ok true, db'))
        ↔ ((row : Job) × CanStart db row × (db' ≡ started db))
  unfolding mark_started start_body first_start
  mark_started_iff db db' = (
    λ h.
        start_body-true db db' (transaction-ok (start_body w id generation refs now) db true db' h),
    λ (row, can, e). ok-transaction (start_body w id generation refs now) db true db' (
        rw (can.held, start_body)
          (ground (arith, can.leased, can.until, can.live, can.fresh_run, e))),
  )

  -- The run that a start has recorded is found by a retry.
  started_run :
      (db : Db) (row : Job)
      → CanStart db row
      → find_where (held_run w id generation) (started db).runs
        ≡ some (new_run w id generation refs now)
  unfolding find_where insert_notice
  started_run db row can =
      let none_before : find_where (held_run w id generation) db.runs ≡ none =
        find-none (held_run w id generation) _ (λ r h. ground arith) db.runs can.fresh_run in
      ground (
        arith,
        find-append_none (held_run w id generation) db.runs (new_run w id generation refs now ∷ [])
            none_before,
        str_eq_refl id,
        str_eq_refl w,
      )

  started_job :
      (db : Db) (row : Job)
      → CanStart db row
      → find_where (held_by w id generation) (started db).jobs ≡ some (start now row)
  unfolding insert_notice
  started_job db row can =
      let found =
        find-update (held_by w id generation) (λ (j : Job). str_eq j.job_id id) (start now)
          (λ j. refl) db.jobs row can.held in
      ground (arith, found, find-holds (held_by w id generation) db.jobs row can.held)

  -- A runner that repeats the call that started its job is answered False, and nothing changes.
  pub mark_started_again :
      (later : ℕ) (db db' : Db)
      → mark_started w id generation refs now db ≡ (ok true, db')
      → mark_started w id generation refs later db' ≡ (ok false, db')
  unfolding mark_started start_body retry_start
  mark_started_again later db db' h =
      let (row, can, e) = (mark_started_iff db db').0 h in
      ok-transaction (start_body w id generation refs later) db' false db' (
        rw e (
          rw (started_job db row can, start_body)
            (rw (started_run db row can, retry_start)
              (ground (arith, str_eq_refl refs.run_id, same_refs_refl refs)))))
