-- ===== src/Lifecycle/Ends.antt =====
-- What the reports of a start and of an end change in the tables: `mark_started`, `complete_job` and
-- `fail_unstarted` of src/eastwatch/controller/store.py.
use eastwatch.Prelude.{
  Option, ℕ, Bool, true, none, some, String, List, [], ◌∷◌, ◌++◌, Dict, ok, ◌≡◌, refl, arith, subst,
  eq_iff, is_some, str_eq, ◌==◌, ◌&&◌,
}
use eastwatch.Table.{find_where}
use eastwatch.Table.Every.{All-of, find-holds}
use eastwatch.Table.Keys.{str_eq_refl}
use eastwatch.Table.Follows.{Match}
use eastwatch.Models.{JobState, CompletionState, Completion, RunReferences}
use eastwatch.Schema.{Db, Job, Run, RunState, Status, Notice, dedupe_eq, run_running}
use eastwatch.Transaction.{insert_notice}
use eastwatch.Store.Leases.{held_by, start, new_run, mark_started}
use eastwatch.Store.Complete.{
  complete, complete_run, dump_if_any, run_of, finish_job, complete_job, fail_before_start,
  fail_unstarted,
}
use eastwatch.Jobs.Rows.{Keyed}
use eastwatch.Jobs.Reaps.{insert_notice-jobs}
use eastwatch.Table.Finds.{find-none}
use eastwatch.Lifecycle.Starting.{mark_started_iff}
use eastwatch.Lifecycle.Finishing.{CanComplete, complete_job_iff, fail_unstarted_iff}
use eastwatch.Lifecycle.Outcomes.{
  Changes, Match-Changes, has_id, Holds, Moved, Over, Tells, announces, set_status-Tells,
  insert_notice-announces, running_state, leased_state, held-id, held-Holds,
}

-- The state of a job and of a run that the runner's report names.
abbrev pub reported : CompletionState → JobState × RunState
reported CompletionState.succeeded = (JobState.succeeded, RunState.succeeded)
reported CompletionState.failed = (JobState.failed, RunState.failed)

abbrev pub under_lease : String → ℕ → Run → Bool
under_lease id generation r = str_eq r.job_id id && r.lease_generation == generation

-- The run is over with the state; the record of how it began is kept.
abbrev pub RunOver : RunState → ℕ → Run → Run → Type 0
RunOver s now r q =
    (q.state ≡ s)
    × (q.finished_at ≡ some now)
    × (q.run_id ≡ r.run_id)
    × (q.job_id ≡ r.job_id)
    × (q.lease_generation ≡ r.lease_generation)
    × (q.refs ≡ r.refs)

-- What the row keeps of an object that the runner sends: nothing of an empty one.
abbrev pub Keeps : Option Dict → Option Dict → Type 0
Keeps none stored = stored ≡ none
Keeps (some []) stored = stored ≡ none
Keeps (some (x ∷ xs)) stored = stored ≡ some (x ∷ xs)

dump-Keeps : (sent : Option Dict) → Keeps sent (dump_if_any sent)
dump-Keeps none = refl
dump-Keeps (some []) = refl
dump-Keeps (some (x ∷ xs)) = refl

-- The run is over as the report has it, with the report's result and error.
abbrev pub RunReported : Completion → ℕ → Run → Run → Type 0
RunReported c now r q =
    RunOver (reported c.state).1 now r q × Keeps c.result q.result × Keeps c.error q.error

insert_notice-runs :
    (notice : Notice) (now : ℕ) (db : Db) → (insert_notice notice now db).runs ≡ db.runs
unfolding insert_notice
insert_notice-runs notice now db = ground arith

insert_notice-conversations :
    (notice : Notice) (now : ℕ) (db : Db)
    → (insert_notice notice now db).conversations ≡ db.conversations
unfolding insert_notice
insert_notice-conversations notice now db = ground arith

completed-told :
    (id w : String) (generation : ℕ) (s : CompletionState)
    → dedupe_eq (Notice.job_completed id w generation s) (Notice.job_completed id w generation s)
      ≡ true
unfolding dedupe_eq
completed-told id w generation s = ground (arith, str_eq_refl id)

recorded_run :
    (id : String) (generation : ℕ) (row : Job) (run : Run) (runs : List Run)
    → row.job_id ≡ id
    → row.lease_generation ≡ generation
    → run_of row runs ≡ some run
    → find_where (under_lease id generation) runs ≡ some run
unfolding run_of
recorded_run id generation row run runs same lease e =
    subst (λ i. find_where (under_lease i generation) runs ≡ some run) same
      (subst (λ g. find_where (under_lease row.job_id g) runs ≡ some run) lease e)

module _ (w id : String) (generation : ℕ) where
  -- What a completion leaves.
  pub record Completed (c : Completion) (now : ℕ) (db db' : Db) : Type 0 where
    pub row : Job
    pub run : Run
    pub held : Holds w id generation now JobState.running db row
    pub recorded : find_where (under_lease id generation) db.runs ≡ some run
    pub jobs : Match (Changes (has_id id) (Over (reported c.state).0 now)) db.jobs db'.jobs
    pub runs :
        Match
          (Changes (λ r. str_eq r.run_id run.run_id && run_running r.state) (RunReported c now))
          db.runs
          db'.runs
    pub conversations : Tells id Status.finishing now db.conversations db'.conversations
    pub told : announces (Notice.job_completed id w generation c.state) db' ≡ true

  completed_row :
      (c : Completion) (now : ℕ) (j : Job) → Over (reported c.state).0 now j (complete c now j)
  completed_row c now j = (
    record {
      state = ground arith;
      key = refl;
      owner = refl;
      conversation = refl;
      event = refl;
      envelope = refl;
      generation = refl;
      created = refl;
    },
    refl,
    refl,
  )

  completed_run : (c : Completion) (now : ℕ) (r : Run) → RunReported c now r (complete_run c now r)
  completed_run c now r =
      ((ground arith, refl, refl, refl, refl, refl), dump-Keeps c.result, dump-Keeps c.error)

  finish_job-Completed :
      (c : Completion) (now : ℕ) (db : Db) (row : Job) (run : Run)
      → Keyed db
      → CanComplete w id generation now db row run
      → Completed c now db (finish_job w id generation c now run db)
  unfolding finish_job run_of
  finish_job-Completed c now db row run keyed can =
      let held =
        held-Holds w id generation db row keyed can.held now JobState.running
          (running_state row.state can.running) can.until can.live in
      record {
        row = row;
        run = run;
        held = held;
        recorded =
            recorded_run id generation row run db.runs
              ((eq_iff row.job_id id).0 (find-holds (has_id id) db.jobs row held.found)) held.lease
              can.recorded;
        jobs = rw insert_notice-jobs (
            Match-Changes (has_id id) (held_by w id generation) (complete c now) _ db.jobs
              (held-id w id generation db row keyed can.held)
              (All-of (λ j h. completed_row c now j) db.jobs));
        runs = rw insert_notice-runs (
            Match-Changes _ _ (complete_run c now) _ db.runs (All-of (λ r. refl) db.runs)
              (All-of (λ r h. completed_run c now r) db.runs));
        conversations =
            rw insert_notice-conversations
              (set_status-Tells id Status.finishing now db.conversations);
        told = insert_notice-announces _ now _ (completed-told id w generation c.state);
      }

  -- With distinct job ids: a completion that is accepted finds the running job under the caller's
  -- lease, which has not run out, and the run of that lease. The job is over, in the state that is
  -- reported, without a lease and otherwise the same job. So is its run, if it was running, and it
  -- keeps the result and the error that are sent, or none where they are empty. The conversations
  -- that work on the job are finishing; no other row of these tables changes; and the completion
  -- stands in the outbox.
  pub complete_job_ends :
      (c : Completion) (now : ℕ) (db db' : Db)
      → Keyed db
      → complete_job w id generation c now db ≡ (ok true, db')
      → Completed c now db db'
  complete_job_ends c now db db' keyed h =
      let (row, run, can, e) = (complete_job_iff w id generation c now db db').0 h in
      rw e (finish_job-Completed c now db row run keyed can)

  -- What a failure before the start leaves.
  pub record Failed (d : Dict) (now : ℕ) (db db' : Db) : Type 0 where
    pub row : Job
    pub held : Holds w id generation now JobState.leased db row
    pub jobs :
        Match
          (Changes
            (has_id id)
            (λ j k. Over JobState.failed now j k × is_some k.failure_stage ≡ true))
          db.jobs
          db'.jobs
    pub runs : db'.runs ≡ db.runs
    pub conversations : Tells id Status.finishing now db.conversations db'.conversations
    pub told : announces (Notice.job_completed id w generation CompletionState.failed) db' ≡ true

  failed_row :
      (d : Dict) (now : ℕ) (j : Job) → Over JobState.failed now j (fail_before_start d now j)
  failed_row d now j = (
    record {
      state = refl;
      key = refl;
      owner = refl;
      conversation = refl;
      event = refl;
      envelope = refl;
      generation = refl;
      created = refl;
    },
    refl,
    refl,
  )

  -- With distinct job ids: a failure before the start that is accepted finds the leased job under the
  -- caller's lease, which has not run out. The job has failed, at some stage, without a lease and
  -- otherwise the same job; the conversations that work on it are finishing; no other job or
  -- conversation and no run changes; and the end stands in the outbox.
  pub fail_unstarted_ends :
      (d : Dict) (now : ℕ) (db db' : Db)
      → Keyed db
      → fail_unstarted w id generation d now db ≡ (ok true, db')
      → Failed d now db db'
  fail_unstarted_ends d now db db' keyed h =
      let (row, can, e) = (fail_unstarted_iff w id generation d now db db').0 h in
      rw e (record {
        row = row;
        held =
            held-Holds w id generation db row keyed can.held now JobState.leased
              (leased_state row.state can.leased) can.until can.live;
        jobs = rw insert_notice-jobs (
            Match-Changes (has_id id) (has_id id) (fail_before_start d now) _ db.jobs
              (All-of (λ j. refl) db.jobs) (All-of (λ j h. (failed_row d now j, refl)) db.jobs));
        runs = rw insert_notice-runs;
        conversations =
            rw insert_notice-conversations
              (set_status-Tells id Status.finishing now db.conversations);
        told =
            insert_notice-announces _ now _ (completed-told id w generation CompletionState.failed);
      })

  -- What a start leaves.
  pub record Running (refs : RunReferences) (now : ℕ) (db db' : Db) : Type 0 where
    pub row : Job
    pub run : Run
    pub held : Holds w id generation now JobState.leased db row
    pub jobs :
        Match
          (Changes (has_id id) (λ j k.
            Moved JobState.running j k
            × (k.started_at ≡ some now)
            × (k.lease_until ≡ j.lease_until)))
          db.jobs
          db'.jobs
    pub runs : db'.runs ≡ db.runs ++ run ∷ []
    pub recorded :
        (run.job_id ≡ id)
        × (run.workspace_id ≡ w)
        × (run.lease_generation ≡ generation)
        × (run.state ≡ RunState.running)
        × (run.run_id ≡ refs.run_id)
        × (run.refs ≡ some refs)
        × (run.started_at ≡ now)
    pub fresh_run : find_where (under_lease id generation) db.runs ≡ none
    pub conversations : Tells id Status.working now db.conversations db'.conversations
    pub told : announces (Notice.job_started id) db' ≡ true

  started_row :
      (now : ℕ) (j : Job)
      → Moved JobState.running j (start now j)
        × ((start now j).started_at ≡ some now)
        × ((start now j).lease_until ≡ j.lease_until)
  started_row now j = (
    record {
      state = refl;
      key = refl;
      owner = refl;
      conversation = refl;
      event = refl;
      envelope = refl;
      generation = refl;
      created = refl;
    },
    refl,
    refl,
  )

  started-told : dedupe_eq (Notice.job_started id) (Notice.job_started id) ≡ true
  unfolding dedupe_eq
  started-told = str_eq_refl id

  -- With distinct job ids: a start that is accepted finds the leased job under the caller's lease,
  -- which has not run out, and no run of that lease. The job runs from now on, under the same lease
  -- and otherwise the same job; one run is added, of this job and lease, with the references that
  -- are reported; the conversations that work on the job are working; no other job, run or
  -- conversation changes; and the start stands in the outbox.
  pub mark_started_runs :
      (refs : RunReferences) (now : ℕ) (db db' : Db)
      → Keyed db
      → mark_started w id generation refs now db ≡ (ok true, db')
      → Running refs now db db'
  mark_started_runs refs now db db' keyed h =
      let (row, can, e) = (mark_started_iff w id generation refs now db db').0 h in
      rw e (record {
        row = row;
        run = new_run w id generation refs now;
        held =
            held-Holds w id generation db row keyed can.held now JobState.leased
              (leased_state row.state can.leased) can.until can.live;
        jobs = rw insert_notice-jobs (
            Match-Changes (has_id id) (has_id id) (start now) _ db.jobs (All-of (λ j. refl) db.jobs)
              (All-of (λ j h. started_row now j) db.jobs));
        runs = rw insert_notice-runs;
        recorded = (refl, refl, refl, refl, refl, refl, refl);
        fresh_run =
            find-none (under_lease id generation) _ (λ r h. ground arith) db.runs can.fresh_run;
        conversations =
            rw insert_notice-conversations
              (set_status-Tells id Status.working now db.conversations);
        told = insert_notice-announces _ now _ started-told;
      })
