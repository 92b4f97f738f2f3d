-- ===== src/Jobs/Inserts.antt =====
-- How a job enters the table.
use eastwatch.Prelude.{
  ℕ, ◌≤◌, false, Bool, String, List, [], ◌∷◌, ◌++◌, ok, Dict, ◌≡◌, refl, arith, str_eq, ◌||◌, not,
  subst, sym, inl, inr, Option-cases,
}
use eastwatch.Table.{has_where, find_where, count_where}
use eastwatch.Table.Keys.{has_key, Unique, Unique-append}
use eastwatch.Table.Follows.{Follows, Follows-refl, Follows-append}
use eastwatch.Models.{JobEnvelope}
use eastwatch.Schema.{Db, Job, Receipt}
use eastwatch.Transaction.{transaction_rule, After, After-if, After-bind, insert_receipt}
use eastwatch.Store.Events.{
  queued_job, insert_job, job_owner, triggered_by, enqueue_body, dispatch_body, enqueue_job,
  dispatch_new, record_dispatch_event,
}
use eastwatch.Store.Claim.{active_in}
use eastwatch.Table.Counts.{count-append}
use eastwatch.Jobs.{Evolves, Evolves-refl}
use eastwatch.Jobs.Rows.{job_key, Keyed, JobsFollow}

-- The jobs have evolved, and their ids are still distinct.
abbrev pub Grows : Db → Db → Type 0
Grows db db' = JobsFollow db db' × Keyed db'

-- Besides, no workspace has more leased or running jobs.
pub record Enters (db db' : Db) : Type 0 where
  pub follows : JobsFollow db db'
  pub keyed : Keyed db'
  pub no_lease :
      (id : String) → count_where (active_in id) db'.jobs ≤ count_where (active_in id) db.jobs

no_id :
    (id trigger : String) (jobs : List Job)
    → has_where (λ (j : Job). str_eq j.job_id id || str_eq j.trigger_event_key trigger) jobs ≡ false
    → has_key job_key id jobs ≡ false
unfolding has_where
no_id id trigger [] h = refl
no_id id trigger (j ∷ jobs) h = ground (arith, no_id id trigger jobs)

module _ (envelope : JobEnvelope) (workspace_id : String) (now : ℕ) where
  pub insert_job-jobs :
      (db db' : Db)
      → insert_job envelope workspace_id now db ≡ ok db'
      → (db'.jobs ≡ db.jobs ++ queued_job envelope workspace_id now ∷ [])
        × (has_key job_key envelope.job_id db.jobs ≡ false)
  unfolding insert_job
  insert_job-jobs db db' e =
      ground (arith, no_id envelope.job_id envelope.trigger_event_key db.jobs)

  queued_idle :
      (id : String) → count_where (active_in id) (queued_job envelope workspace_id now ∷ []) ≡ 0
  unfolding count_where insert_job
  queued_idle id = ground arith

  insert_job-Enters :
      (db db' : Db) → Keyed db → insert_job envelope workspace_id now db ≡ ok db' → Enters db db'
  unfolding insert_job
  insert_job-Enters db db' u e =
      let (jobs, free) = insert_job-jobs db db' e in
      record {
        follows = rw jobs (Follows-append Evolves Evolves-refl db.jobs _);
        keyed =
            rw jobs (Unique-append job_key db.jobs (queued_job envelope workspace_id now) free u);
        no_lease = λ id. rw jobs (
            omega (
              arith,
              count-append (active_in id) db.jobs (queued_job envelope workspace_id now ∷ []),
              queued_idle id,
            ));
      }

pub insert_receipt-jobs :
    (r : Receipt) (db : Db) (b : Bool) (db' : Db)
    → insert_receipt r db ≡ ok (b, db')
    → db'.jobs ≡ db.jobs
unfolding insert_receipt
insert_receipt-jobs r db b db' e = ground arith

Enters-refl : (db : Db) → Keyed db → Enters db db
Enters-refl db u = record {
  follows = Follows-refl Evolves Evolves-refl db.jobs;
  keyed = u;
  no_lease = λ id. omega arith;
}

-- A database with the same jobs.
Enters-same :
    (db mid db' : Db) → mid.jobs ≡ db.jobs → (Keyed mid → Enters mid db') → Keyed db → Enters db db'
Enters-same db mid db' same grows u =
    let e = grows (subst (Unique job_key) (sym same) u) in
    record {
      follows = subst (λ (jobs : List Job). Follows Evolves jobs db'.jobs) same e.follows;
      keyed = e.keyed;
      no_lease = λ id.
          subst
            (λ (jobs : List Job).
              count_where (active_in id) db'.jobs ≤ count_where (active_in id) jobs)
            same (e.no_lease id);
    }

enqueue_body-Enters :
    (envelope : JobEnvelope) (now : ℕ) (db : Db)
    → Keyed db
    → After (Enters db) (enqueue_body envelope now db)
unfolding enqueue_body
enqueue_body-Enters envelope now db u =
    elim (Option-cases (find_where (triggered_by envelope.trigger_event_key) db.jobs)) [
      | inl e ↦
          rw (e, After, enqueue_body)
            (After-bind (Enters db) (job_owner envelope db) _ λ owner _.
              After-bind (Enters db) (insert_job envelope owner.0 now db) _
                λ db' inserted. insert_job-Enters envelope owner.0 now db db' u inserted)
      | inr (j, e) ↦ rw (e, After, enqueue_body) (Enters-refl db u)
    ]

pub enqueue_job-Enters :
    (envelope : JobEnvelope) (now : ℕ) (db : Db)
    → Keyed db
    → Enters db (enqueue_job envelope now db).1
unfolding enqueue_job
enqueue_job-Enters envelope now db u =
    transaction_rule (Enters db) (enqueue_body envelope now) db (Enters-refl db u)
      (enqueue_body-Enters envelope now db u)

dispatch_new-Enters :
    (envelope : JobEnvelope) (kind actor : String) (payload : Dict) (now : ℕ) (db : Db)
    → Keyed db
    → After (Enters db) (dispatch_new envelope kind actor payload now db)
unfolding dispatch_new
dispatch_new-Enters envelope kind actor payload now db u =
    After-bind (Enters db) (job_owner envelope db) _ λ owner _.
      After-bind (Enters db) (insert_receipt _ db) _ λ receipt received.
        After-if (Enters db) (not receipt.0) _ _ (λ _. tt)
          λ _. After-bind (Enters db) (insert_job envelope owner.0 now receipt.1) _ λ db' inserted.
            Enters-same db receipt.1 db' (insert_receipt-jobs _ db receipt.0 receipt.1 received)
              (λ v. insert_job-Enters envelope owner.0 now receipt.1 db' v inserted) u

dispatch_body-Enters :
    (envelope : JobEnvelope) (kind actor : String) (payload : Dict) (now : ℕ) (db : Db)
    → Keyed db
    → After (Enters db) (dispatch_body envelope kind actor payload now db)
unfolding dispatch_body
dispatch_body-Enters envelope kind actor payload now db u =
    elim (Option-cases (find_where (triggered_by envelope.trigger_event_key) db.jobs)) [
      | inl e ↦
          rw (e, After, dispatch_body) (dispatch_new-Enters envelope kind actor payload now db u)
      | inr (j, e) ↦ rw (e, After, dispatch_body) (Enters-refl db u)
    ]

pub record_dispatch_event-Enters :
    (envelope : JobEnvelope) (kind actor : String) (payload : Dict) (now : ℕ) (db : Db)
    → Keyed db
    → Enters db (record_dispatch_event envelope kind actor payload now db).1
unfolding record_dispatch_event
record_dispatch_event-Enters envelope kind actor payload now db u =
    transaction_rule (Enters db) (dispatch_body envelope kind actor payload now) db
      (Enters-refl db u) (dispatch_body-Enters envelope kind actor payload now db u)
