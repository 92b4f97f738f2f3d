-- ===== src/History/Laws.antt =====
-- The laws of every history of calls: what becomes of a job, and of a lease that was passed on.
use mathlib.Core.Bool.{false≢true}
use eastwatch.Prelude.{
  ℕ, ◌<◌, Bool, true, false, String, Option, none, some, List, [], ◌∷◌, Dict, err, Error, ◌≡◌, ◌∙◌,
  ap, sym, arith, str_eq, inl, inr, Option-cases,
}
use eastwatch.Table.{find_where}
use eastwatch.Table.Every.{find-holds, find-All}
use eastwatch.Table.Keys.{Unique-find_key}
use eastwatch.Table.Follows.{Follows-refl, Follows-trans, Follows-find}
use eastwatch.Models.{RunReferences, Completion}
use eastwatch.Schema.{Db, Job}
use eastwatch.Transaction.{transaction, settle}
use eastwatch.Store.Leases.{held_by, mark_started, start_body}
use eastwatch.Store.Complete.{complete_job, complete_body, fail_unstarted, fail_body}
use eastwatch.Jobs.{Evolves, Evolves-refl, Evolves-trans}
use eastwatch.Jobs.Rows.{Keyed, job_key}
use eastwatch.Jobs.Inserts.{Grows}
use eastwatch.History.{Call, step, run}
use eastwatch.History.Steps.{step-Grows}

module _ (text_le : String → String → Bool) where
  pub run-Grows : (cs : List Call) (db : Db) → Keyed db → Grows db (run text_le cs db)
  unfolding run
  run-Grows [] db u = (Follows-refl Evolves Evolves-refl db.jobs, u)
  run-Grows (c ∷ cs) db u =
      let (first, keyed) = step-Grows text_le c db u in
      let (rest, keyed') = run-Grows cs (step text_le c db) keyed in
      (
        Follows-trans Evolves Evolves-trans db.jobs (step text_le c db).jobs
            (run text_le (c ∷ cs) db).jobs first rest,
        keyed',
      )

  -- `SELECT … FROM jobs WHERE job_id = ?`
  abbrev pub job : String → Db → Option Job
  job id db = find_where (λ (j : Job). str_eq j.job_id id) db.jobs

  -- After any calls, from a database with distinct job ids: a job that was there is there, with its
  -- workspace, conversation and trigger event, in a state that its state leads to, under a lease
  -- generation that never fell, and that never changed once the job had begun. The ids are distinct.
  pub job_history :
      (cs : List Call) (db : Db) (id : String) (j : Job)
      → Keyed db
      → job id db ≡ some j
      → ((k : Job) × (job id (run text_le cs db) ≡ some k) × Evolves j k)
        × Keyed (run text_le cs db)
  job_history cs db id j u e =
      let (follows, keyed) = run-Grows cs db u in
      (
        Follows-find Evolves (λ (k : Job). str_eq k.job_id id) (λ x y r. rw r.same_id) db.jobs
            (run text_le cs db).jobs j follows e,
        keyed,
      )

no_holder :
    (w id : String) (generation : ℕ) (db : Db) (k : Job)
    → Keyed db
    → find_where (λ (j : Job). str_eq j.job_id id) db.jobs ≡ some k
    → held_by w id generation k ≡ false
    → find_where (held_by w id generation) db.jobs ≡ none
no_holder w id generation db k u e other =
    elim (Option-cases (find_where (held_by w id generation) db.jobs)) [
      | inl none_held ↦ none_held
      | inr (row, held) ↦ absurd (
          clash row (find-holds (held_by w id generation) db.jobs row held) (
            find-All (λ (x : Job). str_eq x.job_id id ≡ true → x ≡ k) (held_by w id generation)
              db.jobs row
              (Unique-find_key job_key (λ (j : Job). str_eq j.job_id id) id db.jobs k u e
                (find-holds (λ (j : Job). str_eq j.job_id id) db.jobs k e))
              held))
    ]
  where
    clash :
        (row : Job)
        → held_by w id generation row ≡ true
        → (str_eq row.job_id id ≡ true → row ≡ k)
        → ⊥
    clash row h same =
        let eq : row ≡ k = same (ground arith) in
        false≢true (sym other ∙ ap (held_by w id generation) (sym eq) ∙ h)

-- The methods by which a runner reports on a job refuse a caller that does not hold the job's
-- present lease, and leave the database as it is.
abbrev pub Refused : String → String → ℕ → Db → Type 0
Refused w id generation db =
    ((refs : RunReferences) (now : ℕ)
      → mark_started w id generation refs now db ≡ (err Error.stale_lease, db))
    × ((c : Completion) (now : ℕ)
        → complete_job w id generation c now db ≡ (err Error.stale_lease, db))
    × ((d : Dict) (now : ℕ) → fail_unstarted w id generation d now db ≡ (err Error.stale_lease, db))

refused :
    (w id : String) (generation : ℕ) (db : Db)
    → find_where (held_by w id generation) db.jobs ≡ none
    → Refused w id generation db
unfolding mark_started start_body complete_job complete_body fail_unstarted fail_body
refused w id generation db e = (
  λ refs now. rw (e, start_body, transaction, settle),
  λ c now. rw (e, complete_body, transaction, settle),
  λ d now. rw (e, fail_body, transaction, settle),
)

-- From a database with distinct job ids: a lease of a generation below that of the job is refused
-- after any calls whatever, since generations never fall.
pub fenced :
    (text_le : String → String → Bool) (cs : List Call) (db : Db) (w id : String) (generation : ℕ)
    (j : Job)
    → Keyed db
    → job text_le id db ≡ some j
    → generation < j.lease_generation
    → Refused w id generation (run text_le cs db)
fenced text_le cs db w id generation j u e older =
    let ((k, found, life), keyed) = job_history text_le cs db id j u e in
    refused w id generation (run text_le cs db)
      (no_holder w id generation (run text_le cs db) k keyed found (not_held k life))
  where
    not_held : (k : Job) → Evolves j k → held_by w id generation k ≡ false
    not_held k life = ground (arith, life.generation_grows)
