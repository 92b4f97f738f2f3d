-- ===== src/History/Once.antt =====
-- Repeated completions of a job, with any calls between them.
use eastwatch.Prelude.{
  ℕ, Bool, true, false, not, String, some, List, [], ◌∷◌, ◌≡◌, refl, sym, subst, arith, str_eq,
  eq_iff, inl, inr, Option-cases, Bool-cases,
}
use eastwatch.Table.{find_where, select_where}
use eastwatch.Table.Every.{find-holds, find-All}
use eastwatch.Table.Keys.{Unique-find_key}
use eastwatch.Models.{Completion, JobState}
use eastwatch.Schema.{Db, Job, is_finished}
use eastwatch.Transaction.{transaction, settle}
use eastwatch.Store.Leases.{held_by}
use eastwatch.Store.Complete.{complete_job, complete_body}
use eastwatch.Jobs.{leads_to}
use eastwatch.Jobs.Rows.{Keyed, job_key}
use eastwatch.History.{Call, step, run}
use eastwatch.History.Laws.{job, job_history}

-- A completion of a job that has ended changes nothing, whoever reports it.
pub ended_complete :
    (w id : String) (generation : ℕ) (c : Completion) (now : ℕ) (db : Db) (k : Job)
    → Keyed db
    → find_where (λ (j : Job). str_eq j.job_id id) db.jobs ≡ some k
    → is_finished k.state ≡ true
    → (complete_job w id generation c now db).1 ≡ db
unfolding complete_job complete_body
ended_complete w id generation c now db k u found ended =
    elim (Option-cases (find_where (held_by w id generation) db.jobs)) [
      | inl e ↦ rw (e, complete_body, transaction, settle)
      | inr (row, e) ↦
          let held = find-holds (held_by w id generation) db.jobs row e in
          let same : row ≡ k =
            find-All (λ (x : Job). str_eq x.job_id id ≡ true → x ≡ k) (held_by w id generation)
              db.jobs row
              (Unique-find_key job_key (λ (j : Job). str_eq j.job_id id) id db.jobs k u found
                (find-holds (λ (j : Job). str_eq j.job_id id) db.jobs k found))
              e (ground (arith, held)) in
          let done : is_finished row.state ≡ true = rw same ended in
          rw (e, complete_body, transaction, settle, done)
    ]

pub ended_stays :
    (s t : JobState) → leads_to s t ≡ true → is_finished s ≡ true → is_finished t ≡ true
ended_stays s t h k = ground arith

abbrev pub completes_of : String → Call → Bool
completes_of id (Call.completes w job_id generation c now) = str_eq job_id id
completes_of id call = false

-- A history without the completions of a job.
abbrev pub without : String → List Call → List Call
without id calls = select_where (λ c. not (completes_of id c)) calls

module _ (text_le : String → String → Bool) where
  completes-step :
      (c : Call) (id : String) (db : Db) (k : Job)
      → Keyed db
      → job text_le id db ≡ some k
      → is_finished k.state ≡ true
      → completes_of id c ≡ true
      → step text_le c db ≡ db
  unfolding step
  completes-step (Call.completes w job_id generation c now) id db k u found ended h =
      let same : job_id ≡ id = (eq_iff job_id id).0 h in
      ended_complete w job_id generation c now db k u
        (subst (λ x. find_where (λ (j : Job). str_eq j.job_id x) db.jobs ≡ some k) (sym same) found)
        ended
  completes-step c id db k u found ended h = absurd (ground (arith, h))

  -- When a job has ended, every later report of its completion, by whichever runner and under
  -- whichever lease, can be struck from the history: the database is the same without it.
  pub completed_once :
      (calls : List Call) (id : String) (db : Db) (k : Job)
      → Keyed db
      → job text_le id db ≡ some k
      → is_finished k.state ≡ true
      → run text_le (without id calls) db ≡ run text_le calls db
  unfolding run select_where
  completed_once [] id db k u found ended = refl
  completed_once (c ∷ cs) id db k u found ended = elim (Bool-cases (completes_of id c)) [
    | inl repeat ↦
        rw (repeat, completes-step c id db k u found ended repeat)
          (completed_once cs id db k u found ended)
    | inr other ↦
        let ((k', found', life), u') = job_history text_le (c ∷ []) db id k u found in
        rw other (
          completed_once cs id (step text_le c db) k' u' found'
            (ended_stays k.state k'.state life.state_leads ended))
  ]
