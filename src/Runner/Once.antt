-- ===== src/Runner/Once.antt =====
-- The effect of an upload on the controller's database.
use eastwatch.Prelude.{
  ℕ, Bool, true, false, some, String, List, [], ◌∷◌, Result, ok, err, Error, ◌≡◌, refl, ◌∙◌, sym,
  ap, subst, ◌⊎◌, inl, inr, arith, str_eq,
}
use eastwatch.Table.{find_where}
use eastwatch.Table.Finds.{find-update}
use eastwatch.Table.Every.{find-holds}
use eastwatch.Table.Keys.{Unique-find_key, find-weaker}
use eastwatch.Models.{Completion}
use eastwatch.Schema.{Db, Job, Run, is_finished}
use eastwatch.Transaction.{insert_notice}
use eastwatch.Store.Leases.{held_by}
use eastwatch.Store.Complete.{complete, complete_job, complete_body, finish_job}
use eastwatch.Jobs.Rows.{Keyed, job_key}
use eastwatch.History.{Call, step, run}
use eastwatch.History.Laws.{job_history, run-Grows}
use eastwatch.History.Once.{ended_stays}
use eastwatch.Lifecycle.Finishing.{CanComplete, complete_job_iff}

-- The job is there, and has ended.
pub record Ended (id : String) (db : Db) : Type 0 where
  pub keyed : Keyed db
  pub row : Job
  pub found : find_where (λ (j : Job). str_eq j.job_id id) db.jobs ≡ some row
  pub over : is_finished row.state ≡ true

pub run-Ended :
    (text_le : String → String → Bool) (cs : List Call) (id : String) (db : Db)
    → Ended id db
    → Ended id (run text_le cs db)
run-Ended text_le cs id db e =
    let ((k, found, life), keyed) = job_history text_le cs db id e.row e.keyed e.found in
    record {
      keyed = keyed;
      row = k;
      found = found;
      over = ended_stays e.row.state k.state life.state_leads e.over;
    }

finish-Ended :
    (w id : String) (generation : ℕ) (c : Completion) (now : ℕ) (db : Db) (row : Job) (run : Run)
    → Keyed db
    → Keyed (finish_job w id generation c now run db)
    → CanComplete w id generation now db row run
    → Ended id (finish_job w id generation c now run db)
unfolding finish_job insert_notice
finish-Ended w id generation c now db row run u u' can =
    let held = find-holds (held_by w id generation) db.jobs row can.held in
    let is_id : str_eq row.job_id id ≡ true = ground (arith, held) in
    let by_id =
      find-weaker (λ (j : Job). str_eq j.job_id id) (held_by w id generation)
        (λ x h. ground (arith, h)) db.jobs row can.held
        (Unique-find_key job_key (held_by w id generation) id db.jobs row u can.held is_id) in
    record {
      keyed = u';
      row = complete c now row;
      found = ground (
        arith,
        find-update (λ (j : Job). str_eq j.job_id id) (held_by w id generation) (complete c now)
            (λ j. refl) db.jobs row by_id,
        held,
      );
      over = ground arith;
    }

unless_completed :
    (w id : String) (generation : ℕ) (c : Completion) (now : ℕ) (db d : Db)
    → complete_job w id generation c now db ≡ (ok false, d)
    → d ≡ db
unfolding complete_job complete_body
unless_completed w id generation c now db d h = ground (arith, h)

when_raised :
    (w id : String) (generation : ℕ) (c : Completion) (now : ℕ) (db d : Db) (e : Error)
    → complete_job w id generation c now db ≡ (err e, d)
    → d ≡ db
unfolding complete_job complete_body
when_raised w id generation c now db d e h = ground (arith, h)

-- A completion changes nothing, or the job has ended behind it.
pub complete-Ended :
    (text_le : String → String → Bool) (w id : String) (generation : ℕ) (c : Completion) (now : ℕ)
    (db : Db)
    → Keyed db
    → ((complete_job w id generation c now db).1 ≡ db)
      ⊎ Ended id (complete_job w id generation c now db).1
unfolding step run
complete-Ended text_le w id generation c now db u =
    go (complete_job w id generation c now db) refl
      (run-Grows text_le (Call.completes w id generation c now ∷ []) db u).1
  where
    go :
        (r : Result Bool × Db)
        → complete_job w id generation c now db ≡ r
        → Keyed (complete_job w id generation c now db).1
        → (r.1 ≡ db) ⊎ Ended id r.1
    go (err x, d) e k = inl (when_raised w id generation c now db d x e)
    go (ok false, d) e k = inl (unless_completed w id generation c now db d e)
    go (ok true, d) e k =
        let (row, run, can, same) = (complete_job_iff w id generation c now db d).0 e in
        inr (
          subst (Ended id) (sym same) (
            finish-Ended w id generation c now db row run u (subst Keyed (ap (λ x. x.1) e ∙ same) k)
              can))
