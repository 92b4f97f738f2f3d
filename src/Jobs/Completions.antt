-- ===== src/Jobs/Completions.antt =====
-- `complete_job` and `fail_unstarted` in the life of a job.
use eastwatch.Prelude.{
  ℕ, true, String, some, ◌≡◌, refl, arith, str_eq, inl, inr, Option-cases, Dict,
}
use eastwatch.Table.{find_where, update_where}
use eastwatch.Table.Follows.{Match, Match-refl}
use eastwatch.Models.{Completion}
use eastwatch.Schema.{Db, Job, is_leased, is_running}
use eastwatch.Transaction.{insert_notice}
use eastwatch.Store.Leases.{held_by}
use eastwatch.Store.Complete.{
  complete, complete_job, complete_body, finish_job, fail_before_start, fail_unstarted, fail_body,
}
use eastwatch.Jobs.{Evolves, Settles, Settles-refl}
use eastwatch.Jobs.Rows.{Keyed, JobsSettle, held_id, settle_alone}

complete-Settles :
    (c : Completion) (now : ℕ) (j : Job) → is_running j.state ≡ true → Settles j (complete c now j)
complete-Settles c now j h = ground arith

fail-Evolves :
    (d : Dict) (now : ℕ) (j : Job)
    → is_leased j.state ≡ true
    → Evolves j (fail_before_start d now j)
fail-Evolves d now j h = record {
  same_id = refl;
  same_workspace = refl;
  same_conversation = refl;
  same_trigger = refl;
  state_leads = ground arith;
  generation_grows = omega arith;
  generation_frozen = λ _. refl;
}

fail-Settles :
    (d : Dict) (now : ℕ) (j : Job)
    → is_leased j.state ≡ true
    → Settles j (fail_before_start d now j)
fail-Settles d now j h = record { life = fail-Evolves d now j h; not_leased = λ a. cc }

module _ (workspace_id job_id : String) (generation : ℕ) (now : ℕ) (db : Db) (row : Job)
    (u : Keyed db)
    (found : find_where (held_by workspace_id job_id generation) db.jobs ≡ some row) where
  completed_rows :
      (c : Completion)
      → is_running row.state ≡ true
      → Match Settles db.jobs
          (update_where (held_by workspace_id job_id generation) (complete c now) db.jobs)
  completed_rows c running =
      settle_alone (held_by workspace_id job_id generation) _ job_id (complete c now)
        (λ j h. ground arith) db.jobs row u found
        (held_id workspace_id job_id generation db.jobs row found)
        (complete-Settles c now row running)

  failed_rows :
      (d : Dict)
      → is_leased row.state ≡ true
      → Match Settles db.jobs
          (update_where (λ (j : Job). str_eq j.job_id job_id) (fail_before_start d now) db.jobs)
  failed_rows d leased =
      settle_alone (held_by workspace_id job_id generation) _ job_id (fail_before_start d now)
        (λ j h. h) db.jobs row u found (held_id workspace_id job_id generation db.jobs row found)
        (fail-Settles d now row leased)

module _ (workspace_id job_id : String) (generation : ℕ) where
  pub complete_job-Settles :
      (c : Completion) (now : ℕ) (db : Db)
      → Keyed db
      → JobsSettle db (complete_job workspace_id job_id generation c now db).1
  unfolding complete_job complete_body finish_job insert_notice
  complete_job-Settles c now db u =
      elim (Option-cases (find_where (held_by workspace_id job_id generation) db.jobs)) [
        | inl e ↦ rw (e, complete_body) (Match-refl Settles Settles-refl db.jobs)
        | inr (row, e) ↦
            rw (e, complete_body)
              (ground (
                arith,
                Match-refl Settles Settles-refl db.jobs,
                completed_rows workspace_id job_id generation now db row u e c,
              ))
      ]

  pub fail_unstarted-Settles :
      (d : Dict) (now : ℕ) (db : Db)
      → Keyed db
      → JobsSettle db (fail_unstarted workspace_id job_id generation d now db).1
  unfolding fail_unstarted fail_body insert_notice
  fail_unstarted-Settles d now db u =
      elim (Option-cases (find_where (held_by workspace_id job_id generation) db.jobs)) [
        | inl e ↦ rw (e, fail_body) (Match-refl Settles Settles-refl db.jobs)
        | inr (row, e) ↦
            rw (e, fail_body)
              (ground (
                arith,
                Match-refl Settles Settles-refl db.jobs,
                failed_rows workspace_id job_id generation now db row u e d,
              ))
      ]
