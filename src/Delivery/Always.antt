-- ===== src/Delivery/Always.antt =====
-- The methods that write a notice, and any history of calls.
use eastwatch.Prelude.{
  ℕ, Bool, String, some, List, [], ◌∷◌, ◌++◌, str_eq, ◌==◌, Dict, ◌≡◌, refl, arith, inl, inr,
  Option-cases,
}
use eastwatch.Table.{find_where, select_where, update_where}
use eastwatch.Table.Follows.{Follows-find}
use eastwatch.Models.{RunReferences, Completion, CompletionState}
use eastwatch.Schema.{Db, Job, Run, Status, OutboxItem, Notice}
use eastwatch.Transaction.{insert_notice}
use eastwatch.Store.Leases.{
  held_by, held_run, start, new_run, works_on, set_status, mark_started, start_body, first_start,
  retry_start,
}
use eastwatch.Store.Complete.{
  fail_before_start, complete_job, complete_body, finish_job, run_of, fail_unstarted, fail_body,
}
use eastwatch.Store.Reap.{requeue_expired, lose_job, lose_jobs, reap_expired, job_ids, run_expired}
use eastwatch.Store.Events.{clear_pending}
use eastwatch.History.{
  Call, step, run, ready, receives, dispatches, queues, clears, enqueues, claims_outbox, delivers,
  fails_delivery, claims, starts, beats, completes, fails, reaps, claims_actions, finishes_action,
}
use eastwatch.Delivery.{Travels, Ledger, Sends}
use eastwatch.Delivery.Ledgers.{Sends-refl, Sends-trans, Sends-same, Sends-insert}
use eastwatch.Delivery.Effects.{claim_outbox-Sends, delivered-Sends, failed-Sends}
use eastwatch.Delivery.Silent.{
  ready-Sends, record_event-Sends, queue_pending-Sends, enqueue_job-Sends,
  record_dispatch_event-Sends, claim_jobs-Sends, heartbeat-Sends, claim_workspace_actions-Sends,
  finish_workspace_action-Sends,
}

-- Other tables change, and then a notice is written.
noted :
    (n : Notice) (now : ℕ) (db mid : Db)
    → mid.outbox ≡ db.outbox
    → mid.outbox_seq ≡ db.outbox_seq
    → Sends db (insert_notice n now mid)
noted n now db mid same seq =
    Sends-trans db mid (insert_notice n now mid) (Sends-same db mid same seq)
      (Sends-insert n now mid)

mark_started-Sends :
    (w id : String) (generation : ℕ) (refs : RunReferences) (now : ℕ) (db : Db)
    → Sends db (mark_started w id generation refs now db).1
unfolding mark_started start_body first_start retry_start
mark_started-Sends w id generation refs now db =
    elim (Option-cases (find_where (held_by w id generation) db.jobs)) [
      | inl e ↦ rw (e, start_body) (Sends-refl db)
      | inr (row, e) ↦
          rw (e, start_body)
            (ground (
              arith,
              Sends-refl db,
              Sends-same db
                  (record db {
                    runs =
                        update_where (held_run w id generation) (λ r. record r { refs = some refs })
                          db.runs;
                  })
                  refl refl,
              noted (Notice.job_started id) now db
                  (record db {
                    jobs = update_where (λ (j : Job). str_eq j.job_id id) (start now) db.jobs;
                    runs = db.runs ++ new_run w id generation refs now ∷ [];
                    conversations =
                        update_where (works_on id) (set_status Status.working now) db.conversations;
                  })
                  refl refl,
            ))
    ]

finish_job-Sends :
    (w id : String) (generation : ℕ) (c : Completion) (now : ℕ) (r : Run) (db : Db)
    → Sends db (finish_job w id generation c now r db)
unfolding finish_job
finish_job-Sends w id generation c now r db = noted _ now db _ refl refl

complete_job-Sends :
    (w id : String) (generation : ℕ) (c : Completion) (now : ℕ) (db : Db)
    → Sends db (complete_job w id generation c now db).1
unfolding complete_job complete_body
complete_job-Sends w id generation c now db =
    elim (Option-cases (find_where (held_by w id generation) db.jobs)) [
      | inl e ↦ rw (e, complete_body) (Sends-refl db)
      | inr (row, e) ↦ elim (Option-cases (run_of row db.runs)) [
        | inl f ↦ rw (e, complete_body, f) (ground (arith, Sends-refl db))
        | inr (r, f) ↦
            rw (e, complete_body, f)
              (ground (arith, Sends-refl db, finish_job-Sends w id generation c now r db))
      ]
    ]

fail_unstarted-Sends :
    (w id : String) (generation : ℕ) (d : Dict) (now : ℕ) (db : Db)
    → Sends db (fail_unstarted w id generation d now db).1
unfolding fail_unstarted fail_body
fail_unstarted-Sends w id generation d now db =
    elim (Option-cases (find_where (held_by w id generation) db.jobs)) [
      | inl e ↦ rw (e, fail_body) (Sends-refl db)
      | inr (row, e) ↦
          rw (e, fail_body)
            (ground (
              arith,
              Sends-refl db,
              noted (Notice.job_completed id w generation CompletionState.failed) now db
                  (record db {
                    jobs =
                        update_where (λ (j : Job). str_eq j.job_id id) (fail_before_start d now)
                          db.jobs;
                    conversations =
                        update_where (works_on id) (set_status Status.finishing now)
                          db.conversations;
                  })
                  refl refl,
            ))
    ]

lose_jobs-Sends : (now : ℕ) (ids : List String) (db : Db) → Sends db (lose_jobs now ids db)
unfolding lose_jobs lose_job
lose_jobs-Sends now [] db = Sends-refl db
lose_jobs-Sends now (id ∷ ids) db =
    Sends-trans db (lose_job now id db) (lose_jobs now ids (lose_job now id db))
      (noted _ now db _ refl refl) (lose_jobs-Sends now ids (lose_job now id db))

reap_expired-Sends : (now : ℕ) (db : Db) → Sends db (reap_expired now db).1
unfolding reap_expired requeue_expired
reap_expired-Sends now db =
    let requeued = requeue_expired now db in
    Sends-trans db requeued (reap_expired now db).1 (Sends-same db requeued refl refl)
      (lose_jobs-Sends now (job_ids (select_where (run_expired now) requeued.jobs)) requeued)

module _ (text_le : String → String → Bool) where
  step-Sends : (c : Call) (db : Db) → Sends db (step text_le c db)
  unfolding step clear_pending
  step-Sends (ready w now) db = ready-Sends w now db
  step-Sends (receives r) db = record_event-Sends r db
  step-Sends (dispatches e kind actor payload now) db =
      record_dispatch_event-Sends e kind actor payload now db
  step-Sends (queues key entry r now) db = queue_pending-Sends key entry r now db
  step-Sends (clears key count now) db = Sends-same db (clear_pending key count now db).1 refl refl
  step-Sends (enqueues e now) db = enqueue_job-Sends e now db
  step-Sends (claims_outbox limit seconds now) db = claim_outbox-Sends limit seconds now db
  step-Sends (delivers id generation now) db = delivered-Sends id generation now db
  step-Sends (fails_delivery id generation error retry_at) db =
      failed-Sends id generation error retry_at db
  step-Sends (claims w limit seconds now) db = claim_jobs-Sends text_le w limit seconds now db
  step-Sends (starts w id generation refs now) db = mark_started-Sends w id generation refs now db
  step-Sends (beats w active seconds now) db = heartbeat-Sends w active seconds now db
  step-Sends (completes w id generation c now) db = complete_job-Sends w id generation c now db
  step-Sends (fails w id generation d now) db = fail_unstarted-Sends w id generation d now db
  step-Sends (reaps now) db = reap_expired-Sends now db
  step-Sends (claims_actions w limit seconds now) db =
      claim_workspace_actions-Sends text_le w limit seconds now db
  step-Sends (finishes_action w id generation success error now) db =
      finish_workspace_action-Sends w id generation success error now db

  run-Sends : (calls : List Call) (db : Db) → Sends db (run text_le calls db)
  unfolding run
  run-Sends [] db = Sends-refl db
  run-Sends (c ∷ calls) db =
      Sends-trans db (step text_le c db) (run text_le calls (step text_le c db)) (step-Sends c db)
        (run-Sends calls (step text_le c db))

  -- Let the rows of `outbox` in `db` have rising numbers, none above the last number given, and no
  -- two rows one dedupe key. Then the same holds after any calls of the store.
  pub outbox-Ledger : (calls : List Call) (db : Db) → Ledger db → Ledger (run text_le calls db)
  outbox-Ledger calls db l = (run-Sends calls db).ledger l

  -- An item of the outbox is there after any calls of the store, under the same number and with the
  -- same notice; its lease generation and its attempts have not fallen, and if it was delivered, it
  -- has not changed at all.
  pub outbox_history :
      (calls : List Call) (db : Db) (id : ℕ) (x : OutboxItem)
      → find_where (λ (y : OutboxItem). y.outbox_id == id) db.outbox ≡ some x
      → (y : OutboxItem) × (find_where
            (λ (z : OutboxItem). z.outbox_id == id)
            (run text_le calls db).outbox
          ≡ some y)
        × Travels x y
  outbox_history calls db id x e =
      Follows-find Travels (λ (y : OutboxItem). y.outbox_id == id) (λ a b t. rw t.same_id) db.outbox
        (run text_le calls db).outbox x (run-Sends calls db).follows e
