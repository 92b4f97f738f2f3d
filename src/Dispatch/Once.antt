-- ===== src/Dispatch/Once.antt =====
-- A dispatch that is repeated.
use eastwatch.Prelude.{
  ℕ, Bool, true, is_some, String, List, Result, ok, err, str_eq, ◌&&◌, ◌≡◌, refl, ◌∙◌, ap, subst,
  inl, inr, arith, Option-cases, Bool-cases, Result-cases,
}
use eastwatch.Table.{find_where, has_where}
use eastwatch.Table.Finds.{has-append}
use eastwatch.Table.Keys.{str_eq_refl}
use eastwatch.Schema.{Db, Receipt, Notice}
use eastwatch.Models.{JobEnvelope}
use eastwatch.Transaction.{transaction-ok, insert_receipt, insert_notice}
use eastwatch.Store.Events.{triggered_by, queue_pending, record_dispatch_event, dispatch_body}
use eastwatch.Lifecycle.Receiving.{receipt_key, received, dispatch_body-Stored}
use eastwatch.Dispatch.Hints.{Rejection}
use eastwatch.Dispatch.Requests.{
  Candidate, project_key, durable_event_key, DispatchResult, Clock, ensure_project, reject,
  rejection_receipt, queue_comment, pending_receipt, consumed_event,
}
use eastwatch.Dispatch.Handler.{Checked, passed, rejected, spec_for, upsert_conversation}
use eastwatch.Dispatch.Flow.{
  admitted, launch, attempt, conclude, dispatch_ensured, dispatch, submit, accept, envelope_of,
  dispatch_payload,
}
use eastwatch.Dispatch.Laws.{bind-passed, passed_inj}

-- The event of a candidate has left a job or a receipt.
abbrev pub is_consumed : Candidate → Db → Bool
is_consumed c db = is_some (consumed_event (project_key c) (durable_event_key c) db)

has_receipt : Candidate → Db → Bool
has_receipt c db =
    has_where
      (λ (r : Receipt).
        str_eq r.project_key (project_key c) && str_eq r.event_key (durable_event_key c))
      db.receipts

receipt_consumes : (c : Candidate) (db : Db) → has_receipt c db ≡ true → is_consumed c db ≡ true
unfolding consumed_event has_receipt
receipt_consumes c db h = ground (arith, h)

job_consumes :
    (c : Candidate) (db : Db)
    → is_some (find_where (triggered_by (durable_event_key c)) db.jobs) ≡ true
    → is_consumed c db ≡ true
unfolding consumed_event
job_consumes c db h = ground (arith, h)

notice-receipts : (n : Notice) (now : ℕ) (db : Db) → (insert_notice n now db).receipts ≡ db.receipts
unfolding insert_notice
notice-receipts n now db = ground arith

reject_consumes :
    (c : Candidate) (r : Rejection) (now : ℕ) (db : Db) (a : DispatchResult) (db' : Db)
    → reject c r now db ≡ (ok a, db')
    → has_receipt c db' ≡ true
unfolding reject has_receipt
reject_consumes c r now db a db' h =
    elim (Result-cases (insert_receipt (rejection_receipt c r.reason now) db)) [
      | inr (e, f) ↦ absurd (ground (arith, h, f))
      | inl (w, f) ↦
          let there = received (rejection_receipt c r.reason now) db w.0 w.1 f in
          ground (
            arith,
            h,
            f,
            there,
            notice-receipts
                (Notice.dispatch_rejected (durable_event_key c) (project_key c) c.issue_iid r.reason
                  r.set_failed_label now)
                now w.1,
          )
    ]

queue_consumes :
    (c : Candidate) (clock : Clock) (db : Db) (a : DispatchResult) (db' : Db)
    → queue_comment c clock db ≡ (ok a, db')
    → has_receipt c db' ≡ true
unfolding queue_comment queue_pending has_receipt insert_receipt
queue_consumes c clock db a db' h = ground (
  arith,
  h,
  has-append (receipt_key (pending_receipt c clock.pending_at)) db.receipts
      (pending_receipt c clock.pending_at),
  str_eq_refl (project_key c),
  str_eq_refl (durable_event_key c),
)

submit_consumes :
    (c : Candidate) (e : JobEnvelope) (now : ℕ) (db : Db) (u : Result Db) (a : DispatchResult)
    (db' : Db)
    → e.trigger_event_key ≡ durable_event_key c
    → submit c e now db u ≡ (ok a, db')
    → is_consumed c db' ≡ true
unfolding submit record_dispatch_event
submit_consumes c e now db (err x) a db' key h = absurd (ground (arith, h))
submit_consumes c e now db (ok changed) a db' key h =
    go (record_dispatch_event e c.event_kind c.actor_username (dispatch_payload c) now changed) refl
      h
  where
    go :
        (r : Result (String × Bool) × Db)
        → record_dispatch_event e c.event_kind c.actor_username (dispatch_payload c) now changed ≡ r
        → accept r ≡ (ok a, db')
        → is_consumed c db' ≡ true
    go (err x, d) f g = absurd (ground (arith, g))
    go (ok (id, b), d) f g =
        let (j, found, same) =
          dispatch_body-Stored e e c.event_kind c.actor_username (dispatch_payload c) now changed id
            b d refl
            (transaction-ok (dispatch_body e c.event_kind c.actor_username (dispatch_payload c) now)
              changed (id, b) d f) in
        let last : d ≡ db' = ground (arith, g) in
        subst (λ x. is_consumed c x ≡ true) last (job_consumes c d (rw key at (ap is_some found)))

-- What a dispatch of a consumed event leaves alone.
abbrev pub Same : Db → Db → Type 0
Same db db' =
    (db'.receipts ≡ db.receipts)
    × (db'.conversations ≡ db.conversations)
    × (db'.jobs ≡ db.jobs)
    × (db'.outbox ≡ db.outbox)

module _ (text_repr : String → String) (admins approved_bots : List String) where
  attempt_consumes :
      (job_id : String) (c : Candidate) (clock : Clock) (db : Db) (a : DispatchResult) (db' : Db)
      → attempt text_repr admins approved_bots job_id c clock db ≡ passed (ok a, db')
      → is_consumed c db' ≡ true
  unfolding attempt launch
  attempt_consumes job_id c clock db a db' h =
      let ((b, w, waiting), e, h') =
        bind-passed (admitted text_repr admins approved_bots job_id c db) _ (ok a, db') h in
      elim (Bool-cases waiting) [
        | inl queued ↦
            receipt_consumes c db'
              (queue_consumes c clock db a db' (passed_inj _ _ (rw queued at h')))
        | inr direct ↦
            let (parts, speced, h₂) =
              bind-passed (spec_for text_repr c b w) _ (ok a, db') (rw direct at h') in
            let (u, upserted, h₃) =
              bind-passed (upsert_conversation c w.workspace_id parts clock.upserted_at db) _
                (ok a, db') h₂ in
            submit_consumes c (envelope_of c job_id b parts) clock.dispatched_at db u a db' refl
              (passed_inj _ _ h₃)
      ]

  conclude_consumes :
      (job_id : String) (c : Candidate) (clock : Clock) (db : Db) (a : DispatchResult) (db' : Db)
      (m : Checked (Result DispatchResult × Db))
      → attempt text_repr admins approved_bots job_id c clock db ≡ m
      → conclude text_repr admins approved_bots job_id c clock db m ≡ (ok a, db')
      → is_consumed c db' ≡ true
  unfolding conclude
  conclude_consumes job_id c clock db a db' (passed r) e h =
      attempt_consumes job_id c clock db a db' (e ∙ ap passed h)
  conclude_consumes job_id c clock db a db' (rejected r) e h =
      receipt_consumes c db' (reject_consumes c r clock.rejected_at db a db' h)

  pub dispatch_consumes :
      (job_id : String) (c : Candidate) (clock : Clock) (a : DispatchResult) (db' : Db)
      (r : Result (Unit {0}) × Db)
      → dispatch_ensured text_repr admins approved_bots job_id c clock r ≡ (ok a, db')
      → is_consumed c db' ≡ true
  unfolding dispatch_ensured
  dispatch_consumes job_id c clock a db' (err e, db) h = absurd (ground (arith, h))
  dispatch_consumes job_id c clock a db' (ok t, db) h =
      elim (Option-cases (consumed_event (project_key c) (durable_event_key c) db)) [
        | inr (old, e) ↦
            let h' = rw (e, dispatch_ensured) at h in
            let same : db ≡ db' = ground (arith, h') in
            subst (λ x. is_consumed c x ≡ true) same (ap is_some e)
        | inl e ↦
            conclude_consumes job_id c clock db a db'
              (attempt text_repr admins approved_bots job_id c clock db) refl
              (rw (e, dispatch_ensured) at h)
      ]

  ensure_project-Same : (c : Candidate) (db : Db) → Same db (ensure_project c db).1
  unfolding ensure_project
  ensure_project-Same c db = (ground arith, ground arith, ground arith, ground arith)

  ensured-Same :
      (job_id : String) (c : Candidate) (clock : Clock) (db : Db) (r : Result (Unit {0}) × Db)
      → is_consumed c db ≡ true
      → Same db r.1
      → Same db (dispatch_ensured text_repr admins approved_bots job_id c clock r).1
  unfolding dispatch_ensured consumed_event
  ensured-Same job_id c clock db (err e, d) h s = s
  ensured-Same job_id c clock db (ok t, d) h s =
      elim (Option-cases (consumed_event (project_key c) (durable_event_key c) d)) [
        | inr (old, e) ↦ rw (e, dispatch_ensured) s
        | inl e ↦ absurd (ground (arith, h, e, s.0, s.2))
      ]

  -- After a dispatch that gave an answer, whichever it was, a second dispatch of the same candidate,
  -- at any time and with any id for its job, changes no receipt, no conversation, no job and no
  -- notice.
  pub dispatch_once :
      (job_id other_id : String) (c : Candidate) (clock later : Clock) (db : Db)
      (a : DispatchResult) (db' : Db)
      → dispatch text_repr admins approved_bots job_id c clock db ≡ (ok a, db')
      → Same db' (dispatch text_repr admins approved_bots other_id c later db').1
  unfolding dispatch
  dispatch_once job_id other_id c clock later db a db' h =
      ensured-Same other_id c later db' (ensure_project c db')
        (dispatch_consumes job_id c clock a db' (ensure_project c db) h) (ensure_project-Same c db')
