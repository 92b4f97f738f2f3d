-- ===== src/Poll/Dispatches.antt =====
-- What a dispatch and the receipt of a skip keep, and what they leave of their event.
use eastwatch.Prelude.{
  ℕ, Bool, true, Option, some, String, List, [], ◌∷◌, is_some, Result, ok, err, str_eq, ◌&&◌, ◌≡◌,
  refl, ◌∙◌, ap, subst, inl, inr, arith, Option-cases, Bool-cases, Result-cases,
}
use eastwatch.Schema.{Db, Receipt, Pending, Notice}
use eastwatch.Models.{JobEnvelope}
use eastwatch.Transaction.{transaction, insert_receipt, insert_notice}
use eastwatch.Store.Events.{record_dispatch_event, queue_pending}
use eastwatch.Lifecycle.Receiving.{received}
use eastwatch.Dispatch.Hints.{Rejection}
use eastwatch.Dispatch.Requests.{
  Candidate, project_key, durable_event_key, conversation_key, DispatchResult, Clock,
  ensure_project, upsert_project, reject, rejection_receipt, queue_comment, pending_receipt,
  pending_entry, consumed_event, record_skipped_event, answer,
}
use eastwatch.Dispatch.Handler.{
  Checked, passed, rejected, insert_conversation, upsert_conversation, spec_for,
}
use eastwatch.Dispatch.Flow.{
  admitted, launch, attempt, conclude, dispatch_ensured, dispatch, submit, accept, envelope_of,
  dispatch_payload,
}
use eastwatch.Dispatch.Laws.{bind-passed, passed_inj}
use eastwatch.Dispatch.Once.{dispatch_consumes}
use eastwatch.Poll.Keeps.{
  Keeps, Keeps-refl, Keeps-trans, Keeps-same, insert_receipt-Keeps, insert_notice-Keeps,
  upsert_project-Keeps, record_dispatch_event-Keeps,
}

abbrev pub is_done : (project event : String) → Db → Bool
is_done project event db = is_some (consumed_event project event db)

-- An event that left a job or a receipt has left it still.
pub Keeps-done :
    (project event : String) (db db' : Db)
    → Keeps db db'
    → is_done project event db ≡ true
    → is_done project event db' ≡ true
unfolding consumed_event
Keeps-done project event db db' k h =
    let receipts =
      k.1 (λ (r : Receipt). str_eq r.project_key project && str_eq r.event_key event) in
    ground (arith, h, k.0 event, receipts)

ensure_project-Keeps : (c : Candidate) (db : Db) → Keeps db (ensure_project c db).1
unfolding ensure_project transaction
ensure_project-Keeps c db =
    elim (Result-cases (upsert_project (project_key c) c.host c.project_path c.project_id db)) [
      | inr (x, e) ↦ rw (e, ensure_project, transaction) (Keeps-refl db)
      | inl (db', e) ↦
          rw (e, ensure_project, transaction)
            (upsert_project-Keeps (project_key c) c.host c.project_path c.project_id db db' e)
    ]

reject-Keeps : (c : Candidate) (r : Rejection) (now : ℕ) (db : Db) → Keeps db (reject c r now db).1
unfolding reject transaction
reject-Keeps c r now db =
    elim (Result-cases (insert_receipt (rejection_receipt c r.reason now) db)) [
      | inr (x, e) ↦ rw (e, reject, transaction) (Keeps-refl db)
      | inl (w, e) ↦
          let kept = insert_receipt-Keeps (rejection_receipt c r.reason now) db w.0 w.1 e in
          let notice =
            Notice.dispatch_rejected (durable_event_key c) (project_key c) c.issue_iid r.reason
              r.set_failed_label now in
          elim (Bool-cases w.0) [
            | inl new ↦
                rw (e, reject, transaction, new)
                  (Keeps-trans db w.1 (insert_notice notice now w.1) kept
                    (insert_notice-Keeps notice now w.1))
            | inr old ↦ rw (e, reject, transaction, old) kept
          ]
    ]

queue_pending-Keeps :
    (key : String) (entry : Pending) (receipt : Receipt) (now : ℕ) (db : Db)
    → Keeps db (queue_pending key entry receipt now db).1
unfolding queue_pending transaction
queue_pending-Keeps key entry receipt now db = elim (Result-cases (insert_receipt receipt db)) [
  | inr (x, e) ↦ rw (e, queue_pending, transaction) (Keeps-refl db)
  | inl (w, e) ↦
      let kept = insert_receipt-Keeps receipt db w.0 w.1 e in
      elim (Bool-cases w.0) [
        | inl new ↦ rw (e, queue_pending, transaction, new) kept
        | inr old ↦ rw (e, queue_pending, transaction, old) (Keeps-refl db)
      ]
]

answer-state : (a : DispatchResult) (r : Result Bool × Db) → (answer a r).1 ≡ r.1
answer-state a (ok b, db) = refl
answer-state a (err e, db) = refl

accept-state : (r : Result (String × Bool) × Db) → (accept r).1 ≡ r.1
accept-state (ok b, db) = refl
accept-state (err e, db) = refl

queue_comment-Keeps :
    (c : Candidate) (clock : Clock) (db : Db) → Keeps db (queue_comment c clock db).1
unfolding queue_comment
queue_comment-Keeps c clock db =
    rw
      (answer-state _ (
        queue_pending (conversation_key c) (pending_entry c clock.queued_at)
          (pending_receipt c clock.pending_at) clock.pending_at db))
      (queue_pending-Keeps (conversation_key c) (pending_entry c clock.queued_at)
        (pending_receipt c clock.pending_at) clock.pending_at db)

upsert_conversation-Keeps :
    (c : Candidate) (w : String) (parts : String × String × Option String) (now : ℕ) (db db' : Db)
    → upsert_conversation c w parts now db ≡ passed (ok db')
    → Keeps db db'
unfolding upsert_conversation insert_conversation
upsert_conversation-Keeps c w parts now db db' h =
    Keeps-same db db' (ground (arith, h)) (ground (arith, h)) (ground (arith, h))

submit-Keeps :
    (c : Candidate) (e : JobEnvelope) (now : ℕ) (db : Db) (u : Result Db)
    → ((d : Db) → u ≡ ok d → Keeps db d)
    → Keeps db (submit c e now db u).1
unfolding submit
submit-Keeps c e now db (err x) h = Keeps-refl db
submit-Keeps c e now db (ok d) h =
    rw
      (accept-state
        (record_dispatch_event e c.event_kind c.actor_username (dispatch_payload c) now d))
      (Keeps-trans db d
        (record_dispatch_event e c.event_kind c.actor_username (dispatch_payload c) now d).1
        (h d refl)
        (record_dispatch_event-Keeps e c.event_kind c.actor_username (dispatch_payload c) now d))

abbrev skip_receipt : (key event kind actor reason : String) → ℕ → Receipt
skip_receipt key event kind actor reason now = record {
  project_key = key;
  event_key = event;
  event_kind = kind;
  actor_username = some actor;
  payload = ("reason", reason) ∷ [];
  observed_at = now;
}

-- Behind a skip the event has a receipt.
pub skip_done :
    (key host path : String) (id : ℕ) (event kind actor reason : String) (now : ℕ) (db : Db)
    (t : Unit {0}) (db' : Db)
    → record_skipped_event key host path id event kind actor reason now db ≡ (ok t, db')
    → is_done key event db' ≡ true
unfolding record_skipped_event transaction consumed_event
skip_done key host path id event kind actor reason now db t db' h =
    elim (Result-cases (upsert_project key host path id db)) [
      | inr (x, e) ↦ absurd (ground (arith, h, e))
      | inl (d, e) ↦
          elim (Result-cases (insert_receipt (skip_receipt key event kind actor reason now) d)) [
            | inr (x, f) ↦ absurd (ground (arith, h, e, f))
            | inl (w, f) ↦ ground (
              arith,
              h,
              e,
              f,
              received (skip_receipt key event kind actor reason now) d w.0 w.1 f,
            )
          ]
    ]

pub skip-Keeps :
    (key host path : String) (id : ℕ) (event kind actor reason : String) (now : ℕ) (db : Db)
    → Keeps db (record_skipped_event key host path id event kind actor reason now db).1
unfolding record_skipped_event transaction
skip-Keeps key host path id event kind actor reason now db =
    elim (Result-cases (upsert_project key host path id db)) [
      | inr (x, e) ↦ rw (e, record_skipped_event, transaction) (Keeps-refl db)
      | inl (d, e) ↦
          let kept = upsert_project-Keeps key host path id db d e in
          elim (Result-cases (insert_receipt (skip_receipt key event kind actor reason now) d)) [
            | inr (x, f) ↦ rw (e, record_skipped_event, transaction, f) (Keeps-refl db)
            | inl (w, f) ↦
                rw (e, record_skipped_event, transaction, f)
                  (Keeps-trans db d w.1 kept (
                    insert_receipt-Keeps (skip_receipt key event kind actor reason now) d w.0 w.1
                      f))
          ]
    ]

module _ (text_repr : String → String) (admins approved_bots : List String) (job_id : String) where
  attempt-Keeps :
      (c : Candidate) (clock : Clock) (db : Db) (r : Result DispatchResult × Db)
      → attempt text_repr admins approved_bots job_id c clock db ≡ passed r
      → Keeps db r.1
  unfolding attempt launch
  attempt-Keeps c clock db r h =
      let ((b, w, waiting), e, h') =
        bind-passed (admitted text_repr admins approved_bots job_id c db) _ r h in
      elim (Bool-cases waiting) [
        | inl queued ↦
            subst (λ x. Keeps db x.1) (passed_inj _ _ (rw queued at h'))
              (queue_comment-Keeps c clock db)
        | inr direct ↦
            let (parts, speced, h₂) =
              bind-passed (spec_for text_repr c b w) _ r (rw direct at h') in
            let (u, upserted, h₃) =
              bind-passed (upsert_conversation c w.workspace_id parts clock.upserted_at db) _ r
                h₂ in
            subst (λ x. Keeps db x.1) (passed_inj _ _ h₃)
              (submit-Keeps c (envelope_of c job_id b parts) clock.dispatched_at db u (λ d f.
                upsert_conversation-Keeps c w.workspace_id parts clock.upserted_at db d
                  (upserted ∙ ap passed f)))
      ]

  conclude-Keeps :
      (c : Candidate) (clock : Clock) (db : Db) (m : Checked (Result DispatchResult × Db))
      → attempt text_repr admins approved_bots job_id c clock db ≡ m
      → Keeps db (conclude text_repr admins approved_bots job_id c clock db m).1
  unfolding conclude
  conclude-Keeps c clock db (passed r) e = attempt-Keeps c clock db r e
  conclude-Keeps c clock db (rejected r) e = reject-Keeps c r clock.rejected_at db

  ensured-Keeps :
      (c : Candidate) (clock : Clock) (r : Result (Unit {0}) × Db)
      → Keeps r.1 (dispatch_ensured text_repr admins approved_bots job_id c clock r).1
  unfolding dispatch_ensured
  ensured-Keeps c clock (err e, db) = Keeps-refl db
  ensured-Keeps c clock (ok t, db) =
      elim (Option-cases (consumed_event (project_key c) (durable_event_key c) db)) [
        | inr (a, e) ↦ rw (e, dispatch_ensured) (Keeps-refl db)
        | inl e ↦
            rw (e, dispatch_ensured)
              (conclude-Keeps c clock db (attempt text_repr admins approved_bots job_id c clock db)
                refl)
      ]

  pub dispatch-Keeps :
      (c : Candidate) (clock : Clock) (db : Db)
      → Keeps db (dispatch text_repr admins approved_bots job_id c clock db).1
  unfolding dispatch
  dispatch-Keeps c clock db =
      Keeps-trans db (ensure_project c db).1
        (dispatch_ensured text_repr admins approved_bots job_id c clock (ensure_project c db)).1
        (ensure_project-Keeps c db) (ensured-Keeps c clock (ensure_project c db))

  -- A dispatch that gave an answer, whichever, leaves a job or a receipt of its event.
  pub dispatch_done :
      (c : Candidate) (clock : Clock) (db : Db) (a : DispatchResult) (db' : Db)
      → dispatch text_repr admins approved_bots job_id c clock db ≡ (ok a, db')
      → is_done (project_key c) (durable_event_key c) db' ≡ true
  unfolding dispatch
  dispatch_done c clock db a db' h =
      dispatch_consumes text_repr admins approved_bots job_id c clock a db' (ensure_project c db) h
