-- ===== src/Lifecycle/Receiving.antt =====
-- The methods that receive events of the forge, when they are called again.
use eastwatch.Prelude.{
  ℕ, Bool, true, false, not, String, none, some, [], ◌∷◌, Dict, ok, ◌≡◌, ap, ◌∙◌, subst,
  first_returned, guard_passed, arith, str_eq, ◌&&◌, inl, inr, Option-cases,
}
use eastwatch.Table.{find_where, has_where}
use eastwatch.Table.Finds.{find-append_none, has-append}
use eastwatch.Table.Keys.{str_eq_refl}
use eastwatch.Models.{JobEnvelope}
use eastwatch.Schema.{Db, Job, Receipt, Pending}
use eastwatch.Transaction.{transaction-ok, ok-transaction, insert_receipt}
use eastwatch.Jobs.Inserts.{insert_job-jobs, insert_receipt-jobs}
use eastwatch.Store.Events.{
  record_event, triggered_by, queued_job, insert_job, job_owner, enqueue_new, enqueue_body,
  enqueue_job, dispatch_body, dispatch_new, record_dispatch_event, queue_pending,
}

abbrev pub receipt_key : Receipt → Receipt → Bool
receipt_key r x = str_eq x.project_key r.project_key && str_eq x.event_key r.event_key

-- After a receipt was written or found, one with the same keys is there.
pub received :
    (r : Receipt) (db : Db) (b : Bool) (db' : Db)
    → insert_receipt r db ≡ ok (b, db')
    → has_where (receipt_key r) db'.receipts ≡ true
unfolding insert_receipt
received r db b db' e = ground (
  arith,
  has-append (receipt_key r) db.receipts r,
  str_eq_refl r.project_key,
  str_eq_refl r.event_key,
)

-- An event that was recorded, just now or before, is not recorded again, whatever else a repeated
-- call says of it: the call answers False and changes nothing.
pub record_event_again :
    (r r' : Receipt) (db : Db) (b : Bool) (db' : Db)
    → record_event r db ≡ (ok b, db')
    → r'.project_key ≡ r.project_key
    → r'.event_key ≡ r.event_key
    → record_event r' db' ≡ (ok false, db')
unfolding record_event
record_event_again r r' db b db' e project event = ground (
  arith,
  received r db b db',
  ap
      (λ k.
        has_where (λ (x : Receipt). str_eq x.project_key k && str_eq x.event_key r'.event_key)
          db'.receipts)
      project,
  ap
      (λ k.
        has_where (λ (x : Receipt). str_eq x.project_key r.project_key && str_eq x.event_key k)
          db'.receipts)
      event,
)

-- A comment that was queued for the next run, just now or before, is not queued again: the call
-- answers False and changes nothing.
pub queue_pending_again :
    (key : String) (entry entry' : Pending) (r : Receipt) (now later : ℕ) (db : Db) (b : Bool)
    (db' : Db)
    → queue_pending key entry r now db ≡ (ok b, db')
    → queue_pending key entry' r later db' ≡ (ok false, db')
unfolding queue_pending insert_receipt
queue_pending_again key entry entry' r now later db b db' e = ground (
  arith,
  has-append (receipt_key r) db.receipts r,
  str_eq_refl r.project_key,
  str_eq_refl r.event_key,
)

-- The job that a trigger event finds behind the insert.
found_again :
    (e e' : JobEnvelope) (w : String) (now : ℕ) (db db' : Db)
    → find_where (triggered_by e.trigger_event_key) db.jobs ≡ none
    → insert_job e w now db ≡ ok db'
    → e'.trigger_event_key ≡ e.trigger_event_key
    → find_where (triggered_by e'.trigger_event_key) db'.jobs ≡ some (queued_job e w now)
unfolding insert_job find_where
found_again e e' w now db db' free h same = rw ((insert_job-jobs e w now db db' h).0) (
    rw same (
      find-append_none (triggered_by e.trigger_event_key) db.jobs (queued_job e w now ∷ []) free
      ∙ rw (str_eq_refl e.trigger_event_key)))

-- The job of a trigger event that a call has given.
abbrev pub Stored : JobEnvelope → String → Db → Type 0
Stored e id db =
    (j : Job) × (find_where (triggered_by e.trigger_event_key) db.jobs ≡ some j) × (j.job_id ≡ id)

enqueue_new-Stored :
    (e e' : JobEnvelope) (now : ℕ) (db : Db) (id : String) (db' : Db)
    → e'.trigger_event_key ≡ e.trigger_event_key
    → find_where (triggered_by e.trigger_event_key) db.jobs ≡ none
    → enqueue_new e now db ≡ ok (id, db')
    → Stored e' id db'
unfolding enqueue_new queued_job
enqueue_new-Stored e e' now db id db' same free h =
    let (owner, owned, h') = first_returned (job_owner e db) _ h in
    let (d, inserted, r) = first_returned (insert_job e owner.0 now db) _ h' in
    let last : d ≡ db' = ground (arith, r) in
    (
      queued_job e owner.0 now,
      subst
          (λ (x : Db).
            find_where (triggered_by e'.trigger_event_key) x.jobs ≡ some (queued_job e owner.0 now))
          last (found_again e e' owner.0 now db d free inserted same),
      ground (arith, r),
    )

enqueue_body-Stored :
    (e e' : JobEnvelope) (now : ℕ) (db : Db) (id : String) (db' : Db)
    → e'.trigger_event_key ≡ e.trigger_event_key
    → enqueue_body e now db ≡ ok (id, db')
    → Stored e' id db'
unfolding enqueue_body
enqueue_body-Stored e e' now db id db' same h =
    elim (Option-cases (find_where (triggered_by e.trigger_event_key) db.jobs)) [
      | inr (j, there) ↦
          let r : ok (j.job_id, db) ≡ ok (id, db') = rw (there, enqueue_body) at h in
          (j, rw same (ground (arith, r, there)), ground (arith, r))
      | inl free ↦ enqueue_new-Stored e e' now db id db' same free (rw (free, enqueue_body) at h)
    ]

-- A job that was enqueued, or was there, is not enqueued again by an envelope of the same trigger
-- event: the call gives its id and changes nothing.
pub enqueue_job_again :
    (e e' : JobEnvelope) (now later : ℕ) (db : Db) (id : String) (db' : Db)
    → enqueue_job e now db ≡ (ok id, db')
    → e'.trigger_event_key ≡ e.trigger_event_key
    → enqueue_job e' later db' ≡ (ok id, db')
unfolding enqueue_job enqueue_body
enqueue_job_again e e' now later db id db' h same =
    let (j, there, is_id) =
      enqueue_body-Stored e e' now db id db' same
        (transaction-ok (enqueue_body e now) db id db' h) in
    ok-transaction (enqueue_body e' later) db' id db'
      (rw (there, enqueue_body) (ground (arith, is_id)))

-- What a new dispatch has written: the receipt first, which leaves the jobs, and then the job.
abbrev Dispatched : JobEnvelope → ℕ → Db → String × Bool → Db → Type 0
Dispatched e now db r db' =
    (w : String) × (mid : Db) × (mid.jobs ≡ db.jobs)
    × (insert_job e w now mid ≡ ok db')
    × (r ≡ (e.job_id, true))

dispatch_new-Dispatched :
    (e : JobEnvelope) (kind actor : String) (payload : Dict) (now : ℕ) (db : Db) (r : String × Bool)
    (db' : Db)
    → dispatch_new e kind actor payload now db ≡ ok (r, db')
    → Dispatched e now db r db'
unfolding dispatch_new
dispatch_new-Dispatched e kind actor payload now db r db' h =
    let (owner, owned, h') = first_returned (job_owner e db) _ h in
    let (receipt, received, h'') = first_returned (insert_receipt _ db) _ h' in
    let (d, inserted, last) =
      first_returned (insert_job e owner.0 now receipt.1) _
        (guard_passed (not receipt.0) _ _ h'') in
    (
      owner.0,
      receipt.1,
      insert_receipt-jobs _ db receipt.0 receipt.1 received,
      subst (λ (x : Db). insert_job e owner.0 now receipt.1 ≡ ok x) (ground (arith, last)) inserted,
      ground (arith, last),
    )

pub dispatch_body-Stored :
    (e e' : JobEnvelope) (kind actor : String) (payload : Dict) (now : ℕ) (db : Db) (id : String)
    (b : Bool) (db' : Db)
    → e'.trigger_event_key ≡ e.trigger_event_key
    → dispatch_body e kind actor payload now db ≡ ok ((id, b), db')
    → Stored e' id db'
unfolding dispatch_body queued_job
dispatch_body-Stored e e' kind actor payload now db id b db' same h =
    elim (Option-cases (find_where (triggered_by e.trigger_event_key) db.jobs)) [
      | inr (j, there) ↦
          let r : ok ((j.job_id, false), db) ≡ ok ((id, b), db') = rw (there, dispatch_body) at h in
          (j, rw same (ground (arith, r, there)), ground (arith, r))
      | inl free ↦
          let (w, mid, jobs, inserted, last) =
            dispatch_new-Dispatched e kind actor payload now db (id, b) db'
              (rw (free, dispatch_body) at h) in
          (
            queued_job e w now,
            found_again e e' w now mid db' (rw jobs free) inserted same,
            ground (arith, last),
          )
    ]

-- A trigger event that was dispatched, now or before, is not dispatched again: the call gives the
-- id of its job with False, and changes nothing.
pub record_dispatch_event_again :
    (e e' : JobEnvelope) (kind actor : String) (payload payload' : Dict) (now later : ℕ) (db : Db)
    (id : String) (b : Bool) (db' : Db)
    → record_dispatch_event e kind actor payload now db ≡ (ok (id, b), db')
    → e'.trigger_event_key ≡ e.trigger_event_key
    → record_dispatch_event e' kind actor payload' later db' ≡ (ok (id, false), db')
unfolding record_dispatch_event dispatch_body
record_dispatch_event_again e e' kind actor payload payload' now later db id b db' h same =
    let (j, there, is_id) =
      dispatch_body-Stored e e' kind actor payload now db id b db' same
        (transaction-ok (dispatch_body e kind actor payload now) db (id, b) db' h) in
    ok-transaction (dispatch_body e' kind actor payload' later) db' (id, false) db'
      (rw (there, dispatch_body) (ground (arith, is_id)))
