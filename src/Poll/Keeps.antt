-- ===== src/Poll/Keeps.antt =====
-- What stays when the cycle calls the store and the dispatcher: jobs, receipts, and how far the
-- projects were polled.
use eastwatch.Prelude.{
  ℕ, Bool, true, Option, none, some, String, List, [], ◌∷◌, ◌++◌, is_some, ok, err, Error, ◌>>=◌,
  not, str_eq, ◌&&◌, ◌||◌, ◌≡◌, refl, ap, subst, inl, inr, arith, Option-cases, Bool-cases,
}
use eastwatch.Table.{find_where, has_where, update_where}
use eastwatch.Table.Finds.{find-update, find-append_some, has-append_left}
use eastwatch.Schema.{Db, Project, Receipt, Job, Notice, Status}
use eastwatch.Transaction.{
  transaction_rule, After, After-if, After-bind, insert_receipt, insert_notice,
}
use eastwatch.Store.Events.{
  triggered_by, insert_job, queued_job, record_dispatch_event, dispatch_body, dispatch_new,
  job_owner, keyed,
}
use eastwatch.Models.{JobEnvelope}
use eastwatch.Dispatch.Requests.{project_keyed, project_clash, new_project, upsert_project}

abbrev pub cursor_of : Option Project → Option ℕ
cursor_of none = none
cursor_of (some p) = some p.last_event_id

-- `last_event_id` of a project
abbrev pub last_event : String → Db → Option ℕ
last_event key db = cursor_of (find_where (project_keyed key) db.projects)

abbrev pub Keeps : Db → Db → Type 0
Keeps db db' =
    ((event : String)
      → is_some (find_where (triggered_by event) db.jobs) ≡ true
      → is_some (find_where (triggered_by event) db'.jobs) ≡ true)
    × ((p : Receipt → Bool) → has_where p db.receipts ≡ true → has_where p db'.receipts ≡ true)
    × ((key : String) (n : ℕ) → last_event key db ≡ some n → last_event key db' ≡ some n)

pub Keeps-refl : (db : Db) → Keeps db db
Keeps-refl db = (λ e h. h, λ p h. h, λ k n h. h)

pub Keeps-trans : (db db' db'' : Db) → Keeps db db' → Keeps db' db'' → Keeps db db''
Keeps-trans db db' db'' f g =
    (λ e h. g.0 e (f.0 e h), λ p h. g.1 p (f.1 p h), λ k n h. g.2 k n (f.2 k n h))

-- Nothing of it is touched.
pub Keeps-same :
    (db db' : Db)
    → db'.jobs ≡ db.jobs
    → db'.receipts ≡ db.receipts
    → db'.projects ≡ db.projects
    → Keeps db db'
Keeps-same db db' j r p = (λ e h. rw j h, λ q h. rw r h, λ k n h. rw p h)

Keeps-receipt : (r : Receipt) (db : Db) → Keeps db (record db { receipts = db.receipts ++ r ∷ [] })
Keeps-receipt r db = (λ e x. x, λ p x. has-append_left p db.receipts (r ∷ []) x, λ k n x. x)

pub insert_receipt-Keeps :
    (r : Receipt) (db : Db) (b : Bool) (db' : Db) → insert_receipt r db ≡ ok (b, db') → Keeps db db'
unfolding insert_receipt
insert_receipt-Keeps r db b db' h =
    elim (Bool-cases (
      has_where
        (λ (x : Receipt). str_eq x.project_key r.project_key && str_eq x.event_key r.event_key)
        db.receipts)) [
          | inl old ↦
              let e : db ≡ db' = ground (arith, h, old) in subst (Keeps db) e (Keeps-refl db)
          | inr new ↦
              let e : record db { receipts = db.receipts ++ r ∷ [] } ≡ db' =
                ground (arith, h, new) in
              subst (Keeps db) e (Keeps-receipt r db)
        ]

pub insert_notice-Keeps : (n : Notice) (now : ℕ) (db : Db) → Keeps db (insert_notice n now db)
unfolding insert_notice
insert_notice-Keeps n now db =
    Keeps-same db (insert_notice n now db) (ground arith) (ground arith) (ground arith)

-- An UPDATE of the projects that leaves their keys and cursors alone.
cursors-update :
    (p : Project → Bool) (f : Project → Project)
    → ((x : Project) → (f x).project_key ≡ x.project_key)
    → ((x : Project) → (f x).last_event_id ≡ x.last_event_id)
    → (rows : List Project) (key : String) (n : ℕ)
    → cursor_of (find_where (project_keyed key) rows) ≡ some n
    → cursor_of (find_where (project_keyed key) (update_where p f rows)) ≡ some n
cursors-update p f keys ids rows key n h =
    elim (Option-cases (find_where (project_keyed key) rows)) [
      | inl e ↦ absurd (ground (arith, h, e))
      | inr (r, e) ↦
          rw (find-update (project_keyed key) p f (λ x. ap (λ k. str_eq k key) (keys x)) rows r e)
            (ground (arith, h, e, ids r))
    ]

cursors-append :
    (rows more : List Project) (key : String) (n : ℕ)
    → cursor_of (find_where (project_keyed key) rows) ≡ some n
    → cursor_of (find_where (project_keyed key) (rows ++ more)) ≡ some n
cursors-append rows more key n h = elim (Option-cases (find_where (project_keyed key) rows)) [
  | inl e ↦ absurd (ground (arith, h, e))
  | inr (r, e) ↦ rw (find-append_some (project_keyed key) rows more r e) (ground (arith, h, e))
]

pub upsert_project-Keeps :
    (key host path : String) (id : ℕ) (db db' : Db)
    → upsert_project key host path id db ≡ ok db'
    → Keeps db db'
unfolding upsert_project
upsert_project-Keeps key host path id db db' h =
    elim (Bool-cases (has_where (project_clash key host path) db.projects)) [
      | inl clash ↦ absurd (ground (arith, h, clash))
      | inr free ↦ elim (Bool-cases (has_where (project_keyed key) db.projects)) [
        | inl known ↦
            let e : record db {
              projects =
                  update_where (project_keyed key)
                    (λ p. record p { project_id = id; host = host; project_path = path })
                    db.projects;
            }
                ≡ db' =
              ground (arith, h, free, known) in
            subst (Keeps db) e (
              λ e x. x,
              λ p x. x,
              λ k n x.
                  cursors-update (project_keyed key)
                    (λ p. record p { project_id = id; host = host; project_path = path })
                    (λ p. refl) (λ p. refl) db.projects k n x,
            )
        | inr new ↦
            let e : record db { projects = db.projects ++ new_project key host path id ∷ [] }
                ≡ db' =
              ground (arith, h, free, new) in
            subst (Keeps db) e (
              λ e x. x,
              λ p x. x,
              λ k n x. cursors-append db.projects (new_project key host path id ∷ []) k n x,
            )
      ]
    ]

is_some-append :
    (p : Job → Bool) (xs ys : List Job)
    → is_some (find_where p xs) ≡ true
    → is_some (find_where p (xs ++ ys)) ≡ true
is_some-append p xs ys h = elim (Option-cases (find_where p xs)) [
  | inl e ↦ absurd (ground (arith, h, e))
  | inr (r, e) ↦ rw (find-append_some p xs ys r e)
]

insert_job-Keeps :
    (e : JobEnvelope) (w : String) (now : ℕ) (db db' : Db)
    → insert_job e w now db ≡ ok db'
    → Keeps db db'
unfolding insert_job
insert_job-Keeps e w now db db' h =
    elim (Bool-cases (
      has_where
        (λ (j : Job). str_eq j.job_id e.job_id || str_eq j.trigger_event_key e.trigger_event_key)
        db.jobs)) [
          | inl clash ↦ absurd (ground (arith, h, clash))
          | inr free ↦
              let same : record db {
                jobs = db.jobs ++ queued_job e w now ∷ [];
                conversations =
                    update_where (keyed e.conversation_key)
                      (λ c. record c {
                        current_job_id = some e.job_id;
                        status = Status.queued;
                        updated_at = now;
                      })
                      db.conversations;
              }
                  ≡ db' =
                ground (arith, h, free) in
              subst (Keeps db) same (
                λ k x. is_some-append (triggered_by k) db.jobs (queued_job e w now ∷ []) x,
                λ p x. x,
                λ k n x. x,
              )
        ]

dispatch_new-Keeps :
    (e : JobEnvelope) (kind actor : String) (payload : List (String × String)) (now : ℕ) (db : Db)
    → After (Keeps db) (dispatch_new e kind actor payload now db)
unfolding dispatch_new
dispatch_new-Keeps e kind actor payload now db = After-bind (Keeps db) (job_owner e db) _ λ owner f.
    After-bind (Keeps db) (insert_receipt _ db) _ λ w g.
      After-if {A = String × Bool} (Keeps db) (not w.0) (err Error.runtime)
        (insert_job e owner.0 now w.1 >>= λ db''. ok ((e.job_id, true), db'')) (λ h. tt)
        λ h. After-bind (Keeps db) (insert_job e owner.0 now w.1) _ λ db'' k.
          Keeps-trans db w.1 db'' (insert_receipt-Keeps _ db w.0 w.1 g)
            (insert_job-Keeps e owner.0 now w.1 db'' k)

pub record_dispatch_event-Keeps :
    (e : JobEnvelope) (kind actor : String) (payload : List (String × String)) (now : ℕ) (db : Db)
    → Keeps db (record_dispatch_event e kind actor payload now db).1
unfolding record_dispatch_event dispatch_body
record_dispatch_event-Keeps e kind actor payload now db =
    transaction_rule (Keeps db) (dispatch_body e kind actor payload now) db (Keeps-refl db)
      (elim (Option-cases (find_where (triggered_by e.trigger_event_key) db.jobs)) [
        | inl f ↦ rw (f, After, dispatch_body) (dispatch_new-Keeps e kind actor payload now db)
        | inr (j, f) ↦ rw (f, After, dispatch_body) (Keeps-refl db)
      ])
