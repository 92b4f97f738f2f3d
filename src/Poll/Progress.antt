-- ===== src/Poll/Progress.antt =====
-- The parts of the cycle around the loop over the comments: what they keep, and the cursor.
use eastwatch.Prelude.{
  ℕ, Bool, Option, none, some, String, List, [], ◌∷◌, Result, ok, err, Error, ◌≡◌, refl, ap, inl,
  inr, arith, Option-cases, Bool-cases, str_eq, or_default, decimal, text_append,
}
use eastwatch.Table.{length, find_where, has_where}
use eastwatch.Table.Finds.{find-update}
use eastwatch.Table.Every.{find-holds}
use eastwatch.Schema.{Db, Project, Conversation, Pending}
use eastwatch.Transaction.{Method, transaction}
use eastwatch.Store.Events.{clear_pending}
use eastwatch.Dispatch.Requests.{project_keyed, project_clash, consumed_event}
use eastwatch.Poll.{Issue, ProjectConfig, Moment}
use eastwatch.Poll.Mentions.{is_open}
use eastwatch.Poll.Threads.{fetch_issue}
use eastwatch.Poll.Listings.{LabelFire}
use eastwatch.Poll.Candidates.{hosted_candidate}
use eastwatch.Poll.Comments.{config_key, event_key, dispatch_in}
use eastwatch.Poll.Sequence.{onward, each}
use eastwatch.Poll.Projects.{
  Surroundings, with_project, register_project, update_project, all_messages, is_drained,
  last_entry,
}
use eastwatch.Poll.Cycle.{handle_fire, send_queue, drain_found, drain_entries, drain_queue}
use eastwatch.Poll.Keeps.{Keeps, Keeps-refl, Keeps-trans, Keeps-same, last_event}
use eastwatch.Poll.Dispatches.{dispatch-Keeps}

-- Two calls of which both returned.
pub both_returned :
    {A B : Type 0} (r : Result A × Db) (f : A → Method B) (b : B) (db' : Db)
    → onward r f ≡ (ok b, db')
    → (a : A) × (d : Db) × (r ≡ (ok a, d)) × (f a d ≡ (ok b, db'))
both_returned (ok a, d) f b db' h = (a, d, refl, h)
both_returned (err e, d) f b db' h = absurd (ground (arith, h))

onward-Keeps :
    {A B : Type 0} (db : Db) (r : Result A × Db) (f : A → Method B)
    → Keeps db r.1
    → ((a : A) (d : Db) → Keeps d (f a d).1)
    → Keeps db (onward r f).1
onward-Keeps db (ok a, d) f k h = Keeps-trans db d (f a d).1 k (h a d)
onward-Keeps db (err e, d) f k h = k

pub each-Keeps :
    {A : Type 0} (f : A → Method (Unit {0}))
    → ((a : A) (d : Db) → Keeps d (f a d).1)
    → (xs : List A) (db : Db) → Keeps db (each f xs db).1
each-Keeps f h [] db = Keeps-refl db
each-Keeps f h (x ∷ xs) db =
    onward-Keeps db (f x db) (λ t. each f xs) (h x db) (λ t d. each-Keeps f h xs d)

clear_pending-Keeps : (key : String) (n now : ℕ) (db : Db) → Keeps db (clear_pending key n now db).1
unfolding clear_pending transaction
clear_pending-Keeps key n now db = Keeps-same db (clear_pending key n now db).1 refl refl refl

module _ (text_repr : String → String) (admins approved_bots : List String) (token : String)
    (proj : ProjectConfig) where
  pub handle_fire-Keeps :
      (around : Surroundings) (fire : LabelFire) (db : Db)
      → Keeps db (handle_fire text_repr admins approved_bots token around proj fire db).1
  unfolding handle_fire
  handle_fire-Keeps around fire db =
      elim (Option-cases
        (consumed_event (config_key proj) (event_key proj "label" fire.event_id) db)) [
          | inr (a, e) ↦ rw (e, handle_fire) (Keeps-refl db)
          | inl e ↦
              let m = around.at_label fire.event_id in
              let c =
                hosted_candidate (m.connect proj.host token) proj fire.issue (decimal fire.event_id)
                  "label" fire.actor_username fire.label []
                  (or_default fire.issue.description "" ∷ []) none fire.actor_user_id in
              rw (e, handle_fire)
                (onward-Keeps db (dispatch_in text_repr admins approved_bots m c db)
                  (λ a d. (ok tt, d))
                  (dispatch-Keeps text_repr admins approved_bots m.job_id c m.clock db)
                  (λ a d. Keeps-refl d))
        ]

  send_queue-Keeps :
      (m : Moment) (row : Conversation) (entries : List Pending) (last : Pending) (i : Issue)
      (db : Db)
      → Keeps db (send_queue text_repr admins approved_bots token m proj row entries last i db).1
  unfolding send_queue
  send_queue-Keeps m row entries last i db =
      let c =
        hosted_candidate (m.connect proj.host token) proj i (text_append "pending:" last.event_key)
          "comment" last.actor_username "qa" (all_messages entries)
          (or_default i.description "" ∷ []) last.reply_target last.actor_user_id in
      onward-Keeps db (dispatch_in text_repr admins approved_bots m c db) _
        (dispatch-Keeps text_repr admins approved_bots m.job_id c m.clock db)
        (λ a d. elim (Bool-cases (is_drained a)) [
          | inl through ↦
              rw through (clear_pending-Keeps row.conversation_key (length entries) m.written_at d)
          | inr waits ↦ rw waits (Keeps-refl d)
        ])

  drain_found-Keeps :
      (m : Moment) (row : Conversation) (e : Pending) (es : List Pending)
      (found : Result (Option Issue)) (db : Db)
      → Keeps db (drain_found text_repr admins approved_bots token m proj row e es found db).1
  unfolding drain_found
  drain_found-Keeps m row e es (ok none) db =
      clear_pending-Keeps row.conversation_key (length (e ∷ es)) m.written_at db
  drain_found-Keeps m row e es (ok (some i)) db = elim (Bool-cases (is_open i.state)) [
    | inl opened ↦ rw opened (send_queue-Keeps m row (e ∷ es) (last_entry e es) i db)
    | inr closed ↦
        rw closed (clear_pending-Keeps row.conversation_key (length (e ∷ es)) m.written_at db)
  ]
  drain_found-Keeps m row e es (err (Error.transient x)) db = Keeps-refl db
  drain_found-Keeps m row e es (err Error.stale_lease) db = Keeps-refl db
  drain_found-Keeps m row e es (err Error.ownership) db = Keeps-refl db
  drain_found-Keeps m row e es (err Error.unknown_workspace) db = Keeps-refl db
  drain_found-Keeps m row e es (err Error.runtime) db = Keeps-refl db
  drain_found-Keeps m row e es (err Error.integrity) db = Keeps-refl db
  drain_found-Keeps m row e es (err Error.configuration) db = Keeps-refl db

  drain_entries-Keeps :
      (m : Moment) (row : Conversation) (entries : List Pending) (db : Db)
      → Keeps db (drain_entries text_repr admins approved_bots token m proj row entries db).1
  unfolding drain_entries
  drain_entries-Keeps m row [] db = Keeps-refl db
  drain_entries-Keeps m row (e ∷ es) db =
      drain_found-Keeps m row e es (fetch_issue (m.connect proj.host token) proj row.issue_iid) db

  pub drain_queue-Keeps :
      (around : Surroundings) (row : Conversation) (db : Db)
      → Keeps db (drain_queue text_repr admins approved_bots token around proj row db).1
  unfolding drain_queue
  drain_queue-Keeps around row db =
      drain_entries-Keeps (around.at_queue row.issue_iid) row row.pending db

-- An UPDATE of the projects leaves jobs and receipts alone, and sets the cursor of its project.
pub update_project-cursor :
    (proj : ProjectConfig) (f : Project → Project) (cursor n : ℕ) (db : Db)
    → ((p : Project) → (f p).project_key ≡ p.project_key)
    → ((p : Project) → (f p).last_event_id ≡ cursor)
    → last_event (config_key proj) db ≡ some n
    → last_event (config_key proj) (update_project proj f db).1 ≡ some cursor
unfolding update_project transaction
update_project-cursor proj f cursor n db keys sets h =
    elim (Option-cases (find_where (project_keyed (config_key proj)) db.projects)) [
      | inl e ↦ absurd (ground (arith, h, e))
      | inr (p, e) ↦
          rw
            (find-update (project_keyed (config_key proj)) (project_keyed (config_key proj)) f
              (λ x. ap (λ k. str_eq k (config_key proj)) (keys x)) db.projects p e)
            (ground (arith, sets p, find-holds (project_keyed (config_key proj)) db.projects p e))
    ]

-- Behind the first transaction the project has the cursor that the transaction read.
pub register_project-cursor :
    (proj : ProjectConfig) (db : Db) (after : ℕ) (known : Bool) (db' : Db)
    → register_project proj db ≡ (ok (after, known), db')
    → last_event (config_key proj) db' ≡ some after
unfolding register_project transaction
register_project-cursor proj db after known db' h =
    elim (Bool-cases
      (has_where (project_clash (config_key proj) proj.host proj.path) db.projects)) [
        | inl clash ↦ absurd (ground (arith, h, clash))
        | inr free ↦
            elim (Option-cases
              (find_where (project_keyed (config_key proj)) (with_project proj db.projects))) [
                | inl e ↦ absurd (ground (arith, h, free, e))
                | inr (p, e) ↦ ground (arith, h, free, e)
              ]
      ]
