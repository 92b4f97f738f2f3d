-- ===== src/Poll/Answers.antt =====
-- What the loop over the comments leaves of each.
use eastwatch.Prelude.{
  ℕ, ◌-◌, true, false, Option, none, some, String, List, text_append, Result, ok, err, Error, ◌>>=◌,
  ltb, ◌≡◌, refl, ap, subst, inl, inr, arith, is_some, Option-cases, Bool-cases,
}
use eastwatch.Schema.{Db}
use eastwatch.Dispatch.Requests.{project_key, durable_event_key, consumed_event}
use eastwatch.Poll.{PolledRequest, Issue, mr, issue, GitLab, ProjectConfig, Moment}
use eastwatch.Poll.Threads.{fetch_mr, fetch_issue, find_note_discussion_id}
use eastwatch.Poll.Markers.{parse_mr_marker}
use eastwatch.Poll.Listings.{Comment}
use eastwatch.Poll.Candidates.{hosted_candidate}
use eastwatch.Poll.Decisions.{
  Decision, ignore, skip, start, mr_candidate, issue_candidate, asked_about, mapped_mention,
  asked_on_mr, mr_mention, asked_on_issue, issue_mention, decide,
}
use eastwatch.Poll.Sequence.{onward}
use eastwatch.Poll.Comments.{
  config_key, event_key, next, give_up_seconds, dispatch_in, record_skip, perform, settle_decision,
  handle_comment,
}
use eastwatch.Poll.Keeps.{Keeps, Keeps-refl}
use eastwatch.Poll.Dispatches.{is_done, skip_done, skip-Keeps, dispatch-Keeps, dispatch_done}

-- What a call gives satisfies P, if it returns.
abbrev pub Gives : {A : Type 0} → (A → Type 0) → Result A → Type 0
Gives P (ok a) = P a
Gives P (err e) = Unit

Gives-then :
    {A B : Type 0} (P : B → Type 0) (r : Result A) (f : A → Result B)
    → ((a : A) → Gives P (f a))
    → Gives P (r >>= f)
Gives-then P (ok a) f h = h a
Gives-then P (err e) f h = tt

module _ (proj : ProjectConfig) (c : Comment) where
  -- The decision is to write down something of the comment, under its own key.
  abbrev pub Definite : Decision → Type 0
  Definite ignore = false ≡ true
  Definite (skip reason) = Unit
  Definite (start k) =
      (project_key k ≡ config_key proj)
      × (durable_event_key k ≡ event_key proj "comment" c.event_id)

  module _ (gl : GitLab) (question : String) where
    asked_about-Definite :
        (m : PolledRequest) (mapped : ℕ) (found : Option Issue)
        → Gives Definite (asked_about gl proj c m question mapped found)
    unfolding hosted_candidate
    asked_about-Definite m mapped none = tt
    asked_about-Definite m mapped (some i) =
        Gives-then Definite (find_note_discussion_id gl proj mr c.noteable_iid c.note_id)
          (λ id. ok (start (mr_candidate gl proj c m i (some question) id))) (λ id. (refl, refl))

    mapped_mention-Definite :
        (m : PolledRequest) (mapped : Option ℕ)
        → Gives Definite (mapped_mention gl proj c m question mapped)
    mapped_mention-Definite m none = tt
    mapped_mention-Definite m (some mapped) =
        Gives-then Definite (fetch_issue gl proj mapped) (asked_about gl proj c m question mapped)
          (asked_about-Definite m mapped)

    asked_on_mr-Definite :
        (found : Option PolledRequest) → Gives Definite (asked_on_mr gl proj c question found)
    unfolding asked_on_mr
    asked_on_mr-Definite none = tt
    asked_on_mr-Definite (some m) = mapped_mention-Definite m (parse_mr_marker m.description proj)

    asked_on_issue-Definite :
        (found : Option Issue) → Gives Definite (asked_on_issue gl proj c question found)
    unfolding asked_on_issue hosted_candidate
    asked_on_issue-Definite none = tt
    asked_on_issue-Definite (some i) =
        Gives-then Definite (find_note_discussion_id gl proj issue c.noteable_iid c.note_id)
          (λ id. ok (start (issue_candidate gl proj c i question id))) (λ id. (refl, refl))

    decide-Definite : c.question ≡ some question → Gives Definite (decide gl proj c)
    unfolding decide mr_mention issue_mention
    decide-Definite q = elim (Bool-cases c.on_mr) [
      | inl on ↦
          rw (q, on)
            (Gives-then Definite (fetch_mr gl proj c.noteable_iid) (asked_on_mr gl proj c question)
              asked_on_mr-Definite)
      | inr off ↦
          rw (q, off)
            (Gives-then Definite (fetch_issue gl proj c.noteable_iid)
              (asked_on_issue gl proj c question) asked_on_issue-Definite)
    ]

-- A call and what its caller makes of a value: the state stays the one of the call.
onward-state :
    {A B : Type 0} (P : Db → Type 0) (r : Result A × Db) (b : B)
    → P r.1
    → P (onward r (λ a d. (ok b, d))).1
onward-state P (ok a, db) b h = h
onward-state P (err e, db) b h = h

onward-ok :
    {A : Type 0} (r : Result A × Db) (db' : Db)
    → onward r (λ a d. (ok next, d)) ≡ (ok next, db')
    → (a : A) × (r ≡ (ok a, db'))
onward-ok (ok a, db) db' h = (a, ground (arith, h))
onward-ok (err e, db) db' h = absurd (ground (arith, h))

module _ (text_repr : String → String) (admins approved_bots : List String) (token : String)
    (proj : ProjectConfig) where
  skipped-Keeps :
      (m : Moment) (c : Comment) (reason : String) (db : Db)
      → Keeps db
          (onward
            (record_skip text_repr admins approved_bots token proj m c reason db)
            (λ t d. (ok next, d))).1
  skipped-Keeps m c reason db =
      onward-state (Keeps db) (record_skip text_repr admins approved_bots token proj m c reason db)
        next
        (skip-Keeps (config_key proj) proj.host proj.path proj.project_id
          (event_key proj "comment" c.event_id) "comment" c.actor_username reason m.written_at db)

  settle_decision-Keeps :
      (m : Moment) (c : Comment) (r : Result Decision) (db : Db)
      → Keeps db (settle_decision text_repr admins approved_bots token proj m c r db).1
  unfolding settle_decision perform
  settle_decision-Keeps m c (ok ignore) db = Keeps-refl db
  settle_decision-Keeps m c (ok (skip reason)) db = skipped-Keeps m c reason db
  settle_decision-Keeps m c (ok (start k)) db =
      onward-state (Keeps db) (dispatch_in text_repr admins approved_bots m k db) next
        (dispatch-Keeps text_repr admins approved_bots m.job_id k m.clock db)
  settle_decision-Keeps m c (err (Error.transient e)) db =
      elim (Bool-cases (ltb (m.now - c.created_at) give_up_seconds)) [
        | inl young ↦ rw young (Keeps-refl db)
        | inr old ↦
            rw old
              (skipped-Keeps m c (text_append "giving up after repeated transient failures: " e) db)
      ]
  settle_decision-Keeps m c (err Error.stale_lease) db = Keeps-refl db
  settle_decision-Keeps m c (err Error.ownership) db = Keeps-refl db
  settle_decision-Keeps m c (err Error.unknown_workspace) db = Keeps-refl db
  settle_decision-Keeps m c (err Error.runtime) db = Keeps-refl db
  settle_decision-Keeps m c (err Error.integrity) db = Keeps-refl db
  settle_decision-Keeps m c (err Error.configuration) db = Keeps-refl db

  pub handle_comment-Keeps :
      (m : Moment) (c : Comment) (db : Db)
      → Keeps db (handle_comment text_repr admins approved_bots token proj m c db).1
  unfolding handle_comment
  handle_comment-Keeps m c db =
      elim (Option-cases
        (consumed_event (config_key proj) (event_key proj "comment" c.event_id) db)) [
          | inr (a, e) ↦ rw (e, handle_comment) (Keeps-refl db)
          | inl e ↦
              rw (e, handle_comment)
                (settle_decision-Keeps m c (decide (m.connect proj.host token) proj c) db)
        ]

  skipped_done :
      (m : Moment) (c : Comment) (reason : String) (db db' : Db)
      → onward
          (record_skip text_repr admins approved_bots token proj m c reason db)
          (λ t d. (ok next, d))
        ≡ (ok next, db')
      → is_done (config_key proj) (event_key proj "comment" c.event_id) db' ≡ true
  skipped_done m c reason db db' h =
      let (t, e) =
        onward-ok (record_skip text_repr admins approved_bots token proj m c reason db) db' h in
      skip_done (config_key proj) proj.host proj.path proj.project_id
        (event_key proj "comment" c.event_id) "comment" c.actor_username reason m.written_at db t
        db' e

  settled_done :
      (m : Moment) (c : Comment) (r : Result Decision) (db db' : Db)
      → Gives (Definite proj c) r
      → settle_decision text_repr admins approved_bots token proj m c r db ≡ (ok next, db')
      → is_done (config_key proj) (event_key proj "comment" c.event_id) db' ≡ true
  unfolding settle_decision perform
  settled_done m c (ok ignore) db db' d h = absurd (ground (arith, d))
  settled_done m c (ok (skip reason)) db db' d h = skipped_done m c reason db db' h
  settled_done m c (ok (start k)) db db' d h =
      let (a, e) = onward-ok (dispatch_in text_repr admins approved_bots m k db) db' h in
      rw d.0 at
        (rw d.1 at (dispatch_done text_repr admins approved_bots m.job_id k m.clock db a db' e))
  settled_done m c (err (Error.transient e)) db db' d h =
      elim (Bool-cases (ltb (m.now - c.created_at) give_up_seconds)) [
        | inl young ↦ absurd (ground (arith, h, young))
        | inr old ↦
            skipped_done m c (text_append "giving up after repeated transient failures: " e) db db'
              (rw old at h)
      ]
  settled_done m c (err Error.stale_lease) db db' d h = absurd (ground (arith, h))
  settled_done m c (err Error.ownership) db db' d h = absurd (ground (arith, h))
  settled_done m c (err Error.unknown_workspace) db db' d h = absurd (ground (arith, h))
  settled_done m c (err Error.runtime) db db' d h = absurd (ground (arith, h))
  settled_done m c (err Error.integrity) db db' d h = absurd (ground (arith, h))
  settled_done m c (err Error.configuration) db db' d h = absurd (ground (arith, h))

  pub handled_done :
      (m : Moment) (c : Comment) (db db' : Db) (question : String)
      → c.question ≡ some question
      → handle_comment text_repr admins approved_bots token proj m c db ≡ (ok next, db')
      → is_done (config_key proj) (event_key proj "comment" c.event_id) db' ≡ true
  unfolding handle_comment
  handled_done m c db db' question q h =
      elim (Option-cases
        (consumed_event (config_key proj) (event_key proj "comment" c.event_id) db)) [
          | inr (a, e) ↦
              let h' = rw (e, handle_comment) at h in
              let same : db ≡ db' = ground (arith, h') in
              subst (λ d. is_done (config_key proj) (event_key proj "comment" c.event_id) d ≡ true)
                same (ap is_some e)
          | inl e ↦
              settled_done m c (decide (m.connect proj.host token) proj c) db db'
                (decide-Definite proj c (m.connect proj.host token) question q)
                (rw (e, handle_comment) at h)
        ]
