-- ===== src/Poll/Laws.antt =====
-- The whole cycle of one project: what becomes of the questions that it finds.
use eastwatch.Prelude.{
  ℕ, true, Option, some, String, List, ok, column_eq, ◌≡◌, refl, ap, subst, inl, inr, arith,
  Bool-cases, Result-cases,
}
use eastwatch.Table.{select_where, sort_by}
use eastwatch.Table.Every.{All, All-map}
use eastwatch.Schema.{Db}
use eastwatch.Store.Events.{pending_conversations}
use eastwatch.Retention.{ProjectTokens, token_for_project}
use eastwatch.Poll.{NoteEvent, answered, ProjectConfig}
use eastwatch.Poll.Listings.{
  LabelFire, event_le, newest_id, is_relevant, comments_of, hosted_comment_events,
}
use eastwatch.Poll.Comments.{config_key, handle_comments}
use eastwatch.Poll.Sequence.{onward, each}
use eastwatch.Poll.Projects.{
  Surroundings, register_project, update_project, move_cursor, has_trigger, label_fires,
  trigger_labels, next_cursor,
}
use eastwatch.Poll.Cycle.{handle_fire, poll_comments, drain_queues, poll_known, poll_project}
use eastwatch.Poll.Safety.{asks, Safe, later-Safe, moved-Safe}
use eastwatch.Poll.Keeps.{Keeps, last_event}
use eastwatch.Poll.Order.{loop-Keeps, loop-Answered, listed-Ascending}
use eastwatch.Poll.Progress.{
  both_returned, each-Keeps, handle_fire-Keeps, drain_queue-Keeps, update_project-cursor,
  register_project-cursor,
}

module _ (text_repr : String → String) (admins approved_bots : List String)
    (from_iso : String → Option ℕ) (tokens : ProjectTokens) (around : Surroundings)
    (proj : ProjectConfig) where
  poll_comments-Safe :
      (token : String) (after now cursor n : ℕ) (events : List NoteEvent) (db db' : Db)
      (t : Unit {0})
      → has_trigger proj "mention" ≡ true
      → last_event (config_key proj) db ≡ some n
      → poll_comments text_repr admins approved_bots from_iso tokens around token proj
          (comments_of from_iso now
            (select_where (is_relevant proj after) (sort_by event_le events)))
          cursor
          db
        ≡ (ok t, db')
      → (m : ℕ) × (last_event (config_key proj) db' ≡ some m)
        × All (Safe proj m db') (select_where (asks proj after) events)
  unfolding poll_comments
  poll_comments-Safe token after now cursor n events db db' t mention known h =
      let comments =
        comments_of from_iso now
          (select_where (is_relevant proj after) (sort_by event_le events)) in
      let (halted_at, d, looped, moved) =
        both_returned
          (handle_comments text_repr admins approved_bots token proj around.at_comment comments db)
          (λ x. update_project proj (move_cursor (next_cursor cursor x))) t db' (rw mention at h) in
      let kept =
        subst (Keeps db) (ap (λ x. x.1) looped)
          (loop-Keeps text_repr admins approved_bots token proj around.at_comment comments db) in
      let at_cursor = next_cursor cursor halted_at in
      subst
        (λ x.
          (m : ℕ) × (last_event (config_key proj) x ≡ some m)
          × All (Safe proj m x) (select_where (asks proj after) events))
        (ap (λ x. x.1) moved)
        (
          at_cursor,
          update_project-cursor proj (move_cursor at_cursor) at_cursor n d (λ p. refl) (λ p. refl)
              (kept.2 (config_key proj) n known),
          moved-Safe proj from_iso after now cursor halted_at events d (move_cursor at_cursor) (
              loop-Answered text_repr admins approved_bots token proj around.at_comment comments db
                halted_at d (listed-Ascending from_iso now (is_relevant proj after) events) looped),
        )

  drain_queues-Keeps :
      (token : String) (db : Db)
      → Keeps db
          (drain_queues text_repr admins approved_bots from_iso tokens around token proj db).1
  unfolding drain_queues
  drain_queues-Keeps token db =
      each-Keeps _ (drain_queue-Keeps text_repr admins approved_bots token proj around)
        (pending_conversations (config_key proj) db) db

  poll_known-Safe :
      (token : String) (after now cursor n : ℕ) (events : List NoteEvent) (fires : List LabelFire)
      (db db' : Db) (t : Unit {0})
      → has_trigger proj "mention" ≡ true
      → last_event (config_key proj) db ≡ some n
      → poll_known text_repr admins approved_bots from_iso tokens around token proj
          (comments_of from_iso now
            (select_where (is_relevant proj after) (sort_by event_le events)))
          cursor
          fires
          db
        ≡ (ok t, db')
      → (m : ℕ) × (last_event (config_key proj) db' ≡ some m)
        × All (Safe proj m db') (select_where (asks proj after) events)
  unfolding poll_known
  poll_known-Safe token after now cursor n events fires db db' t mention known h =
      let fire = handle_fire text_repr admins approved_bots token around proj in
      let comments =
        comments_of from_iso now
          (select_where (is_relevant proj after) (sort_by event_le events)) in
      let poll =
        poll_comments text_repr admins approved_bots from_iso tokens around token proj comments
          cursor in
      let drain = drain_queues text_repr admins approved_bots from_iso tokens around token proj in
      let (u, d, labels, h₁) =
        both_returned (each fire fires db) (λ x e. onward (poll e) (λ y. drain)) t db' h in
      let (v, e, polled, h₂) = both_returned (poll d) (λ y. drain) t db' h₁ in
      let kept = subst (Keeps db) (ap (λ x. x.1) labels) (
        each-Keeps fire (handle_fire-Keeps text_repr admins approved_bots token proj around) fires
          db) in
      let (m, cursor_at, safe) =
        poll_comments-Safe token after now cursor n events d e v mention
          (kept.2 (config_key proj) n known) polled in
      let last = subst (Keeps e) (ap (λ x. x.1) h₂) (drain_queues-Keeps token e) in
      (m, last.2 (config_key proj) m cursor_at, All-map (later-Safe proj m e db' last) _ safe)

  -- No question is lost. When the cycle of a project that was polled before returns, and the project
  -- has the trigger "mention", its row has a cursor, and each event of the listing that was new to
  -- the cycle and asks the agent something either has left a job or a receipt under its own key, or
  -- the next cycle, which begins at that cursor, takes it up as new again.
  pub no_question_lost :
      (token : String) (after : ℕ) (events : List NoteEvent) (db registered db' : Db) (t : Unit {0})
      → has_trigger proj "mention" ≡ true
      → token_for_project tokens (config_key proj) ≡ ok token
      → register_project proj db ≡ (ok (after, true), registered)
      → (around.listing.connect proj.host token).events proj.project_id ≡ answered events
      → poll_project text_repr admins approved_bots from_iso tokens around proj db ≡ (ok t, db')
      → (m : ℕ) × (last_event (config_key proj) db' ≡ some m)
        × All (Safe proj m db') (select_where (asks proj after) events)
  unfolding poll_project hosted_comment_events
  no_question_lost token after events db registered db' t mention has_token first listed h =
      elim (Bool-cases (column_eq proj.forge "github")) [
        | inl github ↦ absurd (ground (arith, rw (github, poll_project) at h))
        | inr gitlab ↦
            let h' =
              rw (gitlab, poll_project, has_token, first, hosted_comment_events, listed) at h in
            elim (Result-cases
              (label_fires (around.listing.connect proj.host token) proj trigger_labels)) [
                | inr (x, e) ↦ absurd (ground (arith, rw (e, poll_project) at h'))
                | inl (fires, e) ↦
                    poll_known-Safe token after around.listing.now (newest_id after events) after
                      events fires registered db' t mention
                      (register_project-cursor proj db after true registered first)
                      (rw (e, poll_project) at h')
              ]
      ]
