-- ===== src/Poll/Safety.antt =====
-- The questions of a listing, and when a poll has not lost one: the rules of the cursor in `hosted_cycle`
-- of src/eastwatch/watcher.py.
use eastwatch.Prelude.{
  ℕ, ◌-◌, ◌<◌, Bool, true, Option, none, some, String, List, [], ◌∷◌, is_some, or_default, ◌&&◌,
  ltb, ◌≡◌, ◌⊎◌, inl, inr, arith, Bool-cases,
}
use eastwatch.Table.{select_where, sort_by}
use eastwatch.Table.Every.{All, All-map, All-unsort, All-picked}
use eastwatch.Schema.{Db, Project}
use eastwatch.Transaction.{transaction}
use eastwatch.Dispatch.Requests.{consumed_event}
use eastwatch.Poll.{NoteEvent, ProjectConfig}
use eastwatch.Poll.Mentions.{agent_mention_question}
use eastwatch.Poll.Listings.{Comment, event_le, is_relevant, comment_of, comments_of}
use eastwatch.Poll.Comments.{config_key, event_key}
use eastwatch.Poll.Projects.{update_project, next_cursor}
use eastwatch.Poll.Keeps.{Keeps}
use eastwatch.Poll.Dispatches.{is_done, Keeps-done}
use eastwatch.Poll.Order.{Answered}

-- The events of a listing that ask the agent something new.
abbrev pub asks : ProjectConfig → (after : ℕ) → NoteEvent → Bool
asks proj after e =
    is_relevant proj after e && is_some (agent_mention_question (or_default e.body ""))

-- The event has left a job or a receipt, or the next poll, from the cursor n, will take it up again.
abbrev pub Safe : ProjectConfig → ℕ → Db → NoteEvent → Type 0
Safe proj n db e =
    (is_done (config_key proj) (event_key proj "comment" e.event_id) db ≡ true)
    ⊎ (is_relevant proj n e ≡ true)

module _ (from_iso : String → Option ℕ) (now : ℕ) where
  All-events :
      (P : Comment → Type 0) (q : NoteEvent → Bool) (es : List NoteEvent)
      → All P (comments_of from_iso now (select_where q es))
      → All (λ e. q e ≡ true → P (comment_of from_iso now e)) es
  unfolding select_where
  All-events P q [] a = tt
  All-events P q (e ∷ es) a = elim (Bool-cases (q e)) [
    | inl h ↦ let a' = rw (h, select_where) at a in (λ k. a'.0, All-events P q es a'.1)
    | inr h ↦ (λ k. absurd (ground (arith, h, k)), All-events P q es (rw (h, select_where) at a))
  ]

-- What is not before the halting comment is newer than the cursor that it leaves.
newer_relevant :
    (proj : ProjectConfig) (after n : ℕ) (e : NoteEvent)
    → is_relevant proj after e ≡ true
    → n < e.event_id
    → is_relevant proj n e ≡ true
newer_relevant proj after n e h l = ground (arith, h, l)

after_relevant :
    (proj : ProjectConfig) (after : ℕ) (e : NoteEvent)
    → is_relevant proj after e ≡ true
    → after < e.event_id
after_relevant proj after e h = ground (arith, h)

Safe-event :
    (proj : ProjectConfig) (from_iso : String → Option ℕ) (after now cursor : ℕ)
    (halted_at : Option ℕ) (db : Db) (e : NoteEvent)
    → asks proj after e ≡ true
    → (is_relevant proj after e ≡ true → Answered proj halted_at db (comment_of from_iso now e))
    → Safe proj (next_cursor cursor halted_at) db e
Safe-event proj from_iso after now cursor none db e h a =
    inl (a (ground (arith, h)) (ground (arith, h)) tt)
Safe-event proj from_iso after now cursor (some halted_at) db e h a =
    elim (Bool-cases (ltb e.event_id halted_at)) [
      | inl earlier ↦ inl (a (ground (arith, h)) (ground (arith, h)) (ground (arith, earlier)))
      | inr later ↦
          let fresh : is_relevant proj after e ≡ true = ground (arith, h) in
          inr (
            newer_relevant proj after (halted_at - 1) e fresh
              (ground (arith, later, after_relevant proj after e fresh)))
    ]

-- What is safe stays safe.
pub later-Safe :
    (proj : ProjectConfig) (n : ℕ) (db db' : Db)
    → Keeps db db'
    → (e : NoteEvent) → Safe proj n db e
    → Safe proj n db' e
later-Safe proj n db db' k e (inl h) =
    inl (Keeps-done (config_key proj) (event_key proj "comment" e.event_id) db db' k h)
later-Safe proj n db db' k e (inr h) = inr h

-- Moving the cursor forgets nothing.
moved_done :
    (proj : ProjectConfig) (f : Project → Project) (event : String) (db : Db)
    → is_done (config_key proj) event db ≡ true
    → is_done (config_key proj) event (update_project proj f db).1 ≡ true
unfolding update_project transaction consumed_event
moved_done proj f event db h = h

-- What the loop leaves is safe when the cursor has moved to where it got.
pub moved-Safe :
    (proj : ProjectConfig) (from_iso : String → Option ℕ) (after now cursor : ℕ)
    (halted_at : Option ℕ) (events : List NoteEvent) (d : Db) (f : Project → Project)
    → All
        (Answered proj halted_at d)
        (comments_of from_iso now (select_where (is_relevant proj after) (sort_by event_le events)))
    → All
        (Safe proj (next_cursor cursor halted_at) (update_project proj f d).1)
        (select_where (asks proj after) events)
moved-Safe proj from_iso after now cursor halted_at events d f a =
    let found = All-unsort _ event_le events (
      All-events from_iso now (Answered proj halted_at d) (is_relevant proj after)
        (sort_by event_le events) a) in
    All-picked _ (asks proj after) events (
      All-map
        (λ e k h.
          Safe-event proj from_iso after now cursor halted_at (update_project proj f d).1 e h
            (λ r q b. moved_done proj f (event_key proj "comment" e.event_id) d (k r q b)))
        events found)
