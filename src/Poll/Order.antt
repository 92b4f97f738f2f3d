-- ===== src/Poll/Order.antt =====
-- The loop over the comments, in the order of their events.
use eastwatch.Prelude.{
  ℕ, ◌≤◌, ◌<◌, Bool, true, false, Option, none, some, String, List, [], ◌∷◌, is_some, Result, ok,
  err, ◌≡◌, refl, ap, subst, inl, inr, arith, Option-cases, Bool-cases,
}
use eastwatch.Table.{select_where, sort_by}
use eastwatch.Table.Every.{All, All-map}
use eastwatch.Table.Order.{Ranked, sort-Ranked}
use eastwatch.Schema.{Db}
use eastwatch.Poll.{NoteEvent, ProjectConfig, Moment}
use eastwatch.Poll.Listings.{Comment, event_le, comments_of}
use eastwatch.Poll.Sequence.{onward}
use eastwatch.Poll.Comments.{
  config_key, event_key, Turn, next, halt, handle_comment, handle_comments, continue,
}
use eastwatch.Poll.Keeps.{Keeps, Keeps-refl, Keeps-trans}
use eastwatch.Poll.Dispatches.{is_done, Keeps-done}
use eastwatch.Poll.Answers.{handle_comment-Keeps, handled_done}

abbrev pub Ascending : List Comment → Type 0
Ascending [] = Unit
Ascending (c ∷ cs) = All (λ d. c.event_id ≤ d.event_id) cs × Ascending cs

event_sound : (e f : NoteEvent) → event_le e f ≡ true → e.event_id ≤ f.event_id
event_sound e f h = ground (arith, h)

event_total : (e f : NoteEvent) → event_le e f ≡ false → f.event_id ≤ e.event_id
event_total e f h = ground (arith, h)

-- No event is older than one before it.
abbrev Rising : List NoteEvent → Type 0
Rising = Ranked event_le (λ e. e.event_id) event_sound event_total

All-chosen :
    (P : NoteEvent → Type 0) (q : NoteEvent → Bool) (es : List NoteEvent)
    → All P es
    → All P (select_where q es)
unfolding select_where
All-chosen P q [] a = tt
All-chosen P q (e ∷ es) a = elim (Bool-cases (q e)) [
  | inl h ↦ rw h (a.0, All-chosen P q es a.1)
  | inr h ↦ rw h (All-chosen P q es a.1)
]

module _ (from_iso : String → Option ℕ) (now : ℕ) where
  All-comments :
      (n : ℕ) (es : List NoteEvent)
      → All (λ e. n ≤ e.event_id) es
      → All (λ c. n ≤ c.event_id) (comments_of from_iso now es)
  All-comments n [] a = tt
  All-comments n (e ∷ es) a = (a.0, All-comments n es a.1)

  chosen-Ascending :
      (q : NoteEvent → Bool) (es : List NoteEvent)
      → Rising es
      → Ascending (comments_of from_iso now (select_where q es))
  unfolding select_where
  chosen-Ascending q [] r = tt
  chosen-Ascending q (e ∷ es) r = elim (Bool-cases (q e)) [
    | inl h ↦ rw h (
      All-comments e.event_id (select_where q es)
          (All-chosen (λ f. e.event_id ≤ f.event_id) q es r.0),
      chosen-Ascending q es r.1,
    )
    | inr h ↦ rw h (chosen-Ascending q es r.1)
  ]

  -- The comments of a poll are in the order of their events.
  pub listed-Ascending :
      (q : NoteEvent → Bool) (es : List NoteEvent)
      → Ascending (comments_of from_iso now (select_where q (sort_by event_le es)))
  listed-Ascending q es =
      chosen-Ascending q (sort_by event_le es)
        (sort-Ranked event_le (λ e. e.event_id) event_sound event_total es)

-- Whether a comment stands before the one that halted the loop.
abbrev pub Before : Option ℕ → Comment → Type 0
Before none c = Unit
Before (some halted_at) c = c.event_id < halted_at

-- A question before the comment that halted the loop has left a job or a receipt.
abbrev pub Answered : ProjectConfig → Option ℕ → Db → Comment → Type 0
Answered proj halted_at db c =
    is_some c.question ≡ true
    → Before halted_at c
    → is_done (config_key proj) (event_key proj "comment" c.event_id) db ≡ true

module _ (text_repr : String → String) (admins approved_bots : List String) (token : String)
    (proj : ProjectConfig) (at : ℕ → Moment) where
  abbrev pub loop : List Comment → Db → Result (Option ℕ) × Db
  loop = handle_comments text_repr admins approved_bots token proj at

  abbrev pub first_handled : Comment → Db → Result Turn × Db
  first_handled c = handle_comment text_repr admins approved_bots token proj (at c.event_id) c

  continue-Keeps :
      (c : Comment) (rest : Db → Result (Option ℕ) × Db) (db : Db)
      → ((d : Db) → Keeps d (rest d).1)
      → (r : Result Turn × Db) → Keeps db r.1
      → Keeps db (onward r (continue c rest)).1
  continue-Keeps c rest db h (ok next, d) k = Keeps-trans db d (rest d).1 k (h d)
  continue-Keeps c rest db h (ok halt, d) k = k
  continue-Keeps c rest db h (err e, d) k = k

  pub loop-Keeps : (cs : List Comment) (db : Db) → Keeps db (loop cs db).1
  unfolding handle_comments
  loop-Keeps [] db = Keeps-refl db
  loop-Keeps (c ∷ cs) db =
      continue-Keeps c (loop cs) db (loop-Keeps cs) (first_handled c db)
        (handle_comment-Keeps text_repr admins approved_bots token proj (at c.event_id) c db)

  halted-Answered :
      (c : Comment) (cs : List Comment) (db : Db)
      → Ascending (c ∷ cs)
      → All (Answered proj (some c.event_id) db) (c ∷ cs)
  halted-Answered c cs db s =
      (λ q b. absurd (omega (arith, b)), All-map (λ d le q b. absurd (omega (arith, le, b))) cs s.0)

  asked_done :
      (c : Comment) (db d : Db)
      → first_handled c db ≡ (ok next, d)
      → is_some c.question ≡ true
      → is_done (config_key proj) (event_key proj "comment" c.event_id) d ≡ true
  asked_done c db d h asks = elim (Option-cases c.question) [
    | inl e ↦ absurd (ground (arith, asks, e))
    | inr (question, e) ↦
        handled_done text_repr admins approved_bots token proj (at c.event_id) c db d question e h
  ]

  pub loop-Answered :
      (cs : List Comment) (db : Db) (halted_at : Option ℕ) (db' : Db)
      → Ascending cs
      → loop cs db ≡ (ok halted_at, db')
      → All (Answered proj halted_at db') cs
  unfolding handle_comments
  loop-Answered [] db halted_at db' s h = tt
  loop-Answered (c ∷ cs) db halted_at db' s h =
      go (first_handled c db) refl (λ d g. loop-Answered cs d halted_at db' s.1 g) h
    where
      go :
          (r : Result Turn × Db)
          → first_handled c db ≡ r
          → ((d : Db) → loop cs d ≡ (ok halted_at, db') → All (Answered proj halted_at db') cs)
          → onward r (continue c (loop cs)) ≡ (ok halted_at, db')
          → All (Answered proj halted_at db') (c ∷ cs)
      go (err x, d) e others g = absurd (ground (arith, g))
      go (ok halt, d) e others g =
          let which : some c.event_id ≡ halted_at = ground (arith, g) in
          subst (λ x. All (Answered proj x db') (c ∷ cs)) which (halted-Answered c cs db' s)
      go (ok next, d) e others g = (
        λ q b.
            Keeps-done (config_key proj) (event_key proj "comment" c.event_id) d db'
              (subst (Keeps d) (ap (λ x. x.1) g) (loop-Keeps cs d)) (asked_done c db d e q),
        others d g,
      )
