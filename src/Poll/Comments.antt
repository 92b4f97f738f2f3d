-- ===== src/Poll/Comments.antt =====
-- The loop over the comments in `hosted_cycle` of src/eastwatch/watcher.py.
use eastwatch.Prelude.{
  ℕ, ◌-◌, Option, none, some, String, List, [], ◌∷◌, text_append, decimal, Result, ok, err, Error,
  ltb, if◌then◌else◌,
}
use eastwatch.Transaction.{Method}
use eastwatch.Dispatch.Requests.{Candidate, DispatchResult, consumed_event, record_skipped_event}
use eastwatch.Dispatch.Flow.{dispatch}
use eastwatch.Poll.{ProjectConfig, Moment}
use eastwatch.Poll.Listings.{Comment}
use eastwatch.Poll.Decisions.{Decision, ignore, skip, start, decide}
use eastwatch.Poll.Sequence.{onward}

-- TRANSIENT_GIVE_UP_SECONDS
abbrev pub give_up_seconds : ℕ
give_up_seconds = 900

-- `project_config_key`
abbrev pub config_key : ProjectConfig → String
config_key proj = text_append proj.host (text_append "/" proj.path)

-- `durable_event_key`
abbrev pub event_key : ProjectConfig → (kind : String) → ℕ → String
event_key proj kind id =
    text_append (config_key proj)
      (text_append ":" (text_append kind (text_append ":" (decimal id))))

-- Whether the loop goes on to the next comment.
pub data Turn : Type 0 where
  next halt : Turn

-- The rest of the loop, if it goes on.
abbrev pub continue : Comment → Method (Option ℕ) → Turn → Method (Option ℕ)
continue c rest next db = rest db
continue c rest halt db = (ok (some c.event_id), db)

module _ (text_repr : String → String) (admins approved_bots : List String) where
  abbrev pub dispatch_in : Moment → Candidate → Method DispatchResult
  dispatch_in m c db = dispatch text_repr admins approved_bots m.job_id c m.clock db

  module _ (token : String) (proj : ProjectConfig) where
    abbrev pub record_skip : Moment → Comment → (reason : String) → Method (Unit {0})
    record_skip m c reason =
        record_skipped_event (config_key proj) proj.host proj.path proj.project_id
          (event_key proj "comment" c.event_id) "comment" c.actor_username reason m.written_at

    -- The last act of the `try` block.
    unfoldable pub perform : Moment → Comment → Decision → Method Turn
    unfolding dispatch record_skipped_event
    perform m c ignore db = (ok next, db)
    perform m c (skip reason) db = onward (record_skip m c reason db) (λ t d. (ok next, d))
    perform m c (start candidate) db = onward (dispatch_in m candidate db) (λ a d. (ok next, d))

    -- The `except` clause: a failure of a young comment halts the loop.
    unfoldable pub settle_decision : Moment → Comment → Result Decision → Method Turn
    unfolding perform record_skipped_event
    settle_decision m c (ok d) db = perform m c d db
    settle_decision m c (err (Error.transient e)) db =
        if ltb (m.now - c.created_at) give_up_seconds
        then (ok halt, db)
        else onward
            (record_skip m c (text_append "giving up after repeated transient failures: " e) db)
            (λ t d. (ok next, d))
    settle_decision m c (err e) db = (err e, db)

    unfoldable pub handle_comment : Moment → Comment → Method Turn
    unfolding consumed_event decide settle_decision
    handle_comment m c db =
        elim (consumed_event (config_key proj) (event_key proj "comment" c.event_id) db) [
          | some a ↦ (ok next, db)
          | none ↦ settle_decision m c (decide (m.connect proj.host token) proj c) db
        ]

    -- The loop: it gives `halted_at`.
    unfoldable pub handle_comments : (ℕ → Moment) → List Comment → Method (Option ℕ)
    unfolding handle_comment
    handle_comments at [] db = (ok none, db)
    handle_comments at (c ∷ cs) db =
        onward (handle_comment (at c.event_id) c db) (continue c (handle_comments at cs))
