-- ===== src/Poll/Cycle.antt =====
-- `hosted_cycle` of src/eastwatch/watcher.py, put together from its parts.
use eastwatch.Prelude.{
  ℕ, Option, none, some, String, List, [], ◌∷◌, text_append, decimal, or_default, Result, ok, err,
  Error, column_eq, if◌then◌else◌,
}
use eastwatch.Table.{length}
use eastwatch.Schema.{Conversation, Pending}
use eastwatch.Transaction.{Method}
use eastwatch.Store.Events.{clear_pending, pending_conversations}
use eastwatch.Retention.{ProjectTokens, token_for_project}
use eastwatch.Dispatch.Requests.{consumed_event}
use eastwatch.Dispatch.Flow.{dispatch}
use eastwatch.Poll.{Issue, ProjectConfig, Moment}
use eastwatch.Poll.Mentions.{is_open}
use eastwatch.Poll.Threads.{fetch_issue}
use eastwatch.Poll.Listings.{LabelFire, Comment, hosted_label_fires, hosted_comment_events}
use eastwatch.Poll.Candidates.{hosted_candidate}
use eastwatch.Poll.Comments.{config_key, event_key, dispatch_in, handle_comments}
use eastwatch.Poll.Sequence.{onward, ◌>>=◌, lift, each}
use eastwatch.Poll.Projects.{
  Surroundings, register_project, update_project, move_cursor, first_cursor, trigger_labels,
  has_trigger, label_fires, adopt, last_entry, all_messages, is_drained, next_cursor,
}

module _ (text_repr : String → String) (admins approved_bots : List String) where
  unfoldable pub handle_fire :
      (token : String) → Surroundings → ProjectConfig → LabelFire → Method (Unit {0})
  unfolding consumed_event dispatch hosted_candidate
  handle_fire token around proj fire db =
      let m = around.at_label fire.event_id in
      elim (consumed_event (config_key proj) (event_key proj "label" fire.event_id) db) [
        | some a ↦ (ok tt, db)
        | none ↦
            onward
              (dispatch_in text_repr admins approved_bots m
                (hosted_candidate (m.connect proj.host token) proj fire.issue
                  (decimal fire.event_id) "label" fire.actor_username fire.label []
                  (or_default fire.issue.description "" ∷ []) none fire.actor_user_id)
                db)
              (λ a d. (ok tt, d))
      ]

  -- The queue of an open issue.
  unfoldable pub send_queue :
      (token : String)
      → Moment
      → ProjectConfig
      → Conversation
      → List Pending
      → Pending
      → Issue
      → Method (Unit {0})
  unfolding dispatch hosted_candidate clear_pending
  send_queue token m proj row entries last i db =
      onward
        (dispatch_in text_repr admins approved_bots m
          (hosted_candidate (m.connect proj.host token) proj i
            (text_append "pending:" last.event_key) "comment" last.actor_username "qa"
            (all_messages entries) (or_default i.description "" ∷ []) last.reply_target
            last.actor_user_id)
          db)
        (λ a d.
          if is_drained a
          then clear_pending row.conversation_key (length entries) m.written_at d
          else (ok tt, d))

  -- The queue, when the forge was asked for its issue.
  unfoldable pub drain_found :
      (token : String)
      → Moment
      → ProjectConfig
      → Conversation
      → Pending
      → List Pending
      → Result (Option Issue)
      → Method (Unit {0})
  unfolding send_queue clear_pending
  drain_found token m proj row e es (err (Error.transient x)) db = (ok tt, db)
  drain_found token m proj row e es (err x) db = (err x, db)
  drain_found token m proj row e es (ok none) db =
      clear_pending row.conversation_key (length (e ∷ es)) m.written_at db
  drain_found token m proj row e es (ok (some i)) db =
      if is_open i.state
      then send_queue token m proj row (e ∷ es) (last_entry e es) i db
      else clear_pending row.conversation_key (length (e ∷ es)) m.written_at db

  unfoldable pub drain_entries :
      (token : String) → Moment → ProjectConfig → Conversation → List Pending → Method (Unit {0})
  unfolding drain_found fetch_issue
  drain_entries token m proj row [] db = (ok tt, db)
  drain_entries token m proj row (e ∷ es) db =
      drain_found token m proj row e es (fetch_issue (m.connect proj.host token) proj row.issue_iid)
        db

  -- The last loop: the comments that waited for a run.
  unfoldable pub drain_queue :
      (token : String) → Surroundings → ProjectConfig → Conversation → Method (Unit {0})
  unfolding drain_entries
  drain_queue token around proj row =
      drain_entries token (around.at_queue row.issue_iid) proj row row.pending

  module _ (from_iso : String → Option ℕ) (tokens : ProjectTokens) (around : Surroundings) where
    -- The comments: the loop over them, and where the next cycle begins.
    unfoldable pub poll_comments :
        (token : String) → ProjectConfig → List Comment → (cursor : ℕ) → Method (Unit {0})
    unfolding handle_comments update_project
    poll_comments token proj comments cursor = do
      halted_at ←
          handle_comments text_repr admins approved_bots token proj around.at_comment
            (if has_trigger proj "mention" then comments else [])
      update_project proj (move_cursor (next_cursor cursor halted_at))

    unfoldable pub drain_queues : (token : String) → ProjectConfig → Method (Unit {0})
    unfolding drain_queue pending_conversations
    drain_queues token proj db =
        each (drain_queue token around proj) (pending_conversations (config_key proj) db) db

    -- A project that was polled before.
    unfoldable pub poll_known :
        (token : String)
        → ProjectConfig
        → List Comment
        → (cursor : ℕ) → List LabelFire
        → Method (Unit {0})
    unfolding handle_fire poll_comments drain_queues
    poll_known token proj comments cursor fires = do
      labels ← each (handle_fire token around proj) fires
      polled ← poll_comments token proj comments cursor
      drain_queues token proj

    unfoldable pub bootstrap : ProjectConfig → (cursor : ℕ) → List LabelFire → Method (Unit {0})
    unfolding adopt update_project
    bootstrap proj cursor fires = do
      adopted ← each (adopt around proj) fires
      update_project proj (first_cursor cursor)

    -- One turn of the loop over the projects.
    unfoldable pub poll_project : ProjectConfig → Method (Unit {0})
    unfolding token_for_project register_project hosted_comment_events hosted_label_fires poll_known
        bootstrap
    poll_project proj = do
      supported ← lift (if column_eq proj.forge "github" then err Error.configuration else ok tt)
      token ← lift (token_for_project tokens (config_key proj))
      (last_event_id, bootstrapped) ← register_project proj
      (comments, cursor) ← lift (
          hosted_comment_events from_iso around.listing.now (around.listing.connect proj.host token)
            proj last_event_id)
      fires ← lift (label_fires (around.listing.connect proj.host token) proj trigger_labels)
      if bootstrapped
          then poll_known token proj comments cursor fires
          else bootstrap proj cursor fires

    -- `hosted_cycle`
    unfoldable pub hosted_cycle : List ProjectConfig → Method (Unit {0})
    unfolding poll_project
    hosted_cycle = each poll_project
