-- ===== src/Poll/Listings.antt =====
-- `hosted_label_fires`, `parse_event_created_at` and `hosted_comment_events` of
-- src/eastwatch/watcher.py: what a poll finds new.
use eastwatch.Prelude.{
  ℕ, Bool, true, false, Option, none, some, String, List, [], ◌∷◌, or_default, Result, ok, err,
  Error, ◌>>=◌, str_eq, leb, ltb, ◌==◌, ◌&&◌, ◌||◌, not, if◌then◌else◌, column_eq,
}
use eastwatch.Table.{select_where, sort_by}
use eastwatch.Poll.{
  Issue, Position, NoteEvent, LabelEvent, Reply, answered, failed, GitLab, ProjectConfig,
}
use eastwatch.Poll.Mentions.{agent_mention_question}

-- A request whose failure is raised.
abbrev pub raising : {A : Type 0} → Reply A → Result A
raising (answered a) = ok a
raising (failed status e) = err (Error.transient e)

pub record LabelFire : Type 0 where
  pub event_id : ℕ
  pub actor_username : String
  pub actor_user_id : Option ℕ
  pub issue : Issue
  pub label : String

-- `max(additions, key=…)`: the first of the newest
abbrev pub newest : LabelEvent → List LabelEvent → LabelEvent
newest e [] = e
newest e (f ∷ fs) = if ltb e.event_id f.event_id then newest f fs else newest e fs

abbrev pub adds : String → LabelEvent → Bool
adds label e = column_eq e.action "add" && column_eq e.label label

abbrev pub fire_of : Issue → String → LabelEvent → LabelFire
fire_of issue label e = record {
  event_id = e.event_id;
  actor_username = or_default e.user.username "";
  actor_user_id = e.user.user_id;
  issue = issue;
  label = label;
}

abbrev pub fire_among : Issue → String → List LabelEvent → List LabelFire → List LabelFire
fire_among issue label [] others = others
fire_among issue label (e ∷ es) others = fire_of issue label (newest e es) ∷ others

abbrev pub fires_of : GitLab → ProjectConfig → String → List Issue → Result (List LabelFire)
fires_of gl proj label [] = ok []
fires_of gl proj label (issue ∷ issues) = do
  events ← raising (gl.label_events proj.project_id issue.iid)
  others ← fires_of gl proj label issues
  ok (fire_among issue label (select_where (adds label) events) others)

-- `hosted_label_fires`
unfoldable pub hosted_label_fires : GitLab → ProjectConfig → String → Result (List LabelFire)
hosted_label_fires gl proj label = do
  issues ← raising (gl.labelled proj.project_id label)
  fires_of gl proj label issues

pub record Comment : Type 0 where
  pub event_id : ℕ
  pub actor_username : String
  pub actor_user_id : Option ℕ
  pub on_mr : Bool
  pub noteable_iid : ℕ
  pub note_id : Option ℕ
  pub position : Option Position
  pub body : String
  pub question : Option String
  pub created_at : ℕ

-- The order of `sorted(events, key=…)`
abbrev pub event_le : NoteEvent → NoteEvent → Bool
event_le e f = leb e.event_id f.event_id

-- `max((… for event in events), default=after)`
abbrev pub newest_id : ℕ → List NoteEvent → ℕ
newest_id after [] = after
newest_id after (e ∷ es) = above e.event_id es
  where
    above : ℕ → List NoteEvent → ℕ
    above n [] = n
    above n (e ∷ es) = if ltb n e.event_id then above e.event_id es else above n es

-- `==` on values that may be None
abbrev pub same_id : Option ℕ → Option ℕ → Bool
same_id none none = true
same_id (some m) (some n) = m == n
same_id _ _ = false

abbrev pub same_name : Option String → Option String → Bool
same_name none none = true
same_name (some s) (some t) = str_eq s t
same_name _ _ = false

-- The events that the loop keeps: new notes of others on issues and merge requests.
abbrev pub is_relevant : ProjectConfig → ℕ → NoteEvent → Bool
is_relevant proj after e =
    ltb after e.event_id
    && (not e.system
        && ((column_eq e.noteable_type "Issue" || column_eq e.noteable_type "MergeRequest")
            && (not (same_id e.author.user_id proj.bot_user_id)
                && not (same_name e.author.username proj.bot_username))))

-- `from_iso` is `datetime.fromisoformat(value.replace("Z", "+00:00")).timestamp()`, `none` for a
-- ValueError, and `now` what `time.time()` gives.
module _ (from_iso : String → Option ℕ) (now : ℕ) where
  unfoldable pub parse_event_created_at : Option String → ℕ
  parse_event_created_at value =
      if str_eq (or_default value "") ""
      then now
      else elim (from_iso (or_default value "")) [ none ↦ now | some t ↦ t ]

  abbrev pub comment_of : NoteEvent → Comment
  comment_of e = record {
    event_id = e.event_id;
    actor_username = or_default e.author.username "";
    actor_user_id = e.author.user_id;
    on_mr = column_eq e.noteable_type "MergeRequest";
    noteable_iid = e.noteable_iid;
    note_id = e.note_id;
    position = e.position;
    body = or_default e.body "";
    question = agent_mention_question (or_default e.body "");
    created_at = parse_event_created_at e.created_at;
  }

  abbrev pub comments_of : List NoteEvent → List Comment
  comments_of [] = []
  comments_of (e ∷ es) = comment_of e ∷ comments_of es

  -- `hosted_comment_events`
  unfoldable pub hosted_comment_events :
      GitLab → ProjectConfig → (after_event_id : ℕ) → Result (List Comment × ℕ)
  unfolding parse_event_created_at
  hosted_comment_events gl proj after = do
    events ← raising (gl.events proj.project_id)
    ok (
      comments_of (select_where (is_relevant proj after) (sort_by event_le events)),
      newest_id after events,
    )
