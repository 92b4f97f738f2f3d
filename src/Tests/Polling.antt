-- ===== src/Tests/Polling.antt =====
-- The theorems on polling, applied to a listing with one question.
use eastwatch.Prelude.{ℕ, false, none, some, [], ◌∷◌, ◌≡◌, refl}
use eastwatch.Table.{find_where, has_where, update_where, select_where, sort_by, insert_by}
use eastwatch.Table.Every.{All}
use eastwatch.Schema.{Db}
use eastwatch.Retention.{ProjectTokens}
use eastwatch.Poll.{
  Author, Issue, NoteEvent, Reply, answered, failed, GitLab, ProjectConfig, Moment,
}
use eastwatch.Dispatch.Hints.{parse_hint, split_spec}
use eastwatch.Poll.Mentions.{agent_mention_question}
use eastwatch.Poll.Comments.{config_key}
use eastwatch.Poll.Projects.{Surroundings}
use eastwatch.Poll.Cycle.{poll_project}
use eastwatch.Poll.Keeps.{last_event}
use eastwatch.Poll.Safety.{asks, Safe}
use eastwatch.Poll.Laws.{no_question_lost}
use eastwatch.Tests.Fixture.{small_db, clock}

abbrev ann : Author
ann = record { username = some "ann"; user_id = some 7 }

abbrev question : NoteEvent
question = record {
  event_id = 12;
  author = ann;
  created_at = none;
  system = false;
  noteable_type = some "Issue";
  noteable_iid = 4;
  note_id = some 90;
  position = none;
  body = some " @Agent why?";
}

abbrev issue_4 : Issue
issue_4 = record {
  iid = 4;
  web_url = "url";
  title = some "title";
  description = none;
  state = some "opened";
  assignees = [];
}

-- A forge with one question, whose issues and discussions may fail to load.
abbrev gitlab : Reply Issue → GitLab
gitlab issue = record {
  events = λ project. answered (question ∷ []);
  labelled = λ project label. answered [];
  label_events = λ project iid. answered [];
  discussions = λ project surface iid page. failed (some 502) "bad gateway";
  merge_request = λ project iid. failed none "timeout";
  issue = λ project iid. issue;
  thread = λ project iid. answered [];
  links = λ project iid. answered [];
}

abbrev moment : Reply Issue → Moment
moment issue = record {
  connect = λ host token. gitlab issue;
  now = 100;
  written_at = 100;
  clock = clock;
  job_id = "new";
}

abbrev around : Reply Issue → Surroundings
around issue = record {
  listing = moment issue;
  at_label = λ id. moment issue;
  at_comment = λ id. moment issue;
  at_queue = λ iid. moment issue;
}

abbrev config : ProjectConfig
config = record {
  host = "h";
  path = "p";
  project_id = 5;
  forge = none;
  bot_user_id = some 1;
  bot_username = some "bot";
  triggers = "mention" ∷ [];
  worker_briefing = none;
}

abbrev polled : Reply Issue → Db
polled issue =
    (poll_project (λ s. s) [] [] (λ s. none) (ProjectTokens.single "token") (around issue) config
      small_db).1

no_question_lost_example :
    (m : ℕ) × (last_event (config_key config) (polled (answered issue_4)) ≡ some m)
    × All (Safe config m (polled (answered issue_4))) (select_where (asks config 0) (question ∷ []))
unfolding poll_project find_where has_where update_where select_where sort_by insert_by
    agent_mention_question parse_hint split_spec
no_question_lost_example =
    no_question_lost (λ s. s) [] [] (λ s. none) (ProjectTokens.single "token")
      (around (answered issue_4)) config "token" 0 (question ∷ []) small_db small_db
      (polled (answered issue_4)) tt refl refl refl refl refl
