-- ===== src/Poll.antt =====
-- The hosted part of src/eastwatch/watcher.py: `hosted_cycle` polls the forge for labels and comments
-- and hands them to the dispatcher. Here is what it reads of the forge: the fields that it looks at,
-- of the JSON that `GitLab.get` gives. A missing key and a null are the same to `dict.get`.
pub mod Mentions
pub mod Markers
pub mod Threads
pub mod Listings
pub mod Candidates
pub mod Decisions
pub mod Sequence
pub mod Comments
pub mod Projects
pub mod Cycle
pub mod Keeps
pub mod Dispatches
pub mod Answers
pub mod Order
pub mod Progress
pub mod Safety
pub mod Laws
use eastwatch.Prelude.{ℕ, Bool, Option, String, List}
use eastwatch.Dispatch.Requests.{Clock}

pub record Author : Type 0 where
  pub username : Option String
  pub user_id : Option ℕ

pub record Issue : Type 0 where
  pub iid : ℕ
  pub web_url : String
  pub title : Option String
  pub description : Option String
  pub state : Option String
  pub assignees : List Author

pub record PolledRequest : Type 0 where
  pub iid : Option ℕ
  pub web_url : Option String
  pub title : Option String
  pub description : Option String
  pub state : Option String
  pub source_branch : Option String
  pub target_branch : Option String
  pub merged_at : Option String

-- Where in a diff a note stands.
pub record Position : Type 0 where
  pub new_path : Option String
  pub new_line : Option ℕ
  pub old_path : Option String
  pub old_line : Option ℕ

pub record DiscussionNote : Type 0 where
  pub note_id : Option ℕ
  pub author_id : Option ℕ
  pub body : Option String

pub record Discussion : Type 0 where
  pub discussion_id : Option String
  pub individual_note : Bool
  pub notes : List DiscussionNote

-- An event "commented", with its note.
pub record NoteEvent : Type 0 where
  pub event_id : ℕ
  pub author : Author
  pub created_at : Option String
  pub system : Bool
  pub noteable_type : Option String
  pub noteable_iid : ℕ
  pub note_id : Option ℕ
  pub position : Option Position
  pub body : Option String

pub record LabelEvent : Type 0 where
  pub event_id : ℕ
  pub action : Option String
  pub label : Option String
  pub user : Author

pub record ThreadNote : Type 0 where
  pub author : String
  pub body : String
  pub system : Bool

pub record LinkedIssue : Type 0 where
  pub title : String
  pub state : String
  pub web_url : String

-- What a request gives: the JSON, or an exception with its text, which for an HTTPError with a
-- response has the status code.
pub data Reply (A : Type 0) : Type 0 where
  answered : A → Reply A
  failed : Option ℕ → String → Reply A

pub data Surface : Type 0 where
  mr issue : Surface

-- The requests of one client, `GitLab(host, token)`, by project id.
pub record GitLab : Type 0 where
  pub events : ℕ → Reply (List NoteEvent)
  pub labelled : ℕ → (label : String) → Reply (List Issue)
  pub label_events : (project_id iid : ℕ) → Reply (List LabelEvent)
  pub discussions : ℕ → Surface → (iid page : ℕ) → Reply (List Discussion)
  pub merge_request : (project_id iid : ℕ) → Reply PolledRequest
  pub issue : (project_id iid : ℕ) → Reply Issue
  pub thread : (project_id iid : ℕ) → Reply (List ThreadNote)
  pub links : (project_id iid : ℕ) → Reply (List LinkedIssue)

-- A project of the configuration.
pub record ProjectConfig : Type 0 where
  pub host : String
  pub path : String
  pub project_id : ℕ
  pub forge : Option String
  pub bot_user_id : Option ℕ
  pub bot_username : Option String
  pub triggers : List String
  pub worker_briefing : Option String

-- What surrounds the handling of one label, comment or queue: how the forge answers in its course,
-- what the clock shows at the test of a failure's age, at the receipt of a skip and in the dispatch,
-- and the new id of a job.
pub record Moment : Type 0 where
  pub connect : (host token : String) → GitLab
  pub now : ℕ
  pub written_at : ℕ
  pub clock : Clock
  pub job_id : String
