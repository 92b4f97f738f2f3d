-- ===== src/Poll/Candidates.antt =====
-- `fetch_issue_context` and `hosted_candidate` of src/eastwatch/watcher.py: the candidate that the
-- dispatcher gets.
use eastwatch.Prelude.{
  ℕ, ◌-◌, Option, none, some, String, List, [], ◌∷◌, Dict, or_default, text_take, not,
  if◌then◌else◌,
}
use eastwatch.Table.{length, take, drop, select_where}
use eastwatch.Dispatch.Requests.{Assignee, Candidate}
use eastwatch.Dispatch.Hints.{nonempty}
use eastwatch.Poll.{Author, Issue, ThreadNote, LinkedIssue, answered, failed, GitLab, ProjectConfig}
use eastwatch.Poll.Mentions.{join}

abbrev pub note_lines : List ThreadNote → List String
note_lines [] = []
note_lines (n ∷ ns) = join "" ("[" ∷ n.author ∷ "] " ∷ text_take 1500 n.body ∷ []) ∷ note_lines ns

abbrev pub link_lines : List LinkedIssue → List String
link_lines [] = []
link_lines (l ∷ ls) =
    join "" ("- " ∷ l.title ∷ " (" ∷ l.state ∷ ") " ∷ l.web_url ∷ []) ∷ link_lines ls

-- `lines[-20:]`
abbrev pub last_20 : List String → List String
last_20 lines = drop (length lines - 20) lines

-- A heading with its lines, if there are any.
abbrev pub part : (heading sep : String) → List String → List String → List String
part heading sep [] others = others
part heading sep (l ∷ ls) others = join "" (heading ∷ join sep (l ∷ ls) ∷ []) ∷ others

-- `fetch_issue_context`: a failure of either request gives the empty text.
unfoldable pub fetch_issue_context : GitLab → ProjectConfig → ℕ → String
fetch_issue_context gl proj iid = elim (gl.thread proj.project_id iid) [
  | failed status e ↦ ""
  | answered notes ↦ elim (gl.links proj.project_id iid) [
    | failed status e ↦ ""
    | answered links ↦ text_take 8000 (
        join "\n\n" (
          part "Existing issue comments (oldest first):\n\n" "\n\n"
            (last_20 (note_lines (select_where (λ (n : ThreadNote). not n.system) notes)))
            (part "Linked issues:\n" "\n" (link_lines (take 10 links)) [])))
  ]
]

abbrev pub add_assignee : Option String → Option ℕ → List Assignee → List Assignee
add_assignee none id others = others
add_assignee (some name) none others = others
add_assignee (some name) (some id) others =
    if nonempty name then record { username = name; user_id = id } ∷ others else others

abbrev pub assignees_of : List Author → List Assignee
assignees_of [] = []
assignees_of (a ∷ others) = add_assignee a.username a.user_id (assignees_of others)

-- `hosted_candidate`
unfoldable pub hosted_candidate :
    GitLab
    → ProjectConfig
    → Issue
    → (event_key event_kind actor_username trigger_kind : String)
    → (trigger_messages hint_texts : List String) → (reply_target : Option Dict)
    → (actor_user_id : Option ℕ) → Candidate
unfolding fetch_issue_context
hosted_candidate gl proj issue event_key event_kind actor trigger messages hints target actor_id =
    record {
      host = proj.host;
      project_path = proj.path;
      project_id = proj.project_id;
      issue_iid = issue.iid;
      issue_url = issue.web_url;
      issue_title = or_default issue.title "";
      issue_description = or_default issue.description "";
      event_key = event_key;
      event_kind = event_kind;
      actor_username = actor;
      trigger_kind = trigger;
      assignees = assignees_of issue.assignees;
      hint_texts = hints;
      trigger_messages = messages;
      thread_context = fetch_issue_context gl proj issue.iid;
      worker_briefing = proj.worker_briefing;
      jira_context = "";
      reply_target = target;
      actor_user_id = actor_id;
    }
