-- ===== src/Poll/Decisions.antt =====
-- The `try` block of `hosted_cycle` in src/eastwatch/watcher.py, for one comment. It reads the forge,
-- and its last act is to dispatch, to record a skip, or nothing: `Decision` is that act. A failed
-- request is raised.
use eastwatch.Prelude.{
  ℕ, Bool, false, Option, none, some, String, List, [], ◌∷◌, Dict, decimal, or_default, Result, ok,
  ◌>>=◌, str_eq, ◌==◌, not, if◌then◌else◌,
}
use eastwatch.Table.{select_where, has_where}
use eastwatch.Dispatch.Requests.{Candidate}
use eastwatch.Dispatch.Hints.{nonempty}
use eastwatch.Poll.{
  PolledRequest, Issue, Discussion, DiscussionNote, Surface, mr, issue, GitLab, ProjectConfig,
}
use eastwatch.Poll.Mentions.{trim, join, is_open, mr_is_closed_or_merged, mr_comment_context}
use eastwatch.Poll.Markers.{parse_mr_marker}
use eastwatch.Poll.Threads.{
  fetch_mr, fetch_issue, note_discussion, find_note_discussion_id, surface_name,
}
use eastwatch.Poll.Listings.{Comment}
use eastwatch.Poll.Candidates.{hosted_candidate}

pub data Decision : Type 0 where
  ignore : Decision
  skip : (reason : String) → Decision
  start : Candidate → Decision

abbrev pub in_thread : Option String → Dict
in_thread none = []
in_thread (some id) = if nonempty id then ("discussion_id", id) ∷ [] else []

-- `reply_target`, with the discussion if there is one
abbrev pub target_in : Surface → ℕ → Option String → Dict
target_in surface iid discussion_id =
    ("kind", surface_name surface) ∷ ("iid", decimal iid) ∷ in_thread discussion_id

abbrev pub same_author : Option ℕ → Option ℕ → Bool
same_author none author = false
same_author (some bot) none = false
same_author (some bot) (some author) = author == bot

abbrev pub bot_notes : ProjectConfig → Discussion → List DiscussionNote
bot_notes proj d =
    select_where (λ (n : DiscussionNote). same_author proj.bot_user_id n.author_id) d.notes

-- Whether a plain note in a discussion resumes the work: the bot takes part in the discussion, and
-- the note does not repeat one of its own.
abbrev pub resumes_work : String → List DiscussionNote → Bool
resumes_work body [] = false
resumes_work body (n ∷ ns) =
    not (
      has_where (λ (n : DiscussionNote). str_eq (trim (or_default n.body "")) (trim body)) (n ∷ ns))

module _ (gl : GitLab) (proj : ProjectConfig) (c : Comment) where
  abbrev pub candidate_for : Issue → (messages hints : List String) → Dict → Candidate
  candidate_for i messages hints target =
      hosted_candidate gl proj i (decimal c.event_id) "comment" c.actor_username "qa" messages hints
        (some target) c.actor_user_id

  -- The candidate for a comment on a merge request.
  abbrev pub mr_candidate :
      PolledRequest
      → Issue
      → (question : Option String) → (discussion_id : Option String) → Candidate
  mr_candidate m i question discussion_id =
      candidate_for i (mr_comment_context m c.position c.body question ∷ [])
        (c.body ∷ or_default m.description "" ∷ or_default i.description "" ∷ [])
        (target_in mr c.noteable_iid discussion_id)

  -- The candidate for a comment on an issue.
  abbrev pub issue_candidate :
      Issue → (message : String) → (discussion_id : Option String) → Candidate
  issue_candidate i message discussion_id =
      candidate_for i (message ∷ []) (c.body ∷ or_default i.description "" ∷ [])
        (target_in issue c.noteable_iid discussion_id)

  abbrev pub mapped_reply : PolledRequest → Option String → Option ℕ → Result Decision
  mapped_reply m discussion_id none = ok ignore
  mapped_reply m discussion_id (some mapped) = do
    found ← fetch_issue gl proj mapped
    ok (elim found [ none ↦ ignore | some i ↦ start (mr_candidate m i none discussion_id) ])

  abbrev pub reply_on_mr : Option String → Result Decision
  reply_on_mr discussion_id = do
    found ← fetch_mr gl proj c.noteable_iid
    elim found [
      | none ↦ ok ignore
      | some m ↦
          if mr_is_closed_or_merged m
          then ok ignore
          else mapped_reply m discussion_id (parse_mr_marker m.description proj)
    ]

  abbrev pub reply_on_issue : Option String → Result Decision
  reply_on_issue discussion_id = do
    found ← fetch_issue gl proj c.noteable_iid
    ok (elim found [
      | none ↦ ignore
      | some i ↦ if is_open i.state then start (issue_candidate i c.body discussion_id) else ignore
    ])

  abbrev pub surface : Surface
  surface = if c.on_mr then mr else issue

  -- A comment that does not ask the agent.
  unfoldable pub plain_reply : Result Decision
  unfolding note_discussion fetch_mr fetch_issue parse_mr_marker mr_comment_context hosted_candidate
      mr_is_closed_or_merged
  plain_reply = do
    discussion ← note_discussion gl proj surface c.noteable_iid c.note_id
    elim discussion [
      | none ↦ ok ignore
      | some d ↦
          if not (resumes_work c.body (bot_notes proj d))
          then ok ignore
          else if c.on_mr
          then reply_on_mr d.discussion_id
          else reply_on_issue d.discussion_id
    ]

  abbrev pub mr_reason : List String → Decision
  mr_reason texts = skip (join "" ("merge request !" ∷ decimal c.noteable_iid ∷ texts))

  -- Of the issue that the marker of a merge request names.
  abbrev pub asked_about :
      PolledRequest → (question : String) → (mapped : ℕ) → Option Issue → Result Decision
  asked_about m question mapped none = ok (
      mr_reason
        (" maps to issue !" ∷ decimal mapped ∷ ", which was not found during hosted polling" ∷ []))
  asked_about m question mapped (some i) = do
    discussion_id ← find_note_discussion_id gl proj mr c.noteable_iid c.note_id
    ok (start (mr_candidate m i (some question) discussion_id))

  abbrev pub mapped_mention : PolledRequest → (question : String) → Option ℕ → Result Decision
  mapped_mention m question none =
      ok (mr_reason (" has no eastwatch source marker; cannot route to a conversation" ∷ []))
  mapped_mention m question (some mapped) = do
    found ← fetch_issue gl proj mapped
    asked_about m question mapped found

  unfoldable pub asked_on_mr : (question : String) → Option PolledRequest → Result Decision
  unfolding fetch_issue parse_mr_marker find_note_discussion_id mr_comment_context hosted_candidate
  asked_on_mr question none = ok (mr_reason (" not found during hosted polling" ∷ []))
  asked_on_mr question (some m) = mapped_mention m question (parse_mr_marker m.description proj)

  -- A question to the agent on a merge request.
  unfoldable pub mr_mention : (question : String) → Result Decision
  unfolding fetch_mr asked_on_mr
  mr_mention question = do found ← fetch_mr gl proj c.noteable_iid; asked_on_mr question found

  unfoldable pub asked_on_issue : (question : String) → Option Issue → Result Decision
  unfolding find_note_discussion_id hosted_candidate
  asked_on_issue question none = ok (
      skip (join "" ("issue !" ∷ decimal c.noteable_iid ∷ " not found during hosted polling" ∷ [])))
  asked_on_issue question (some i) = do
    discussion_id ← find_note_discussion_id gl proj issue c.noteable_iid c.note_id
    ok (start (issue_candidate i question discussion_id))

  -- A question to the agent on an issue.
  unfoldable pub issue_mention : (question : String) → Result Decision
  unfolding fetch_issue asked_on_issue
  issue_mention question = do
    found ← fetch_issue gl proj c.noteable_iid
    asked_on_issue question found

  -- The part of the `try` block that reads.
  unfoldable pub decide : Result Decision
  unfolding plain_reply mr_mention issue_mention
  decide = elim c.question [
    | none ↦ plain_reply
    | some question ↦ if c.on_mr then mr_mention question else issue_mention question
  ]
