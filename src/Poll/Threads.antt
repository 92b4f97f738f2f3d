-- ===== src/Poll/Threads.antt =====
-- `fetch_mr`, `fetch_issue`, `note_discussion` and `find_note_discussion_id` of
-- src/eastwatch/watcher.py, as the hosted cycle calls them: what is not there is `none`, and any other
-- failure of a request is raised as transient.
use eastwatch.Prelude.{
  ℕ, zero, suc, Bool, false, Option, none, some, String, List, [], ◌∷◌, decimal, Result, ok, err,
  Error, ◌==◌, ltb, if◌then◌else◌,
}
use eastwatch.Table.{length, find_where, has_where}
use eastwatch.Poll.{
  PolledRequest, Issue, Discussion, DiscussionNote, Reply, answered, failed, Surface, mr, issue,
  GitLab, ProjectConfig,
}
use eastwatch.Poll.Mentions.{join}

abbrev pub is_404 : Option ℕ → Bool
is_404 none = false
is_404 (some status) = status == 404

-- A request that may find nothing; `what` is how the text of the exception begins.
abbrev pub found_or_none : {A : Type 0} → (what : List String) → Reply A → Result (Option A)
found_or_none what (answered a) = ok (some a)
found_or_none what (failed status e) =
    if is_404 status then ok none else err (Error.transient (text_of what e))
  where
    text_of : List String → String → String
    text_of what e = join "" (join "" what ∷ " failed: " ∷ e ∷ [])

-- `fetch_mr`, with `raise_transient`
unfoldable pub fetch_mr : GitLab → ProjectConfig → ℕ → Result (Option PolledRequest)
fetch_mr gl proj iid =
    found_or_none ("merge request !" ∷ decimal iid ∷ " fetch" ∷ [])
      (gl.merge_request proj.project_id iid)

-- `fetch_issue`, with `raise_transient`
unfoldable pub fetch_issue : GitLab → ProjectConfig → ℕ → Result (Option Issue)
fetch_issue gl proj iid =
    found_or_none ("issue !" ∷ decimal iid ∷ " fetch" ∷ []) (gl.issue proj.project_id iid)

abbrev pub surface_name : Surface → String
surface_name mr = "mr"
surface_name issue = "issue"

abbrev pub id_is : ℕ → Option ℕ → Bool
id_is n none = false
id_is n (some m) = m == n

-- Whether a discussion holds the note.
abbrev pub holds_note : ℕ → Discussion → Bool
holds_note note d = has_where (λ (n : DiscussionNote). id_is note n.note_id) d.notes

-- A discussion that may be answered in.
abbrev pub threaded : Discussion → Option Discussion
threaded d = if d.individual_note then none else some d

-- DISCUSSION_LIST_PER_PAGE and DISCUSSION_LIST_PAGE_CAP
abbrev pub per_page : ℕ
per_page = 100

abbrev pub page_cap : ℕ
page_cap = 20

module _ (gl : GitLab) (proj : ProjectConfig) (surface : Surface) (iid note : ℕ) where
  abbrev pub lookup_error : String → Error
  lookup_error e = Error.transient (
      join "" (
        surface_name surface
        ∷ " !"
        ∷ decimal iid
        ∷ " discussions lookup for note "
        ∷ decimal note
        ∷ " failed: "
        ∷ e
        ∷ []))

  -- The loop of `note_discussion`, with the number of pages that it may still ask for.
  unfoldable pub scan_pages : (left page : ℕ) → Result (Option Discussion)
  scan_pages zero page = ok none
  scan_pages (suc left) page =
      let later = scan_pages left (suc page) in
      elim (gl.discussions proj.project_id surface iid page) [
        | failed status e ↦ if is_404 status then ok none else err (lookup_error e)
        | answered ds ↦ elim (find_where (holds_note note) ds) [
          | some d ↦ ok (threaded d)
          | none ↦ if ltb (length ds) per_page then ok none else later
        ]
      ]

-- `note_discussion`
unfoldable pub note_discussion :
    GitLab → ProjectConfig → Surface → ℕ → Option ℕ → Result (Option Discussion)
unfolding scan_pages
note_discussion gl proj surface iid none = ok none
note_discussion gl proj surface iid (some note) =
    if note == 0 then ok none else scan_pages gl proj surface iid note page_cap 1

abbrev pub id_of_discussion : Option Discussion → Option String
id_of_discussion none = none
id_of_discussion (some d) = d.discussion_id

-- `find_note_discussion_id` without a discussion id, in the `try` that takes a failure for `None`.
unfoldable pub find_note_discussion_id :
    GitLab → ProjectConfig → Surface → ℕ → Option ℕ → Result (Option String)
unfolding note_discussion
find_note_discussion_id gl proj surface iid note = elim (note_discussion gl proj surface iid note) [
  | ok d ↦ ok (id_of_discussion d)
  | err (Error.transient e) ↦ ok none
  | err e ↦ err e
]
