-- ===== src/Notices/Notes.antt =====
-- `HostedOutbox.ensure_note` of src/eastwatch/controller/outbox.py: a note of a notice is posted unless
-- one with the marker of the notice is there.
use eastwatch.Prelude.{
  ℕ, zero, suc, Bool, Option, none, some, is_some, String, List, text_append, decimal, or_default,
  Result, ok, err, Error, ltb, ◌||◌, if◌then◌else◌,
}
use eastwatch.Table.{length, find_where}
use eastwatch.Dispatch.Hints.{strip, nonempty}
use eastwatch.Poll.{Reply, answered, failed, Surface}
use eastwatch.Poll.Mentions.{trim_end}
use eastwatch.Poll.Threads.{is_404, per_page, page_cap}

pub record NoteRow : Type 0 where
  pub note_id : ℕ
  pub body : Option String

pub record Target : Type 0 where
  pub surface : Surface
  pub iid : ℕ
  pub discussion_id : Option String

-- The requests on the notes of an issue or a merge request, over the states of the forge: a page of
-- the newest notes first, and a new note, in a discussion or by itself, with its id.
pub record NotesApi (S : Type 0) : Type 0 where
  pub list : Surface → (iid page : ℕ) → S → Reply (List NoteRow)
  pub post :
      Surface → (iid : ℕ) → (discussion_id : Option String) → (body : String) → S → Reply ℕ × S

-- `marker`
abbrev pub marker : ℕ → String
marker outbox_id = text_append "<!-- eastwatch: outbox=" (text_append (decimal outbox_id) " -->")

-- `needle in text`
unfoldable pub holds : String → String → Bool
unfolding strip
holds needle String.[] = is_some (strip needle String.[])
holds needle (String.◌∷◌ c s) = is_some (strip needle (String.◌∷◌ c s)) || holds needle s

abbrev pub marked : String → NoteRow → Bool
marked needle n = holds needle (or_default n.body "")

-- `body.rstrip()` with the marker
abbrev pub note_body : String → String → String
note_body body mark = text_append (trim_end body) (text_append "\n\n" mark)

abbrev pub discussion_of : Option String → Option String
discussion_of none = none
discussion_of (some id) = if nonempty id then some id else none

module _ {S : Type 0} (api : NotesApi S) (target : Target) where
  -- The pages, with the number of them that are left: the note with the marker, if one is found.
  unfoldable pub find_note : (left page : ℕ) → (mark : String) → S → Result (Option ℕ)
  unfolding holds
  find_note zero page mark s = err Error.runtime
  find_note (suc left) page mark s =
      let later = find_note left (suc page) mark s in
      elim (api.list target.surface target.iid page s) [
        | failed status e ↦ err (Error.transient e)
        | answered notes ↦ elim (find_where (marked mark) notes) [
          | some n ↦ ok (some n.note_id)
          | none ↦ if ltb (length notes) per_page then ok none else later
        ]
      ]

  abbrev pub posted : Reply ℕ × S → Result ℕ × S
  posted (answered id, s) = (ok id, s)
  posted (failed status e, s) = (err (Error.transient e), s)

  -- A discussion that is gone: a note by itself instead.
  abbrev pub or_top_level : String → Reply ℕ × S → Result ℕ × S
  or_top_level body (answered id, s) = (ok id, s)
  or_top_level body (failed status e, s) =
      let again = posted (api.post target.surface target.iid none body s) in
      if is_404 status then again else (err (Error.transient e), s)

  unfoldable pub post_note : String → S → Result ℕ × S
  post_note body s = elim (discussion_of target.discussion_id) [
    | none ↦ posted (api.post target.surface target.iid none body s)
    | some id ↦ or_top_level body (api.post target.surface target.iid (some id) body s)
  ]

  -- When the pages have been searched.
  abbrev pub unless_found : String → S → Result (Option ℕ) → Result ℕ × S
  unless_found body s (err e) = (err e, s)
  unless_found body s (ok (some id)) = (ok id, s)
  unless_found body s (ok none) = post_note body s

  unfoldable pub ensure_note : (outbox_id : ℕ) → (body : String) → S → Result ℕ × S
  unfolding find_note post_note
  ensure_note outbox_id body s =
      unless_found (note_body body (marker outbox_id)) s (find_note page_cap 1 (marker outbox_id) s)
