-- ===== src/Tests/Posting.antt =====
-- The theorem on notes, applied to a forge that keeps them in a list.
use eastwatch.Prelude.{
  ℕ, suc, none, some, String, List, [], ◌∷◌, ok, ◌==◌, ◌≡◌, refl, arith, if◌then◌else◌,
}
use eastwatch.Table.{length, find_where}
use eastwatch.Poll.{Surface, answered}
use eastwatch.Dispatch.Hints.{strip}
use eastwatch.Notices.Notes.{NoteRow, Target, NotesApi, holds, note_body, marker, ensure_note}
use eastwatch.Notices.Markers.{ListsNewest, ensure_note_again}

abbrev row_of : ℕ → String → NoteRow
row_of id text = record { note_id = id; body = some text }

abbrev board : NotesApi (List NoteRow)
board = record {
  list = λ surface iid page notes. answered (if page == 1 then notes else []);
  post = λ surface iid discussion text notes.
      (answered (suc (length notes)), row_of (suc (length notes)) text ∷ notes);
}

abbrev issue_target : Target
issue_target = record { surface = Surface.issue; iid = 4; discussion_id = none }

board-ListsNewest : ListsNewest board issue_target
board-ListsNewest discussion text before after id h = (before, ground (arith, h))

abbrev noted : List NoteRow
noted = row_of 1 (note_body "done" (marker 8)) ∷ []

ensure_note_again_example : ensure_note board issue_target 8 "again" noted ≡ (ok 1, noted)
unfolding ensure_note holds strip find_where
ensure_note_again_example =
    ensure_note_again board issue_target 8 "done" "again" [] noted 1 board-ListsNewest refl
