-- ===== src/Notices/Markers.antt =====
-- A note that is ensured again.
use eastwatch.Prelude.{
  ℕ, true, Option, none, some, is_some, String, List, ◌∷◌, text_append, or_default, ok, ◌≡◌, refl,
  ◌∙◌, sym, ap, subst, inl, inr, arith, Option-cases, Bool-cases, Result-cases, str_eq, eq_iff,
}
use text.Mathlib.TextLemmas.{nil-append, cons-append, append_assoc}
use eastwatch.Table.{find_where}
use eastwatch.Dispatch.Hints.{strip}
use eastwatch.Poll.{Reply, answered, failed}
use eastwatch.Poll.Mentions.{trim_end}
use eastwatch.Poll.Threads.{is_404, page_cap}
use eastwatch.Notices.Notes.{
  NoteRow, Target, NotesApi, marker, holds, marked, note_body, discussion_of, find_note, posted,
  or_top_level, post_note, ensure_note,
}

strip_self : (s : String) → strip s s ≡ some String.[]
unfolding strip
strip_self String.[] = refl
strip_self (String.◌∷◌ c s) = ground (arith, strip_self s)

holds_self : (s : String) → holds s s ≡ true
unfolding holds
holds_self String.[] = ap is_some (strip_self String.[])
holds_self (String.◌∷◌ c s) = ground (arith, strip_self (String.◌∷◌ c s))

-- A text holds each of its ends.
holds-append : (s t : String) → holds t (text_append s t) ≡ true
unfolding holds
holds-append String.[] t = rw (nil-append t) (holds_self t)
holds-append (String.◌∷◌ c s) t = rw (cons-append c s t) (ground (arith, holds-append s t))

or_default_self : (t : String) → or_default (some t) "" ≡ t
or_default_self t = elim (Bool-cases (str_eq t "")) [
  | inl e ↦ rw e (sym ((eq_iff t "").0 e))
  | inr e ↦ rw e
]

-- The text of a note holds its marker, and so does a row with that text.
marked-note_body :
    (body mark : String) (id : ℕ)
    → marked mark (record { note_id = id; body = some (note_body body mark) }) ≡ true
marked-note_body body mark id = rw (or_default_self (note_body body mark)) (
    rw (sym (append_assoc (trim_end body) "\n\n" mark))
      (holds-append (text_append (trim_end body) "\n\n") mark))

module _ {S : Type 0} (api : NotesApi S) (target : Target) where
  -- A posted note is the first of the newest notes.
  abbrev pub ListsNewest : Type 0
  ListsNewest =
      (discussion_id : Option String) (text : String) (before after : S) (id : ℕ)
      → api.post target.surface target.iid discussion_id text before ≡ (answered id, after)
      → (rest : List NoteRow) × (api.list target.surface target.iid 1 after
          ≡ answered (record { note_id = id; body = some text } ∷ rest))

  -- Some request posted the note.
  abbrev WasPosted : String → ℕ → S → Type 0
  WasPosted text id after =
      (discussion_id : Option String) × (before : S) × (api.post target.surface target.iid
          discussion_id text before
        ≡ (answered id, after))

  posted-WasPosted :
      (text : String) (id : ℕ) (before after : S) (r : Reply ℕ × S)
      → api.post target.surface target.iid none text before ≡ r
      → posted api target r ≡ (ok id, after)
      → WasPosted text id after
  posted-WasPosted text id before after (answered n, s) e h = (none, before, e ∙ ground (arith, h))
  posted-WasPosted text id before after (failed status x, s) e h = absurd (ground (arith, h))

  or_top_level-WasPosted :
      (text discussion : String) (id : ℕ) (before after : S) (r : Reply ℕ × S)
      → api.post target.surface target.iid (some discussion) text before ≡ r
      → or_top_level api target text r ≡ (ok id, after)
      → WasPosted text id after
  or_top_level-WasPosted text discussion id before after (answered n, s) e h =
      (some discussion, before, e ∙ ground (arith, h))
  or_top_level-WasPosted text discussion id before after (failed status x, s) e h =
      elim (Bool-cases (is_404 status)) [
        | inl gone ↦
            posted-WasPosted text id s after (api.post target.surface target.iid none text s) refl
              (rw gone at h)
        | inr other ↦ absurd (ground (arith, rw other at h))
      ]

  post_note-WasPosted :
      (text : String) (id : ℕ) (before after : S)
      → post_note api target text before ≡ (ok id, after)
      → WasPosted text id after
  unfolding post_note
  post_note-WasPosted text id before after h =
      elim (Option-cases (discussion_of target.discussion_id)) [
        | inl e ↦
            posted-WasPosted text id before after
              (api.post target.surface target.iid none text before) refl (rw (e, post_note) at h)
        | inr (discussion, e) ↦
            or_top_level-WasPosted text discussion id before after
              (api.post target.surface target.iid (some discussion) text before) refl
              (rw (e, post_note) at h)
      ]

  found_first :
      (mark body : String) (id : ℕ) (rest : List NoteRow) (s : S)
      → api.list target.surface target.iid 1 s
        ≡ answered (record { note_id = id; body = some (note_body body mark) } ∷ rest)
      → find_note api target page_cap 1 mark s ≡ ok (some id)
  unfolding find_note find_where
  found_first mark body id rest s e = rw (e, find_note) (rw (marked-note_body body mark id))

  -- A note is posted once: when ensure_note has given an id, a second call for the same notice, with
  -- whatever text, gives the same id and sends nothing to the forge that would change it, if the forge
  -- lists a posted note first.
  pub ensure_note_again :
      (outbox_id : ℕ) (body other : String) (s s' : S) (id : ℕ)
      → ListsNewest
      → ensure_note api target outbox_id body s ≡ (ok id, s')
      → ensure_note api target outbox_id other s' ≡ (ok id, s')
  unfolding ensure_note
  ensure_note_again outbox_id body other s s' id lists h =
      elim (Result-cases (find_note api target page_cap 1 (marker outbox_id) s)) [
        | inr (x, e) ↦ absurd (ground (arith, rw (e, ensure_note) at h))
        | inl (found, e) ↦ elim (Option-cases found) [
          | inr (n, f) ↦
              let h' = rw (e, ensure_note, f) at h in
              let same : s ≡ s' = ground (arith, h') in
              let number : n ≡ id = ground (arith, h') in
              subst (λ x. ensure_note api target outbox_id other x ≡ (ok id, x)) same
                (rw (e, ensure_note, f) (ap (λ k. (ok k, s)) number))
          | inl f ↦
              let (discussion, before, sent) =
                post_note-WasPosted (note_body body (marker outbox_id)) id s s'
                  (rw (e, ensure_note, f) at h) in
              let (rest, listed) = lists discussion _ before s' id sent in
              rw (found_first (marker outbox_id) body id rest s' listed, ensure_note)
        ]
      ]
