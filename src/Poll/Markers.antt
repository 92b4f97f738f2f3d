-- ===== src/Poll/Markers.antt =====
-- `parse_mr_marker` of src/eastwatch/watcher.py: the issue that the description of a merge request
-- names in a comment `<!-- eastwatch: source_project=… source_issue_iid=… -->`. Of the digits that
-- `str.isdigit` knows only the ASCII ones are modelled.
use Prim.Native.Char.{Char, code}
use eastwatch.Prelude.{
  ℕ, zero, suc, ◌+◌, ◌-◌, ◌*◌, Bool, true, false, Option, none, some, String, List, [], ◌∷◌, Dict,
  text_append, text_length, or_default, str_eq, ◌==◌, ◌&&◌, ◌||◌, not, if◌then◌else◌,
}
use eastwatch.Dispatch.Hints.{strip, span, between, is_lower, nonempty, or_else}
use eastwatch.Poll.{ProjectConfig}
use eastwatch.Poll.Mentions.{is_space, trim_start, trim_end, lower}

-- [A-Za-z_]
abbrev pub is_name_start : Char → Bool
is_name_start c = between 65 90 c || is_lower c || code c == 95

abbrev pub is_digit : Char → Bool
is_digit = between 48 57

-- [A-Za-z0-9_]
abbrev pub is_name : Char → Bool
is_name c = is_name_start c || is_digit c

-- [^\s>]
abbrev pub is_value : Char → Bool
is_value c = not (is_space c) && not (code c == 62)

abbrev pub starts_name : String → Bool
starts_name String.[] = false
starts_name (String.◌∷◌ c s) = is_name_start c

-- MR_MARKER_FIELD_RE at the start of a text: `([A-Za-z_][A-Za-z0-9_]*)=([^\s>]+)`. No character of a
-- name is an equals sign.
unfoldable pub field_at : String → Option (String × String)
unfolding strip span
field_at s =
    let (name, rest) = span is_name s in
    elim (strip "=" rest) [
      | none ↦ none
      | some tail ↦
          let (value, behind) = span is_value tail in
          if starts_name s && nonempty value then some (name, value) else none
    ]

-- MR_MARKER_FIELD_RE.findall; `skip` counts the characters of a match that are still to pass.
unfoldable pub fields_from : (skip : ℕ) → String → Dict
unfolding field_at
fields_from skip String.[] = []
fields_from (suc skip) (String.◌∷◌ c s) = fields_from skip s
fields_from zero (String.◌∷◌ c s) = elim (field_at (String.◌∷◌ c s)) [
  | none ↦ fields_from zero s
  | some (name, value) ↦ (name, value) ∷ fields_from (text_length name + text_length value) s
]

-- The value of a key in `dict(pairs)`: the last pair has it.
abbrev pub last_value : String → Dict → Option String
last_value key [] = none
last_value key ((k, v) ∷ pairs) =
    or_else (last_value key pairs) (if str_eq k key then some v else none)

-- Behind a prefix of lower-case letters and signs, whatever the case. With IGNORECASE the long s
-- (U+017F) matches an s.
abbrev pub strip_folded : String → String → Option String
strip_folded String.[] s = some s
strip_folded (String.◌∷◌ p prefix) String.[] = none
strip_folded (String.◌∷◌ p prefix) (String.◌∷◌ c s) =
    let rest = strip_folded prefix s in
    if code p == lower c || (code p == 115 && code c == 383) then rest else none

-- What stands before the first `-->`, if there is one.
abbrev pub until_close : String → Option String
until_close String.[] = none
until_close (String.◌∷◌ c s) =
    let later = until_close s in
    elim (strip "-->" (String.◌∷◌ c s)) [
      | some rest ↦ some String.[]
      | none ↦ elim later [ none ↦ none | some front ↦ some (String.◌∷◌ c front) ]
    ]

abbrev pub either_word : String → Option String
either_word s = or_else (strip_folded "eastwatch:" s) (strip_folded "board-watcher:" s)

-- MR_MARKER_RE at the start of a text: the group. The lazy group ends before the spaces in front of
-- the first `-->`.
unfoldable pub marker_at : String → Option String
unfolding strip
marker_at s = elim (strip "<!--" s) [
  | none ↦ none
  | some tail ↦ elim (either_word (trim_start tail)) [
    | none ↦ none
    | some body ↦ elim (until_close (trim_start body)) [
      | none ↦ none
      | some front ↦ some (trim_end front)
    ]
  ]
]

-- How much of a text is behind the end of the first `-->`.
abbrev pub left_behind : String → ℕ
left_behind String.[] = 0
left_behind (String.◌∷◌ c s) =
    let later = left_behind s in
    elim (strip "-->" (String.◌∷◌ c s)) [ some rest ↦ text_length rest | none ↦ later ]

-- MR_MARKER_RE.finditer: the groups. The next match is sought behind the last one.
unfoldable pub markers_from : (skip : ℕ) → String → List String
unfolding marker_at
markers_from skip String.[] = []
markers_from (suc skip) (String.◌∷◌ c s) = markers_from skip s
markers_from zero (String.◌∷◌ c s) = elim (marker_at (String.◌∷◌ c s)) [
  | none ↦ markers_from zero s
  | some group ↦ group ∷ markers_from (text_length s - left_behind s) s
]

abbrev pub digits_value : ℕ → String → Option ℕ
digits_value acc String.[] = some acc
digits_value acc (String.◌∷◌ c s) =
    let rest = digits_value (acc * 10 + (code c - 48)) s in if is_digit c then rest else none

-- `int(text)`, if `text.isdigit()`
abbrev pub number_of : String → Option ℕ
number_of s = if nonempty s then digits_value 0 s else none

abbrev pub is_source : ProjectConfig → Option String → Bool
is_source proj none = false
is_source proj (some source) =
    str_eq source proj.path || str_eq source (text_append proj.host (text_append "/" proj.path))

-- Whether the field `conversation_key` is missing, or the number of the issue.
abbrev pub agrees : ℕ → Option String → Bool
agrees iid none = true
agrees iid (some key) = elim (number_of key) [ none ↦ false | some n ↦ n == iid ]

-- One turn of the loop of `parse_mr_marker`.
unfoldable pub marked_issue : ProjectConfig → String → Option ℕ
unfolding fields_from
marked_issue proj marker =
    let fields = fields_from 0 marker in
    if not (is_source proj (last_value "source_project" fields))
    then none
    else elim (number_of (or_default (last_value "source_issue_iid" fields) "")) [
      | none ↦ none
      | some iid ↦ if agrees iid (last_value "conversation_key" fields) then some iid else none
    ]

abbrev pub first_marked : ProjectConfig → List String → Option ℕ
first_marked proj [] = none
first_marked proj (m ∷ ms) = or_else (marked_issue proj m) (first_marked proj ms)

-- `parse_mr_marker`
unfoldable pub parse_mr_marker : Option String → ProjectConfig → Option ℕ
unfolding markers_from marked_issue
parse_mr_marker description proj = first_marked proj (markers_from 0 (or_default description ""))
