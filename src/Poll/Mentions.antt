-- ===== src/Poll/Mentions.antt =====
-- The texts of src/eastwatch/watcher.py that the hosted cycle reads and writes:
-- `agent_mention_question`, `note_position_label`, `surface_state` and `mr_comment_context`.
-- Python folds the case of every script; only ASCII letters fold to those that are compared with here.
use Prim.Native.Char.{Char, code}
use eastwatch.Prelude.{
  ℕ, ◌+◌, Bool, true, false, Option, none, some, String, List, [], ◌∷◌, text_append, text_take,
  text_drop, decimal, or_default, str_eq, ◌==◌, ◌&&◌, ◌||◌, not, if◌then◌else◌,
}
use eastwatch.Dispatch.Hints.{between, nonempty}
use eastwatch.Poll.{Position, PolledRequest}

-- The characters that `str.isspace` and `\s` know.
abbrev pub is_space : Char → Bool
is_space c =
    between 9 13 c
    || between 28 32 c
    || code c == 133
    || code c == 160
    || code c == 5760
    || between 8192 8202 c
    || between 8232 8233 c
    || code c == 8239
    || code c == 8287
    || code c == 12288

abbrev pub trim_start : String → String
trim_start String.[] = String.[]
trim_start (String.◌∷◌ c s) = let rest = trim_start s in if is_space c then rest else String.◌∷◌ c s

abbrev pub trim_end : String → String
trim_end String.[] = String.[]
trim_end (String.◌∷◌ c s) =
    let rest = trim_end s in
    if is_space c && not (nonempty rest) then String.[] else String.◌∷◌ c rest

-- `text.strip()`
abbrev pub trim : String → String
trim s = trim_end (trim_start s)

-- The code of `c.lower()`
abbrev pub lower : Char → ℕ
lower c = if between 65 90 c then code c + 32 else code c

-- `text.lower().startswith(prefix)`
abbrev pub starts_with : String → String → Bool
starts_with String.[] s = true
starts_with (String.◌∷◌ p prefix) String.[] = false
starts_with (String.◌∷◌ p prefix) (String.◌∷◌ c s) = code p == lower c && starts_with prefix s

-- `text.lower() == word`
abbrev pub folds_to : String → String → Bool
folds_to String.[] String.[] = true
folds_to (String.◌∷◌ p word) (String.◌∷◌ c s) = code p == lower c && folds_to word s
folds_to _ _ = false

-- `sep.join(texts)`
abbrev pub join : String → List String → String
join sep [] = ""
join sep (t ∷ []) = t
join sep (t ∷ u ∷ ts) = text_append t (text_append sep (join sep (u ∷ ts)))

-- `agent_mention_question`
unfoldable pub agent_mention_question : String → Option String
agent_mention_question body =
    let stripped = trim body in
    if starts_with "@agent" stripped
    then some (or_default (some (trim (text_drop 6 stripped))) "(no question text)")
    else none

abbrev pub place : Option String → Option ℕ → Option String
place none line = none
place (some path) none = none
place (some path) (some line) =
    if nonempty path then some (text_append path (text_append ":" (decimal line))) else none

abbrev pub between_places : Option String → Option String → Option String
between_places none new = new
between_places (some old) none = some old
between_places (some old) (some new) =
    if str_eq old new then some new else some (text_append old (text_append " -> " new))

-- `note_position_label`
unfoldable pub note_position_label : Option Position → Option String
note_position_label none = none
note_position_label (some p) =
    between_places (place p.old_path p.old_line) (place p.new_path p.new_line)

-- `surface_state(state) in {a, b}`
abbrev pub state_among : (a b : String) → Option String → Bool
state_among a b none = false
state_among a b (some state) = folds_to a state || folds_to b state

abbrev pub is_open : Option String → Bool
is_open = state_among "opened" "open"

-- `mr_is_closed_or_merged`
unfoldable pub mr_is_closed_or_merged : PolledRequest → Bool
mr_is_closed_or_merged mr =
    state_among "closed" "merged" mr.state || nonempty (or_default mr.merged_at "")

-- `str(mr.get("iid") or "")`
abbrev pub iid_text : Option ℕ → String
iid_text none = ""
iid_text (some n) = if n == 0 then "" else decimal n

abbrev pub described : String → List String → List String
described description rest =
    if nonempty description
    then "" ∷ "MR description:" ∷ "" ∷ text_take 6000 description ∷ rest
    else rest

abbrev pub located : Option String → String
located none = "Comment:"
located (some location) = join "" ("Comment at `" ∷ location ∷ "` (line-level diff note):" ∷ [])

abbrev pub asked : Option String → String → String
asked none comment_body = comment_body
asked (some question) comment_body = question

-- `mr_comment_context`
unfoldable pub mr_comment_context :
    PolledRequest → Option Position → (comment_body : String) → Option String → String
unfolding note_position_label
mr_comment_context mr position comment_body question = join "\n" (
    join "" ("Owner commented on merge request !" ∷ iid_text mr.iid ∷ "." ∷ [])
    ∷ ""
    ∷ text_append "MR title: " (or_default mr.title "(untitled)")
    ∷ text_append "MR URL: " (or_default mr.web_url "(unknown)")
    ∷ text_append "Source branch: " (or_default mr.source_branch "(unknown)")
    ∷ text_append "Target branch: " (or_default mr.target_branch "(unknown)")
    ∷ described (trim (or_default mr.description "")) (
        ""
        ∷ located (note_position_label position)
        ∷ ""
        ∷ or_default (some (asked question comment_body)) "(no comment text)"
        ∷ []))
