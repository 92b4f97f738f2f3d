-- ===== src/Dispatch/Hints.antt =====
-- `parse_hint` and `split_spec`: the model spec that a text names.
use Prim.Native.Char.{Char, code}
use eastwatch.Prelude.{
  ℕ, Bool, true, false, Option, none, some, String, List, [], ◌∷◌, text_append, str_eq, leb, ◌==◌,
  ◌&&◌, ◌||◌, not, if◌then◌else◌,
}

-- Why a dispatch is turned down, the exception DispatchRejected.
pub record Rejection : Type 0 where
  pub reason : String
  pub set_failed_label : Bool

-- The rest of a text behind a prefix.
unfoldable pub strip : String → String → Option String
strip String.[] s = some s
strip (String.◌∷◌ c p) String.[] = none
strip (String.◌∷◌ c p) (String.◌∷◌ d s) =
    let rest = strip p s in if code c == code d then rest else none

-- The longest prefix in a class of characters, and the rest.
unfoldable pub span : (Char → Bool) → String → String × String
span p String.[] = (String.[], String.[])
span p (String.◌∷◌ c s) =
    let (front, rest) = span p s in
    if p c then (String.◌∷◌ c front, rest) else (String.[], String.◌∷◌ c s)

abbrev pub between : ℕ → ℕ → Char → Bool
between low high c = leb low (code c) && leb (code c) high

-- [a-z]
abbrev pub is_lower : Char → Bool
is_lower = between 97 122

-- [A-Za-z0-9._-]
abbrev pub is_model : Char → Bool
is_model c =
    between 65 90 c || is_lower c || between 48 57 c || code c == 46 || code c == 95 || code c == 45

-- `\\?\]`
unfoldable pub closes : String → Bool
unfolding strip
closes s = elim (strip "]" s) [
  | some rest ↦ true
  | none ↦ elim (strip "\\]" s) [ some rest ↦ true | none ↦ false ]
]

abbrev pub nonempty : String → Bool
nonempty s = not (str_eq s "")

-- Behind `provider:`. No character of a model may follow it in a match, so the lazy group takes
-- the whole run of them; likewise for the effort.
unfoldable pub model_and_effort : String → Option (String × Option String)
unfolding span strip closes
model_and_effort s =
    let (model, rest) = span is_model s in
    if not (nonempty model)
    then none
    else if closes rest
    then some (model, none)
    else elim (strip ":" rest) [
      | none ↦ none
      | some tail ↦
          let (effort, behind) = span is_lower tail in
          if nonempty effort && closes behind then some (model, some effort) else none
    ]

-- Behind the bracket: the three groups joined by colons.
unfoldable pub spec_of : String → String → Option String
unfolding model_and_effort strip
spec_of provider s = elim (strip (text_append provider ":") s) [
  | none ↦ none
  | some tail ↦ elim (model_and_effort tail) [
    | none ↦ none
    | some (model, none) ↦ some (text_append provider (text_append ":" model))
    | some (model, some effort) ↦
        some (text_append provider (text_append ":" (text_append model (text_append ":" effort))))
  ]
]

abbrev pub or_else {ℓ} : {A : Type ℓ} → Option A → Option A → Option A
or_else none o = o
or_else (some a) o = some a

-- HINT_RE.search: the first bracket that opens a hint. A backslash before it adds nothing to the groups.
unfoldable pub search_hint : String → Option String
unfolding spec_of
search_hint String.[] = none
search_hint (String.◌∷◌ c s) =
    let later = search_hint s in
    if code c == 91 then or_else (or_else (spec_of "claude" s) (spec_of "pi" s)) later else later

-- The first text with a hint.
unfoldable pub parse_hint : List String → Option String
unfolding search_hint
parse_hint [] = none
parse_hint (text ∷ texts) = or_else (search_hint text) (parse_hint texts)

-- `text.split(":")`
unfoldable pub split_colon : String → String × List String
split_colon String.[] = (String.[], [])
split_colon (String.◌∷◌ c s) =
    let (first, others) = split_colon s in
    if code c == 58 then (String.[], first ∷ others) else (String.◌∷◌ c first, others)

abbrev pub spec_parts : String → List String → Option (String × String × Option String)
spec_parts provider (model ∷ []) =
    if nonempty provider && nonempty model then some (provider, model, none) else none
spec_parts provider (model ∷ effort ∷ []) =
    if nonempty provider && nonempty model then some (provider, model, some effort) else none
spec_parts provider _ = none

-- Provider, model and effort of a spec, or `none` for an invalid one.
unfoldable pub split_spec : String → Option (String × String × Option String)
unfolding split_colon
split_spec spec = let (provider, others) = split_colon spec in spec_parts provider others
