-- ===== src/Dispatch/Specs.antt =====
-- Model specs: what a hint names, and how it splits again.
use text.Mathlib.TextLemmas.{nil-append, cons-append}
use Prim.Native.Char.{Char, code}
use eastwatch.Prelude.{
  all_chars, Bool, true, Option, none, some, String, List, [], ◌∷◌, text_append, ◌==◌, ◌&&◌, not,
  ◌≡◌, refl, subst, ◌∙◌, ap, inl, inr, arith, Option-cases, Bool-cases,
}
use eastwatch.Dispatch.Hints.{
  strip, span, is_lower, is_model, closes, nonempty, model_and_effort, spec_of, or_else,
  search_hint, parse_hint, split_colon, split_spec,
}

abbrev pub is_plain : Char → Bool
is_plain c = not (code c == 58)

-- The text of a spec, as a hint and the allowed specs of a workspace have it.
abbrev pub spec_text : String × String × Option String → String
spec_text (provider, model, none) = text_append provider (text_append ":" model)
spec_text (provider, model, some effort) =
    text_append provider (text_append ":" (text_append model (text_append ":" effort)))

abbrev colon : Char
colon = ":"

colon-append : (t : String) → text_append ":" t ≡ String.◌∷◌ colon t
colon-append t = cons-append colon String.[] t ∙ ap (String.◌∷◌ colon) (nil-append t)

split_colon_plain : (s : String) → all_chars is_plain s ≡ true → split_colon s ≡ (s, [])
unfolding split_colon
split_colon_plain String.[] h = refl
split_colon_plain (String.◌∷◌ c s) h =
    rw (split_colon_plain s (ground (arith, h))) (ground (arith, h))

split_colon-append :
    (s t : String)
    → all_chars is_plain s ≡ true
    → split_colon (text_append s (text_append ":" t)) ≡ (s, (split_colon t).0 ∷ (split_colon t).1)
unfolding split_colon
split_colon-append String.[] t h = rw (nil-append (text_append ":" t), colon-append t)
split_colon-append (String.◌∷◌ c s) t h =
    rw (cons-append c s (text_append ":" t))
      (rw (split_colon-append s t (ground (arith, h))) (ground (arith, h)))

abbrev pub effort_is_plain : Option String → Bool
effort_is_plain none = true
effort_is_plain (some effort) = all_chars is_plain effort

-- A spec printed from its parts splits into these parts, if none of them has a colon, and provider and
-- model are not empty.
pub split_spec-spec_text :
    (provider model : String) (effort : Option String)
    → (all_chars is_plain provider && nonempty provider) ≡ true
    → (all_chars is_plain model && nonempty model) ≡ true
    → effort_is_plain effort ≡ true
    → split_spec (spec_text (provider, model, effort)) ≡ some (provider, model, effort)
unfolding split_spec
split_spec-spec_text provider model none p m e =
    rw (split_colon-append provider model (ground (arith, p)))
      (rw (split_colon_plain model (ground (arith, m))) (ground (arith, p, m)))
split_spec-spec_text provider model (some effort) p m e =
    rw
      (split_colon-append provider (text_append model (text_append ":" effort)) (ground (arith, p)))
      (rw (split_colon-append model effort (ground (arith, m)))
        (rw (split_colon_plain effort e) (ground (arith, p, m))))

span-plain :
    (p : Char → Bool)
    → ((c : Char) → p c ≡ true → is_plain c ≡ true)
    → (s : String) → all_chars is_plain (span p s).0 ≡ true
unfolding span
span-plain p plain String.[] = refl
span-plain p plain (String.◌∷◌ c s) = elim (Bool-cases (p c)) [
  | inl e ↦ rw e (ground (arith, plain c e, span-plain p plain s))
  | inr e ↦ rw e
]

model_plain : (c : Char) → is_model c ≡ true → is_plain c ≡ true
model_plain c h = ground (arith, h)

lower_plain : (c : Char) → is_lower c ≡ true → is_plain c ≡ true
lower_plain c h = ground (arith, h)

abbrev Splittable : String × Option String → Type 0
Splittable (model, effort) =
    ((all_chars is_plain model && nonempty model) ≡ true) × (effort_is_plain effort ≡ true)

abbrev Gives : Option (String × Option String) → Type 0
Gives none = Unit
Gives (some parts) = Splittable parts

model_and_effort-Splittable : (s : String) → Gives (model_and_effort s)
unfolding model_and_effort
model_and_effort-Splittable s =
    let model = (span is_model s).0 in
    let rest = (span is_model s).1 in
    let plain = span-plain is_model model_plain s in
    elim (Bool-cases (nonempty model)) [
      | inr e ↦ rw (e, model_and_effort) tt
      | inl e ↦ elim (Bool-cases (closes rest)) [
        | inl shut ↦ rw (e, model_and_effort, shut) (rw (plain, e), refl)
        | inr on ↦ elim (Option-cases (strip ":" rest)) [
          | inl n ↦ rw (e, model_and_effort, on, n) tt
          | inr (tail, n) ↦
              elim (Bool-cases (nonempty (span is_lower tail).0 && closes (span is_lower tail).1)) [
                | inl good ↦
                    rw (e, model_and_effort, on, n, good)
                      (rw (plain, e), span-plain is_lower lower_plain tail)
                | inr bad ↦ rw (e, model_and_effort, on, n, bad) tt
              ]
        ]
      ]
    ]

-- The spec has parts, of which it is the text and into which it splits.
abbrev pub Splits : Option String → Type 0
Splits none = Unit
Splits (some spec) =
    (parts : String × String × Option String) × (spec ≡ spec_text parts)
    × (split_spec spec ≡ some parts)

spec_text-Splits :
    (provider : String) (parts : String × Option String)
    → (all_chars is_plain provider && nonempty provider) ≡ true
    → Splittable parts
    → Splits (some (spec_text (provider, parts.0, parts.1)))
spec_text-Splits provider (model, effort) p (m, e) =
    ((provider, model, effort), refl, split_spec-spec_text provider model effort p m e)

spec_of-Splits :
    (provider s : String)
    → (all_chars is_plain provider && nonempty provider) ≡ true
    → Splits (spec_of provider s)
unfolding spec_of
spec_of-Splits provider s p = elim (Option-cases (strip (text_append provider ":") s)) [
  | inl n ↦ rw (spec_of, n) tt
  | inr (tail, n) ↦ elim (Option-cases (model_and_effort tail)) [
    | inl k ↦ rw (spec_of, n, k) tt
    | inr ((model, none), k) ↦
        rw (spec_of, n, k)
          (spec_text-Splits provider (model, none) p
            (subst Gives k (model_and_effort-Splittable tail)))
    | inr ((model, some effort), k) ↦
        rw (spec_of, n, k)
          (spec_text-Splits provider (model, some effort) p
            (subst Gives k (model_and_effort-Splittable tail)))
  ]
]

or_else-Splits : (o k : Option String) → Splits o → Splits k → Splits (or_else o k)
or_else-Splits none k first second = second
or_else-Splits (some spec) k first second = first

search_hint-Splits : (s : String) → Splits (search_hint s)
unfolding search_hint
search_hint-Splits String.[] = tt
search_hint-Splits (String.◌∷◌ c s) = elim (Bool-cases (code c == 91)) [
  | inl e ↦ rw e (
      or_else-Splits _ _
        (or_else-Splits _ _ (spec_of-Splits "claude" s refl) (spec_of-Splits "pi" s refl))
        (search_hint-Splits s))
  | inr e ↦ rw e (search_hint-Splits s)
]

parse_hint-Splits : (texts : List String) → Splits (parse_hint texts)
unfolding parse_hint
parse_hint-Splits [] = tt
parse_hint-Splits (text ∷ texts) =
    or_else-Splits _ _ (search_hint-Splits text) (parse_hint-Splits texts)

-- The spec of a hint, in whatever texts `parse_hint` found it, is the text of a provider, a model and
-- perhaps an effort, and `split_spec` gives these back: a dispatch never finds a hint's spec invalid.
pub split_spec-parse_hint :
    (texts : List String) (spec : String)
    → parse_hint texts ≡ some spec
    → (parts : String × String × Option String) × (spec ≡ spec_text parts)
      × (split_spec spec ≡ some parts)
split_spec-parse_hint texts spec e = subst Splits e (parse_hint-Splits texts)
