-- ===== src/Api/Confined.antt =====
-- `relative_path` of src/eastwatch/controller/api.py: where the paths that it lets through may lead.
use text.Mathlib.TextLemmas.{nil-append, cons-append}
use Prim.Native.Char.{Char, code}
use eastwatch.Prelude.{
  Bool, true, false, some, String, List, [], ◌∷◌, all_chars, text_append, str_eq, ◌==◌, ◌&&◌, not,
  ◌≡◌, refl, subst, ap, ◌∙◌, inl, inr, arith, Bool-cases,
}
use eastwatch.Table.{select_where, has_where}
use eastwatch.Table.Every.{All}
use eastwatch.Poll.Mentions.{join}
use eastwatch.Api.Paths.{split_slash, is_part, parts, is_absolute, path_text, relative_path}

abbrev is_inner : Char → Bool
is_inner c = not (code c == 47)

abbrev slash : Char
slash = "/"

slash-append : (t : String) → text_append "/" t ≡ String.◌∷◌ slash t
slash-append t = cons-append slash String.[] t ∙ ap (String.◌∷◌ slash) (nil-append t)

-- A name of one file or directory, as `parts` gives them.
abbrev IsPiece : String → Type 0
IsPiece p = (all_chars is_inner p && is_part p) ≡ true

split_slash-inner :
    (s : String)
    → (all_chars is_inner (split_slash s).0 ≡ true)
      × All (λ p. all_chars is_inner p ≡ true) (split_slash s).1
unfolding split_slash
split_slash-inner String.[] = (refl, tt)
split_slash-inner (String.◌∷◌ c s) = elim (Bool-cases (code c == 47)) [
  | inl e ↦ rw e (refl, split_slash-inner s)
  | inr e ↦ rw e (ground (arith, e, (split_slash-inner s).0), (split_slash-inner s).1)
]

All-picked_both :
    (q : String → Bool) (ps : List String)
    → All (λ p. all_chars is_inner p ≡ true) ps
    → All (λ p. (all_chars is_inner p && q p) ≡ true) (select_where q ps)
unfolding select_where
All-picked_both q [] a = tt
All-picked_both q (p ∷ ps) a = elim (Bool-cases (q p)) [
  | inl e ↦ rw e (rw (a.0, e), All-picked_both q ps a.1)
  | inr e ↦ rw e (All-picked_both q ps a.1)
]

parts-Pieces : (value : String) → All IsPiece (parts value)
unfolding parts
parts-Pieces value = All-picked_both is_part _ (split_slash-inner value)

split_slash_inner : (p : String) → all_chars is_inner p ≡ true → split_slash p ≡ (p, [])
unfolding split_slash
split_slash_inner String.[] h = refl
split_slash_inner (String.◌∷◌ c s) h =
    rw (split_slash_inner s (ground (arith, h))) (ground (arith, h))

split_slash-append :
    (p t : String)
    → all_chars is_inner p ≡ true
    → split_slash (text_append p (text_append "/" t)) ≡ (p, (split_slash t).0 ∷ (split_slash t).1)
unfolding split_slash
split_slash-append String.[] t h = rw (nil-append (text_append "/" t), slash-append t)
split_slash-append (String.◌∷◌ c s) t h =
    rw (cons-append c s (text_append "/" t))
      (rw (split_slash-append s t (ground (arith, h))) (ground (arith, h)))

split_slash-join :
    (p : String) (ps : List String)
    → All IsPiece (p ∷ ps)
    → split_slash (join "/" (p ∷ ps)) ≡ (p, ps)
split_slash-join p [] a = split_slash_inner p (ground (arith, a.0))
split_slash-join p (q ∷ ps) a =
    rw (split_slash-append p (join "/" (q ∷ ps)) (ground (arith, a.0)), split_slash-join q ps a.1)

select-Pieces : (ps : List String) → All IsPiece ps → select_where is_part ps ≡ ps
unfolding select_where
select-Pieces [] a = refl
select-Pieces (p ∷ ps) a =
    let h : is_part p ≡ true = ground (arith, a.0) in rw (h, select-Pieces ps a.1)

parts-path_text : (ps : List String) → All IsPiece ps → parts (path_text ps) ≡ ps
unfolding parts split_slash select_where
parts-path_text [] a = refl
parts-path_text (p ∷ ps) a = rw (split_slash-join p ps a) (select-Pieces (p ∷ ps) a)

piece_relative : (p t : String) → IsPiece p → is_absolute (text_append p t) ≡ false
piece_relative String.[] t h = absurd (ground (arith, h))
piece_relative (String.◌∷◌ c s) t h = rw (cons-append c s t) (ground (arith, h))

path_text_relative : (ps : List String) → All IsPiece ps → is_absolute (path_text ps) ≡ false
path_text_relative [] a = refl
path_text_relative (String.[] ∷ []) a = refl
path_text_relative (String.◌∷◌ c s ∷ []) a = ground (arith, a.0)
path_text_relative (p ∷ q ∷ ps) a = piece_relative p (text_append "/" (join "/" (q ∷ ps))) a.0

-- A path that is let through stays below the directory that it is taken from: it is not absolute, it
-- has no part "..", and its parts are those of the text that was sent.
pub relative_path_confined :
    (value p : String)
    → relative_path value ≡ some p
    → (is_absolute p ≡ false)
      × (has_where (λ q. str_eq q "..") (parts p) ≡ false)
      × (parts p ≡ parts value)
unfolding relative_path
relative_path_confined value p h =
    let text = path_text (parts value) in
    let same : parts text ≡ parts value = parts-path_text (parts value) (parts-Pieces value) in
    elim (Bool-cases (has_where (λ q. str_eq q "..") (parts value))) [
      | inl e ↦ absurd (ground (arith, h, e))
      | inr e ↦
          let is_text : text ≡ p = ground (arith, h, e) in
          subst
            (λ x.
              (is_absolute x ≡ false)
              × (has_where (λ q. str_eq q "..") (parts x) ≡ false)
              × (parts x ≡ parts value))
            is_text
            (path_text_relative (parts value) (parts-Pieces value), ap (has_where _) same ∙ e, same)
    ]
