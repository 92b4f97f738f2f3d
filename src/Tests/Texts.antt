-- ===== src/Tests/Texts.antt =====
-- The theorems on texts, applied to a spec with an effort, to a hint in a comment and to a path.
use eastwatch.Prelude.{str_eq, false, Option, some, String, [], ◌∷◌, ◌≡◌, refl}
use eastwatch.Table.{has_where, select_where}
use eastwatch.Api.Paths.{is_absolute, parts, relative_path}
use eastwatch.Api.Confined.{relative_path_confined}
use eastwatch.Dispatch.Hints.{parse_hint, split_spec}
use eastwatch.Dispatch.Specs.{spec_text, split_spec-spec_text, split_spec-parse_hint}

split_spec-spec_text_example :
    split_spec (spec_text ("pi", "m-2", some "low")) ≡ some ("pi", "m-2", some "low")
split_spec-spec_text_example = split_spec-spec_text "pi" "m-2" (some "low") refl refl refl

split_spec-parse_hint_example :
    (parts : String × String × Option String) × ("pi:m-2:low" ≡ spec_text parts)
    × (split_spec "pi:m-2:low" ≡ some parts)
unfolding parse_hint
split_spec-parse_hint_example =
    split_spec-parse_hint ("no hint [pi:]" ∷ "try [pi:m-2:low] first" ∷ []) "pi:m-2:low" refl

relative_path_confined_example :
    (is_absolute "runs/7" ≡ false)
    × (has_where (λ q. str_eq q "..") (parts "runs/7") ≡ false)
    × (parts "runs/7" ≡ parts "runs/./7/")
unfolding relative_path has_where select_where
relative_path_confined_example = relative_path_confined "runs/./7/" "runs/7" refl
