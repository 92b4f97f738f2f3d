-- ===== src/Api/Paths.antt =====
-- `RunReferencesBody` of src/eastwatch/controller/api.py: the names and paths that a runner reports.
use Prim.Native.Char.{code}
use eastwatch.Prelude.{
  Bool, false, Option, none, some, String, List, [], ◌∷◌, all_chars, text_length, leb, str_eq, ◌==◌,
  ◌&&◌, ◌||◌, not, if◌then◌else◌,
}
use eastwatch.Table.{select_where, has_where}
use eastwatch.Models.{RunReferences}
use eastwatch.Dispatch.Hints.{is_model, nonempty}
use eastwatch.Poll.Mentions.{join}

-- `text.split("/")`
unfoldable pub split_slash : String → String × List String
split_slash String.[] = (String.[], [])
split_slash (String.◌∷◌ c s) =
    let (first, others) = split_slash s in
    if code c == 47 then (String.[], first ∷ others) else (String.◌∷◌ c first, others)

abbrev pub is_part : String → Bool
is_part piece = nonempty piece && not (str_eq piece ".")

-- `PurePosixPath(value).parts`, of a path that is not absolute
unfoldable pub parts : String → List String
unfolding split_slash
parts value = let (first, others) = split_slash value in select_where is_part (first ∷ others)

abbrev pub is_absolute : String → Bool
is_absolute String.[] = false
is_absolute (String.◌∷◌ c s) = code c == 47

-- `str(path)`
abbrev pub path_text : List String → String
path_text [] = "."
path_text (p ∷ ps) = join "/" (p ∷ ps)

-- `relative_path`: `none` is its ValueError.
unfoldable pub relative_path : String → Option String
unfolding parts
relative_path value =
    if is_absolute value
      || (has_where (λ p. str_eq p "..") (parts value) || (str_eq value "" || str_eq value "."))
    then none
    else some (path_text (parts value))

-- `Field(min_length=1, max_length=80, pattern=r"^[A-Za-z0-9._-]+$")`
abbrev pub is_name : String → Bool
is_name s = nonempty s && (leb (text_length s) 80 && all_chars is_model s)

abbrev pub optional_path : Option String → Option (Option String)
optional_path none = some none
optional_path (some value) = elim (relative_path value) [ none ↦ none | some p ↦ some (some p) ]

abbrev pub with_paths :
    RunReferences → Option String → Option String → Option (Option String) → Option RunReferences
with_paths refs (some worktree) (some run_dir) (some session) = some (record refs {
  worktree_relpath = worktree;
  run_dir_relpath = run_dir;
  session_file_relpath = session;
})
with_paths refs _ _ _ = none

-- The references of a request as the route hands them on, if they are valid.
unfoldable pub to_domain : RunReferences → Option RunReferences
unfolding relative_path
to_domain refs =
    if is_name refs.run_id && is_name refs.tmux_session
    then with_paths refs (relative_path refs.worktree_relpath) (relative_path refs.run_dir_relpath)
        (optional_path refs.session_file_relpath)
    else none
