-- ===== src/Jobs/Rows.antt =====
-- The primary key of `jobs`, and an UPDATE of the one row that a method has selected.
use eastwatch.Prelude.{ℕ, Bool, true, String, some, List, ◌≡◌, subst, sym, arith, str_eq}
use eastwatch.Table.{find_where, update_where}
use eastwatch.Table.Every.{All-map, find-holds}
use eastwatch.Table.Keys.{Unique, Unique-find_key}
use eastwatch.Table.Follows.{Follows, Match, Match-update}
use eastwatch.Schema.{Db, Job}
use eastwatch.Store.Leases.{held_by}
use eastwatch.Jobs.{Evolves, Settles, Settles-refl}

abbrev pub job_key : Job → String
job_key j = j.job_id

-- No two jobs have one `job_id`.
abbrev pub Keyed : Db → Type 0
Keyed db = Unique job_key db.jobs

-- Every job of the first database is still there in the second, and has evolved; `JobsEvolve` says
-- besides that no job was inserted, and `JobsSettle` that none was leased.
abbrev pub JobsFollow : Db → Db → Type 0
JobsFollow db db' = Follows Evolves db.jobs db'.jobs

abbrev pub JobsEvolve : Db → Db → Type 0
JobsEvolve db db' = Match Evolves db.jobs db'.jobs

abbrev pub JobsSettle : Db → Db → Type 0
JobsSettle db db' = Match Settles db.jobs db'.jobs

pub held_id :
    (workspace_id job_id : String) (generation : ℕ) (jobs : List Job) (row : Job)
    → find_where (held_by workspace_id job_id generation) jobs ≡ some row
    → str_eq row.job_id job_id ≡ true
held_id workspace_id job_id generation jobs row found =
    ground (arith, find-holds (held_by workspace_id job_id generation) jobs row found)

module _ (q p : Job → Bool) (job_id : String) (f : Job → Job) where
  pub settle_alone :
      ((j : Job) → p j ≡ true → str_eq j.job_id job_id ≡ true)
      → (jobs : List Job) (row : Job) → Unique job_key jobs
      → find_where q jobs ≡ some row
      → str_eq row.job_id job_id ≡ true
      → Settles row (f row)
      → Match Settles jobs (update_where p f jobs)
  settle_alone fix jobs row u found row_is e = Match-update Settles Settles-refl p f jobs (
      All-map (λ j same hit. subst (λ (k : Job). Settles k (f k)) (sym (same (fix j hit))) e) jobs
        (Unique-find_key job_key q job_id jobs row u found row_is))
