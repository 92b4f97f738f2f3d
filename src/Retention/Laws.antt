-- ===== src/Retention/Laws.antt =====
-- What `schedule_due` may schedule.
use eastwatch.Prelude.{
  ℕ, ◌+◌, some, String, List, [], ◌∷◌, Result, ok, err, ◌>>=◌, str_eq, eq_iff, ltb, ◌≡◌, refl, ◌⊎◌,
  inl, inr, arith, Option-cases, Bool-cases,
}
use eastwatch.Table.{has_where}
use eastwatch.Table.Every.{All, All-map, All-append, Listed, Listed-All}
use eastwatch.Retention.Cleanups.{Cleans, cleanup-Cleans}
use eastwatch.Schema.{Db, Run, Workspace, WorkspaceAction}
use eastwatch.Transaction.{transaction_rule, After}
use eastwatch.Retention.{
  DueRow, merge_retention, due_row, last_merge, merge_requests_of, cleanup_action, note_retention,
  insert_action, schedule_row, schedule_rows, due_rows_of, schedule_due,
}

module _ (now : ℕ) (old : Db) where
  abbrev Known : WorkspaceAction → Type 0
  Known a = Listed a old.actions ⊎ Cleans now old a

  -- What the loop keeps.
  abbrev Fair : Db → Type 0
  Fair db = All Known db.actions × (db.merge_requests ≡ old.merge_requests)

  insert-Fair :
      (a : WorkspaceAction) (db : Db) → Cleans now old a → Fair db → After Fair (insert_action a db)
  unfolding insert_action
  insert-Fair a db c f =
      elim (Bool-cases
        (has_where (λ (x : WorkspaceAction). str_eq x.action_id a.action_id) db.actions)) [
          | inl e ↦ rw (e, After) f
          | inr e ↦
              elim (Bool-cases (
                has_where (λ (w : Workspace). str_eq w.workspace_id a.workspace_id)
                  db.workspaces)) [
                    | inl g ↦
                        rw (e, g, After) (All-append Known db.actions (a ∷ []) f.0 (inr c, tt), f.1)
                    | inr g ↦ rw (e, g, After) tt
                  ]
        ]

  note-Fair : (id : String) (after : ℕ) (db : Db) → Fair db → Fair (note_retention id after db)
  unfolding note_retention
  note-Fair id after db f = ground (arith, f.0, f.1)

  row-Fair :
      (run : Run) (row : DueRow) (db : Db)
      → Listed run old.runs
      → due_row old run ≡ some row
      → Fair db
      → After Fair (schedule_row now row db)
  unfolding schedule_row
  row-Fair run row db there joined f =
      elim (Bool-cases (str_eq row.job.envelope.trigger_kind "agent::ready")) [
        | inr e ↦ rw (e, schedule_row, After) f
        | inl e ↦ elim (Option-cases (last_merge (merge_requests_of row db.merge_requests))) [
          | inl g ↦ rw (e, g, schedule_row, After) f
          | inr (merged, g) ↦ elim (Bool-cases (ltb now (merged + merge_retention))) [
            | inl young ↦
                rw (e, g, young, schedule_row, After)
                  (note-Fair row.run.run_id (merged + merge_retention) db f)
            | inr aged ↦
                rw (e, g, aged, schedule_row, After)
                  (insert-Fair (cleanup_action row now)
                    (note_retention row.run.run_id (merged + merge_retention) db)
                    (cleanup-Cleans now merged old run row there joined
                      ((eq_iff row.job.envelope.trigger_kind "agent::ready").0 e) (rw f.1 at g)
                      (ground (arith, aged)))
                    (note-Fair row.run.run_id (merged + merge_retention) db f))
          ]
        ]
      ]

  counted :
      (n : ℕ) (r : Result (ℕ × Db)) → After Fair r → After Fair (r >>= (λ y. ok (n + y.0, y.1)))
  counted n (ok y) h = h
  counted n (err e) h = tt

  then_Fair :
      (m : Result (ℕ × Db)) (g : Db → Result (ℕ × Db))
      → After Fair m
      → ((d : Db) → Fair d → After Fair (g d))
      → After Fair (m >>= (λ x. g x.1 >>= (λ y. ok (x.0 + y.0, y.1))))
  then_Fair (err e) g h k = tt
  then_Fair (ok (n, d)) g h k = counted n (g d) (k d h)

  rows-Fair :
      (rows : List DueRow)
      → All (λ row. (run : Run) × Listed run old.runs × (due_row old run ≡ some row)) rows
      → (db : Db) → Fair db
      → After Fair (schedule_rows now rows db)
  unfolding schedule_rows
  rows-Fair [] a db f = f
  rows-Fair (row ∷ rows) a db f =
      then_Fair (schedule_row now row db) (schedule_rows now rows)
        (row-Fair a.0.0 row db a.0.1 a.0.2 f) (λ d g. rows-Fair rows a.1 d g)

  due_rows-joined :
      (runs : List Run)
      → All (λ run. Listed run old.runs) runs
      → All
          (λ row. (run : Run) × Listed run old.runs × (due_row old run ≡ some row))
          (due_rows_of old runs)
  unfolding due_rows_of
  due_rows-joined [] a = tt
  due_rows-joined (r ∷ runs) a = elim (Option-cases (due_row old r)) [
    | inl e ↦ rw (e, All, due_rows_of) (due_rows-joined runs a.1)
    | inr (row, e) ↦ rw (e, All, due_rows_of) ((r, a.0, e), due_rows-joined runs a.1)
  ]

  -- Every workspace action behind a call of `schedule_due`, whether it returns or raises, was there
  -- before, or is the cleanup of a run that may be cleaned up: the run and its job succeeded, the
  -- job is still that of its conversation, which succeeded too, an implementation was asked for, the
  -- run has opened merge requests, and each of them was merged at least seven days before `now`.
  pub schedule_due_justified :
      All (λ a. Listed a old.actions ⊎ Cleans now old a) (schedule_due now old).1.actions
  unfolding schedule_due
  schedule_due_justified =
      let start : Fair old = (All-map (λ a l. inl l) old.actions (Listed-All old.actions), refl) in
      (transaction_rule Fair (λ db. schedule_rows now (due_rows_of db db.runs) db) old start
        (rows-Fair (due_rows_of old old.runs) (due_rows-joined old.runs (Listed-All old.runs)) old
          start)).0
