-- ===== src/Jobs/Compactions.antt =====
-- The methods that change other columns of the jobs, or none.
use eastwatch.Prelude.{
  ℕ, ◌+◌, Bool, String, Option, List, [], ◌∷◌, ◌≡◌, ◌∙◌, refl, arith, inl, inr, Option-cases,
}
use eastwatch.Table.{find_where}
use eastwatch.Table.Every.{All-of}
use eastwatch.Table.Follows.{Match-refl, Match-update}
use eastwatch.Schema.{Db, WorkspaceAction}
use eastwatch.Transaction.{transaction_rule, After}
use eastwatch.Store.Actions.{
  claim_action, claim_actions, claim_workspace_actions, release_actions, action_rows,
}
use eastwatch.Store.Finish.{
  JobRow, held_action, finish_workspace_action, finish_body, finish_held, job_row, compact,
}
use eastwatch.Jobs.{Settles, Settles-refl, Settles-columns}
use eastwatch.Jobs.Rows.{JobsSettle}

compact-Settles :
    (action_id : String) (now : ℕ) (row : JobRow) (db : Db)
    → JobsSettle db (compact action_id now row db)
unfolding compact
compact-Settles action_id now row db =
    Match-update Settles Settles-refl _ _ db.jobs
      (All-of (λ j _. Settles-columns j _ (refl, refl, refl, refl, refl, refl)) db.jobs)

finish_held-Settles :
    (action : WorkspaceAction) (action_id : String) (success : Bool) (error : Option String)
    (now : ℕ) (db : Db)
    → After (JobsSettle db) (finish_held action action_id success error now db)
unfolding finish_held
finish_held-Settles action action_id success error now db =
    elim (Option-cases (job_row action.payload.job_id db)) [
      | inl e ↦ rw (e, finish_held, After) (ground (arith, Match-refl Settles Settles-refl db.jobs))
      | inr (row, e) ↦
          rw (e, finish_held, After)
            (ground (
              arith,
              Match-refl Settles Settles-refl db.jobs,
              compact-Settles action_id now row db,
            ))
    ]

pub finish_workspace_action-Settles :
    (workspace_id action_id : String) (generation : ℕ) (success : Bool) (error : Option String)
    (now : ℕ) (db : Db)
    → JobsSettle db
        (finish_workspace_action workspace_id action_id generation success error now db).1
unfolding finish_workspace_action finish_body
finish_workspace_action-Settles workspace_id action_id generation success error now db =
    transaction_rule (JobsSettle db)
      (finish_body workspace_id action_id generation success error now) db
      (Match-refl Settles Settles-refl db.jobs)
      (elim (Option-cases (find_where (held_action workspace_id action_id generation) db.actions)) [
        | inl e ↦ rw (e, After, finish_body) tt
        | inr (action, e) ↦
            rw (e, After, finish_body) (finish_held-Settles action action_id success error now db)
      ])

claim_action-jobs :
    (workspace_id : String) (now until : ℕ) (row : WorkspaceAction) (db : Db)
    → (claim_action workspace_id now until row db).1.jobs ≡ db.jobs
unfolding claim_action
claim_action-jobs workspace_id now until row db = ground arith

claim_actions-jobs :
    (workspace_id : String) (now until : ℕ) (rows : List WorkspaceAction) (db : Db)
    → (claim_actions workspace_id now until rows db).1.jobs ≡ db.jobs
unfolding claim_actions
claim_actions-jobs workspace_id now until [] db = refl
claim_actions-jobs workspace_id now until (row ∷ rows) db =
    claim_actions-jobs workspace_id now until rows (claim_action workspace_id now until row db).1
    ∙ claim_action-jobs workspace_id now until row db

-- Leasing the cleanups leaves the jobs as they are.
pub claim_workspace_actions-jobs :
    (text_le : String → String → Bool) (workspace_id : String) (limit lease_seconds now : ℕ)
    (db : Db)
    → (claim_workspace_actions text_le workspace_id limit lease_seconds now db).1.jobs ≡ db.jobs
unfolding claim_workspace_actions
claim_workspace_actions-jobs text_le workspace_id limit lease_seconds now db =
    claim_actions-jobs workspace_id now (now + lease_seconds)
      (action_rows text_le workspace_id limit (release_actions workspace_id now db))
      (release_actions workspace_id now db)
