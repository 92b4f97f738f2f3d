-- ===== src/Store/Workspaces.antt =====
-- ControllerStore.authenticate_workspace and mark_workspace_ready.
use eastwatch.Prelude.{
  ℕ, Bool, true, none, some, String, Result, ok, err, Error, str_eq, ◌==◌, ◌&&◌, if◌then◌else◌,
}
use eastwatch.Table.{find_where, update_where, count_where}
use eastwatch.Schema.{Db, Workspace}
use eastwatch.Transaction.{Method, transaction}

-- `sha256` stands for hashlib's digest of the token.
module _ (sha256 : String → String) where
  unfoldable pub authenticate_workspace : String → Db → Result Workspace
  authenticate_workspace token db =
      elim (find_where (λ (w : Workspace). str_eq w.token_sha256 (sha256 token) && w.enabled)
        db.workspaces) [ none ↦ err Error.unknown_workspace | some w ↦ ok w ]

abbrev pub enabled_id : String → Workspace → Bool
enabled_id workspace_id w = str_eq w.workspace_id workspace_id && w.enabled

unfoldable pub mark_workspace_ready : String → ℕ → Method (Unit {0})
unfolding transaction
mark_workspace_ready workspace_id ready_at = transaction λ db.
    if count_where (enabled_id workspace_id) db.workspaces == 1
    then ok (
      tt,
      record db {
        workspaces =
            update_where (enabled_id workspace_id)
              (λ w. record w { ready = true; last_seen_at = some ready_at }) db.workspaces;
      },
    )
    else err Error.unknown_workspace
