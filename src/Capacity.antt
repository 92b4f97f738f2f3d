-- ===== src/Capacity.antt =====
-- The capacity of a workspace, and the jobs that are leased or running in it. The children follow both
-- through every method of the store.
pub mod Rooms
pub mod Leasing
pub mod Effects
pub mod Always
use eastwatch.Prelude.{ℕ, ◌≤◌, String, ◌≡◌}
use eastwatch.Table.{count_where}
use eastwatch.Table.Every.{All}
use eastwatch.Table.Keys.{Unique}
use eastwatch.Schema.{Db, Workspace}
use eastwatch.Store.Claim.{active_in}
use eastwatch.Jobs.Rows.{Keyed}

abbrev pub room_key : Workspace → String
room_key w = w.workspace_id

-- The leased and running jobs of a workspace.
abbrev pub active_count : String → Db → ℕ
active_count id db = count_where (active_in id) db.jobs

abbrev pub Within : Db → Type 0
Within db = All (λ (w : Workspace). active_count w.workspace_id db ≤ w.capacity) db.workspaces

-- The primary keys of `jobs` and `workspaces`, and the capacity of every workspace.
pub record IsSound (db : Db) : Type 0 where
  pub job_ids : Keyed db
  pub room_ids : Unique room_key db.workspaces
  pub within : Within db

-- A change of a workspace's other columns.
pub record SameRoom (v w : Workspace) : Type 0 where
  pub same_id : w.workspace_id ≡ v.workspace_id
  pub same_capacity : w.capacity ≡ v.capacity
