-- ===== src/Store/Actions.antt =====
-- ControllerStore.claim_workspace_actions: a runner leases the cleanup of merged runs.
use eastwatch.Prelude.{
  ℕ, ◌+◌, min, Bool, true, Option, none, some, String, List, [], ◌∷◌, ok, ltb, str_eq, column_lt,
  column_eq, ◌==◌, ◌&&◌, not, if◌then◌else◌,
}
use eastwatch.Table.{find_where, select_where, update_where, count_where, sort_by, take}
use eastwatch.Schema.{
  Db, Conversation, Status, Job, ActionState, CleanupPayload, WorkspaceAction, is_terminal,
  action_pending, action_leased,
}
use eastwatch.Transaction.{Method, transaction}
use eastwatch.Store.Events.{keyed}
use eastwatch.Store.Leases.{set_status}

-- The dict that `claim_workspace_actions` gives for an action.
pub record ClaimedAction : Type 0 where
  pub action_id : String
  pub kind : String
  pub payload : CleanupPayload
  pub lease_generation : ℕ
  pub lease_until : ℕ

abbrev pub action_overdue : String → ℕ → WorkspaceAction → Bool
action_overdue workspace_id now a =
    str_eq a.workspace_id workspace_id && action_leased a.state && column_lt a.lease_until now

abbrev pub claimable_action : String → WorkspaceAction → Bool
claimable_action workspace_id a = str_eq a.workspace_id workspace_id && action_pending a.state

-- ORDER BY created_at, action_id
abbrev pub action_order : (String → String → Bool) → WorkspaceAction → WorkspaceAction → Bool
action_order text_le a b =
    if ltb a.created_at b.created_at
    then true
    else a.created_at == b.created_at && text_le a.action_id b.action_id

-- The job with its conversation.
unfoldable pub job_conversation : (Job → Bool) → Db → Option (Job × Conversation)
job_conversation p db = elim (find_where p db.jobs) [
  | none ↦ none
  | some j ↦ elim (find_where (keyed j.conversation_key) db.conversations) [
    | none ↦ none
    | some c ↦ some (j, c)
  ]
]

abbrev pub pending_id : String → WorkspaceAction → Bool
pending_id action_id a = str_eq a.action_id action_id && action_pending a.state

abbrev pub lease_action : ℕ → ℕ → WorkspaceAction → WorkspaceAction
lease_action generation lease_until a = record a {
  state = ActionState.leased;
  lease_generation = generation;
  lease_until = some lease_until;
}

-- Whether the job of an action may be cleaned up: it has ended, and it is still the conversation's.
unfoldable pub cleanable : Job → Conversation → String → Bool
cleanable j c job_id = is_terminal j.state && column_eq c.current_job_id job_id

-- One round of the loop over the selected actions.
unfoldable pub claim_action : String → ℕ → ℕ → WorkspaceAction → Db → Option ClaimedAction × Db
unfolding job_conversation cleanable
claim_action workspace_id now lease_until row db =
    elim (job_conversation
      (λ j. str_eq j.job_id row.payload.job_id && str_eq j.workspace_id workspace_id) db) [
        | none ↦ (none, db)
        | some (j, c) ↦
            if not (cleanable j c row.payload.job_id)
            then (none, db)
            else if count_where (pending_id row.action_id) db.actions == 1
            then (
              some (record {
                action_id = row.action_id;
                kind = row.kind;
                payload = row.payload;
                lease_generation = row.lease_generation + 1;
                lease_until = lease_until;
              }),
              record db {
                actions =
                    update_where (pending_id row.action_id)
                      (lease_action (row.lease_generation + 1) lease_until) db.actions;
                conversations =
                    update_where (keyed c.conversation_key) (set_status Status.cleaning now)
                      db.conversations;
              },
            )
            else (
              none,
              record db {
                actions =
                    update_where (pending_id row.action_id)
                      (lease_action (row.lease_generation + 1) lease_until) db.actions;
              },
            )
      ]

abbrev pub cons_some {ℓ} : {A : Type ℓ} → Option A → List A → List A
cons_some none xs = xs
cons_some (some x) xs = x ∷ xs

unfoldable pub claim_actions : String → ℕ → ℕ → List WorkspaceAction → Db → List ClaimedAction × Db
unfolding claim_action
claim_actions workspace_id now lease_until [] db = ([], db)
claim_actions workspace_id now lease_until (row ∷ rows) db =
    let (first, db') = claim_action workspace_id now lease_until row db in
    let (rest, db'') = claim_actions workspace_id now lease_until rows db' in
    (cons_some first rest, db'')

-- Leases of the workspace that ran out go back to pending.
unfoldable pub release_actions : String → ℕ → Db → Db
release_actions workspace_id now db = record db {
  actions =
      update_where (action_overdue workspace_id now)
        (λ a. record a { state = ActionState.pending; lease_until = none }) db.actions;
}

unfoldable pub action_rows : (String → String → Bool) → String → ℕ → Db → List WorkspaceAction
action_rows text_le workspace_id limit db =
    take (min limit 5)
      (sort_by (action_order text_le) (select_where (claimable_action workspace_id) db.actions))

unfoldable pub claim_workspace_actions :
    (String → String → Bool) → String → (limit lease_seconds now : ℕ) → Method (List ClaimedAction)
unfolding transaction claim_actions release_actions action_rows
claim_workspace_actions text_le workspace_id limit lease_seconds now = transaction λ db.
    let released = release_actions workspace_id now db in
    ok (
      claim_actions workspace_id now (now + lease_seconds)
        (action_rows text_le workspace_id limit released) released)
