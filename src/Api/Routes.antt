-- ===== src/Api/Routes.antt =====
-- The routes of src/eastwatch/controller/api.py, `create_app` and `register_action_routes`.
use eastwatch.Prelude.{
  ℕ, ◌+◌, min, Bool, true, false, Option, none, some, String, List, [], ◌∷◌, Result, ok, err, Error,
  text_length, leb, ◌==◌, ◌&&◌, ◌||◌, not, if◌then◌else◌, is_some,
}
use eastwatch.Table.{length, has_where}
use eastwatch.Models.{ActiveLease, Completion, CompletionState, ClaimedJob}
use eastwatch.Schema.{Db}
use eastwatch.Store.Workspaces.{authenticate_workspace, mark_workspace_ready}
use eastwatch.Store.Claim.{claim_jobs}
use eastwatch.Store.Leases.{mark_started, heartbeat}
use eastwatch.Store.Complete.{complete_job, fail_unstarted}
use eastwatch.Store.Actions.{claim_workspace_actions}
use eastwatch.Store.Finish.{finish_workspace_action}
use eastwatch.History.{Call, run}
use eastwatch.Poll.Mentions.{folds_to}
use eastwatch.Api.{Credentials, Request, Response, Settings}
use eastwatch.Api.Paths.{to_domain}

-- `except StaleLeaseError`: a conflict. FastAPI answers any other exception with 500.
abbrev pub status_of : Error → ℕ
status_of Error.stale_lease = 409
status_of _ = 500

abbrev pub respond : {A : Type 0} → (A → Response) → Result A × Db → Response × Db
respond body (ok a, db) = (body a, db)
respond body (err e, db) = (Response.refused (status_of e), db)

-- A route without the `except` clause.
abbrev pub respond_plain : {A : Type 0} → (A → Response) → Result A × Db → Response × Db
respond_plain body (ok a, db) = (body a, db)
respond_plain body (err e, db) = (Response.refused 500, db)

-- The bounds on a request: `ge`, `le`, `max_length` and `completion_shape`.
abbrev pub has_shape : Completion → Bool
has_shape c = elim c.state [
  | CompletionState.failed ↦ is_some c.error
  | CompletionState.succeeded ↦ is_some c.result
]

abbrev pub short_error : Option String → Bool
short_error none = true
short_error (some error) = leb (text_length error) 1000

unfoldable pub is_valid : Request → Bool
unfolding to_domain
is_valid (Request.claim free_slots wait_seconds) = leb free_slots 10 && leb wait_seconds 25
is_valid (Request.started job_id generation refs) = leb 1 generation && is_some (to_domain refs)
is_valid (Request.heartbeat active) =
    leb (length active) 10
    && not (has_where (λ (l : ActiveLease). not (leb 1 l.lease_generation)) active)
is_valid (Request.failed_before_start job_id generation error) = leb 1 generation
is_valid Request.mark_ready = true
is_valid (Request.complete job_id generation c) = leb 1 generation && has_shape c
is_valid (Request.claim_actions limit) = leb limit 5
is_valid (Request.finish_action action_id generation success error) =
    leb 1 generation && short_error error

-- One turn of the long poll: what others did to the store since the last one, when the jobs are
-- claimed, and when the clock is compared with the deadline.
pub record Turn : Type 0 where
  pub others : List Call
  pub claimed_at : ℕ
  pub checked_at : ℕ

-- The surroundings of a request: what `clock()` gives, and the turns of a claim.
pub record Visit : Type 0 where
  pub at : ℕ
  pub turns : List Turn

abbrev pub is_nil : List ClaimedJob → Bool
is_nil [] = true
is_nil (x ∷ xs) = false

module _ (text_le : String → String → Bool) (settings : Settings) where
  -- `if jobs or request.free_slots == 0 or clock() >= deadline`
  abbrev pub finish_turn :
      (free_slots deadline checked_at : ℕ)
      → (Db → Response × Db)
      → Result (List ClaimedJob) × Db
      → Response × Db
  finish_turn free_slots deadline checked_at rest (err e, db) = (Response.refused 500, db)
  finish_turn free_slots deadline checked_at rest (ok claimed, db) =
      let later = rest db in
      if not (is_nil claimed) || (free_slots == 0 || leb deadline checked_at)
      then (Response.jobs claimed, db)
      else later

  -- The loop of `claim`
  unfoldable pub long_poll :
      (workspace_id : String) → (free_slots deadline : ℕ) → List Turn → Db → Response × Db
  unfolding claim_jobs run
  long_poll w free_slots deadline [] db = (Response.waiting, db)
  long_poll w free_slots deadline (t ∷ ts) db =
      finish_turn free_slots deadline t.checked_at (long_poll w free_slots deadline ts) (
        claim_jobs text_le w free_slots settings.lease_seconds t.claimed_at
          (run text_le t.others db))

  -- The route of a valid request of a workspace.
  unfoldable pub route : (workspace_id : String) → Visit → Request → Db → Response × Db
  unfolding long_poll to_domain mark_started heartbeat fail_unstarted mark_workspace_ready
      complete_job claim_workspace_actions finish_workspace_action
  route w v (Request.claim free_slots wait_seconds) db =
      long_poll w free_slots (v.at + min wait_seconds settings.long_poll_seconds) v.turns db
  route w v (Request.started job_id generation refs) db = elim (to_domain refs) [
    | none ↦ (Response.refused 422, db)
    | some domain ↦ respond Response.accepted (mark_started w job_id generation domain v.at db)
  ]
  route w v (Request.heartbeat active) db =
      respond (λ t. Response.no_content) (heartbeat w active settings.lease_seconds v.at db)
  route w v (Request.failed_before_start job_id generation error) db =
      respond Response.accepted (fail_unstarted w job_id generation error v.at db)
  route w v Request.mark_ready db =
      respond_plain (λ t. Response.no_content) (mark_workspace_ready w v.at db)
  route w v (Request.complete job_id generation c) db =
      respond Response.accepted (complete_job w job_id generation c v.at db)
  route w v (Request.claim_actions limit) db =
      respond_plain Response.actions
        (claim_workspace_actions text_le w limit settings.lease_seconds v.at db)
  route w v (Request.finish_action action_id generation success error) db =
      respond Response.accepted
        (finish_workspace_action w action_id generation success error v.at db)

  -- `sha256` is the digest of a token.
  module _ (sha256 : String → String) where
    -- The dependency `workspace`: the id, or `none` for a 401.
    unfoldable pub workspace : Option Credentials → Db → Option String
    unfolding authenticate_workspace
    workspace none db = none
    workspace (some c) db =
        if not (folds_to "bearer" c.scheme)
        then none
        else elim (authenticate_workspace sha256 c.token db) [
          | err e ↦ none
          | ok row ↦ some row.workspace_id
        ]

    -- A request as the application serves it: the dependency first, then the body.
    unfoldable pub serve : Option Credentials → Visit → Request → Db → Response × Db
    unfolding workspace is_valid route
    serve credentials v request db = elim (workspace credentials db) [
      | none ↦ (Response.refused 401, db)
      | some w ↦ if is_valid request then route w v request db else (Response.refused 422, db)
    ]
