-- ===== src/Runner/Client.antt =====
-- `RunnerClient` of src/eastwatch/runner/client.py and `WorkspaceExecutor.upload_terminal` of
-- executor.py. Delays of `post` are in half seconds, those of `upload_terminal` in seconds.
use eastwatch.Prelude.{
  ℕ, zero, suc, ◌*◌, ◌^◌, min, Bool, false, Option, none, some, String, List, [], ◌∷◌, Dict, ltb,
  ◌==◌, if◌then◌else◌,
}
use eastwatch.Models.{RunReferences, ActiveLease, Completion, ClaimedJob}
use eastwatch.Store.Actions.{ClaimedAction}
use eastwatch.Schema.{Db}
use eastwatch.History.{run}
use eastwatch.Api.{Credentials, Request, Response, Settings}
use eastwatch.Api.Routes.{serve}
use eastwatch.Runner.{Fate, Sending, Posted}

-- Whether `post` ends with a response, or tries again.
pub data Verdict : Type 0 where
  final : Posted → Verdict
  again : Verdict

abbrev pub judge : Option Response → Verdict
judge none = again
judge (some Response.no_content) = final Posted.nothing
judge (some (Response.refused status)) =
    if status == 409
    then final Posted.lease_rejected
    else if ltb status 500
    then final Posted.api_error
    else again
judge (some Response.waiting) = again
judge (some r) = final (Posted.json r)

-- What `post` leaves: how it ended, the number of the next sending, the delays, and the database of
-- the controller.
pub record Sent : Type 0 where
  pub outcome : Posted
  pub following : ℕ
  pub delays : List ℕ
  pub db : Db

-- `upload_terminal` repeats when `complete` raised RunnerApiError, and returns otherwise.
abbrev pub ended : Posted → Option Sent → Option Sent → Option Sent
ended Posted.api_error returned rest = rest
ended p returned rest = returned

-- `min(8.0, 0.5 * (2**attempt))`
abbrev pub post_delay : ℕ → ℕ
post_delay attempt = min 16 (2 ^ attempt)

-- `bool((payload or {}).get("accepted"))`
abbrev pub accepted_of : Posted → Option Bool
accepted_of Posted.nothing = some false
accepted_of (Posted.json (Response.accepted b)) = some b
accepted_of (Posted.json r) = some false
accepted_of Posted.lease_rejected = none
accepted_of Posted.api_error = none

abbrev pub jobs_of : Posted → Option (List ClaimedJob)
jobs_of Posted.nothing = some []
jobs_of (Posted.json (Response.jobs leases)) = some leases
jobs_of (Posted.json r) = some []
jobs_of Posted.lease_rejected = none
jobs_of Posted.api_error = none

abbrev pub actions_of : Posted → Option (List ClaimedAction)
actions_of Posted.nothing = some []
actions_of (Posted.json (Response.actions claimed)) = some claimed
actions_of (Posted.json r) = some []
actions_of Posted.lease_rejected = none
actions_of Posted.api_error = none

-- The controller with its settings, the runner's token, and its sendings by number.
module _ (text_le : String → String → Bool) (settings : Settings) (sha256 : String → String)
    (credentials : Option Credentials) (at : ℕ → Sending) where
  abbrev pub arrive : Fate → Response × Db → Option Response × Db
  arrive Fate.answered (r, db) = (some r, db)
  arrive _ (r, db) = (none, db)

  -- `requests.post`: the response, or `none` for an exception.
  unfoldable pub send : ℕ → Request → Db → Option Response × Db
  unfolding serve run
  send i request db =
      let before = run text_le (at i).others db in
      elim (at i).fate [
        | Fate.lost ↦ (none, before)
        | fate ↦ arrive fate (serve text_le settings sha256 credentials (at i).visit request before)
      ]

  -- The loop of `post`, with the attempts that are left.
  unfoldable pub post_from : (left attempt i : ℕ) → Request → Db → Sent
  unfolding send
  post_from zero attempt i request db = record {
    outcome = Posted.api_error;
    following = i;
    delays = [];
    db = db;
  }
  post_from (suc left) attempt i request db =
      let r = send i request db in
      let rest = post_from left (suc attempt) (suc i) request r.1 in
      elim (judge r.0) [
        | final p ↦ record { outcome = p; following = suc i; delays = []; db = r.1 }
        | again ↦ record rest {
          delays = if left == 0 then [] else post_delay attempt ∷ rest.delays;
        }
      ]

  unfoldable pub post : (retries i : ℕ) → Request → Db → Sent
  unfolding post_from
  post retries i request db = post_from retries 0 i request db

  unfoldable pub claim : ℕ → (free_slots wait_seconds : ℕ) → Db → Sent
  unfolding post
  claim i free_slots wait_seconds = post 1 i (Request.claim free_slots wait_seconds)

  unfoldable pub started : ℕ → String → ℕ → RunReferences → Db → Sent
  unfolding post
  started i job_id generation refs = post 4 i (Request.started job_id generation refs)

  unfoldable pub heartbeat : ℕ → List ActiveLease → Db → Sent
  unfolding post
  heartbeat i active = post 2 i (Request.heartbeat active)

  unfoldable pub mark_ready : ℕ → Db → Sent
  unfolding post
  mark_ready i = post 2 i Request.mark_ready

  unfoldable pub fail_before_start : ℕ → String → ℕ → Dict → Db → Sent
  unfolding post
  fail_before_start i job_id generation error =
      post 4 i (Request.failed_before_start job_id generation error)

  unfoldable pub complete : ℕ → String → ℕ → Completion → Db → Sent
  unfolding post
  complete i job_id generation c = post 4 i (Request.complete job_id generation c)

  unfoldable pub claim_actions : ℕ → (limit : ℕ) → Db → Sent
  unfolding post
  claim_actions i limit = post 2 i (Request.claim_actions limit)

  unfoldable pub finish_action : ℕ → String → ℕ → Bool → Option String → Db → Sent
  unfolding post
  finish_action i action_id generation success error =
      post 4 i (Request.finish_action action_id generation success error)

  -- `upload_terminal`: it ends unless `complete` raises RunnerApiError, and then waits and repeats.
  -- `none` when the turns of `while True` that are looked at are over.
  unfoldable pub upload_terminal :
      (turns delay i : ℕ) → (job_id : String) → ℕ → Completion → Db → Option Sent
  unfolding complete
  upload_terminal zero delay i job_id generation c db = none
  upload_terminal (suc turns) delay i job_id generation c db =
      let s = complete i job_id generation c db in
      let rest = upload_terminal turns (min 30 (delay * 2)) s.following job_id generation c s.db in
      ended s.outcome (some s) rest
