-- ===== src/Api.antt =====
-- src/eastwatch/controller/api.py: the routes by which runners reach the store. A request is checked,
-- its bearer token gives the workspace, and a method of the store answers. What pydantic checks of the
-- types of fields is in the types here; its bounds are tests.
pub mod Paths
pub mod Routes
pub mod Laws
pub mod Rights
pub mod Refusals
pub mod Confined
use eastwatch.Prelude.{ℕ, Bool, Option, String, List, Dict}
use eastwatch.Models.{RunReferences, ActiveLease, Completion, ClaimedJob}
use eastwatch.Store.Actions.{ClaimedAction}

-- `HTTPAuthorizationCredentials`
pub record Credentials : Type 0 where
  pub scheme : String
  pub token : String

-- The bodies of the requests, with the ids of their paths.
pub data Request : Type 0 where
  claim : (free_slots wait_seconds : ℕ) → Request
  started : (job_id : String) (generation : ℕ) → RunReferences → Request
  heartbeat : List ActiveLease → Request
  failed_before_start : (job_id : String) (generation : ℕ) → Dict → Request
  mark_ready : Request
  complete : (job_id : String) (generation : ℕ) → Completion → Request
  claim_actions : (limit : ℕ) → Request
  finish_action :
      (action_id : String) (generation : ℕ) (success : Bool) (error : Option String) → Request

-- A response: a body with status 200, no content (204), or the status of a refusal. `waiting` is no
-- response: the long poll of a claim still goes on.
pub data Response : Type 0 where
  jobs : List ClaimedJob → Response
  accepted : Bool → Response
  actions : List ClaimedAction → Response
  no_content : Response
  refused : (status : ℕ) → Response
  waiting : Response

pub record Settings : Type 0 where
  pub lease_seconds : ℕ
  pub long_poll_seconds : ℕ
