-- ===== src/Runner.antt =====
-- The runner of a workspace, src/eastwatch/runner: how its requests travel to the controller. Each
-- request may be lost, or its response, and between two requests others call the store.
pub mod Client
pub mod Uploads
pub mod Once
pub mod Effects
pub mod Walks
pub mod Daemon
use eastwatch.Prelude.{ℕ, List}
use eastwatch.History.{Call}
use eastwatch.Api.{Response}
use eastwatch.Api.Routes.{Visit}

-- What becomes of one request: it does not arrive, or the response does not, or all is well. In the
-- first two cases `requests.post` raises.
pub data Fate : Type 0 where
  lost unanswered answered : Fate

-- One request on its way: what others did to the store before it, its fate, and what surrounds it
-- in the controller.
pub record Sending : Type 0 where
  pub others : List Call
  pub fate : Fate
  pub visit : Visit

-- How `post` ends: `None`, the JSON of a response, or the exceptions LeaseRejected and
-- RunnerApiError.
pub data Posted : Type 0 where
  nothing : Posted
  json : Response → Posted
  lease_rejected api_error : Posted
