-- ===== src/Tests/Requests.antt =====
-- The theorems on requests and uploads, applied to the small database.
use eastwatch.Prelude.{
  ◌⊎◌, ℕ, zero, suc, ◌+◌, ◌≤◌, true, false, Option, none, some, String, List, [], ◌∷◌, ◌≡◌, refl,
  arith,
}
use eastwatch.Table.{find_where, has_where, update_where, count_where, select_where}
use eastwatch.Schema.{Db, Job, dedupe_eq}
use eastwatch.Models.{JobState, Completion, CompletionState}
use eastwatch.Transaction.{insert_notice}
use eastwatch.Store.Reap.{reap_expired}
use eastwatch.Store.Complete.{complete_job, complete}
use eastwatch.Capacity.{IsSound, active_count}
use eastwatch.History.{Call, step, run}
use eastwatch.History.Once.{without, completed_once}
use eastwatch.Api.{Credentials, Request, Response, Settings}
use eastwatch.Api.Routes.{workspace as token_workspace, is_valid, Turn, Visit, long_poll, serve}
use eastwatch.Api.Laws.{is_waiting, serve_all, served_capacity, long_poll_answers}
use eastwatch.Api.Rights.{Bears, InBounds, Obeys, serve-Obeys}
use eastwatch.Api.Refusals.{stale_conflict}
use eastwatch.Runner.{Fate, Sending, Posted}
use eastwatch.Runner.Client.{Sent, send, upload_terminal}
use eastwatch.Runner.Uploads.{is_settled, upload, upload_returns}
use eastwatch.Runner.Effects.{AtMostOnce}
use eastwatch.Runner.Walks.{others_of, upload_once}
use eastwatch.Models.{ClaimedJob}
use eastwatch.Prelude.{min}
use eastwatch.Table.{length, sort_by, insert_by}
use eastwatch.Store.Claim.{claim_jobs}
use eastwatch.Lifecycle.Fewness.{claimed_few}
use eastwatch.Runner.Daemon.{Daemon, new_daemon, active_count as busy_count, look, take_leases}
use eastwatch.Runner.Daemon.Steps.{looks, claims, begins, later}
use eastwatch.Runner.Daemon.Capacity.{daemon_bound}
use eastwatch.Tests.Fixture.{job_of, waiting, any_le, workspace, under_way, small_db, success}

abbrev settings : Settings
settings = record { lease_seconds = 90; long_poll_seconds = 20 }

abbrev credentials : Credentials
credentials = record { scheme = "Bearer"; token = "token" }

-- Every token has this digest.
abbrev digest : String → String
digest token = "digest"

abbrev turn : ℕ → Turn
turn at = record { others = Call.reaps at ∷ []; claimed_at = at; checked_at = at }

abbrev report : Completion
report = record { state = CompletionState.succeeded; result = some []; error = none }

abbrev visit : Visit
visit = record { at = 50; turns = turn 51 ∷ turn 80 ∷ [] }

abbrev requests : List (Option Credentials × Visit × Request)
requests =
    (some credentials, visit, Request.claim 2 20)
    ∷ (none, visit, Request.mark_ready)
    ∷ (some credentials, visit, Request.complete "r" 1 report)
    ∷ []

abbrev served : Db
served = serve_all any_le settings digest requests small_db

requests-IsSound : IsSound small_db
unfolding count_where
requests-IsSound = record {
  job_ids = (refl, (refl, (refl, tt)));
  room_ids = (refl, tt);
  within = (omega arith, tt);
}

serve-Obeys_example :
    (((serve any_le settings digest
          (some credentials)
          visit
          (Request.complete "r" 1 report)
          small_db
        ≡ (Response.refused 401, small_db))
      ⊎ (serve any_le settings digest
            (some credentials)
            visit
            (Request.complete "r" 1 report)
            small_db
          ≡ (Response.refused 422, small_db))))
    ⊎ ((w : String) × Bears digest (some credentials) small_db w
        × InBounds (Request.complete "r" 1 report)
        × Obeys any_le settings w visit
            (Request.complete "r" 1 report)
            small_db
            (serve any_le settings digest
              (some credentials)
              visit
              (Request.complete "r" 1 report)
              small_db).1)
serve-Obeys_example =
    serve-Obeys any_le settings digest (some credentials) visit (Request.complete "r" 1 report)
      small_db

served_capacity_example : active_count "w" served ≤ 2
unfolding find_where serve_all step reap_expired select_where update_where count_where insert_notice
    has_where dedupe_eq
served_capacity_example =
    served_capacity any_le settings digest requests small_db "w"
      (record workspace { last_seen_at = some 80 }) requests-IsSound refl

long_poll_answers_example :
    is_waiting (long_poll any_le settings "w" 2 70 (turn 51 ∷ turn 80 ∷ []) small_db).0 ≡ false
unfolding has_where
long_poll_answers_example =
    long_poll_answers any_le settings "w" 2 70 (turn 51 ∷ turn 80 ∷ []) small_db refl

-- The small database when the running job has been completed.
abbrev completed : Db
completed = (complete_job "w" "r" 1 success 56 small_db).1

abbrev later_calls : List Call
later_calls = Call.reaps 60 ∷ Call.completes "w" "r" 1 success 61 ∷ Call.claims "w" 2 90 62 ∷ []

completed_once_example :
    run any_le (without "r" later_calls) completed ≡ run any_le later_calls completed
unfolding find_where update_where complete_job insert_notice has_where dedupe_eq
completed_once_example =
    completed_once any_le later_calls "r" completed (complete success 56 under_way)
      (refl, (refl, (refl, tt))) refl refl

-- The first request is lost, the response of the second too, and the third is answered.
abbrev fate_of : ℕ → Fate
fate_of zero = Fate.lost
fate_of (suc zero) = Fate.unanswered
fate_of (suc (suc n)) = Fate.answered

abbrev sending : ℕ → Sending
sending n = record { others = []; fate = fate_of n; visit = visit }

upload_returns_example :
    (s : Sent) × (upload any_le settings digest
        (some credentials)
        sending
        "r"
        1
        report
        3
        1
        0
        small_db
      ≡ some s)
    × (is_settled s.outcome ≡ true)
unfolding serve find_where send insert_notice has_where dedupe_eq update_where
upload_returns_example =
    upload_returns any_le settings digest (some credentials) sending "r" 1 report 2 3 1 0 small_db
      refl (omega arith)

abbrev uploaded : Sent
uploaded = record {
  outcome = Posted.json (Response.accepted false);
  following = 3;
  delays = 1 ∷ 2 ∷ [];
  db = (complete_job "w" "r" 1 report 50 small_db).1;
}

upload_once_example :
    (m : ℕ) × (3 ≡ m + 0)
    × AtMostOnce any_le "r" 1 report (others_of sending m 0) small_db uploaded.db
unfolding serve find_where send insert_notice has_where dedupe_eq update_where upload_terminal
upload_once_example =
    upload_once any_le "r" 1 report sending settings digest (some credentials) 3 1 0 small_db
      uploaded requests-IsSound.job_ids refl

-- A claim of the queued job of the small database, as a daemon of capacity 2 takes it.
abbrev lease_taken : List ClaimedJob
lease_taken =
    record {
      envelope = waiting.envelope;
      workspace_id = "w";
      lease_generation = 1;
      lease_until = 140;
    }
    ∷ []

abbrev fresh : Daemon
fresh = record { capacity = 2; active = []; stale = []; asked = none }

daemon_bound_example : busy_count (take_leases lease_taken (look fresh)) ≤ 2
unfolding new_daemon look take_leases select_where count_where
daemon_bound_example = daemon_bound 2 (take_leases lease_taken (look fresh)) (
    later (look fresh) (take_leases lease_taken (look fresh))
      (later fresh (look fresh) (begins fresh refl) (looks refl))
      (claims 2 lease_taken refl (omega arith)))

abbrev idle_db : Db
idle_db = record small_db { jobs = waiting ∷ [] }

claimed_few_example : length lease_taken ≤ min 2 10
unfolding claim_jobs find_where count_where select_where sort_by insert_by update_where
claimed_few_example =
    claimed_few any_le "w" 2 90 50 idle_db lease_taken (claim_jobs any_le "w" 2 90 50 idle_db).1
      refl

-- A job that was leased twice.
abbrev leased_again : Job
leased_again = job_of "l" "h/p#2" "e2" JobState.leased 2 (some 100)

abbrev passed_on : Db
passed_on = record small_db { jobs = leased_again ∷ [] }

stale_conflict_example :
    serve any_le settings digest
      (some credentials)
      visit
      (Request.complete "l" 1 report)
      (run any_le later_calls passed_on)
    ≡ (Response.refused 409, run any_le later_calls passed_on)
unfolding step reap_expired claim_jobs complete_job find_where update_where select_where count_where
    sort_by insert_by token_workspace run is_valid
stale_conflict_example =
    stale_conflict any_le settings digest later_calls passed_on "l" 1 leased_again
      (some credentials) visit (Request.complete "l" 1 report) "w" (refl, tt) refl (omega arith)
      refl refl refl
