-- ===== src/Tests/Examples.antt =====
-- Each theorem applied to the small database.
use eastwatch.Prelude.{
  ◌⊎◌, ◌≤◌, ◌+◌, ◌^◌, min, Bool, true, false, none, some, List, [], ◌∷◌, ok, ◌≡◌, refl, ◌==◌, arith,
  str_eq, err, Error,
}
use eastwatch.Table.{find_where, has_where, update_where, count_where, select_where}
use eastwatch.Table.Every.{All}
use eastwatch.Table.Follows.{Match}
use eastwatch.Models.{ActiveLease}
use eastwatch.Schema.{Job, OutboxItem}
use eastwatch.Store.Leases.{mark_started, held_by, heartbeat}
use eastwatch.Store.Complete.{complete_job, run_of, fail_unstarted}
use eastwatch.Store.Claim.{claimable, queued_in}
use eastwatch.Store.Events.{record_event, queue_pending, enqueue_job, record_dispatch_event}
use eastwatch.Jobs.{Evolves}
use eastwatch.Jobs.Rows.{Keyed}
use eastwatch.History.{Call, run}
use eastwatch.History.Laws.{job, job_history, Refused, fenced}
use eastwatch.Capacity.{IsSound, active_count}
use eastwatch.Capacity.Always.{capacity_bound}
use eastwatch.Delivery.{Ledger, Travels}
use eastwatch.Delivery.Fences.{outbox_fenced}
use eastwatch.Store.Outbox.{mark_outbox_delivered, mark_outbox_failed}
use eastwatch.Tests.Fixture.{retried, retried_db}
use eastwatch.Delivery.Always.{outbox_history, outbox-Ledger}
use eastwatch.Lifecycle.Starting.{mark_started_again}
use eastwatch.Lifecycle.Finishing.{complete_job_again, fail_unstarted_again}
use eastwatch.Lifecycle.Claiming.{left_over, claimable_oldest}
use eastwatch.Lifecycle.Renewing.{heartbeat_renews}
use eastwatch.Lifecycle.Receiving.{
  record_event_again, queue_pending_again, enqueue_job_again, record_dispatch_event_again,
}
use eastwatch.Dispatch.Flow.{dispatch}
use eastwatch.Schema.{Db}
use eastwatch.Dispatch.Hints.{parse_hint, split_spec}
use eastwatch.Dispatch.Once.{Same, dispatch_once}
use eastwatch.Dispatch.Requests.{acceptance}
use eastwatch.Retention.{ProjectTokens}
use eastwatch.Store.Reap.{reap_expired}
use eastwatch.Notices.Deliveries.{Forge, deliver_job, retry_delay}
use eastwatch.Notices.Laws.{Told, deliver_job_tells_only, retry_delay_bounds}
use eastwatch.Tests.Fixture.{
  any_le, workspace, waiting, claimed, under_way, refs_of, item, small_db, success, receipt,
  comment, envelope, candidate, clock,
}

abbrev calls : List Call
calls =
    Call.claims "w" 2 60 50
    ∷ Call.starts "w" "l" 1 (refs_of "run-l") 55
    ∷ Call.completes "w" "r" 1 success 56
    ∷ Call.claims_outbox 20 60 57
    ∷ []

small-IsSound : IsSound small_db
unfolding count_where
small-IsSound = record {
  job_ids = (refl, (refl, (refl, tt)));
  room_ids = (refl, tt);
  within = (omega arith, tt);
}

small-Ledger : Ledger small_db
unfolding has_where
small-Ledger = record { numbered = (omega arith, tt); rising = (tt, tt); deduped = (refl, tt) }

job_history_example :
    ((k : Job) × (job any_le "q" (run any_le calls small_db) ≡ some k) × Evolves waiting k)
    × Keyed (run any_le calls small_db)
unfolding find_where
job_history_example = job_history any_le calls small_db "q" waiting small-IsSound.job_ids refl

capacity_bound_example : active_count "w" small_db ≤ 2
unfolding find_where run
capacity_bound_example = capacity_bound any_le [] small_db "w" workspace small-IsSound refl

fenced_example : Refused "w" "l" 0 (run any_le calls small_db)
unfolding find_where
fenced_example =
    fenced any_le calls small_db "w" "l" 0 claimed small-IsSound.job_ids refl (omega arith)

outbox_history_example :
    (y : OutboxItem) × (find_where
        (λ (z : OutboxItem). z.outbox_id == 1)
        (run any_le calls small_db).outbox
      ≡ some y)
    × Travels item y
unfolding find_where
outbox_history_example = outbox_history any_le calls small_db 1 item refl

outbox-Ledger_example : Ledger (run any_le calls small_db)
outbox-Ledger_example = outbox-Ledger any_le calls small_db small-Ledger

mark_started_again_example :
    mark_started "w" "l" 1
      (refs_of "run-l")
      60
      (mark_started "w" "l" 1 (refs_of "run-l") 50 small_db).1
    ≡ (ok false, (mark_started "w" "l" 1 (refs_of "run-l") 50 small_db).1)
unfolding mark_started find_where has_where
mark_started_again_example =
    mark_started_again "w" "l" 1 (refs_of "run-l") 50 60 small_db
      (mark_started "w" "l" 1 (refs_of "run-l") 50 small_db).1 refl

complete_job_again_example :
    complete_job "w" "r" 1 success 60 (complete_job "w" "r" 1 success 50 small_db).1
    ≡ (ok false, (complete_job "w" "r" 1 success 50 small_db).1)
unfolding complete_job find_where run_of
complete_job_again_example =
    complete_job_again "w" "r" 1 success success 50 60 small_db
      (complete_job "w" "r" 1 success 50 small_db).1 refl

fail_unstarted_again_example :
    fail_unstarted "w" "l" 1 [] 60 (fail_unstarted "w" "l" 1 [] 50 small_db).1
    ≡ (ok false, (fail_unstarted "w" "l" 1 [] 50 small_db).1)
unfolding fail_unstarted find_where
fail_unstarted_again_example =
    fail_unstarted_again "w" "l" 1 [] [] 50 60 small_db (fail_unstarted "w" "l" 1 [] 50 small_db).1
      refl

abbrev is_waiting : Job → Bool
is_waiting j = str_eq j.job_id "q"

claimable_oldest_example :
    (count_where is_waiting (claimable any_le "w" 1 small_db.jobs)
        + count_where is_waiting (left_over any_le "w" 1 small_db.jobs)
      ≡ count_where is_waiting (select_where (queued_in "w") small_db.jobs))
    × All
        (λ r. All (λ (j : Job). r.created_at ≤ j.created_at) (left_over any_le "w" 1 small_db.jobs))
        (claimable any_le "w" 1 small_db.jobs)
claimable_oldest_example = claimable_oldest any_le "w" 1 small_db.jobs is_waiting

abbrev live : ActiveLease
live = record { job_id = "r"; lease_generation = 1 }

heartbeat_renews_example :
    (k : Job) × (find_where (held_by "w" "r" 1) (heartbeat "w" (live ∷ []) 60 50 small_db).1.jobs
      ≡ some k)
    × (k.lease_until ≡ some (50 + 60))
unfolding find_where count_where
heartbeat_renews_example =
    heartbeat_renews "w" (live ∷ []) 60 50 small_db live under_way refl refl refl refl

record_event_again_example :
    record_event receipt (record_event receipt small_db).1
    ≡ (ok false, (record_event receipt small_db).1)
unfolding record_event has_where
record_event_again_example =
    record_event_again receipt receipt small_db true (record_event receipt small_db).1 refl refl
      refl

queue_pending_again_example :
    queue_pending "h/p#1" comment receipt 31 (queue_pending "h/p#1" comment receipt 30 small_db).1
    ≡ (ok false, (queue_pending "h/p#1" comment receipt 30 small_db).1)
unfolding queue_pending has_where
queue_pending_again_example =
    queue_pending_again "h/p#1" comment comment receipt 30 31 small_db true
      (queue_pending "h/p#1" comment receipt 30 small_db).1 refl

enqueue_job_again_example :
    enqueue_job
      (envelope "n" "h/p#1" "e9")
      31
      (enqueue_job (envelope "n" "h/p#1" "e9") 30 small_db).1
    ≡ (ok "n", (enqueue_job (envelope "n" "h/p#1" "e9") 30 small_db).1)
unfolding enqueue_job find_where has_where
enqueue_job_again_example =
    enqueue_job_again (envelope "n" "h/p#1" "e9") (envelope "n" "h/p#1" "e9") 30 31 small_db "n"
      (enqueue_job (envelope "n" "h/p#1" "e9") 30 small_db).1 refl refl

record_dispatch_event_again_example :
    record_dispatch_event
      (envelope "n" "h/p#1" "e9")
      "label"
      "ann"
      []
      31
      (record_dispatch_event (envelope "n" "h/p#1" "e9") "label" "ann" [] 30 small_db).1
    ≡ (
      ok ("n", false),
      (record_dispatch_event (envelope "n" "h/p#1" "e9") "label" "ann" [] 30 small_db).1,
    )
unfolding record_dispatch_event find_where has_where
record_dispatch_event_again_example =
    record_dispatch_event_again (envelope "n" "h/p#1" "e9") (envelope "n" "h/p#1" "e9") "label"
      "ann" [] [] 30 31 small_db "n" true
      (record_dispatch_event (envelope "n" "h/p#1" "e9") "label" "ann" [] 30 small_db).1 refl refl

-- A forge that answers every request; the reaper comes in between.
abbrev quiet_forge : Forge
quiet_forge = record {
  meanwhile = λ db. (reap_expired 45 db).1;
  parks = λ reply. false;
  mr_iids = λ path reply. [];
  fetch_mr = λ host token project iid. ok none;
  note = λ host token project target id. ok 1;
  set_label = λ host token project iid label. ok tt;
}

deliver_job_tells_only_example :
    ((deliver_job quiet_forge (ProjectTokens.single "token") 1 "r" 50 small_db).1 ≡ small_db)
    ⊎ Match
        (Told "r")
        (reap_expired 45 small_db).1.conversations
        (deliver_job quiet_forge (ProjectTokens.single "token") 1 "r" 50 small_db).1.conversations
deliver_job_tells_only_example =
    deliver_job_tells_only quiet_forge (ProjectTokens.single "token") 1 "r" 50 small_db

retry_delay_bounds_example :
    (1 ≤ retry_delay 3) × (retry_delay 3 ≤ 256) × (retry_delay 3 ≡ 2 ^ min 3 8)
retry_delay_bounds_example = retry_delay_bounds 3

-- The small database after the dispatch of the candidate.
abbrev dispatched : Db
dispatched = (dispatch (λ s. s) [] [] "new" candidate clock small_db).1

dispatch_once_example :
    Same dispatched (dispatch (λ s. s) [] [] "other" candidate clock dispatched).1
unfolding dispatch find_where has_where update_where parse_hint split_spec
dispatch_once_example =
    dispatch_once (λ s. s) [] [] "new" "other" candidate clock clock small_db (acceptance "new")
      dispatched refl

retried-Ledger : Ledger retried_db
unfolding has_where
retried-Ledger = record { numbered = (omega arith, tt); rising = (tt, tt); deduped = (refl, tt) }

outbox_fenced_example :
    (mark_outbox_delivered 1 0 70 (run any_le calls retried_db)
      ≡ (err Error.runtime, run any_le calls retried_db))
    × (mark_outbox_failed 1 0 "timeout" 90 (run any_le calls retried_db)
        ≡ (err Error.runtime, run any_le calls retried_db))
unfolding find_where
outbox_fenced_example =
    outbox_fenced any_le calls retried_db 1 0 retried 70 "timeout" 90 retried-Ledger refl
      (omega arith)
