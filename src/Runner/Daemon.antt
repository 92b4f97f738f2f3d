-- ===== src/Runner/Daemon.antt =====
-- `RunnerDaemon` of src/eastwatch/runner/daemon.py: the table of active jobs, which the main loop, the
-- heartbeat thread and the workers change in turns. The lock makes each change one step.
pub mod Steps
pub mod Capacity
use eastwatch.Prelude.{
  ℕ, suc, ◌-◌, Bool, true, false, Option, none, some, String, List, [], ◌∷◌, ◌++◌, leb, str_eq,
  ◌==◌, ◌&&◌, not, if◌then◌else◌,
}
use eastwatch.Table.{has_where, select_where, update_where, count_where}
use eastwatch.Models.{ClaimedJob}

-- `tuple[str, int]`
abbrev pub Key : Type 0
Key = String × ℕ

abbrev pub same_key : Key → Key → Bool
same_key (job_id, generation) (id, n) = str_eq job_id id && generation == n

-- An entry of `self.active`: the lease, whether the future is done, and whether the event is set.
pub record Worker : Type 0 where
  pub key : Key
  pub lease : ClaimedJob
  pub finished : Bool
  pub cancelled : Bool

-- `asked` holds the free slots of a claim that is under way.
pub record Daemon : Type 0 where
  pub capacity : ℕ
  pub active : List Worker
  pub stale : List Key
  pub asked : Option ℕ

-- `__init__`: `none` is its ValueError.
unfoldable pub new_daemon : ℕ → Option Daemon
new_daemon capacity =
    if leb 1 capacity && leb capacity 10
    then some (record { capacity = capacity; active = []; stale = []; asked = none })
    else none

abbrev pub is_running : Worker → Bool
is_running w = not w.finished

abbrev pub has_key : Key → Worker → Bool
has_key key w = same_key w.key key

unfoldable pub active_count : Daemon → ℕ
active_count d = count_where is_running d.active

abbrev pub is_target : List Key → Worker → Bool
is_target stale w = is_running w && not (has_where (same_key w.key) stale)

abbrev pub keys_of : List Worker → List Key
keys_of [] = []
keys_of (w ∷ ws) = w.key ∷ keys_of ws

-- `heartbeat_targets`
unfoldable pub heartbeat_targets : Daemon → List Key
heartbeat_targets d = keys_of (select_where (is_target d.stale) d.active)

-- `self.stale.add(key)`
abbrev pub add_key : Key → List Key → List Key
add_key key keys = if has_where (same_key key) keys then keys else keys ++ key ∷ []

-- `except LeaseRejected` in `heartbeat_loop`
unfoldable pub reject_lease : Key → Daemon → Daemon
reject_lease key d = record d {
  stale = add_key key d.stale;
  active = update_where (has_key key) (λ w. record w { cancelled = true }) d.active;
}

-- `collect_finished`
unfoldable pub collect_finished : Daemon → Daemon
collect_finished d = record d {
  active = select_where is_running d.active;
  stale = select_where (λ key. not (has_where (λ w. w.finished && has_key key w) d.active)) d.stale;
}

abbrev pub key_of : ClaimedJob → Key
key_of lease = (lease.envelope.job_id, lease.lease_generation)

abbrev pub new_worker : ClaimedJob → Worker
new_worker lease = record { key = key_of lease; lease = lease; finished = false; cancelled = false }

-- `submit`
unfoldable pub submit : ClaimedJob → Daemon → Daemon
submit lease d =
    if has_where (has_key (key_of lease)) d.active
    then d
    else record d { active = d.active ++ new_worker lease ∷ [] }

unfoldable pub submit_all : List ClaimedJob → Daemon → Daemon
unfolding submit
submit_all [] d = d
submit_all (lease ∷ leases) d = submit_all leases (submit lease d)

abbrev pub slots_to_ask : ℕ → Option ℕ
slots_to_ask free = if free == 0 then none else some free

-- `run`, up to the claim: with no free slot it waits instead. `collect_finished` and `active_count` take
-- the lock one after the other; a worker that ends in between is counted as active either way, since
-- only the main loop drops it.
unfoldable pub look : Daemon → Daemon
unfolding collect_finished active_count
look d =
    let e = collect_finished d in record e { asked = slots_to_ask (e.capacity - active_count e) }

-- `run`, behind the claim; a failed claim gives no leases.
unfoldable pub take_leases : List ClaimedJob → Daemon → Daemon
unfolding submit_all
take_leases leases d = submit_all leases (record d { asked = none })

-- `future.done()` becomes true.
unfoldable pub finish : Key → Daemon → Daemon
finish key d = record d {
  active = update_where (has_key key) (λ w. record w { finished = true }) d.active;
}
