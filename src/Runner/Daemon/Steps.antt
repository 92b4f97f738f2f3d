-- ===== src/Runner/Daemon/Steps.antt =====
-- The steps of the threads of a daemon, in any order.
use eastwatch.Prelude.{ℕ, ◌≤◌, ◌≡◌, some, none, List}
use eastwatch.Table.{length}
use eastwatch.Models.{ClaimedJob}
use eastwatch.Runner.Daemon.{Key, Daemon, new_daemon, reject_lease, look, take_leases, finish}

-- The main loop looks for free slots and asks for as many jobs; the controller answers with at most
-- as many; a worker ends; a heartbeat is rejected.
pub data Step (d : Daemon) : Daemon → Type 0 where
  looks : d.asked ≡ none → Step d (look d)
  claims :
      (n : ℕ) (leases : List ClaimedJob)
      → d.asked ≡ some n
      → length leases ≤ n
      → Step d (take_leases leases d)
  ends : (key : Key) → Step d (finish key d)
  rejects : (key : Key) → Step d (reject_lease key d)

pub data Reach (capacity : ℕ) : Daemon → Type 0 where
  begins : (d : Daemon) → new_daemon capacity ≡ some d → Reach capacity d
  later : (d e : Daemon) → Reach capacity d → Step d e → Reach capacity e
