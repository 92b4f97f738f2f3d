-- ===== src/Store/Leases.antt =====
-- ControllerStore.mark_started and heartbeat: a runner starts a job that it leased, and renews its
-- leases.
use eastwatch.Prelude.{
  ℕ, ◌+◌, Bool, true, false, Option, none, some, String, List, [], ◌∷◌, ◌++◌, Result, ok, err,
  Error, str_eq, column_lt, column_ge, column_eq, is_some, ◌==◌, ◌&&◌, ◌||◌, not, if◌then◌else◌,
}
use eastwatch.Table.{find_where, update_where, count_where, has_where}
use eastwatch.Models.{JobState, RunReferences, ActiveLease}
use eastwatch.Schema.{
  Db, Conversation, Status, Job, Run, RunState, Notice, is_running, is_leased, is_active,
}
use eastwatch.Transaction.{Body, Method, transaction, insert_notice}
use eastwatch.Store.Workspaces.{enabled_id}

-- `job_id = ? AND workspace_id = ? AND lease_generation = ?`
abbrev pub held_by : String → String → ℕ → Job → Bool
held_by workspace_id job_id generation j =
    str_eq j.job_id job_id && str_eq j.workspace_id workspace_id && j.lease_generation == generation

abbrev pub held_run : String → String → ℕ → Run → Bool
held_run workspace_id job_id generation r =
    str_eq r.job_id job_id && str_eq r.workspace_id workspace_id && r.lease_generation == generation

abbrev pub option_eq : Option String → Option String → Bool
option_eq none none = true
option_eq (some s) (some t) = str_eq s t
option_eq _ _ = false

-- The references without `session_file_relpath` are the same.
abbrev pub same_rest : RunReferences → RunReferences → Bool
same_rest r s =
    str_eq r.run_id s.run_id
    && str_eq r.tmux_session s.tmux_session
    && str_eq r.worktree_relpath s.worktree_relpath
    && str_eq r.run_dir_relpath s.run_dir_relpath

-- `run["refs_json"] == refs_json`: the canonical dumps are the same.
abbrev pub same_refs : Option RunReferences → RunReferences → Bool
same_refs none s = false
same_refs (some r) s = same_rest r s && option_eq r.session_file_relpath s.session_file_relpath

abbrev pub truthy : Option String → Bool
truthy none = false
truthy (some s) = not (str_eq s "")

-- A retry may add the session file, if none was known and nothing else changed. The empty object
-- '{}' has other keys than the new references, so it is never the same.
abbrev pub adds_session : Option RunReferences → RunReferences → Bool
adds_session none s = false
adds_session (some r) s =
    not (truthy r.session_file_relpath) && truthy s.session_file_relpath && same_rest r s

-- The branch for a job that runs already.
unfoldable pub retry_start : String → String → ℕ → RunReferences → Body Bool
retry_start workspace_id job_id generation refs db =
    elim (find_where (held_run workspace_id job_id generation) db.runs) [
      | none ↦ err Error.stale_lease
      | some run ↦
          if not (str_eq run.run_id refs.run_id)
          then err Error.stale_lease
          else if same_refs run.refs refs
          then ok (false, db)
          else if adds_session run.refs refs
          then ok (
            false,
            record db {
              runs =
                  update_where (held_run workspace_id job_id generation)
                    (λ r. record r { refs = some refs }) db.runs;
            },
          )
          else err Error.stale_lease
    ]

-- `conversations.current_job_id = ?`
abbrev pub works_on : String → Conversation → Bool
works_on job_id c = column_eq c.current_job_id job_id

abbrev pub set_status : Status → ℕ → Conversation → Conversation
set_status status now c = record c { status = status; updated_at = now }

abbrev pub new_run : String → String → ℕ → RunReferences → ℕ → Run
new_run workspace_id job_id generation refs started_at = record {
  run_id = refs.run_id;
  job_id = job_id;
  workspace_id = workspace_id;
  lease_generation = generation;
  state = RunState.running;
  refs = some refs;
  result = none;
  error = none;
  started_at = started_at;
  finished_at = none;
}

abbrev pub start : ℕ → Job → Job
start started_at j = record j { state = JobState.running; started_at = some started_at }

-- The statements that start the job: `run_id` and (job_id, lease_generation) are unique in `runs`.
unfoldable pub first_start : String → String → ℕ → RunReferences → ℕ → Body Bool
first_start workspace_id job_id generation refs started_at db =
    if has_where
      (λ (r : Run).
        str_eq r.run_id refs.run_id || (str_eq r.job_id job_id && r.lease_generation == generation))
      db.runs
    then err Error.integrity
    else ok (
      true,
      insert_notice (Notice.job_started job_id) started_at (record db {
        jobs = update_where (λ (j : Job). str_eq j.job_id job_id) (start started_at) db.jobs;
        runs = db.runs ++ new_run workspace_id job_id generation refs started_at ∷ [];
        conversations =
            update_where (works_on job_id) (set_status Status.working started_at) db.conversations;
      }),
    )

unfoldable pub start_body : String → String → ℕ → RunReferences → ℕ → Body Bool
unfolding retry_start first_start
start_body workspace_id job_id generation refs started_at db =
    elim (find_where (held_by workspace_id job_id generation) db.jobs) [
      | none ↦ err Error.stale_lease
      | some row ↦
          if is_running row.state
          then retry_start workspace_id job_id generation refs db
          else if not (is_leased row.state && is_some row.lease_until)
          then err Error.stale_lease
          else if column_lt row.lease_until started_at
          then err Error.stale_lease
          else first_start workspace_id job_id generation refs started_at db
    ]

unfoldable pub mark_started :
    (workspace_id job_id : String) (generation : ℕ) → RunReferences → ℕ → Method Bool
unfolding transaction start_body
mark_started workspace_id job_id generation refs started_at =
    transaction (start_body workspace_id job_id generation refs started_at)

-- The jobs whose lease the UPDATE of one heartbeat renews.
abbrev pub renewable : String → ℕ → ActiveLease → Job → Bool
renewable workspace_id now lease j =
    held_by workspace_id lease.job_id lease.lease_generation j
    && is_active j.state
    && column_ge j.lease_until now

abbrev pub renew : ℕ → ℕ → Job → Job
renew lease_until now j = record j { lease_until = some lease_until; last_heartbeat_at = some now }

-- The loop over the active leases: the stale ones, and the renewed jobs.
unfoldable pub renew_all :
    String → ℕ → ℕ → List ActiveLease → List Job → List ActiveLease × List Job
renew_all workspace_id lease_until now [] jobs = ([], jobs)
renew_all workspace_id lease_until now (lease ∷ leases) jobs =
    let (stale, jobs') =
      renew_all workspace_id lease_until now leases
        (update_where (renewable workspace_id now lease) (renew lease_until now) jobs) in
    (
      if count_where (renewable workspace_id now lease) jobs == 1 then stale else lease ∷ stale,
      jobs',
    )

unfoldable pub heartbeat_body : String → List ActiveLease → ℕ → ℕ → Body (List ActiveLease)
unfolding renew_all
heartbeat_body workspace_id active lease_until now db =
    if count_where (enabled_id workspace_id) db.workspaces == 1
    then (let (stale, jobs) = renew_all workspace_id lease_until now active db.jobs in
        ok (
          stale,
          record db {
            jobs = jobs;
            workspaces =
                update_where (enabled_id workspace_id) (λ w. record w { last_seen_at = some now })
                  db.workspaces;
          },
        ))
    else err Error.unknown_workspace

-- The exception for stale leases is raised behind the transaction, which has committed.
abbrev pub raise_stale : Result (List ActiveLease) × Db → Result (Unit {0}) × Db
raise_stale (ok [], db) = (ok tt, db)
raise_stale (ok (x ∷ xs), db) = (err Error.stale_lease, db)
raise_stale (err e, db) = (err e, db)

unfoldable pub heartbeat : String → List ActiveLease → (lease_seconds now : ℕ) → Method (Unit {0})
unfolding transaction heartbeat_body
heartbeat workspace_id active lease_seconds now db =
    raise_stale (transaction (heartbeat_body workspace_id active (now + lease_seconds) now) db)
