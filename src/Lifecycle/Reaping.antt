-- ===== src/Lifecycle/Reaping.antt =====
-- `reap_expired`: what it does to the leases that ran out, and what it announces.
use eastwatch.Prelude.{
  ℕ, suc, Bool, true, false, String, List, [], ◌∷◌, ok, ◌≡◌, refl, ◌∙◌, ap, arith, str_eq, eq_iff,
  column_lt, none, ◌&&◌, if◌then◌else◌, inl, inr, Bool-cases,
}
use eastwatch.Table.{select_where, update_where, has_where}
use eastwatch.Table.Every.{All, All-map, All-map₂}
use eastwatch.Table.Finds.{has-append, has-append_left}
use eastwatch.Table.Follows.{Match}
use eastwatch.Table.Keys.{str_eq_refl, has_key, Unique, not_key}
use eastwatch.Models.{JobState}
use eastwatch.Schema.{Db, Job, OutboxItem, Notice, is_active, is_leased, is_running, dedupe_eq}
use eastwatch.Transaction.{insert_notice, new_item}
use eastwatch.Store.Reap.{
  lease_expired, run_expired, requeue, requeue_expired, running_id, lose, lose_job, lose_jobs,
  job_ids, reap_expired,
}
use eastwatch.Jobs.Rows.{job_key, Keyed}
use eastwatch.Jobs.Reaps.{insert_notice-jobs}
use eastwatch.Lifecycle.Outcomes.{Moved, Over, leased_state, running_state}

abbrev is_listed : String → List String → Bool
is_listed id [] = false
is_listed id (x ∷ xs) = if str_eq x id then true else is_listed id xs

-- The lease has run out.
abbrev pub lapsed : ℕ → Job → Bool
lapsed now j = column_lt j.lease_until now

-- A running job whose lease has run out.
abbrev pub is_lost : ℕ → Job → Bool
is_lost now j = is_running j.state && lapsed now j

-- What becomes of a job: where its lease has run out, a running job has failed, and a leased one waits
-- in the queue again; any other job is as it was.
abbrev pub Reaped : ℕ → Job → Job → Type 0
Reaped now j k =
    (j.state ≡ JobState.running → lapsed now j ≡ true → Over JobState.failed now j k)
    × (j.state ≡ JobState.leased
        → lapsed now j ≡ true
        → Moved JobState.queued j k × (k.lease_until ≡ none))
    × ((is_active j.state && lapsed now j) ≡ false → k ≡ j)

requeue-Moved : (j : Job) → Moved JobState.queued j (requeue j)
requeue-Moved j = record {
  state = refl;
  key = refl;
  owner = refl;
  conversation = refl;
  event = refl;
  envelope = refl;
  generation = refl;
  created = refl;
}

lose-Over : (now : ℕ) (j : Job) → Over JobState.failed now j (lose now j)
lose-Over now j = (
  record {
    state = refl;
    key = refl;
    owner = refl;
    conversation = refl;
    event = refl;
    envelope = refl;
    generation = refl;
    created = refl;
  },
  refl,
  refl,
)

-- The rows that the loop over the lost jobs changes.
abbrev taken : List String → Job → Bool
taken ids j = is_listed j.job_id ids && is_running j.state

one_more :
    (now : ℕ) (id : String) (ids : List String) (jobs : List Job)
    → update_where (taken ids) (lose now) (update_where (running_id id) (lose now) jobs)
      ≡ update_where (taken (id ∷ ids)) (lose now) jobs
unfolding update_where
one_more now id ids [] = refl
one_more now id ids (j ∷ jobs) = elim (Bool-cases (running_id id j)) [
  | inl e ↦ ground (arith, e, one_more now id ids jobs, eq_iff j.job_id id, eq_iff id j.job_id)
  | inr e ↦ ground (arith, e, one_more now id ids jobs, eq_iff j.job_id id, eq_iff id j.job_id)
]

none_taken : (now : ℕ) (jobs : List Job) → jobs ≡ update_where (taken []) (lose now) jobs
unfolding update_where
none_taken now [] = refl
none_taken now (j ∷ jobs) = ap (λ js. j ∷ js) (none_taken now jobs)

lose_jobs-jobs :
    (now : ℕ) (ids : List String) (db : Db)
    → (lose_jobs now ids db).jobs ≡ update_where (taken ids) (lose now) db.jobs
unfolding lose_jobs lose_job
lose_jobs-jobs now [] db = none_taken now db.jobs
lose_jobs-jobs now (id ∷ ids) db =
    lose_jobs-jobs now ids (lose_job now id db)
    ∙ ap (update_where (taken ids) (lose now)) (rw insert_notice-jobs)
    ∙ one_more now id ids db.jobs

-- A job that waits again is not among the running ones.
select-requeue :
    (now : ℕ) (jobs : List Job)
    → select_where (run_expired now) (update_where (lease_expired now) requeue jobs)
      ≡ select_where (is_lost now) jobs
unfolding select_where update_where
select-requeue now [] = refl
select-requeue now (j ∷ jobs) = elim (Bool-cases (lease_expired now j)) [
  | inl e ↦
      ground (
        arith,
        e,
        select-requeue now jobs,
        ap is_running (leased_state j.state (ground (arith, e))),
      )
  | inr e ↦ rw (e, select-requeue now jobs)
]

not_selected :
    (p : Job → Bool) (id : String) (jobs : List Job)
    → has_key job_key id jobs ≡ false
    → is_listed id (job_ids (select_where p jobs)) ≡ false
unfolding select_where
not_selected p id [] h = refl
not_selected p id (j ∷ jobs) h = ground (arith, h, not_selected p id jobs)

-- With distinct ids, the ids of the selected jobs tell which jobs were selected.
selected_ids :
    (p : Job → Bool) (jobs : List Job)
    → Unique job_key jobs
    → All (λ j. is_listed j.job_id (job_ids (select_where p jobs)) ≡ p j) jobs
unfolding select_where
selected_ids p [] u = tt
selected_ids p (j ∷ jobs) u = elim (Bool-cases (p j)) [
  | inl hit ↦ rw hit (
    ground (arith, str_eq_refl j.job_id),
    All-map₂
        (λ k h differs.
          ground (arith, h, differs, eq_iff j.job_id k.job_id, eq_iff k.job_id j.job_id))
        jobs (selected_ids p jobs u.1) (not_key job_key j.job_id jobs u.0),
  )
  | inr miss ↦ rw miss (
    not_selected p j.job_id jobs u.0,
    All-map (λ k h. ground (arith, h, miss)) jobs (selected_ids p jobs u.1),
  )
]

-- What the two statements make of one row.
abbrev reaped : ℕ → List String → Job → Job
reaped now ids j =
    let k = if lease_expired now j then requeue j else j in if taken ids k then lose now k else k

requeued_row :
    (now : ℕ) (ids : List String) (j : Job)
    → lease_expired now j ≡ true
    → reaped now ids j ≡ requeue j
requeued_row now ids j e = rw e (ground arith)

lost_row :
    (now : ℕ) (ids : List String) (j : Job)
    → is_listed j.job_id ids ≡ is_lost now j
    → is_lost now j ≡ true
    → reaped now ids j ≡ lose now j
lost_row now ids j h e =
    ground (arith, h, e, ap is_leased (running_state j.state (ground (arith, e))))

kept_row :
    (now : ℕ) (ids : List String) (j : Job)
    → is_listed j.job_id ids ≡ is_lost now j
    → lease_expired now j ≡ false
    → is_lost now j ≡ false
    → reaped now ids j ≡ j
kept_row now ids j h e k = ground (arith, h, e, k)

Reaped-row :
    (now : ℕ) (ids : List String) (j : Job)
    → is_listed j.job_id ids ≡ is_lost now j
    → Reaped now j (reaped now ids j)
Reaped-row now ids j h = (
  λ running over.
      let lost : is_lost now j ≡ true = rw (running, over) in
      rw (lost_row now ids j h lost) (lose-Over now j),
  λ leased over.
      let expired : lease_expired now j ≡ true = rw (leased, over) in
      rw (requeued_row now ids j expired) (requeue-Moved j, refl),
  λ keeps. kept_row now ids j h (ground (arith, keeps)) (ground (arith, keeps)),
)

Reaped-table :
    (now : ℕ) (ids : List String) (jobs : List Job)
    → All (λ j. is_listed j.job_id ids ≡ is_lost now j) jobs
    → Match
        (Reaped now)
        jobs
        (update_where (taken ids) (lose now) (update_where (lease_expired now) requeue jobs))
unfolding update_where
Reaped-table now ids [] a = tt
Reaped-table now ids (j ∷ jobs) a = (Reaped-row now ids j a.0, Reaped-table now ids jobs a.1)

-- The notice of a lost job stands in the outbox.
abbrev pub announced : String → Db → Bool
announced id db =
    has_where (λ (x : OutboxItem). dedupe_eq x.notice (Notice.runner_lost id)) db.outbox

announced-lose : (now : ℕ) (id : String) (db : Db) → announced id (lose_job now id db) ≡ true
unfolding lose_job insert_notice dedupe_eq
announced-lose now id db = ground (
  arith,
  has-append (λ (x : OutboxItem). dedupe_eq x.notice (Notice.runner_lost id)) db.outbox
      (new_item (suc db.outbox_seq) (Notice.runner_lost id) now),
  str_eq_refl id,
)

announced-later :
    (now : ℕ) (id other : String) (db : Db)
    → announced id db ≡ true
    → announced id (lose_job now other db) ≡ true
unfolding lose_job insert_notice
announced-later now id other db h = ground (
  arith,
  has-append_left (λ (x : OutboxItem). dedupe_eq x.notice (Notice.runner_lost id)) db.outbox
      (new_item (suc db.outbox_seq) (Notice.runner_lost other) now ∷ []),
  h,
)

lose_jobs-kept :
    (now : ℕ) (id : String) (ids : List String) (db : Db)
    → announced id db ≡ true
    → announced id (lose_jobs now ids db) ≡ true
unfolding lose_jobs
lose_jobs-kept now id [] db h = h
lose_jobs-kept now id (x ∷ ids) db h =
    lose_jobs-kept now id ids (lose_job now x db) (announced-later now id x db h)

lose_jobs-announced :
    (now : ℕ) (ids : List String) (db : Db)
    → All (λ id. announced id (lose_jobs now ids db) ≡ true) ids
unfolding lose_jobs
lose_jobs-announced now [] db = tt
lose_jobs-announced now (id ∷ ids) db = (
  lose_jobs-kept now id ids (lose_job now id db) (announced-lose now id db),
  lose_jobs-announced now ids (lose_job now id db),
)

-- With distinct job ids, the reaper gives the ids of the running jobs whose lease has run out, in the
-- order of the table. Behind it each of these jobs has failed, each leased job whose lease has run
-- out waits in the queue without a lease, both otherwise the same jobs, and any other job is as it
-- was; and each of the lost jobs is announced in the outbox.
pub reap_expired_lem :
    (now : ℕ) (db : Db)
    → Keyed db
    → ((reap_expired now db).0 ≡ ok (job_ids (select_where (is_lost now) db.jobs)))
      × Match (Reaped now) db.jobs (reap_expired now db).1.jobs
      × All
          (λ id. announced id (reap_expired now db).1 ≡ true)
          (job_ids (select_where (is_lost now) db.jobs))
unfolding reap_expired requeue_expired
reap_expired_lem now db keyed =
    let ids = job_ids (select_where (is_lost now) db.jobs) in
    rw (select-requeue now db.jobs) (
      refl,
      rw (lose_jobs-jobs now ids (requeue_expired now db))
          (Reaped-table now ids db.jobs (selected_ids (is_lost now) db.jobs keyed)),
      lose_jobs-announced now ids (requeue_expired now db),
    )
