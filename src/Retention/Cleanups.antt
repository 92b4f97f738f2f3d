-- ===== src/Retention/Cleanups.antt =====
-- When a run may be cleaned up, and that `schedule_due` of src/eastwatch/controller/retention.py finds it so.
use eastwatch.Prelude.{
  ℕ, ◌+◌, ◌*◌, ◌≤◌, Bool, true, Option, none, some, String, List, [], ◌∷◌, ◌≡◌, refl, ◌∙◌, sym,
  subst, ap, arith, str_eq, eq_iff, column_eq, text_append, ◌&&◌, inl, inr, Option-cases,
  Bool-cases,
}
use eastwatch.Table.{find_where, has_where}
use eastwatch.Table.Every.{All, All-map, Listed, find-Listed, find-holds, All-unpick, has-select}
use eastwatch.Models.{JobState}
use eastwatch.Schema.{
  Db, Run, RunState, Job, Conversation, Status, MergeRequest, WorkspaceAction, ActionState,
}
use eastwatch.Store.Events.{keyed}
use eastwatch.Retention.{
  DueRow, due_row, has_succeeded, run_succeeded, job_succeeded, status_succeeded, merged_time,
  later, last_merge, merge_requests_of, merge_retention, cleanup_action,
}

-- The merge request is merged, and has been for a week.
abbrev pub Rests : ℕ → MergeRequest → Type 0
Rests now m = (m.state ≡ "merged") × ((t : ℕ) × (m.merged_at ≡ some t) × (t + 7 * 86400 ≤ now))

abbrev pub opened_by : Job → Run → MergeRequest → Bool
opened_by job run m = str_eq m.job_id job.job_id && str_eq m.run_id run.run_id

-- The action is the cleanup of a run that may be cleaned up at `now`.
pub record Cleans (now : ℕ) (db : Db) (a : WorkspaceAction) : Type 0 where
  pub run : Run
  pub job : Job
  pub conversation : Conversation
  pub run_there : Listed run db.runs
  pub job_there : Listed job db.jobs
  pub conversation_there : Listed conversation db.conversations
  pub ran : job.job_id ≡ run.job_id
  pub about : conversation.conversation_key ≡ job.conversation_key
  pub current : conversation.current_job_id ≡ some job.job_id
  pub run_succeeded : run.state ≡ RunState.succeeded
  pub job_succeeded : job.state ≡ JobState.succeeded
  pub conversation_succeeded : conversation.status ≡ Status.succeeded
  pub implementation : job.envelope.trigger_kind ≡ "agent::ready"
  pub opened : has_where (opened_by job run) db.merge_requests ≡ true
  pub rest : All (λ m. opened_by job run m ≡ true → Rests now m) db.merge_requests
  pub name : a.action_id ≡ text_append "cleanup:" run.run_id
  pub place : a.workspace_id ≡ job.workspace_id
  pub target : (a.payload.run_id ≡ run.run_id) × (a.payload.job_id ≡ job.job_id)
  pub waiting : (a.state ≡ ActionState.pending) × (a.created_at ≡ now)

run_state : (s : RunState) → run_succeeded s ≡ true → s ≡ RunState.succeeded
run_state RunState.succeeded h = refl
run_state RunState.running h = absurd (cc)
run_state RunState.failed h = absurd (cc)

job_state : (s : JobState) → job_succeeded s ≡ true → s ≡ JobState.succeeded
job_state JobState.succeeded h = refl
job_state JobState.queued h = absurd (cc)
job_state JobState.leased h = absurd (cc)
job_state JobState.running h = absurd (cc)
job_state JobState.failed h = absurd (cc)
job_state JobState.cancelled h = absurd (cc)

conversation_state : (s : Status) → status_succeeded s ≡ true → s ≡ Status.succeeded
conversation_state s h = ground (arith, h)

current_job : (o : Option String) (id : String) → column_eq o id ≡ true → o ≡ some id
current_job none id h = absurd (cc)
current_job (some s) id h = ap some ((eq_iff s id).0 h)

abbrev pub Joins : Db → Run → DueRow → Type 0
Joins db run row =
    (row.run ≡ run)
    × (find_where (λ (j : Job). str_eq j.job_id run.job_id) db.jobs ≡ some row.job)
    × (find_where (keyed row.job.conversation_key) db.conversations ≡ some row.conversation)
    × (has_succeeded run row.job row.conversation ≡ true)

-- A joined row: its run, and what the WHERE clause says.
pub due_row-joined :
    (db : Db) (run : Run) (row : DueRow) → due_row db run ≡ some row → Joins db run row
unfolding due_row
due_row-joined db run row e =
    elim (Option-cases (find_where (λ (j : Job). str_eq j.job_id run.job_id) db.jobs)) [
      | inl n ↦ absurd (let e' = rw (n, due_row) at e in cc)
      | inr (j, n) ↦ elim (Option-cases (find_where (keyed j.conversation_key) db.conversations)) [
        | inl k ↦ absurd (let e' = rw (n, k, due_row) at e in cc)
        | inr (c, k) ↦ elim (Bool-cases (has_succeeded run j c)) [
          | inr out ↦ absurd (let e' = rw (n, k, out, due_row) at e in cc)
          | inl fits ↦
              let e' = rw (n, k, fits, due_row) at e in
              let same : record { run = run; job = j; conversation = c } ≡ row = cc in
              subst (Joins db run) same (refl, n, k, fits)
        ]
      ]
    ]

merged_time-Rests :
    (m : MergeRequest) (t : ℕ)
    → merged_time m ≡ some t
    → (m.state ≡ "merged") × (m.merged_at ≡ some t)
merged_time-Rests m t e = elim (Bool-cases (str_eq m.state "merged")) [
  | inl h ↦ ((eq_iff m.state "merged").0 h, ground (arith, e, h))
  | inr h ↦ absurd (ground (arith, e, h))
]

later-max :
    (o k : Option ℕ) (t : ℕ)
    → later o k ≡ some t
    → (a : ℕ) × (b : ℕ) × (o ≡ some a) × (k ≡ some b) × (a ≤ t) × (b ≤ t)
later-max none k t e = absurd (cc)
later-max (some a) none t e = absurd (cc)
later-max (some a) (some b) t e = (a, b, refl, refl, ground (arith, e), ground (arith, e))

last_merge-bounds :
    (ms : List MergeRequest) (t : ℕ)
    → last_merge ms ≡ some t
    → All (λ m. (m.state ≡ "merged") × ((u : ℕ) × (m.merged_at ≡ some u) × (u ≤ t))) ms
unfolding last_merge
last_merge-bounds [] t e = tt
last_merge-bounds (m ∷ []) t e =
    let (state, at) = merged_time-Rests m t e in ((state, (t, at, omega arith)), tt)
last_merge-bounds (m ∷ n ∷ ms) t e =
    let (a, b, first, others, a_t, b_t) = later-max (merged_time m) (last_merge (n ∷ ms)) t e in
    let (state, at) = merged_time-Rests m a first in
    (
      (state, (a, at, a_t)),
      All-map (λ x h. (h.0, (h.1.0, h.1.1, omega (arith, h.1.2, b_t)))) (n ∷ ms)
          (last_merge-bounds (n ∷ ms) b others),
    )

-- The rows whose merge requests were merged a week ago are those that may be cleaned up.
pub cleanup-Cleans :
    (now merged : ℕ) (db : Db) (run : Run) (row : DueRow)
    → Listed run db.runs
    → due_row db run ≡ some row
    → row.job.envelope.trigger_kind ≡ "agent::ready"
    → last_merge (merge_requests_of row db.merge_requests) ≡ some merged
    → merged + merge_retention ≤ now
    → Cleans now db (cleanup_action row now)
unfolding last_merge
cleanup-Cleans now merged db run row there due kind last aged =
    let (same, job, conversation, fits) = due_row-joined db run row due in
    let found = find-holds (λ (j : Job). str_eq j.job_id run.job_id) db.jobs row.job job in
    let about =
      find-holds (keyed row.job.conversation_key) db.conversations row.conversation conversation in
    record {
      run = row.run;
      job = row.job;
      conversation = row.conversation;
      run_there = subst (λ r. Listed r db.runs) (sym same) there;
      job_there = find-Listed _ db.jobs row.job job;
      conversation_there = find-Listed _ db.conversations row.conversation conversation;
      ran = (eq_iff row.job.job_id run.job_id).0 found ∙ sym (ap (λ (r : Run). r.job_id) same);
      about = (eq_iff row.conversation.conversation_key row.job.conversation_key).0 about;
      current = current_job row.conversation.current_job_id row.job.job_id (ground (arith, fits));
      run_succeeded = ap (λ (r : Run). r.state) same ∙ run_state run.state (ground (arith, fits));
      job_succeeded = job_state row.job.state (ground (arith, fits));
      conversation_succeeded = conversation_state row.conversation.status (ground (arith, fits));
      implementation = kind;
      opened = elim (has-select (opened_by row.job row.run) db.merge_requests) [
        | inl nothing ↦ absurd (let last' = rw nothing at last in cc)
        | inr some_there ↦ some_there
      ];
      rest = All-unpick (Rests now) (opened_by row.job row.run) db.merge_requests (
          All-map (λ m h. (h.0, (h.1.0, h.1.1, omega (arith, h.1.2, aged)))) _
            (last_merge-bounds (merge_requests_of row db.merge_requests) merged last));
      name = refl;
      place = refl;
      target = (refl, refl);
      waiting = (refl, refl);
    }
