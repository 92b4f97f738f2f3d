-- ===== src/Lifecycle/Outcomes.antt =====
-- What a runner's report may do to the tables, said without the statements of the methods: which row
-- the runner must hold, and which rows change, and how.
use eastwatch.Prelude.{
  ℕ, ◌≤◌, Bool, true, false, Option, none, some, String, List, [], ◌∷◌, ◌≡◌, refl, sym, ap, ◌∙◌,
  arith, str_eq, eq_iff, is_some, column_lt, column_eq, inl, inr, Bool-cases,
}
use eastwatch.Table.{find_where, has_where, update_where}
use eastwatch.Table.Every.{All, All-map, All-of, find-holds}
use eastwatch.Table.Keys.{Unique-find_key, find-weaker}
use eastwatch.Table.Follows.{Match}
use eastwatch.Table.Finds.{has-append}
use eastwatch.Models.{JobState}
use eastwatch.Schema.{
  Db, Job, Conversation, Status, Notice, OutboxItem, dedupe_eq, is_leased, is_running,
}
use eastwatch.Transaction.{insert_notice}
use eastwatch.Store.Leases.{held_by, works_on, set_status}
use eastwatch.Jobs.Rows.{job_key, Keyed}

module _ {A : Type 0} where
  -- A row with the condition changes as S says, and any other row stays as it is.
  abbrev pub Changes : (A → Bool) → (A → A → Type 0) → A → A → Type 0
  Changes p S x y = (p x ≡ true → S x y) × (p x ≡ false → y ≡ x)

  -- An UPDATE whose condition is p on the rows of the table.
  pub Match-Changes :
      (p q : A → Bool) (f : A → A) (S : A → A → Type 0) (xs : List A)
      → All (λ x. q x ≡ p x) xs
      → All (λ x. p x ≡ true → S x (f x)) xs
      → Match (Changes p S) xs (update_where q f xs)
  unfolding update_where
  Match-Changes p q f S [] same h = tt
  Match-Changes p q f S (x ∷ xs) same h = elim (Bool-cases (p x)) [
    | inl e ↦
        rw (same.0 ∙ e)
          ((λ k. h.0 e, λ k. absurd (ground (arith, e, k))), Match-Changes p q f S xs same.1 h.1)
    | inr e ↦
        rw (same.0 ∙ e)
          ((λ k. absurd (ground (arith, e, k)), λ k. refl), Match-Changes p q f S xs same.1 h.1)
  ]

abbrev pub has_id : String → Job → Bool
has_id id j = str_eq j.job_id id

-- The one job with the id: it is the workspace's, in the state, under the lease of the generation,
-- and the lease has not run out.
pub record Holds (w id : String) (generation now : ℕ) (s : JobState) (db : Db) (row : Job)
    : Type 0 where
  pub found : find_where (has_id id) db.jobs ≡ some row
  pub owner : row.workspace_id ≡ w
  pub lease : row.lease_generation ≡ generation
  pub state : row.state ≡ s
  pub live : (until : ℕ) × (row.lease_until ≡ some until) × (now ≤ until)

-- The job is in the new state, and is the same job under the same lease generation.
pub record Moved (s : JobState) (j k : Job) : Type 0 where
  pub state : k.state ≡ s
  pub key : k.job_id ≡ j.job_id
  pub owner : k.workspace_id ≡ j.workspace_id
  pub conversation : k.conversation_key ≡ j.conversation_key
  pub event : k.trigger_event_key ≡ j.trigger_event_key
  pub envelope : k.envelope ≡ j.envelope
  pub generation : k.lease_generation ≡ j.lease_generation
  pub created : k.created_at ≡ j.created_at

-- The job has ended: it holds no lease.
abbrev pub Over : JobState → ℕ → Job → Job → Type 0
Over s now j k = Moved s j k × (k.finished_at ≡ some now) × (k.lease_until ≡ none)

-- The conversations that work on the job get the status, and no other conversation changes.
abbrev pub Tells : String → Status → ℕ → List Conversation → List Conversation → Type 0
Tells id status now = Match (
    Changes (λ v. column_eq v.current_job_id id)
      (λ v u.
        (u.status ≡ status)
        × (u.updated_at ≡ now)
        × (u.conversation_key ≡ v.conversation_key)
        × (u.current_job_id ≡ v.current_job_id)))

abbrev pub announces : Notice → Db → Bool
announces notice db = has_where (λ (x : OutboxItem). dedupe_eq x.notice notice) db.outbox

pub set_status-Tells :
    (id : String) (status : Status) (now : ℕ) (vs : List Conversation)
    → Tells id status now vs (update_where (works_on id) (set_status status now) vs)
set_status-Tells id status now vs =
    Match-Changes _ (works_on id) (set_status status now) _ vs (All-of (λ v. refl) vs)
      (All-of (λ v h. (refl, refl, refl, refl)) vs)

pub insert_notice-announces :
    (notice : Notice) (now : ℕ) (db : Db)
    → dedupe_eq notice notice ≡ true
    → announces notice (insert_notice notice now db) ≡ true
unfolding insert_notice
insert_notice-announces notice now db same = elim (Bool-cases (announces notice db)) [
  | inl e ↦ rw e e
  | inr e ↦ rw e (has-append (λ (x : OutboxItem). dedupe_eq x.notice notice) db.outbox _ same)
]

pub running_state : (s : JobState) → is_running s ≡ true → s ≡ JobState.running
running_state JobState.running h = refl
running_state JobState.queued h = absurd (cc)
running_state JobState.leased h = absurd (cc)
running_state JobState.succeeded h = absurd (cc)
running_state JobState.failed h = absurd (cc)
running_state JobState.cancelled h = absurd (cc)

pub leased_state : (s : JobState) → is_leased s ≡ true → s ≡ JobState.leased
leased_state JobState.leased h = refl
leased_state JobState.queued h = absurd (cc)
leased_state JobState.running h = absurd (cc)
leased_state JobState.succeeded h = absurd (cc)
leased_state JobState.failed h = absurd (cc)
leased_state JobState.cancelled h = absurd (cc)

live_until :
    (now : ℕ) (until : Option ℕ)
    → is_some until ≡ true
    → column_lt until now ≡ false
    → (t : ℕ) × (until ≡ some t) × (now ≤ t)
live_until now none h k = absurd (cc)
live_until now (some t) h k = (t, refl, ground (arith, k))

module _ (w id : String) (generation : ℕ) (db : Db) (row : Job) (keyed : Keyed db)
    (held : find_where (held_by w id generation) db.jobs ≡ some row) where
  holds : held_by w id generation row ≡ true
  holds = find-holds (held_by w id generation) db.jobs row held

  row_id : has_id id row ≡ true
  row_id = ground (arith, holds)

  pub alone : All (λ j. has_id id j ≡ true → j ≡ row) db.jobs
  alone = Unique-find_key job_key (held_by w id generation) id db.jobs row keyed held row_id

  -- The rows that the caller holds are those with the id.
  pub held-id : All (λ j. held_by w id generation j ≡ has_id id j) db.jobs
  held-id = All-map at_row db.jobs alone
    where
      at_row : (j : Job) → (has_id id j ≡ true → j ≡ row) → held_by w id generation j ≡ has_id id j
      at_row j same = elim (Bool-cases (has_id id j)) [
        | inl e ↦ ap (held_by w id generation) (same e) ∙ holds ∙ sym e
        | inr e ↦ ground (arith, e)
      ]

  pub held-Holds :
      (now : ℕ) (s : JobState)
      → row.state ≡ s
      → is_some row.lease_until ≡ true
      → column_lt row.lease_until now ≡ false
      → Holds w id generation now s db row
  held-Holds now s state until live = record {
    found =
        find-weaker (has_id id) (held_by w id generation) (λ j h. ground (arith, h)) db.jobs row
          held alone;
    owner = (eq_iff row.workspace_id w).0 (ground (arith, holds));
    lease = ground (arith, holds);
    state = state;
    live = live_until now row.lease_until until live;
  }
