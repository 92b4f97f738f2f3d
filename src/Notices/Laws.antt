-- ===== src/Notices/Laws.antt =====
-- The laws of the deliveries.
use eastwatch.Prelude.{
  ℕ, zero, suc, ◌≤◌, ◌^◌, min, true, String, List, ok, str_eq, eq_iff, ◌==◌, ◌≡◌, refl, subst, ◌⊎◌,
  inl, inr, arith, Bool-cases, Option-cases, Result-cases,
}
use eastwatch.Table.{find_where, count_where}
use eastwatch.Table.Every.{All-of}
use eastwatch.Table.Follows.{Match, Match-refl, Match-update}
use eastwatch.Table.Every.{find-holds}
use eastwatch.Schema.{Db, Status, Conversation, Job}
use eastwatch.Transaction.{transaction_rule, After}
use eastwatch.Store.Leases.{works_on}
use eastwatch.Notices.{
  DeliveryRow, delivery_row, current_row, record_terminal, terminal_body, upsert_mrs,
}
use eastwatch.Retention.{ProjectTokens}
use eastwatch.Notices.Deliveries.{Forge, deliver_job, tell_issue, terminal_status, retry_delay}

-- A delivery is tried again after at least one second and at most 256, and the delay is the power
-- of two of the attempt, counted up to 8.
pub retry_delay_bounds :
    (attempt : ℕ)
    → (1 ≤ retry_delay attempt)
      × (retry_delay attempt ≤ 256)
      × (retry_delay attempt ≡ 2 ^ min attempt 8)
retry_delay_bounds zero = (omega arith, omega arith, refl)
retry_delay_bounds (suc zero) = (omega arith, omega arith, refl)
retry_delay_bounds (suc (suc zero)) = (omega arith, omega arith, refl)
retry_delay_bounds (suc (suc (suc zero))) = (omega arith, omega arith, refl)
retry_delay_bounds (suc (suc (suc (suc zero)))) = (omega arith, omega arith, refl)
retry_delay_bounds (suc (suc (suc (suc (suc zero))))) = (omega arith, omega arith, refl)
retry_delay_bounds (suc (suc (suc (suc (suc (suc zero)))))) = (omega arith, omega arith, refl)
retry_delay_bounds (suc (suc (suc (suc (suc (suc (suc zero))))))) = (omega arith, omega arith, refl)
retry_delay_bounds (suc (suc (suc (suc (suc (suc (suc (suc n)))))))) = capped (omega arith)
  where
    capped :
        min (suc (suc (suc (suc (suc (suc (suc (suc n)))))))) 8 ≡ 8
        → (1 ≤ retry_delay (suc (suc (suc (suc (suc (suc (suc (suc n)))))))))
          × (retry_delay (suc (suc (suc (suc (suc (suc (suc (suc n)))))))) ≤ 256)
          × (retry_delay (suc (suc (suc (suc (suc (suc (suc (suc n))))))))
              ≡ 2 ^ min (suc (suc (suc (suc (suc (suc (suc (suc n)))))))) 8)
    capped e = (rw e (omega arith), rw e (omega arith), rw e refl)

-- The row of a job is that job's.
delivery_row-id :
    (id : String) (db : Db) (row : DeliveryRow)
    → delivery_row id db ≡ ok row
    → str_eq row.job.job_id id ≡ true
unfolding delivery_row
delivery_row-id id db row h =
    elim (Option-cases (find_where (λ (j : Job). str_eq j.job_id id) db.jobs)) [
      | inl e ↦ absurd (let h' = rw (e, delivery_row) at h in cc)
      | inr (j, e) ↦
          let h' = rw (e, delivery_row) at h in
          let holds = find-holds (λ (x : Job). str_eq x.job_id id) db.jobs j e in
          ground (arith, h', holds)
    ]

-- What a delivery for a job does to a conversation.
abbrev pub Told : String → Conversation → Conversation → Type 0
Told id c c' = (c' ≡ c) ⊎ ((works_on id c ≡ true) × (c'.current_job_id ≡ c.current_job_id))

Told-refl : (id : String) (c : Conversation) → Told id c c
Told-refl id c = inl refl

abbrev TellsOnly : String → Db → Db → Type 0
TellsOnly id db db' = Match (Told id) db.conversations db'.conversations

works-same :
    (s t : String) (c : Conversation)
    → str_eq s t ≡ true
    → works_on s c ≡ true
    → works_on t c ≡ true
works-same s t c same h = subst (λ x. works_on x c ≡ true) ((eq_iff s t).0 same) h

terminal-TellsOnly :
    (id : String) (row : DeliveryRow) (status : Status) (mrs : List ℕ) (now : ℕ) (db : Db)
    → str_eq row.job.job_id id ≡ true
    → After (TellsOnly id db) (terminal_body row status mrs now db)
unfolding terminal_body
terminal-TellsOnly id row status mrs now db same =
    elim (Bool-cases (count_where (current_row row) db.conversations == 1)) [
      | inr e ↦ rw (e, After) tt
      | inl e ↦ elim (Result-cases (upsert_mrs row now mrs db.merge_requests)) [
        | inr (x, g) ↦ rw (e, g, After) tt
        | inl (table, g) ↦
            rw (e, g, After)
              (Match-update (Told id) (Told-refl id) (current_row row) _ db.conversations (
                All-of (λ c h. inr (works-same row.job.job_id id c same (ground arith), refl))
                  db.conversations))
      ]
    ]

-- Delivering the end of a job changes nothing, or others come first, who may do anything to the database
-- while the forge is asked: then it touches no conversation but that which still works on the job in
-- the database that they leave, and leaves that one to it, whatever the forge answers.
pub deliver_job_tells_only :
    (forge : Forge) (tokens : ProjectTokens) (outbox_id : ℕ) (id : String) (now : ℕ) (db : Db)
    → ((deliver_job forge tokens outbox_id id now db).1 ≡ db)
      ⊎ Match
          (Told id)
          (forge.meanwhile db).conversations
          (deliver_job forge tokens outbox_id id now db).1.conversations
unfolding deliver_job record_terminal
deliver_job_tells_only forge tokens outbox_id id now db = elim (Result-cases (delivery_row id db)) [
  | inr (e, h) ↦ inl (rw (h, deliver_job))
  | inl (row, h) ↦ elim (Bool-cases (works_on row.job.job_id row.conversation)) [
    | inr g ↦ inl (rw (h, g, deliver_job))
    | inl g ↦
        let changed = forge.meanwhile db in
        let unchanged = Match-refl (Told id) (Told-refl id) changed.conversations in
        elim (Result-cases (tell_issue forge tokens row outbox_id)) [
          | inr (e, k) ↦ inr (rw (h, g, k, deliver_job) unchanged)
          | inl (outcome, k) ↦
              let status = terminal_status outcome.0 row.job.state in
              inr (
                rw (h, g, k, deliver_job)
                  (transaction_rule (TellsOnly id changed) (terminal_body row status outcome.1 now)
                    changed unchanged
                    (terminal-TellsOnly id row status outcome.1 now changed
                      (delivery_row-id id db row h))))
        ]
  ]
]
