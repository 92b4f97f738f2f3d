-- ===== src/Lifecycle/Leasing.antt =====
-- `claim_jobs`: what a claim hands to the runner, and what it writes.
use eastwatch.Prelude.{
  ℕ, ◌+◌, ◌<◌, min, Bool, true, false, String, some, List, [], ◌∷◌, ok, ◌≡◌, refl, ◌∙◌, ap, sym,
  subst, arith, str_eq, eq_iff, ◌==◌, inl, inr, Bool-cases,
}
use eastwatch.Table.{find_where, select_where}
use eastwatch.Table.Every.{All, All-map, All-map₂, All-take, All-sort, All-select, All-update}
use eastwatch.Table.Keys.{has_key, Unique, Unique-alone, not_key}
use eastwatch.Table.Follows.{Match, Match-refl, Match-then}
use eastwatch.Models.{JobState, ClaimedJob}
use eastwatch.Schema.{Db, Workspace, Job, is_queued}
use eastwatch.Transaction.{transaction, settle}
use eastwatch.Store.Workspaces.{enabled_id}
use eastwatch.Store.Claim.{
  queued_in, queued_id, by_created_at, lease, lease_rows, claimable, claim_body, claim_jobs,
}
use eastwatch.Jobs.Rows.{job_key, Keyed}
use eastwatch.Jobs.Claims.{leased_table}
use eastwatch.Lifecycle.Outcomes.{Changes, Match-Changes}
use eastwatch.Lifecycle.Claiming.{
  claimed_jobs, claimed_rows, lease_rows-leases, claimable-InQueue, claimable-Unique,
}

-- For each row in turn, what the runner is given: the job of the row for the workspace, under the next
-- lease generation, until the end of the lease.
abbrev pub Handed : String → ℕ → List Job → List ClaimedJob → Type 0
Handed w until [] [] = Unit
Handed w until [] (c ∷ cs) = ⊥
Handed w until (row ∷ rows) [] = ⊥
Handed w until (row ∷ rows) (c ∷ cs) =
    ((c.envelope ≡ row.envelope)
      × (c.workspace_id ≡ w)
      × (c.lease_generation ≡ row.lease_generation + 1)
      × (c.lease_until ≡ until))
    × Handed w until rows cs

-- The job is leased, under the next generation, and otherwise the same job.
pub record Leased (until : ℕ) (j k : Job) : Type 0 where
  pub state : k.state ≡ JobState.leased
  pub generation : k.lease_generation ≡ j.lease_generation + 1
  pub end : k.lease_until ≡ some until
  pub key : k.job_id ≡ j.job_id
  pub owner : k.workspace_id ≡ j.workspace_id
  pub conversation : k.conversation_key ≡ j.conversation_key
  pub event : k.trigger_event_key ≡ j.trigger_event_key
  pub envelope : k.envelope ≡ j.envelope
  pub created : k.created_at ≡ j.created_at

abbrev pub Claimed : ℕ → List Job → Job → Job → Type 0
Claimed until rows = Changes (λ j. has_key job_key j.job_id rows) (Leased until)

-- The row is queued, and the only one with its id.
abbrev Waits : List Job → Job → Type 0
Waits jobs row =
    All (λ j. str_eq j.job_id row.job_id ≡ true → j ≡ row) jobs × (is_queued row.state ≡ true)

claimed_jobs-Handed :
    (w : String) (until : ℕ) (rows : List Job) → Handed w until rows (claimed_jobs w until rows)
claimed_jobs-Handed w until [] = tt
claimed_jobs-Handed w until (row ∷ rows) =
    ((refl, refl, refl, refl), claimed_jobs-Handed w until rows)

module _ (w : String) (until now : ℕ) where
  one-Leased :
      (row : Job) (jobs : List Job)
      → Waits jobs row
      → Match
          (Changes (λ j. str_eq j.job_id row.job_id) (Leased until))
          jobs
          (leased_table until now row jobs)
  one-Leased row jobs (alone, queued) =
      Match-Changes _ (queued_id row.job_id) (lease (row.lease_generation + 1) until now) _ jobs
        (All-map same jobs alone) (All-map leases jobs alone)
    where
      same :
          (j : Job)
          → (str_eq j.job_id row.job_id ≡ true → j ≡ row)
          → queued_id row.job_id j ≡ str_eq j.job_id row.job_id
      same j is_row = elim (Bool-cases (str_eq j.job_id row.job_id)) [
        | inl e ↦
            let waiting : is_queued j.state ≡ true =
              ap (λ (k : Job). is_queued k.state) (is_row e) ∙ queued in
            ground (arith, e, waiting)
        | inr e ↦ ground (arith, e)
      ]

      leases :
          (j : Job)
          → (str_eq j.job_id row.job_id ≡ true → j ≡ row)
          → str_eq j.job_id row.job_id ≡ true
          → Leased until j (lease (row.lease_generation + 1) until now j)
      leases j is_row e = record {
        state = refl;
        generation = ap (λ (k : Job). k.lease_generation + 1) (sym (is_row e));
        end = refl;
        key = refl;
        owner = refl;
        conversation = refl;
        event = refl;
        envelope = refl;
        created = refl;
      }

  others_wait :
      (row : Job) (rows jobs : List Job)
      → has_key job_key row.job_id rows ≡ false
      → All (Waits jobs) rows
      → All (Waits (leased_table until now row jobs)) rows
  others_wait row rows jobs fresh a =
      All-map₂
        (λ other differs waits. (
          All-update (queued_id row.job_id) (lease (row.lease_generation + 1) until now)
              (λ j h hit is_other. absurd (
                ground (
                  arith,
                  hit,
                  is_other,
                  differs,
                  eq_iff j.job_id row.job_id,
                  eq_iff j.job_id other.job_id,
                  eq_iff other.job_id row.job_id,
                )))
              (λ j h miss is_other. h is_other) jobs waits.0,
          waits.1,
        ))
        rows (not_key job_key row.job_id rows fresh) a

  both :
      (row : Job) (rows : List Job)
      → has_key job_key row.job_id rows ≡ false
      → (j y k : Job) → Changes (λ i. str_eq i.job_id row.job_id) (Leased until) j y
      → Claimed until rows y k
      → Claimed until (row ∷ rows) j k
  both row rows fresh j y k first others = elim (Bool-cases (str_eq j.job_id row.job_id)) [
    | inl e ↦
        let leased = first.0 e in
        let id : y.job_id ≡ row.job_id = leased.key ∙ (eq_iff j.job_id row.job_id).0 e in
        let same : k ≡ y = others.1 (ap (λ i. has_key job_key i rows) id ∙ fresh) in
        (
          (λ _. subst (Leased until j) (sym same) leased),
          (λ h.
              absurd
                (ground (arith, h, e, eq_iff j.job_id row.job_id, eq_iff row.job_id j.job_id))),
        )
    | inr e ↦
        let same : y ≡ j = first.1 e in
        let now_others : Claimed until rows j k = subst (λ x. Claimed until rows x k) same others in
        let misses : str_eq row.job_id j.job_id ≡ false =
          ground (arith, e, eq_iff j.job_id row.job_id, eq_iff row.job_id j.job_id) in
        (
          (λ h. now_others.0 (ground (arith, h, misses))),
          (λ h. now_others.1 (ground (arith, h, misses))),
        )
  ]

  lease_rows-Claimed :
      (rows jobs : List Job)
      → Unique job_key rows
      → All (Waits jobs) rows
      → Match (Claimed until rows) jobs (lease_rows w until now rows jobs).1
  unfolding lease_rows
  lease_rows-Claimed [] jobs u a =
      Match-refl (Claimed until []) (λ j. ((λ h. absurd (cc)), (λ h. refl))) jobs
  lease_rows-Claimed (row ∷ rows) jobs u a =
      Match-then _ _ _ (both row rows u.0) jobs (leased_table until now row jobs) _
        (one-Leased row jobs a.0)
        (lease_rows-Claimed rows (leased_table until now row jobs) u.1
          (others_wait row rows jobs u.0 a.1))

claimable-Waits :
    (text_le : String → String → Bool) (w : String) (n : ℕ) (jobs : List Job)
    → Unique job_key jobs
    → All (Waits jobs) (claimable text_le w n jobs)
unfolding claimable
claimable-Waits text_le w n jobs u = All-take (Waits jobs) n _ (
    All-sort (Waits jobs) (by_created_at text_le) (select_where (queued_in w) jobs) (
      All-map (λ r h. (h.0, ground (arith, h.1))) (select_where (queued_in w) jobs)
        (All-select _ (queued_in w) jobs (Unique-alone job_key jobs u))))

-- With distinct job ids, a claim that asks for some jobs in an enabled workspace returns, and gives for
-- each of the selected rows its job, under the next lease generation and until the end of the lease:
-- none is skipped. In the table just these jobs are leased, under that generation and until that
-- time, and otherwise the same jobs; no other job changes.
pub claim_jobs_leases :
    (text_le : String → String → Bool) (w : String) (limit seconds now : ℕ) (db : Db)
    (v : Workspace)
    → Keyed db
    → 0 < limit
    → find_where (enabled_id w) db.workspaces ≡ some v
    → (leases : List ClaimedJob) × ((claim_jobs text_le w limit seconds now db).0 ≡ ok leases)
      × Handed w (now + seconds) (claimed_rows text_le w limit v db) leases
      × Match
          (Claimed (now + seconds) (claimed_rows text_le w limit v db))
          db.jobs
          (claim_jobs text_le w limit seconds now db).1.jobs
unfolding claim_jobs claim_body
claim_jobs_leases text_le w limit seconds now db v u asked found =
    let wanted : (min limit 10 == 0) ≡ false = ground arith in
    let rows = claimed_rows text_le w limit v db in
    let unique = claimable-Unique text_le w _ db.jobs u in
    rw wanted (
      rw (found, claim_body, transaction, settle)
        (
          claimed_jobs w (now + seconds) rows,
          ap ok (
              lease_rows-leases w (now + seconds) now rows db.jobs unique
                (claimable-InQueue text_le w _ db.jobs u)),
          claimed_jobs-Handed w (now + seconds) rows,
          lease_rows-Claimed w (now + seconds) now rows db.jobs unique
              (claimable-Waits text_le w _ db.jobs u),
        ))
