-- ===== src/Lifecycle/Fewness.antt =====
-- How many jobs a claim gives.
use eastwatch.Prelude.{
  ℕ, ◌+◌, ◌≤◌, min, Bool, String, List, [], ◌∷◌, ok, ◌==◌, ◌≡◌, subst, arith, inl, inr, Bool-cases,
  Option-cases,
}
use eastwatch.Table.{length, update_where, find_where, count_where, select_where, sort_by}
use eastwatch.Table.Every.{length-take_le}
use eastwatch.Models.{ClaimedJob}
use eastwatch.Schema.{Db, Job}
use eastwatch.Transaction.{transaction-ok}
use eastwatch.Store.Workspaces.{enabled_id}
use eastwatch.Store.Claim.{
  active_in, queued_id, queued_in, by_created_at, lease, lease_rows, claimable, available_slots,
  claim_body, claim_jobs,
}

length-lease_rows :
    (w : String) (until now : ℕ) (rows jobs : List Job)
    → length (lease_rows w until now rows jobs).0 ≤ length rows
unfolding lease_rows
length-lease_rows w until now [] jobs = omega arith
length-lease_rows w until now (row ∷ rows) jobs =
    let rest =
      length-lease_rows w until now rows
        (update_where (queued_id row.job_id) (lease (row.lease_generation + 1) until now) jobs) in
    elim (Bool-cases (count_where (queued_id row.job_id) jobs == 1)) [
      | inl one ↦ rw one (omega (arith, rest))
      | inr other ↦ rw other (omega (arith, rest))
    ]

-- A claim that returns gives no more jobs than it was asked for, and never more than ten.
pub claimed_few :
    (text_le : String → String → Bool) (w : String) (limit seconds now : ℕ) (db : Db)
    (leases : List ClaimedJob) (db' : Db)
    → claim_jobs text_le w limit seconds now db ≡ (ok leases, db')
    → length leases ≤ min limit 10
unfolding claim_jobs claim_body claimable available_slots
claimed_few text_le w limit seconds now db leases db' h = elim (Bool-cases (min limit 10 == 0)) [
  | inl nothing ↦ let h' = rw (nothing, claim_jobs) at h in ground (arith, h')
  | inr asked ↦
      let body =
        transaction-ok (claim_body text_le w (min limit 10) (now + seconds) now) db leases db'
          (rw (asked, claim_jobs) at h) in
      elim (Option-cases (find_where (enabled_id w) db.workspaces)) [
        | inl e ↦ absurd (ground (arith, rw (e, claim_body) at body))
        | inr (v, e) ↦
            let body' = rw (e, claim_body) at body in
            let n = available_slots (min limit 10) v.capacity (count_where (active_in w) db.jobs) in
            let rows = claimable text_le w n db.jobs in
            let all : (lease_rows w (now + seconds) now rows db.jobs).0 ≡ leases =
              ground (arith, body') in
            subst (λ x. length x ≤ min limit 10) all
              (omega (
                arith,
                length-lease_rows w (now + seconds) now rows db.jobs,
                length-take_le n
                    (sort_by (by_created_at text_le) (select_where (queued_in w) db.jobs)),
              ))
      ]
]
