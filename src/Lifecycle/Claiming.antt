-- ===== src/Lifecycle/Claiming.antt =====
-- `claim_jobs`: which jobs it selects and leases.
use eastwatch.Prelude.{
  ℕ, ◌+◌, ◌≤◌, min, Bool, true, false, String, List, [], ◌∷◌, ◌≡◌, refl, ◌∙◌, ap, arith, str_eq,
  eq_iff, inl, inr, Bool-cases,
}
use eastwatch.Table.{select_where, update_where, count_where, sort_by, drop}
use eastwatch.Table.Every.{All, All-map, All-map₂, All-take, All-sort, All-select}
use eastwatch.Table.Keys.{has_key, Unique, count-not_key, not_key, str_eq_refl}
use eastwatch.Table.Order.{
  count-sort, count-take-drop, sort-Ranked, take-Ranked, Unique-sort, Unique-select, Unique-take,
}
use eastwatch.Models.{ClaimedJob}
use eastwatch.Schema.{Db, Workspace, Job, is_queued}
use eastwatch.Store.Claim.{
  active_in, queued_in, queued_id, by_created_at, claimed_job, lease_rows, claimable,
  available_slots,
}
use eastwatch.Jobs.Rows.{job_key}
use eastwatch.Jobs.Claims.{leased_table}

-- The queued jobs of the workspace that a claim leaves.
unfoldable pub left_over : (String → String → Bool) → String → ℕ → List Job → List Job
left_over text_le w n jobs =
    drop n (sort_by (by_created_at text_le) (select_where (queued_in w) jobs))

-- The rows that a claim selects and those it leaves are together the queued jobs of the workspace,
-- each as often, and no selected job is younger than one that is left.
pub claimable_oldest :
    (text_le : String → String → Bool) (w : String) (n : ℕ) (jobs : List Job) (p : Job → Bool)
    → (count_where p (claimable text_le w n jobs) + count_where p (left_over text_le w n jobs)
        ≡ count_where p (select_where (queued_in w) jobs))
      × All
          (λ r. All (λ (j : Job). r.created_at ≤ j.created_at) (left_over text_le w n jobs))
          (claimable text_le w n jobs)
unfolding claimable left_over
claimable_oldest text_le w n jobs p =
    let queue = select_where (queued_in w) jobs in
    (
      count-take-drop p n (sort_by (by_created_at text_le) queue)
          ∙ count-sort (by_created_at text_le) p queue,
      take-Ranked (by_created_at text_le) (λ j. j.created_at) older younger n
          (sort_by (by_created_at text_le) queue)
          (sort-Ranked (by_created_at text_le) (λ j. j.created_at) older younger queue),
    )
  where
    older : (x y : Job) → by_created_at text_le x y ≡ true → x.created_at ≤ y.created_at
    older x y h = ground arith

    younger : (x y : Job) → by_created_at text_le x y ≡ false → y.created_at ≤ x.created_at
    younger x y h = ground arith

abbrev pub claimed_jobs : String → ℕ → List Job → List ClaimedJob
claimed_jobs w until [] = []
claimed_jobs w until (row ∷ rows) = claimed_job w until row ∷ claimed_jobs w until rows

-- Exactly one queued job of the table has the id of the row.
abbrev pub InQueue : List Job → Job → Type 0
InQueue jobs row = count_where (queued_id row.job_id) jobs ≡ 1

module _ (w : String) (until now : ℕ) where
  still_queued :
      (row other : Job) (jobs : List Job)
      → str_eq other.job_id row.job_id ≡ false
      → count_where (queued_id other.job_id) (leased_table until now row jobs)
        ≡ count_where (queued_id other.job_id) jobs
  unfolding count_where update_where
  still_queued row other [] ne = refl
  still_queued row other (j ∷ jobs) ne = ground (
    arith,
    still_queued row other jobs ne,
    eq_iff j.job_id row.job_id,
    eq_iff j.job_id other.job_id,
    eq_iff other.job_id row.job_id,
  )

  others_queued :
      (row : Job) (rows jobs : List Job)
      → has_key job_key row.job_id rows ≡ false
      → All (InQueue jobs) rows
      → All (InQueue (leased_table until now row jobs)) rows
  others_queued row [] jobs h a = tt
  others_queued row (other ∷ rows) jobs h a = elim (Bool-cases (str_eq other.job_id row.job_id)) [
    | inl same ↦ absurd (ground (arith, same))
    | inr differs ↦ (
      still_queued row other jobs differs ∙ a.0,
      others_queued row rows jobs (ground (arith, differs)) a.1,
    )
  ]

  pub lease_rows-leases :
      (rows jobs : List Job)
      → Unique job_key rows
      → All (InQueue jobs) rows
      → (lease_rows w until now rows jobs).0 ≡ claimed_jobs w until rows
  unfolding lease_rows
  lease_rows-leases [] jobs u a = refl
  lease_rows-leases (row ∷ rows) jobs u a = rw a.0 (
      ap (λ leases. claimed_job w until row ∷ leases)
        (lease_rows-leases rows (leased_table until now row jobs) u.1
          (others_queued row rows jobs u.0 a.1)))

  one_queued :
      (jobs : List Job)
      → Unique job_key jobs
      → All (λ r. is_queued r.state ≡ true → InQueue jobs r) jobs
  unfolding count_where
  one_queued [] u = tt
  one_queued (j ∷ jobs) u = (
    λ queued. ground (
      arith,
      queued,
      str_eq_refl j.job_id,
      count-not_key job_key (queued_id j.job_id) j.job_id (λ k h. ground arith) jobs u.0,
    ),
    All-map₂
        (λ r differs h queued.
          ground (arith, h queued, differs, eq_iff r.job_id j.job_id, eq_iff j.job_id r.job_id))
        jobs (not_key job_key j.job_id jobs u.0) (one_queued jobs u.1),
  )

-- The rows of a claim.
abbrev pub claimed_rows : (String → String → Bool) → String → ℕ → Workspace → Db → List Job
claimed_rows text_le w limit v db =
    claimable text_le w
      (available_slots (min limit 10) v.capacity (count_where (active_in w) db.jobs)) db.jobs

pub claimable-InQueue :
    (text_le : String → String → Bool) (w : String) (n : ℕ) (jobs : List Job)
    → Unique job_key jobs
    → All (InQueue jobs) (claimable text_le w n jobs)
unfolding claimable
claimable-InQueue text_le w n jobs u = All-take (InQueue jobs) n _ (
    All-sort (InQueue jobs) (by_created_at text_le) (select_where (queued_in w) jobs) (
      All-map (λ r h. h.0 (ground (arith, h.1))) (select_where (queued_in w) jobs)
        (All-select (λ r. is_queued r.state ≡ true → InQueue jobs r) (queued_in w) jobs
          (one_queued w 0 0 jobs u))))

pub claimable-Unique :
    (text_le : String → String → Bool) (w : String) (n : ℕ) (jobs : List Job)
    → Unique job_key jobs
    → Unique job_key (claimable text_le w n jobs)
unfolding claimable
claimable-Unique text_le w n jobs u =
    Unique-take job_key n _
      (Unique-sort job_key (by_created_at text_le) _ (Unique-select job_key (queued_in w) jobs u))
