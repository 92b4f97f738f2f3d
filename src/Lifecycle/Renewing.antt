-- ===== src/Lifecycle/Renewing.antt =====
-- `heartbeat` and the leases that are live.
use eastwatch.Prelude.{
  ℕ, ◌+◌, Bool, true, false, String, some, List, [], ◌∷◌, ◌≡◌, refl, ◌∙◌, arith, str_eq, eq_iff,
  ◌==◌, ◌&&◌, if◌then◌else◌, inl, inr, Bool-cases,
}
use eastwatch.Table.{find_where, update_where, count_where}
use eastwatch.Table.Finds.{find-update}
use eastwatch.Models.{ActiveLease}
use eastwatch.Schema.{Db, Job}
use eastwatch.Store.Workspaces.{enabled_id}
use eastwatch.Store.Leases.{held_by, renewable, renew, renew_all, heartbeat, heartbeat_body}
use eastwatch.Jobs.Starts.{raise_stale-db}

-- The lease is in the list.
abbrev pub has_lease : ActiveLease → List ActiveLease → Bool
has_lease l [] = false
has_lease l (x ∷ xs) =
    if str_eq x.job_id l.job_id && x.lease_generation == l.lease_generation
    then true
    else has_lease l xs

module _ (w : String) (until now : ℕ) where
  -- A renewed lease is renewed again or left, never shortened: it keeps the same end.
  renewed_stays :
      (l : ActiveLease) (active : List ActiveLease) (jobs : List Job) (j : Job)
      → find_where (held_by w l.job_id l.lease_generation) jobs ≡ some j
      → j.lease_until ≡ some until
      → (k : Job) × (find_where
            (held_by w l.job_id l.lease_generation)
            (renew_all w until now active jobs).1
          ≡ some k)
        × (k.lease_until ≡ some until)
  unfolding renew_all
  renewed_stays l [] jobs j e h = (j, e, h)
  renewed_stays l (x ∷ active) jobs j e h =
      renewed_stays l active (update_where (renewable w now x) (renew until now) jobs)
        (if renewable w now x j then renew until now j else j)
        (find-update (held_by w l.job_id l.lease_generation) (renewable w now x) (renew until now)
          (λ k. refl) jobs j e)
        (ground (arith, h))

  renew_all-renews :
      (l : ActiveLease) (active : List ActiveLease) (jobs : List Job) (j : Job)
      → has_lease l active ≡ true
      → find_where (held_by w l.job_id l.lease_generation) jobs ≡ some j
      → renewable w now l j ≡ true
      → (k : Job) × (find_where
            (held_by w l.job_id l.lease_generation)
            (renew_all w until now active jobs).1
          ≡ some k)
        × (k.lease_until ≡ some until)
  unfolding renew_all
  renew_all-renews l [] jobs j listed e h = absurd (cc)
  renew_all-renews l (x ∷ active) jobs j listed e h = elim (Bool-cases (renewable w now x j)) [
    | inl now_renewed ↦
        renewed_stays l active (update_where (renewable w now x) (renew until now) jobs)
          (renew until now j)
          (find-update (held_by w l.job_id l.lease_generation) (renewable w now x) (renew until now)
              (λ k. refl) jobs j e
            ∙ rw now_renewed)
          refl
    | inr not_this ↦
        renew_all-renews l active (update_where (renewable w now x) (renew until now) jobs) j
          (ground (
            arith,
            listed,
            eq_iff x.job_id l.job_id,
            eq_iff j.job_id x.job_id,
            eq_iff j.job_id l.job_id,
          ))
          (find-update (held_by w l.job_id l.lease_generation) (renewable w now x) (renew until now)
              (λ k. refl) jobs j e
            ∙ rw not_this)
          h
  ]

heartbeat-jobs :
    (w : String) (active : List ActiveLease) (seconds now : ℕ) (db : Db)
    → (count_where (enabled_id w) db.workspaces == 1) ≡ true
    → (heartbeat w active seconds now db).1.jobs
      ≡ (renew_all w (now + seconds) now active db.jobs).1
unfolding heartbeat heartbeat_body
heartbeat-jobs w active seconds now db one = rw raise_stale-db (rw one)

-- In an enabled workspace, a lease in the list that is live at the time of the heartbeat ends
-- `lease_seconds` later behind it, whether or not the call raises for other leases of the list.
pub heartbeat_renews :
    (w : String) (active : List ActiveLease) (seconds now : ℕ) (db : Db) (l : ActiveLease) (j : Job)
    → (count_where (enabled_id w) db.workspaces == 1) ≡ true
    → has_lease l active ≡ true
    → find_where (held_by w l.job_id l.lease_generation) db.jobs ≡ some j
    → renewable w now l j ≡ true
    → (k : Job) × (find_where
          (held_by w l.job_id l.lease_generation)
          (heartbeat w active seconds now db).1.jobs
        ≡ some k)
      × (k.lease_until ≡ some (now + seconds))
heartbeat_renews w active seconds now db l j one listed held live =
    rw (heartbeat-jobs w active seconds now db one)
      (renew_all-renews w (now + seconds) now l active db.jobs j listed held live)
