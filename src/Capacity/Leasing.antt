-- ===== src/Capacity/Leasing.antt =====
-- The room of a workspace, and the jobs that `claim_jobs` leases in it.
use eastwatch.Prelude.{
  ℕ, ◌+◌, ◌≤◌, String, Bool, true, false, some, List, [], ◌∷◌, ◌≡◌, sym, subst, arith, str_eq,
  eq_iff, inl, inr, Bool-cases,
}
use eastwatch.Table.{length, find_where, count_where}
use eastwatch.Table.Every.{All, All-map, All-map₂, length-take_le, find-holds, find-All}
use eastwatch.Table.Keys.{Unique, count-Unique, Unique-find_key}
use eastwatch.Table.Counts.{count-update_le, count-update_add}
use eastwatch.Schema.{Db, Workspace, Job}
use eastwatch.Store.Workspaces.{enabled_id}
use eastwatch.Store.Claim.{
  active_in, queued_in, queued_id, lease, lease_rows, claimable, available_slots,
}
use eastwatch.Jobs.Rows.{job_key}
use eastwatch.Jobs.Claims.{
  Fresh, leased_table, leased_table-Fresh, leased_table-Unique, claimable-Fresh,
}
use eastwatch.Capacity.{IsSound, active_count, room_key}

module _ (w : String) (until now : ℕ) where
  abbrev Ready : List Job → Job → Type 0
  Ready jobs row = Fresh jobs row × (queued_in w row ≡ true)

  keep-Ready :
      (row : Job) (rows jobs : List Job)
      → All (Ready jobs) rows
      → All (Ready (leased_table until now row jobs)) rows
  keep-Ready row rows jobs ready =
      All-map (λ other h. (leased_table-Fresh until now row jobs other h.0, h.1)) rows ready

  one_more :
      (row : Job) (jobs : List Job)
      → Unique job_key jobs
      → count_where (active_in w) (leased_table until now row jobs)
        ≤ count_where (active_in w) jobs + 1
  one_more row jobs u = omega (
    arith,
    count-update_add (active_in w) (queued_id row.job_id)
        (lease (row.lease_generation + 1) until now) jobs,
    count-Unique job_key (queued_id row.job_id) row.job_id (λ j h. ground arith) jobs u,
  )

  none_elsewhere :
      (id : String) (row : Job) (jobs : List Job)
      → str_eq w id ≡ false
      → Ready jobs row
      → count_where (active_in id) (leased_table until now row jobs)
        ≤ count_where (active_in id) jobs
  none_elsewhere id row jobs other ready =
      count-update_le (active_in id) (queued_id row.job_id)
        (lease (row.lease_generation + 1) until now) jobs
        (All-map (λ j fresh hit active. absurd (clash j (fresh hit).1 (ground (arith, active))))
          jobs ready.0)
    where
      clash : (j : Job) → j.workspace_id ≡ row.workspace_id → str_eq j.workspace_id id ≡ true → ⊥
      clash j same in_id =
          ground (arith, ready.1, eq_iff row.workspace_id w, eq_iff j.workspace_id id, eq_iff w id)

  pub lease_rows-count :
      (rows jobs : List Job)
      → Unique job_key jobs
      → All (Ready jobs) rows
      → count_where (active_in w) (lease_rows w until now rows jobs).1
        ≤ count_where (active_in w) jobs + length rows
  unfolding lease_rows
  lease_rows-count [] jobs u ready = omega arith
  lease_rows-count (row ∷ rows) jobs u ready = omega (
    arith,
    one_more row jobs u,
    lease_rows-count rows (leased_table until now row jobs)
        (leased_table-Unique until now row jobs u) (keep-Ready row rows jobs ready.1),
  )

  pub lease_rows-elsewhere :
      (id : String) (rows jobs : List Job)
      → str_eq w id ≡ false
      → All (Ready jobs) rows
      → count_where (active_in id) (lease_rows w until now rows jobs).1
        ≤ count_where (active_in id) jobs
  unfolding lease_rows
  lease_rows-elsewhere id [] jobs other ready = omega arith
  lease_rows-elsewhere id (row ∷ rows) jobs other ready = omega (
    arith,
    none_elsewhere id row jobs other ready.0,
    lease_rows-elsewhere id rows (leased_table until now row jobs) other
        (keep-Ready row rows jobs ready.1),
  )

pub length-claimable :
    (text_le : String → String → Bool) (w : String) (n : ℕ) (jobs : List Job)
    → length (claimable text_le w n jobs) ≤ n
unfolding claimable
length-claimable text_le w n jobs = length-take_le n _

-- The jobs of a workspace stay within a bound that the table of workspaces gives for its id.
abbrev pub Fits : List Job → Workspace → Type 0
Fits jobs x = count_where (active_in x.workspace_id) jobs ≤ x.capacity

module _ (text_le : String → String → Bool) (w : String) (requested until now : ℕ) (db : Db)
    (sound : IsSound db) (v : Workspace)
    (found : find_where (enabled_id w) db.workspaces ≡ some v) where
  abbrev pub slots : ℕ
  slots = available_slots requested v.capacity (active_count w db)

  abbrev pub rows : List Job
  rows = claimable text_le w slots db.jobs

  Ready-rows : All (Ready w until now db.jobs) rows
  Ready-rows = claimable-Fresh text_le w slots db.jobs sound.job_ids

  v_id : str_eq v.workspace_id w ≡ true
  v_id = ground (arith, find-holds (enabled_id w) db.workspaces v found)

  v-Fits : Fits db.jobs v
  v-Fits = find-All (Fits db.jobs) (enabled_id w) db.workspaces v sound.within found

  slots_left : active_count w db ≤ v.capacity → active_count w db + slots ≤ v.capacity
  unfolding available_slots
  slots_left h = omega arith

  leased_fits : count_where (active_in w) (lease_rows w until now rows db.jobs).1 ≤ v.capacity
  leased_fits = omega (
    arith,
    lease_rows-count w until now rows db.jobs sound.job_ids Ready-rows,
    length-claimable text_le w slots db.jobs,
    slots_left
        (subst (λ id. active_count id db ≤ v.capacity) ((eq_iff v.workspace_id w).0 v_id) v-Fits),
  )

  room-Fits :
      (x : Workspace)
      → Fits db.jobs x
      → (str_eq x.workspace_id w ≡ true → x ≡ v)
      → Fits (lease_rows w until now rows db.jobs).1 x
  room-Fits x fits same = elim (Bool-cases (str_eq x.workspace_id w)) [
    | inl here ↦
        subst
          (λ id. count_where (active_in id) (lease_rows w until now rows db.jobs).1 ≤ x.capacity)
          (sym ((eq_iff x.workspace_id w).0 here))
          (subst
            (λ (y : Workspace).
              count_where (active_in w) (lease_rows w until now rows db.jobs).1 ≤ y.capacity)
            (sym (same here)) leased_fits)
    | inr there ↦ omega (
      arith,
      fits,
      lease_rows-elsewhere w until now x.workspace_id rows db.jobs
          (ground (arith, eq_iff w x.workspace_id, eq_iff x.workspace_id w)) Ready-rows,
    )
  ]

  pub leased_rooms : All (Fits (lease_rows w until now rows db.jobs).1) db.workspaces
  leased_rooms =
      All-map₂ room-Fits db.workspaces sound.within
        (Unique-find_key room_key (enabled_id w) w db.workspaces v sound.room_ids found v_id)
