-- ===== src/Capacity/Effects.antt =====
-- The effect of each kind of method on the soundness of the database.
use eastwatch.Prelude.{
  ℕ, ◌+◌, ◌≤◌, min, String, Bool, some, List, [], ◌∷◌, ◌≡◌, refl, arith, ◌==◌, str_eq, inl, inr,
  Bool-cases, Option-cases,
}
use eastwatch.Table.{find_where, update_where, count_where}
use eastwatch.Table.Every.{All, All-map}
use eastwatch.Table.Keys.{Unique-update}
use eastwatch.Table.Follows.{Match, Match-Unique, Match-count}
use eastwatch.Schema.{Db, Workspace, Job}
use eastwatch.Transaction.{After, transaction_rule}
use eastwatch.Store.Workspaces.{enabled_id}
use eastwatch.Store.Claim.{active_in, claim_body, claim_jobs}
use eastwatch.Jobs.{Settles}
use eastwatch.Jobs.Rows.{JobsSettle, Keyed}
use eastwatch.Jobs.Inserts.{Enters}
use eastwatch.Capacity.{IsSound, SameRoom, room_key}
use eastwatch.Capacity.Rooms.{RoomsKept, RoomsKept-of_eq, touched}
use eastwatch.Capacity.Leasing.{Fits, leased_rooms}

-- The rooms carry a bound over to their successors.
rooms_fit :
    (jobs : List Job) (vs ws : List Workspace)
    → Match SameRoom vs ws
    → All (Fits jobs) vs
    → All (Fits jobs) ws
rooms_fit jobs [] [] h a = tt
rooms_fit jobs [] (w ∷ ws) h a = absurd h
rooms_fit jobs (v ∷ vs) [] h a = absurd h
rooms_fit jobs (v ∷ vs) (w ∷ ws) h a =
    (rw h.0.same_id (omega (arith, h.0.same_capacity, a.0)), rooms_fit jobs vs ws h.1 a.1)

-- Fewer active jobs fit as well.
fewer_fit :
    (jobs jobs' : List Job)
    → ((id : String) → count_where (active_in id) jobs' ≤ count_where (active_in id) jobs)
    → (ws : List Workspace) → All (Fits jobs) ws
    → All (Fits jobs') ws
fewer_fit jobs jobs' less ws a = All-map (λ w h. omega (arith, less w.workspace_id, h)) ws a

seen :
    (w : String) (now : ℕ) (rooms : List Workspace)
    → Match SameRoom rooms (
        update_where
          (λ (x : Workspace). str_eq x.workspace_id w)
          (λ x. record x { last_seen_at = some now })
          rooms)
seen w now rooms = touched _ _ (λ x. record { same_id = refl; same_capacity = refl }) rooms

pub IsSound-step :
    (db db' : Db)
    → IsSound db
    → Keyed db'
    → RoomsKept db db'
    → ((id : String) → count_where (active_in id) db'.jobs ≤ count_where (active_in id) db.jobs)
    → IsSound db'
IsSound-step db db' s keyed rooms less = record {
  job_ids = keyed;
  room_ids =
      Match-Unique SameRoom room_key (λ v w h. h.same_id) db.workspaces db'.workspaces rooms
        s.room_ids;
  within =
      rooms_fit db'.jobs db.workspaces db'.workspaces rooms
        (fewer_fit db.jobs db'.jobs less db.workspaces s.within);
}

pub settled_less :
    (db db' : Db)
    → JobsSettle db db'
    → (id : String) → count_where (active_in id) db'.jobs ≤ count_where (active_in id) db.jobs
settled_less db db' h id =
    Match-count Settles (active_in id)
      (λ j k s active. ground (arith, s.not_leased, s.life.same_workspace)) db.jobs db'.jobs h

claim_body-IsSound :
    (text_le : String → String → Bool) (w : String) (requested until now : ℕ) (db : Db)
    → IsSound db
    → After (λ d. Keyed d → IsSound d) (claim_body text_le w requested until now db)
unfolding claim_body
claim_body-IsSound text_le w requested until now db s =
    elim (Option-cases (find_where (enabled_id w) db.workspaces)) [
      | inl e ↦ rw (e, After, claim_body) tt
      | inr (v, e) ↦
          rw (e, After, claim_body)
            λ keyed. record {
              job_ids = keyed;
              room_ids = Unique-update room_key _ _ (λ x. refl) db.workspaces s.room_ids;
              within =
                  rooms_fit _ db.workspaces _ (seen w now db.workspaces)
                    (leased_rooms text_le w requested until now db s v e);
            }
    ]

pub claim_jobs-IsSound :
    (text_le : String → String → Bool) (w : String) (limit seconds now : ℕ) (db : Db)
    → IsSound db
    → Keyed (claim_jobs text_le w limit seconds now db).1
    → IsSound (claim_jobs text_le w limit seconds now db).1
unfolding claim_jobs
claim_jobs-IsSound text_le w limit seconds now db s = elim (Bool-cases (min limit 10 == 0)) [
  | inl none_wanted ↦ rw none_wanted (λ _. s)
  | inr some_wanted ↦ rw some_wanted (
      transaction_rule (λ d. Keyed d → IsSound d)
        (claim_body text_le w (min limit 10) (now + seconds) now) db (λ _. s)
        (claim_body-IsSound text_le w (min limit 10) (now + seconds) now db s))
]

pub same_step :
    (db db' : Db)
    → IsSound db
    → Keyed db'
    → db'.workspaces ≡ db.workspaces
    → db'.jobs ≡ db.jobs
    → IsSound db'
same_step db db' s keyed rooms jobs =
    IsSound-step db db' s keyed (RoomsKept-of_eq db db' rooms) (λ id. rw jobs (omega arith))

pub settled_step :
    (db db' : Db)
    → IsSound db
    → Keyed db'
    → db'.workspaces ≡ db.workspaces
    → JobsSettle db db'
    → IsSound db'
settled_step db db' s keyed rooms jobs =
    IsSound-step db db' s keyed (RoomsKept-of_eq db db' rooms) (settled_less db db' jobs)

pub entered_step :
    (db db' : Db)
    → IsSound db
    → Keyed db'
    → db'.workspaces ≡ db.workspaces
    → Enters db db'
    → IsSound db'
entered_step db db' s keyed rooms e =
    IsSound-step db db' s keyed (RoomsKept-of_eq db db' rooms) e.no_lease
