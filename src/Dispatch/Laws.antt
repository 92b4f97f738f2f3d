-- ===== src/Dispatch/Laws.antt =====
-- Who may start work: the laws of `HostedDispatcher.dispatch`.
use eastwatch.Prelude.{
  ℕ, Bool, true, false, Option, some, String, List, Result, ok, err, or_default, str_eq, ◌≡◌, refl,
  ◌∙◌, ap, subst, sym, ◌⊎◌, inl, inr, arith, if◌then◌else◌, Option-cases, Bool-cases,
}
use eastwatch.Table.{find_where, has_where}
use eastwatch.Schema.{Db, Workspace}
use eastwatch.History.Steps.{queue_pending-jobs}
use eastwatch.Jobs.Reaps.{insert_notice-jobs}
use eastwatch.Dispatch.Hints.{Rejection, parse_hint, split_spec}
use eastwatch.Dispatch.Requests.{
  Assignee, Candidate, project_key, durable_event_key, conversation_key, DispatchResult, Clock,
  ensure_project, reject, owned_by, active_run, queue_comment, consumed_event, answer,
}
use eastwatch.Dispatch.Handler.{
  Checked, passed, rejected, responsible, authorized, workspace_of, waits, spec_for, is_pi,
}
use eastwatch.Dispatch.Flow.{
  ◌>>=◌, permit, admitted, launch, attempt, conclude, dispatch_ensured, dispatch,
}

pub bind-passed :
    {A B : Type 0} (m : Checked A) (f : A → Checked B) (b : B)
    → (m >>= f) ≡ passed b
    → (a : A) × (m ≡ passed a) × (f a ≡ passed b)
bind-passed (passed a) f b h = (a, refl, h)
bind-passed (rejected r) f b h = absurd (cc)

permit-passed : (b : Bool) (reason : List String) (t : Bool) → permit b reason ≡ passed t → b ≡ true
permit-passed true reason t h = refl
permit-passed false reason t h = absurd (cc)

pub passed_inj : {A : Type 0} (a b : A) → passed a ≡ passed b → a ≡ b
passed_inj a b h = cc

-- What the workspace of the assignee was found to be.
workspace_of-passed :
    (a : Assignee) (db : Db) (w : Workspace)
    → workspace_of a db ≡ passed w
    → (find_where (owned_by a.username) db.workspaces ≡ some w) × (w.owner_user_id ≡ a.user_id)
unfolding workspace_of
workspace_of-passed a db w h =
    elim (Option-cases (find_where (owned_by a.username) db.workspaces)) [
      | inl e ↦ absurd (let h' = rw (e, workspace_of) at h in cc)
      | inr (v, e) ↦ let h' = rw (e, workspace_of) at h in ground (arith, h', e)
    ]

-- The spec that the event or the workspace names.
abbrev pub spec_named : Candidate → Workspace → String
spec_named c w = or_default (parse_hint c.hint_texts) w.default_spec

spec_for-passed :
    (text_repr : String → String) (c : Candidate) (a : Assignee) (w : Workspace)
    (parts : String × String × Option String)
    → spec_for text_repr c a w ≡ passed parts
    → (has_where (str_eq (spec_named c w)) w.allowed_specs ≡ true)
      × (split_spec (spec_named c w) ≡ some parts)
      × (is_pi parts ≡ true)
unfolding spec_for
spec_for-passed text_repr c a w parts h =
    elim (Bool-cases (has_where (str_eq (spec_named c w)) w.allowed_specs)) [
      | inr e ↦ absurd (let h' = rw (e, spec_for) at h in cc)
      | inl e ↦ elim (Option-cases (split_spec (spec_named c w))) [
        | inl f ↦ absurd (let h' = rw (e, f, spec_for) at h in cc)
        | inr (p, f) ↦ elim (Bool-cases (is_pi p)) [
          | inr g ↦ absurd (let h' = rw (e, f, g, spec_for) at h in cc)
          | inl g ↦
              let same : p ≡ parts = passed_inj p parts (rw (e, f, g, spec_for) at h) in
              (e, f ∙ ap some same, subst (λ q. is_pi q ≡ true) same g)
        ]
      ]
    ]

ensure_project-same :
    (c : Candidate) (db : Db)
    → ((ensure_project c db).1.jobs ≡ db.jobs)
      × ((ensure_project c db).1.workspaces ≡ db.workspaces)
unfolding ensure_project
ensure_project-same c db = (ground arith, ground arith)

reject-jobs :
    (c : Candidate) (r : Rejection) (now : ℕ) (db : Db) → (reject c r now db).1.jobs ≡ db.jobs
unfolding reject
reject-jobs c r now db = grind (arith, insert_notice-jobs)

answer-db : (a : DispatchResult) (r : Result Bool × Db) → (answer a r).1 ≡ r.1
answer-db a (ok b, db) = refl
answer-db a (err e, db) = refl

queue_comment-jobs :
    (c : Candidate) (clock : Clock) (db : Db) → (queue_comment c clock db).1.jobs ≡ db.jobs
unfolding queue_comment
queue_comment-jobs c clock db =
    rw answer-db (queue_pending-jobs (conversation_key c) _ _ clock.pending_at db)

module _ (text_repr : String → String) (admins approved_bots : List String) where
  -- What the controller requires of an event before it becomes a job.
  pub record Granted (c : Candidate) (workspaces : List Workspace) : Type 0 where
    pub assignee : Assignee
    pub workspace : Workspace
    pub answerable : responsible c ≡ passed assignee
    pub permitted : authorized admins approved_bots c.actor_username assignee.username ≡ true
    pub found : find_where (owned_by assignee.username) workspaces ≡ some workspace
    pub identity : workspace.owner_user_id ≡ assignee.user_id
    pub approved : has_where (str_eq (spec_named c workspace)) workspace.allowed_specs ≡ true
    pub valid :
        (parts : String × String × Option String) × (split_spec (spec_named c workspace)
          ≡ some parts)
        × (is_pi parts ≡ true)

  admitted-passed :
      (c : Candidate) (db : Db) (job_id : String) (a : Assignee) (w : Workspace) (waiting : Bool)
      → admitted text_repr admins approved_bots job_id c db ≡ passed (a, w, waiting)
      → (responsible c ≡ passed a)
        × (authorized admins approved_bots c.actor_username a.username ≡ true)
        × (workspace_of a db ≡ passed w)
  unfolding admitted
  admitted-passed c db job_id a w waiting e =
      let (b, answers, e₁) = bind-passed (responsible c) _ (a, w, waiting) e in
      let (t, allowed, e₂) =
        bind-passed (permit (authorized admins approved_bots c.actor_username b.username) _) _
          (a, w, waiting) e₁ in
      let (v, works, e₃) = bind-passed (workspace_of b db) _ (a, w, waiting) e₂ in
      let (x, waited, e₄) =
        bind-passed (waits c v (active_run (conversation_key c) db)) (λ x. passed (b, v, x))
          (a, w, waiting) e₃ in
      triple b v x answers (permit-passed _ _ t allowed) works e₄
    where
      triple :
          (b : Assignee) (v : Workspace) (x : Bool)
          → responsible c ≡ passed b
          → authorized admins approved_bots c.actor_username b.username ≡ true
          → workspace_of b db ≡ passed v
          → ◌≡◌ {A = Checked (Assignee × Workspace × Bool)}
              (passed (b, v, x))
              (passed (a, w, waiting))
          → (responsible c ≡ passed a)
            × (authorized admins approved_bots c.actor_username a.username ≡ true)
            × (workspace_of a db ≡ passed w)
      triple b v x answers permitted works same =
          let b_a : b ≡ a = cc in
          let v_w : v ≡ w = cc in
          (
            answers ∙ ap passed b_a,
            subst
                (λ (z : Assignee).
                  authorized admins approved_bots c.actor_username z.username ≡ true)
                b_a permitted,
            cc,
          )

  attempt-Granted :
      (job_id : String) (c : Candidate) (clock : Clock) (db : Db) (r : Result DispatchResult × Db)
      → attempt text_repr admins approved_bots job_id c clock db ≡ passed r
      → (r.1.jobs ≡ db.jobs) ⊎ Granted c db.workspaces
  unfolding attempt launch
  attempt-Granted job_id c clock db r h =
      let ((a, w, waiting), e, h') =
        bind-passed (admitted text_repr admins approved_bots job_id c db) _ r h in
      go a w waiting e h'
    where
      go :
          (a : Assignee) (w : Workspace) (waiting : Bool)
          → admitted text_repr admins approved_bots job_id c db ≡ passed (a, w, waiting)
          → (if waiting
              then passed (queue_comment c clock db)
              else launch text_repr admins approved_bots job_id c clock a w db)
            ≡ passed r
          → (r.1.jobs ≡ db.jobs) ⊎ Granted c db.workspaces
      go a w true e h' = inl (
          ap (λ (q : Result DispatchResult × Db). q.1.jobs) (sym (passed_inj _ _ h'))
          ∙ queue_comment-jobs c clock db)
      go a w false e h' =
          let (answers, permitted, works) = admitted-passed c db job_id a w false e in
          let (parts, speced, rest) = bind-passed (spec_for text_repr c a w) _ r h' in
          let spec = spec_for-passed text_repr c a w parts speced in
          let place = workspace_of-passed a db w works in
          inr (record {
            assignee = a;
            workspace = w;
            answerable = answers;
            permitted = permitted;
            found = place.0;
            identity = place.1;
            approved = spec.0;
            valid = (parts, spec.1, spec.2);
          })

  conclude-Granted :
      (job_id : String) (c : Candidate) (clock : Clock) (db : Db)
      → ((dispatch_ensured text_repr admins approved_bots job_id c clock (ok tt, db)).1.jobs
          ≡ db.jobs)
        ⊎ Granted c db.workspaces
  unfolding dispatch_ensured conclude
  conclude-Granted job_id c clock db =
      elim (Option-cases (consumed_event (project_key c) (durable_event_key c) db)) [
        | inr (old, e) ↦ inl (rw (e, dispatch_ensured))
        | inl e ↦
            rw (e, dispatch_ensured)
              (settled (attempt text_repr admins approved_bots job_id c clock db) refl)
      ]
    where
      settled :
          (m : Checked (Result DispatchResult × Db))
          → attempt text_repr admins approved_bots job_id c clock db ≡ m
          → ((conclude text_repr admins approved_bots job_id c clock db m).1.jobs ≡ db.jobs)
            ⊎ Granted c db.workspaces
      settled (passed r) h = attempt-Granted job_id c clock db r h
      settled (rejected r) h = inl (reject-jobs c r clock.rejected_at db)

  -- A dispatch leaves the jobs as they are, or the controller has granted it: the candidate names
  -- one answerable person, the assignee or else the actor; the actor is that person, an admin or
  -- an approved bot; that person's dispatch-ready workspace has the same user id; and the model
  -- spec, that of the first hint or else the workspace's default, is one that the workspace allows,
  -- splits into its parts and names the provider pi.
  pub dispatch-Granted :
      (job_id : String) (c : Candidate) (clock : Clock) (db : Db)
      → ((dispatch text_repr admins approved_bots job_id c clock db).1.jobs ≡ db.jobs)
        ⊎ Granted c db.workspaces
  unfolding dispatch dispatch_ensured
  dispatch-Granted job_id c clock db = ensured (ensure_project c db) (ensure_project-same c db)
    where
      ensured :
          (r : Result (Unit {0}) × Db)
          → (r.1.jobs ≡ db.jobs) × (r.1.workspaces ≡ db.workspaces)
          → ((dispatch_ensured text_repr admins approved_bots job_id c clock r).1.jobs ≡ db.jobs)
            ⊎ Granted c db.workspaces
      ensured (err e, d) same = inl same.0
      ensured (ok t, d) same = elim (conclude-Granted job_id c clock d) [
        | inl kept ↦ inl (kept ∙ same.0)
        | inr granted ↦ inr (subst (Granted c) same.1 granted)
      ]
