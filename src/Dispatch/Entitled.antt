-- ===== src/Dispatch/Entitled.antt =====
-- Who may start work by the rules of `HostedDispatcher.dispatch` in
-- src/eastwatch/controller/dispatch.py, said without its tests. RUNBOOK.md asks for exactly one assignee;
-- the code lets the actor stand in where there is none.
use eastwatch.Prelude.{
  true, Option, none, some, String, List, [], ◌∷◌, or_default, str_eq, eq_iff, ◌≡◌, refl, ◌∙◌, sym,
  ap, subst, ◌⊎◌, inl, inr, arith, Option-cases, Bool-cases,
}
use eastwatch.Table.{has_where}
use eastwatch.Table.Every.{Listed, find-Listed, find-holds}
use eastwatch.Schema.{Db, Workspace}
use eastwatch.Dispatch.Hints.{parse_hint, split_spec}
use eastwatch.Dispatch.Specs.{split_spec-parse_hint}
use eastwatch.Dispatch.Requests.{Assignee, Candidate, Clock, owned_by}
use eastwatch.Dispatch.Flow.{dispatch}
use eastwatch.Dispatch.Handler.{passed, only, responsible, authorized, is_pi}
use eastwatch.Dispatch.Laws.{Granted, spec_named, passed_inj, dispatch-Granted}

-- The one who is answerable for the work: the only assignee, or the actor if there is none.
abbrev pub Answers : Candidate → Assignee → Type 0
Answers c a =
    (c.assignees ≡ a ∷ [])
    ⊎ ((c.assignees ≡ []) × (c.actor_user_id ≡ some a.user_id) × (a.username ≡ c.actor_username))

-- The hint's spec, or the workspace's default where no text has a hint.
abbrev pub Names : Candidate → Workspace → String → Type 0
Names c w spec =
    (parse_hint c.hint_texts ≡ some spec)
    ⊎ ((parse_hint c.hint_texts ≡ none) × (spec ≡ w.default_spec))

pub record Entitled (admins approved_bots : List String) (c : Candidate)
    (workspaces : List Workspace) : Type 0 where
  pub assignee : Assignee
  pub workspace : Workspace
  pub spec : String
  pub model : String
  pub effort : Option String
  pub answers : Answers c assignee
  pub permitted :
      (c.actor_username ≡ assignee.username)
      ⊎ (Listed c.actor_username admins ⊎ Listed c.actor_username approved_bots)
  pub there : Listed workspace workspaces
  pub owner : workspace.owner_username ≡ assignee.username
  pub identity : workspace.owner_user_id ≡ assignee.user_id
  pub enabled : workspace.enabled ≡ true
  pub ready : workspace.ready ≡ true
  pub named : Names c workspace spec
  pub approved : Listed spec workspace.allowed_specs
  pub pi : split_spec spec ≡ some ("pi", model, effort)

only-passed :
    (a b : Assignee) (others : List Assignee) → only a others ≡ passed b → a ∷ others ≡ b ∷ []
only-passed a b [] h = ap (λ x. x ∷ []) (passed_inj a b h)
only-passed a b (x ∷ others) h = absurd (cc)

responsible-Answers :
    (c : Candidate) (a : Assignee) (assignees : List Assignee)
    → c.assignees ≡ assignees
    → responsible c ≡ passed a
    → Answers c a
unfolding responsible
responsible-Answers c a [] e h = elim (Option-cases c.actor_user_id) [
  | inl n ↦ absurd (let h' = rw (e, n, responsible) at h in cc)
  | inr (id, n) ↦
      let same : record { username = c.actor_username; user_id = id } ≡ a =
        passed_inj _ a (rw (e, n, responsible) at h) in
      inr (
        e,
        n ∙ ap (λ (x : Assignee). some x.user_id) same,
        ap (λ (x : Assignee). x.username) (sym same),
      )
]
responsible-Answers c a (b ∷ others) e h =
    inl (e ∙ only-passed b a others (rw (e, responsible) at h))

has-Listed : (s : String) (xs : List String) → has_where (str_eq s) xs ≡ true → Listed s xs
unfolding has_where
has-Listed s [] h = absurd (cc)
has-Listed s (x ∷ xs) h = elim (Bool-cases (str_eq s x)) [
  | inl e ↦ inl ((eq_iff s x).0 e)
  | inr e ↦ inr (has-Listed s xs (ground (arith, h, e)))
]

authorized-Listed :
    (admins bots : List String) (actor assignee : String)
    → authorized admins bots actor assignee ≡ true
    → (actor ≡ assignee) ⊎ (Listed actor admins ⊎ Listed actor bots)
unfolding authorized
authorized-Listed admins bots actor assignee h = elim (Bool-cases (str_eq assignee actor)) [
  | inl e ↦ inl (sym ((eq_iff assignee actor).0 e))
  | inr e ↦ elim (Bool-cases (has_where (str_eq actor) admins)) [
    | inl f ↦ inr (inl (has-Listed actor admins f))
    | inr f ↦ inr (inr (has-Listed actor bots (ground (arith, h, e, f))))
  ]
]

no_empty_hint : (parts : String × String × Option String) → split_spec "" ≡ some parts → ⊥
unfolding split_spec
no_empty_hint parts h = cc

-- A hint's spec is not empty, so that the default stands in only where there is no hint.
spec_named-Names : (c : Candidate) (w : Workspace) → Names c w (spec_named c w)
spec_named-Names c w = elim (Option-cases (parse_hint c.hint_texts)) [
  | inl e ↦ inr (e, ap (λ hint. or_default hint w.default_spec) e)
  | inr (spec, e) ↦ elim (Bool-cases (str_eq spec "")) [
    | inl empty ↦
        let (parts, text, split) = split_spec-parse_hint c.hint_texts spec e in
        absurd (
          no_empty_hint parts
            (subst (λ s. split_spec s ≡ some parts) ((eq_iff spec "").0 empty) split))
    | inr full ↦ let same : spec ≡ spec_named c w = rw (e, full) in inl (e ∙ ap some same)
  ]
]

is_pi-pi :
    (provider model : String) (effort : Option String)
    → is_pi (provider, model, effort) ≡ true
    → provider ≡ "pi"
is_pi-pi provider model effort h = (eq_iff provider "pi").0 (ground (arith, h))

module _ (text_repr : String → String) (admins approved_bots : List String) where
  Granted-Entitled :
      (c : Candidate) (workspaces : List Workspace)
      → Granted text_repr admins approved_bots c workspaces
      → Entitled admins approved_bots c workspaces
  Granted-Entitled c workspaces g =
      let ((provider, model, effort), split, pi) = g.valid in
      let owned = find-holds (owned_by g.assignee.username) workspaces g.workspace g.found in
      record {
        assignee = g.assignee;
        workspace = g.workspace;
        spec = spec_named c g.workspace;
        model = model;
        effort = effort;
        answers = responsible-Answers c g.assignee c.assignees refl g.answerable;
        permitted =
            authorized-Listed admins approved_bots c.actor_username g.assignee.username g.permitted;
        there = find-Listed (owned_by g.assignee.username) workspaces g.workspace g.found;
        owner = (eq_iff g.workspace.owner_username g.assignee.username).0 (ground (arith, owned));
        identity = g.identity;
        enabled = ground (arith, owned);
        ready = ground (arith, owned);
        named = spec_named-Names c g.workspace;
        approved = has-Listed (spec_named c g.workspace) g.workspace.allowed_specs g.approved;
        pi = split ∙ ap (λ p. some (p, model, effort)) (is_pi-pi provider model effort pi);
      }

  -- A dispatch leaves the jobs as they are, or it was entitled to change them. One person is
  -- answerable, the only assignee or, where there is none, the actor under the user id of the event;
  -- the actor is that person, an admin or an approved bot; that person has an enabled and ready
  -- workspace, whose owner has the same name and user id; and the spec of the first hint, or the
  -- workspace's default where no text has a hint, is on the workspace's list and names the provider
  -- "pi", a model and perhaps an effort.
  pub dispatch-Entitled :
      (job_id : String) (c : Candidate) (clock : Clock) (db : Db)
      → ((dispatch text_repr admins approved_bots job_id c clock db).1.jobs ≡ db.jobs)
        ⊎ Entitled admins approved_bots c db.workspaces
  dispatch-Entitled job_id c clock db =
      elim (dispatch-Granted text_repr admins approved_bots job_id c clock db) [
        | inl kept ↦ inl kept
        | inr granted ↦ inr (Granted-Entitled c db.workspaces granted)
      ]
