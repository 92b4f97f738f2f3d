-- ===== src/Api/Rights.antt =====
-- What a request to the routes of src/eastwatch/controller/api.py has the right to do to the store.
use eastwatch.Prelude.{
  ℕ, suc, ◌+◌, ◌≤◌, Bool, true, false, Option, none, some, String, List, [], ◌∷◌, ◌++◌, Result, ok,
  err, ◌≡◌, refl, ◌∙◌, sym, ap, ◌⊎◌, inl, inr, arith, str_eq, eq_iff, leb, text_length, is_some,
  ◌==◌, ◌&&◌, ◌||◌, not, min, Option-cases, Bool-cases,
}
use eastwatch.Table.{take, length, find_where, has_where}
use eastwatch.Table.Every.{All, Listed, find-Listed, find-holds}
use eastwatch.Models.{ClaimedJob, ActiveLease, CompletionState}
use eastwatch.Schema.{Db, Workspace}
use eastwatch.Store.Workspaces.{authenticate_workspace}
use eastwatch.Store.Claim.{claim_jobs}
use eastwatch.Store.Actions.{claim_workspace_actions}
use eastwatch.History.{Call, step, run}
use eastwatch.Poll.Mentions.{folds_to}
use eastwatch.Api.{Credentials, Request, Response, Settings}
use eastwatch.Api.Paths.{to_domain}
use eastwatch.Api.Routes.{
  has_shape, is_valid, Turn, Visit, is_nil, finish_turn, long_poll, route, workspace, serve,
}
use eastwatch.Api.Laws.{run-append, respond-state, respond_plain-state}

-- The bounds of the fields, and what a completion must have.
abbrev pub InBounds : Request → Type 0
InBounds (Request.claim free_slots wait_seconds) = (free_slots ≤ 10) × (wait_seconds ≤ 25)
InBounds (Request.started job_id generation refs) = 1 ≤ generation
InBounds (Request.heartbeat active) =
    (length active ≤ 10) × All (λ (l : ActiveLease). 1 ≤ l.lease_generation) active
InBounds (Request.failed_before_start job_id generation error) = 1 ≤ generation
InBounds Request.mark_ready = Unit
InBounds (Request.complete job_id generation c) =
    (1 ≤ generation)
    × (c.state ≡ CompletionState.failed → is_some c.error ≡ true)
    × (c.state ≡ CompletionState.succeeded → is_some c.result ≡ true)
InBounds (Request.claim_actions limit) = limit ≤ 5
InBounds (Request.finish_action action_id generation success error) =
    (1 ≤ generation) × ((text : String) → error ≡ some text → text_length text ≤ 1000)

-- The token is that of an enabled workspace.
pub record Bears (sha256 : String → String) (credentials : Option Credentials) (db : Db)
    (w : String) : Type 0 where
  pub bearer : Credentials
  pub row : Workspace
  pub given : credentials ≡ some bearer
  pub scheme : folds_to "bearer" bearer.scheme ≡ true
  pub there : Listed row db.workspaces
  pub token : row.token_sha256 ≡ sha256 bearer.token
  pub enabled : row.enabled ≡ true
  pub id : row.workspace_id ≡ w

module _ (text_le : String → String → Bool) (settings : Settings) where
  -- The calls of the turns of a claim: those of others, and then the claim of the workspace itself.
  abbrev pub rounds : String → ℕ → List Turn → List Call
  rounds w free [] = []
  rounds w free (t ∷ ts) =
      t.others ++ (Call.claims w free settings.lease_seconds t.claimed_at ∷ rounds w free ts)

  -- The calls that a request of the workspace asks for: one call for the workspace at the request's
  -- time, with what the body says; for a claim,
  -- the turns up to its answer, of which there is one at least, if the request has turns.
  abbrev pub Asks : String → Visit → Request → List Call → Type 0
  Asks w v (Request.claim free wait) calls =
      (n : ℕ) × (calls ≡ rounds w free (take (suc n) v.turns))
  Asks w v (Request.started id generation refs) calls =
      (domain : _) × (to_domain refs ≡ some domain)
      × (calls ≡ Call.starts w id generation domain v.at ∷ [])
  Asks w v (Request.heartbeat active) calls =
      calls ≡ Call.beats w active settings.lease_seconds v.at ∷ []
  Asks w v (Request.failed_before_start id generation error) calls =
      calls ≡ Call.fails w id generation error v.at ∷ []
  Asks w v Request.mark_ready calls = calls ≡ Call.ready w v.at ∷ []
  Asks w v (Request.complete id generation c) calls =
      calls ≡ Call.completes w id generation c v.at ∷ []
  Asks w v (Request.claim_actions limit) calls =
      calls ≡ Call.claims_actions w limit settings.lease_seconds v.at ∷ []
  Asks w v (Request.finish_action id generation success error) calls =
      calls ≡ Call.finishes_action w id generation success error v.at ∷ []

  -- The database is behind calls that the request of the workspace asks for.
  abbrev pub Obeys : String → Visit → Request → Db → Db → Type 0
  Obeys w v request db db' =
      (calls : List Call) × Asks w v request calls × (db' ≡ run text_le calls db)

  long_poll-rounds :
      (w : String) (free deadline : ℕ) (ts : List Turn) (db : Db)
      → (n : ℕ) × ((long_poll text_le settings w free deadline ts db).1
          ≡ run text_le (rounds w free (take (suc n) ts)) db)
  unfolding long_poll run step
  long_poll-rounds w free deadline [] db = (0, refl)
  long_poll-rounds w free deadline (t ∷ ts) db =
      turn (claim_jobs text_le w free settings.lease_seconds t.claimed_at (run text_le t.others db))
        refl (long_poll-rounds w free deadline ts)
    where
      behind :
          (rest : List Call)
          → run text_le
              (t.others ++ (Call.claims w free settings.lease_seconds t.claimed_at ∷ rest))
              db
            ≡ run text_le rest
                (claim_jobs text_le w free settings.lease_seconds t.claimed_at
                  (run text_le t.others db)).1
      behind rest =
          run-append text_le t.others
            (Call.claims w free settings.lease_seconds t.claimed_at ∷ rest) db

      turn :
          (r : Result (List ClaimedJob) × Db)
          → claim_jobs text_le w free settings.lease_seconds t.claimed_at (run text_le t.others db)
            ≡ r
          → ((d : Db)
              → (n : ℕ) × ((long_poll text_le settings w free deadline ts d).1
                  ≡ run text_le (rounds w free (take (suc n) ts)) d))
          → (n : ℕ) × ((finish_turn text_le settings free deadline t.checked_at
                (long_poll text_le settings w free deadline ts)
                r).1
              ≡ run text_le (rounds w free (take (suc n) (t ∷ ts))) db)
      turn (err e, d) same others =
          (0, sym (behind [] ∙ ap (λ (x : Result (List ClaimedJob) × Db). x.1) same))
      turn (ok claimed, d) same others =
          elim (Bool-cases (not (is_nil claimed) || (free == 0 || leb deadline t.checked_at))) [
            | inl over ↦
                rw over (0, sym (behind [] ∙ ap (λ (x : Result (List ClaimedJob) × Db). x.1) same))
            | inr on ↦
                let (n, e) = others d in
                rw on (
                  suc n,
                  e
                      ∙ sym (
                          behind (rounds w free (take (suc n) ts))
                          ∙ ap
                              (λ (x : Result (List ClaimedJob) × Db).
                                run text_le (rounds w free (take (suc n) ts)) x.1)
                              same),
                )
          ]

  route-Obeys :
      (w : String) (v : Visit) (request : Request) (db : Db)
      → is_valid request ≡ true
      → Obeys w v request db (route text_le settings w v request db).1
  unfolding route run step is_valid
  route-Obeys w v (Request.claim free wait) db valid =
      let (n, e) =
        long_poll-rounds w free (v.at + min wait settings.long_poll_seconds) v.turns db in
      (rounds w free (take (suc n) v.turns), (n, refl), e)
  route-Obeys w v (Request.started id generation refs) db valid =
      elim (Option-cases (to_domain refs)) [
        | inl e ↦ absurd (ground (arith, valid, e))
        | inr (domain, e) ↦ (
          Call.starts w id generation domain v.at ∷ [],
          (domain, e, refl),
          rw (e, route) (respond-state Response.accepted _),
        )
      ]
  route-Obeys w v (Request.heartbeat active) db valid =
      (Call.beats w active settings.lease_seconds v.at ∷ [], refl, respond-state _ _)
  route-Obeys w v (Request.failed_before_start id generation error) db valid =
      (Call.fails w id generation error v.at ∷ [], refl, respond-state _ _)
  route-Obeys w v Request.mark_ready db valid =
      (Call.ready w v.at ∷ [], refl, respond_plain-state _ _)
  route-Obeys w v (Request.complete id generation c) db valid =
      (Call.completes w id generation c v.at ∷ [], refl, respond-state _ _)
  route-Obeys w v (Request.claim_actions limit) db valid = (
    Call.claims_actions w limit settings.lease_seconds v.at ∷ [],
    refl,
    respond_plain-state Response.actions
        (claim_workspace_actions text_le w limit settings.lease_seconds v.at db),
  )
  route-Obeys w v (Request.finish_action id generation success error) db valid =
      (Call.finishes_action w id generation success error v.at ∷ [], refl, respond-state _ _)

  All-positive :
      (active : List ActiveLease)
      → has_where (λ (l : ActiveLease). not (leb 1 l.lease_generation)) active ≡ false
      → All (λ (l : ActiveLease). 1 ≤ l.lease_generation) active
  unfolding has_where
  All-positive [] h = tt
  All-positive (l ∷ ls) h = (ground (arith, h), All-positive ls (ground (arith, h)))

  is_valid-InBounds : (request : Request) → is_valid request ≡ true → InBounds request
  unfolding is_valid
  is_valid-InBounds (Request.claim free wait) h = (ground (arith, h), ground (arith, h))
  is_valid-InBounds (Request.started id generation refs) h = ground (arith, h)
  is_valid-InBounds (Request.heartbeat active) h =
      (ground (arith, h), All-positive active (ground (arith, h)))
  is_valid-InBounds (Request.failed_before_start id generation error) h = ground (arith, h)
  is_valid-InBounds Request.mark_ready h = tt
  is_valid-InBounds (Request.complete id generation c) h =
      let (failure, success) = shape h in (ground (arith, h), failure, success)
    where
      shape :
          (leb 1 generation && has_shape c) ≡ true
          → (c.state ≡ CompletionState.failed → is_some c.error ≡ true)
            × (c.state ≡ CompletionState.succeeded → is_some c.result ≡ true)
      shape k = (
        (λ e. let k' = rw e at k in ground (arith, k')),
        (λ e. let k' = rw e at k in ground (arith, k')),
      )
  is_valid-InBounds (Request.claim_actions limit) h = ground (arith, h)
  is_valid-InBounds (Request.finish_action id generation success error) h =
      (ground (arith, h), λ text e. let h' = rw e at h in ground (arith, h'))

  module _ (sha256 : String → String) where
    workspace-Bears :
        (credentials : Option Credentials) (db : Db) (w : String)
        → workspace text_le settings sha256 credentials db ≡ some w
        → Bears sha256 credentials db w
    unfolding workspace authenticate_workspace
    workspace-Bears none db w h = absurd (cc)
    workspace-Bears (some c) db w h = elim (Bool-cases (folds_to "bearer" c.scheme)) [
      | inr other ↦ absurd (let h' = rw (other, workspace) at h in cc)
      | inl bearer ↦
          elim (Option-cases (
            find_where (λ (x : Workspace). str_eq x.token_sha256 (sha256 c.token) && x.enabled)
              db.workspaces)) [
                | inl n ↦
                    absurd (let h' = rw (bearer, n, workspace, authenticate_workspace) at h in cc)
                | inr (row, n) ↦
                    let holds = find-holds _ db.workspaces row n in
                    record {
                      bearer = c;
                      row = row;
                      given = refl;
                      scheme = bearer;
                      there = find-Listed _ db.workspaces row n;
                      token = (eq_iff row.token_sha256 (sha256 c.token)).0 (ground (arith, holds));
                      enabled = ground (arith, holds);
                      id =
                          let h' = rw (bearer, n, workspace, authenticate_workspace) at h in
                          ground (arith, h');
                    }
              ]
    ]

    -- A request is refused as unauthorized or out of bounds, and the database stays as it is; or it
    -- bears the token of an enabled workspace, which is named by "Bearer" in any case of letters, its
    -- fields are in bounds, and the database is behind just the calls that it asks for, each for that
    -- workspace; of a claim these are the turns that it took, with what others did in between.
    pub serve-Obeys :
        (credentials : Option Credentials) (v : Visit) (request : Request) (db : Db)
        → (((serve text_le settings sha256 credentials v request db ≡ (Response.refused 401, db))
            ⊎ (serve text_le settings sha256 credentials v request db
                ≡ (Response.refused 422, db))))
          ⊎ ((w : String) × Bears sha256 credentials db w
              × InBounds request
              × Obeys w v request db (serve text_le settings sha256 credentials v request db).1)
    unfolding serve
    serve-Obeys credentials v request db =
        elim (Option-cases (workspace text_le settings sha256 credentials db)) [
          | inl e ↦ inl (inl (rw (e, serve)))
          | inr (w, e) ↦ elim (Bool-cases (is_valid request)) [
            | inl valid ↦ inr (
              w,
              workspace-Bears credentials db w e,
              is_valid-InBounds request valid,
              rw (e, serve, valid) (route-Obeys w v request db valid),
            )
            | inr bad ↦ inl (inr (rw (e, serve, bad)))
          ]
        ]
