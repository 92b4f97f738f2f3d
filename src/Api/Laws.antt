-- ===== src/Api/Laws.antt =====
-- What the routes can do to the store, and when they answer.
use eastwatch.Prelude.{
  ℕ, ◌≤◌, ◌+◌, min, Bool, true, false, Option, some, String, List, [], ◌∷◌, ◌++◌, Result, ok, err,
  ◌≡◌, refl, ◌∙◌, sym, ap, inl, inr, arith, leb, str_eq, ◌==◌, ◌||◌, not, Option-cases, Bool-cases,
}
use eastwatch.Table.{has_where, find_where}
use eastwatch.Models.{ClaimedJob}
use eastwatch.Schema.{Db, Workspace}
use eastwatch.Store.Claim.{claim_jobs}
use eastwatch.Store.Actions.{claim_workspace_actions}
use eastwatch.History.{Call, step, run}
use eastwatch.Capacity.{IsSound, active_count}
use eastwatch.Capacity.Always.{capacity_bound}
use eastwatch.Api.{Credentials, Request, Response, Settings}
use eastwatch.Api.Paths.{to_domain}
use eastwatch.Api.Routes.{
  respond, respond_plain, is_valid, Turn, Visit, is_nil, finish_turn, long_poll, route, workspace,
  serve,
}

pub respond-state : {A : Type 0} (f : A → Response) (r : Result A × Db) → (respond f r).1 ≡ r.1
respond-state f (ok a, db) = refl
respond-state f (err e, db) = refl

pub respond_plain-state :
    {A : Type 0} (f : A → Response) (r : Result A × Db) → (respond_plain f r).1 ≡ r.1
respond_plain-state f (ok a, db) = refl
respond_plain-state f (err e, db) = refl

abbrev pub is_waiting : Response → Bool
is_waiting Response.waiting = true
is_waiting r = false

module _ (text_le : String → String → Bool) where
  pub run-append :
      (cs ds : List Call) (db : Db) → run text_le (cs ++ ds) db ≡ run text_le ds (run text_le cs db)
  unfolding run
  run-append [] ds db = refl
  run-append (c ∷ cs) ds db = run-append cs ds (step text_le c db)

  -- The second database follows from the first by calls of the store.
  abbrev pub Reached : Db → Db → Type 0
  Reached db db' = (calls : List Call) × (db' ≡ run text_le calls db)

  pub Reached-refl : (db : Db) → Reached db db
  unfolding run
  Reached-refl db = ([], refl)

  pub Reached-trans : (a b c : Db) → Reached a b → Reached b c → Reached a c
  Reached-trans a b c (cs, e) (ds, f) =
      (cs ++ ds, f ∙ ap (run text_le ds) e ∙ sym (run-append cs ds a))

  pub Reached-step : (c : Call) (db db' : Db) → db' ≡ step text_le c db → Reached db db'
  unfolding run
  Reached-step c db db' e = (c ∷ [], e)

  module _ (settings : Settings) where
    finish_turn-Reached :
        (free deadline at : ℕ) (rest : Db → Response × Db) (db : Db)
        (r : Result (List ClaimedJob) × Db)
        → ((d : Db) → Reached d (rest d).1)
        → Reached db r.1
        → Reached db (finish_turn text_le settings free deadline at rest r).1
    finish_turn-Reached free deadline at rest db (err e, d) h k = k
    finish_turn-Reached free deadline at rest db (ok claimed, d) h k =
        elim (Bool-cases (not (is_nil claimed) || (free == 0 || leb deadline at))) [
          | inl over ↦ rw over k
          | inr on ↦ rw on (Reached-trans db d (rest d).1 k (h d))
        ]

    long_poll-Reached :
        (w : String) (free deadline : ℕ) (ts : List Turn) (db : Db)
        → Reached db (long_poll text_le settings w free deadline ts db).1
    unfolding long_poll run step
    long_poll-Reached w free deadline [] db = Reached-refl db
    long_poll-Reached w free deadline (t ∷ ts) db =
        finish_turn-Reached free deadline t.checked_at
          (long_poll text_le settings w free deadline ts) db
          (claim_jobs text_le w free settings.lease_seconds t.claimed_at (run text_le t.others db))
          (long_poll-Reached w free deadline ts)
          (
            t.others ++ Call.claims w free settings.lease_seconds t.claimed_at ∷ [],
            sym (
                run-append t.others (Call.claims w free settings.lease_seconds t.claimed_at ∷ [])
                  db),
          )

    route-Reached :
        (w : String) (v : Visit) (request : Request) (db : Db)
        → Reached db (route text_le settings w v request db).1
    unfolding route step
    route-Reached w v (Request.claim free wait) db =
        long_poll-Reached w free (v.at + min wait settings.long_poll_seconds) v.turns db
    route-Reached w v (Request.started id generation refs) db =
        elim (Option-cases (to_domain refs)) [
          | inl e ↦ rw (e, route) (Reached-refl db)
          | inr (domain, e) ↦
              rw (e, route)
                (Reached-step (Call.starts w id generation domain v.at) db _
                  (respond-state Response.accepted _))
        ]
    route-Reached w v (Request.heartbeat active) db =
        Reached-step (Call.beats w active settings.lease_seconds v.at) db _ (respond-state _ _)
    route-Reached w v (Request.failed_before_start id generation error) db =
        Reached-step (Call.fails w id generation error v.at) db _ (respond-state _ _)
    route-Reached w v Request.mark_ready db =
        Reached-step (Call.ready w v.at) db _ (respond_plain-state _ _)
    route-Reached w v (Request.complete id generation c) db =
        Reached-step (Call.completes w id generation c v.at) db _ (respond-state _ _)
    route-Reached w v (Request.claim_actions limit) db =
        Reached-step (Call.claims_actions w limit settings.lease_seconds v.at) db _ (
          respond_plain-state Response.actions
            (claim_workspace_actions text_le w limit settings.lease_seconds v.at db))
    route-Reached w v (Request.finish_action id generation success error) db =
        Reached-step (Call.finishes_action w id generation success error v.at) db _
          (respond-state _ _)

    module _ (sha256 : String → String) where
      serve-Reached :
          (credentials : Option Credentials) (v : Visit) (request : Request) (db : Db)
          → Reached db (serve text_le settings sha256 credentials v request db).1
      unfolding serve
      serve-Reached credentials v request db =
          elim (Option-cases (workspace text_le settings sha256 credentials db)) [
            | inl e ↦ rw (e, serve) (Reached-refl db)
            | inr (w, e) ↦ elim (Bool-cases (is_valid request)) [
              | inl valid ↦ rw (e, serve, valid) (route-Reached w v request db)
              | inr bad ↦ rw (e, serve, bad) (Reached-refl db)
            ]
          ]

      -- Requests one after another, from whichever runners.
      unfoldable pub serve_all : List (Option Credentials × Visit × Request) → Db → Db
      unfolding serve
      serve_all [] db = db
      serve_all ((credentials, v, request) ∷ requests) db =
          serve_all requests (serve text_le settings sha256 credentials v request db).1

      -- Whatever requests runners send, with whatever tokens and at whatever times, the store goes
      -- through a history of its own calls.
      pub serve_all-Reached :
          (requests : List (Option Credentials × Visit × Request)) (db : Db)
          → Reached db (serve_all requests db)
      unfolding serve_all
      serve_all-Reached [] db = Reached-refl db
      serve_all-Reached ((credentials, v, request) ∷ requests) db =
          let next = (serve text_le settings sha256 credentials v request db).1 in
          Reached-trans db next (serve_all requests next) (serve-Reached credentials v request db)
            (serve_all-Reached requests next)

      -- From a sound database, whatever requests runners send, a workspace has no more leased and
      -- running jobs than its capacity.
      pub served_capacity :
          (requests : List (Option Credentials × Visit × Request)) (db : Db) (id : String)
          (w : Workspace)
          → IsSound db
          → find_where
              (λ (x : Workspace). str_eq x.workspace_id id)
              (serve_all requests db).workspaces
            ≡ some w
          → active_count id (serve_all requests db) ≤ w.capacity
      served_capacity requests db id w sound found =
          let (calls, e) = serve_all-Reached requests db in
          rw e (capacity_bound text_le calls db id w sound (rw e at found))

    -- The long poll of a claim ends no later than the first turn in which the clock has reached the
    -- deadline: if there is such a turn, the claim is answered.
    pub long_poll_answers :
        (w : String) (free deadline : ℕ) (turns : List Turn) (db : Db)
        → has_where (λ (t : Turn). leb deadline t.checked_at) turns ≡ true
        → is_waiting (long_poll text_le settings w free deadline turns db).0 ≡ false
    unfolding long_poll has_where
    long_poll_answers w free deadline [] db h = absurd (ground (arith, h))
    long_poll_answers w free deadline (t ∷ ts) db h =
        go (claim_jobs text_le w free settings.lease_seconds t.claimed_at (run text_le t.others db))
          (long_poll_answers w free deadline ts)
      where
        go :
            (r : Result (List ClaimedJob) × Db)
            → ((d : Db)
                → has_where (λ (t : Turn). leb deadline t.checked_at) ts ≡ true
                → is_waiting (long_poll text_le settings w free deadline ts d).0 ≡ false)
            → is_waiting
                (finish_turn text_le settings free deadline t.checked_at
                  (long_poll text_le settings w free deadline ts)
                  r).0
              ≡ false
        go (err e, d) others = refl
        go (ok claimed, d) others =
            elim (Bool-cases (not (is_nil claimed) || (free == 0 || leb deadline t.checked_at))) [
              | inl over ↦ rw over
              | inr on ↦ rw on (others d (ground (arith, h, on)))
            ]
