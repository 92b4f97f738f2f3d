-- ===== src/Api/Refusals.antt =====
-- Requests under a lease that has passed to another.
use eastwatch.Prelude.{
  ℕ, ◌<◌, Bool, true, false, Option, some, String, List, ◌&&◌, str_eq, ◌==◌, ◌≡◌, eq_iff, inl, inr,
  arith, Option-cases,
}
use eastwatch.Schema.{Db, Job}
use eastwatch.Jobs.Rows.{Keyed}
use eastwatch.History.{Call, run}
use eastwatch.History.Laws.{job, Refused, fenced}
use eastwatch.Api.{Credentials, Request, Response, Settings}
use eastwatch.Api.Paths.{to_domain}
use eastwatch.Api.Routes.{Visit, is_valid, route, workspace, serve}

-- A report of a runner on a job, under a lease of it.
abbrev pub reports_on : String → ℕ → Request → Bool
reports_on id generation (Request.started job_id n refs) = str_eq job_id id && n == generation
reports_on id generation (Request.failed_before_start job_id n error) =
    str_eq job_id id && n == generation
reports_on id generation (Request.complete job_id n c) = str_eq job_id id && n == generation
reports_on id generation request = false

module _ (text_le : String → String → Bool) (settings : Settings) where
  route-refused :
      (w id : String) (generation : ℕ) (v : Visit) (request : Request) (db : Db)
      → Refused w id generation db
      → reports_on id generation request ≡ true
      → is_valid request ≡ true
      → route text_le settings w v request db ≡ (Response.refused 409, db)
  unfolding route is_valid
  route-refused w id generation v (Request.started job_id n refs) db r h valid =
      elim (Option-cases (to_domain refs)) [
        | inl e ↦ absurd (ground (arith, valid, e))
        | inr (domain, e) ↦
            let same : job_id ≡ id = (eq_iff job_id id).0 (ground (arith, h)) in
            let lease : n ≡ generation = ground (arith, h) in
            rw (e, route) (rw (same, lease, r.0 domain v.at))
      ]
  route-refused w id generation v (Request.failed_before_start job_id n error) db r h valid =
      ground (arith, h, eq_iff job_id id, r.2 error v.at)
  route-refused w id generation v (Request.complete job_id n c) db r h valid =
      ground (arith, h, eq_iff job_id id, r.1 c v.at)
  route-refused w id generation v (Request.claim n m) db r h valid = absurd (ground (arith, h))
  route-refused w id generation v (Request.heartbeat active) db r h valid =
      absurd (ground (arith, h))
  route-refused w id generation v Request.mark_ready db r h valid = absurd (ground (arith, h))
  route-refused w id generation v (Request.claim_actions n) db r h valid =
      absurd (ground (arith, h))
  route-refused w id generation v (Request.finish_action action n success error) db r h valid =
      absurd (ground (arith, h))

  -- A runner whose lease of a job has passed on, so that the job's generation is above its own, is
  -- answered with a conflict (409) by each route that reports on the job, after any calls of the store
  -- and at any time, and its request leaves the database as it is. The request is in bounds, and its
  -- token names a workspace, whichever.
  pub stale_conflict :
      (sha256 : String → String) (calls : List Call) (db : Db) (id : String) (generation : ℕ)
      (j : Job) (credentials : Option Credentials) (v : Visit) (request : Request) (w : String)
      → Keyed db
      → job text_le id db ≡ some j
      → generation < j.lease_generation
      → workspace text_le settings sha256 credentials (run text_le calls db) ≡ some w
      → reports_on id generation request ≡ true
      → is_valid request ≡ true
      → serve text_le settings sha256 credentials v request (run text_le calls db)
        ≡ (Response.refused 409, run text_le calls db)
  unfolding serve
  stale_conflict sha256 calls db id generation j credentials v request w u found older known reports
        valid =
      rw (known, serve, valid)
        (route-refused w id generation v request (run text_le calls db)
          (fenced text_le calls db w id generation j u found older) reports valid)
