-- ===== src/Runner/Uploads.antt =====
-- Uploads of the end of a job, over a network that loses requests and responses.
use eastwatch.Prelude.{
  ℕ, zero, suc, ◌*◌, ◌<◌, min, Bool, true, false, Option, some, String, ◌≡◌, refl, ◌∙◌, ◌⊎◌, inl,
  inr, arith, Bool-cases,
}
use eastwatch.Models.{Completion}
use eastwatch.Schema.{Db}
use eastwatch.Api.{Credentials, Request, Response, Settings}
use eastwatch.Runner.{Sending, Posted}
use eastwatch.Runner.Client.{
  Verdict, final, again, judge, Sent, send, post_from, post, complete, ended, upload_terminal,
}

abbrev pub is_settled : Posted → Bool
is_settled Posted.api_error = false
is_settled p = true

abbrev pub settling : Verdict → Bool
settling (final p) = is_settled p
settling again = false

ended-settled :
    (p : Posted) (returned rest : Option Sent)
    → is_settled p ≡ true
    → ended p returned rest ≡ returned
ended-settled Posted.nothing returned rest h = refl
ended-settled (Posted.json r) returned rest h = refl
ended-settled Posted.lease_rejected returned rest h = refl
ended-settled Posted.api_error returned rest h = absurd (ground (arith, h))

ended-again :
    (p : Posted) (returned rest : Option Sent) → is_settled p ≡ false → ended p returned rest ≡ rest
ended-again Posted.nothing returned rest h = absurd (ground (arith, h))
ended-again (Posted.json r) returned rest h = absurd (ground (arith, h))
ended-again Posted.lease_rejected returned rest h = absurd (ground (arith, h))
ended-again Posted.api_error returned rest h = refl

pub Verdict-cases : (v : Verdict) → ((p : Posted) × (v ≡ final p)) ⊎ (v ≡ again)
Verdict-cases (final p) = inl (p, refl)
Verdict-cases again = inr refl

module _ (text_le : String → String → Bool) (settings : Settings) (sha256 : String → String)
    (credentials : Option Credentials) (at : ℕ → Sending) where
  abbrev pub sent : ℕ → Request → Db → Option Response × Db
  sent = send text_le settings sha256 credentials at

  -- Whether the sending that comes n sendings after number i is answered in a way that settles the
  -- request: with a body, with no content, or with a conflict.
  abbrev pub settles : (n i : ℕ) → Request → Db → Bool
  settles zero i request db = settling (judge (sent i request db).0)
  settles (suc n) i request db = settles n (suc i) request (sent i request db).1

  abbrev pub posted : (left attempt i : ℕ) → Request → Db → Sent
  posted = post_from text_le settings sha256 credentials at

  -- `post` ended settled, or with so many sendings fewer before the one that settles.
  abbrev pub Nearer : ℕ → Request → Sent → Type 0
  Nearer n request s =
      (is_settled s.outcome ≡ true)
      ⊎ ((m : ℕ) × (m < n) × (settles m s.following request s.db ≡ true))

  Nearer-suc :
      (n : ℕ) (request : Request) (s : Sent) → Nearer n request s → Nearer (suc n) request s
  Nearer-suc n request s (inl h) = inl h
  Nearer-suc n request s (inr (m, less, h)) = inr (m, omega (arith, less), h)

  post-Nearer :
      (left attempt i n : ℕ) (request : Request) (db : Db)
      → settles n i request db ≡ true
      → Nearer n request (posted (suc left) attempt i request db)
  unfolding post_from
  post-Nearer left attempt i zero request db h =
      elim (Verdict-cases (judge (sent i request db).0)) [
        | inl (p, e) ↦ rw (e, post_from) (inl (ground (arith, h, e)))
        | inr e ↦ absurd (ground (arith, h, e))
      ]
  post-Nearer zero attempt i (suc n) request db h =
      elim (Verdict-cases (judge (sent i request db).0)) [
        | inl (p, e) ↦ rw (e, post_from) (inr (n, omega arith, h))
        | inr e ↦ rw (e, post_from) (inr (n, omega arith, h))
      ]
  post-Nearer (suc left) attempt i (suc n) request db h =
      elim (Verdict-cases (judge (sent i request db).0)) [
        | inl (p, e) ↦ rw (e, post_from) (inr (n, omega arith, h))
        | inr e ↦
            rw (e, post_from)
              (Nearer-suc n request
                (posted (suc left) (suc attempt) (suc i) request (sent i request db).1)
                (post-Nearer left (suc attempt) (suc i) n request (sent i request db).1 h))
      ]

  module _ (id : String) (generation : ℕ) (c : Completion) where
    abbrev pub report : Request
    report = Request.complete id generation c

    abbrev pub upload : (turns delay i : ℕ) → Db → Option Sent
    upload turns delay i =
        upload_terminal text_le settings sha256 credentials at turns delay i id generation c

    abbrev pub one_post : ℕ → Db → Sent
    one_post i = complete text_le settings sha256 credentials at i id generation c

    pub upload-settled :
        (turns delay i : ℕ) (db : Db)
        → is_settled (one_post i db).outcome ≡ true
        → upload (suc turns) delay i db ≡ some (one_post i db)
    unfolding upload_terminal
    upload-settled turns delay i db h = ended-settled (one_post i db).outcome _ _ h

    pub upload-again :
        (turns delay i : ℕ) (db : Db)
        → is_settled (one_post i db).outcome ≡ false
        → upload (suc turns) delay i db
          ≡ upload turns (min 30 (delay * 2)) (one_post i db).following (one_post i db).db
    unfolding upload_terminal
    upload-again turns delay i db h = ended-again (one_post i db).outcome _ _ h

    -- The upload of a job's end returns as soon as a sending is answered with a body, with no content
    -- or with a conflict: if that happens n sendings after the first, the loop ends within n + 1
    -- turns, and it ends settled.
    pub upload_returns :
        (n turns delay i : ℕ) (db : Db)
        → settles n i report db ≡ true
        → n < turns
        → (s : Sent) × (upload turns delay i db ≡ some s) × (is_settled s.outcome ≡ true)
    unfolding complete post
    upload_returns n zero delay i db h less = absurd (omega (arith, less))
    upload_returns n (suc turns) delay i db h less =
        elim (Bool-cases (is_settled (one_post i db).outcome)) [
          | inl over ↦ (one_post i db, upload-settled turns delay i db over, over)
          | inr on ↦ elim (post-Nearer 3 0 i n report db h) [
            | inl over ↦ absurd (ground (arith, over, on))
            | inr (m, nearer, h') ↦
                let (s, e, settled) =
                  upload_returns m turns (min 30 (delay * 2)) (one_post i db).following
                    (one_post i db).db h' (omega (arith, nearer, less)) in
                (s, upload-again turns delay i db on ∙ e, settled)
          ]
        ]
