-- ===== src/Runner/Effects.antt =====
-- An upload changes the controller's database at most once.
use mathlib.Core.List.{append_assoc, append-nil}
use eastwatch.Prelude.{
  ℕ, Bool, Option, String, List, [], ◌∷◌, ◌++◌, ◌≡◌, refl, ◌∙◌, sym, ap, subst, ◌⊎◌, inl, inr,
  Option-cases, Bool-cases,
}
use eastwatch.Models.{Completion}
use eastwatch.Schema.{Db}
use eastwatch.Store.Complete.{complete_job}
use eastwatch.Jobs.Rows.{Keyed}
use eastwatch.History.{Call, step, run}
use eastwatch.History.Laws.{run-Grows}
use eastwatch.History.Once.{ended_complete}
use eastwatch.Api.{Credentials, Request, Response, Settings}
use eastwatch.Api.Routes.{Visit, serve, route, is_valid, workspace}
use eastwatch.Api.Laws.{respond-state, run-append}
use eastwatch.Runner.{Fate, Sending}
use eastwatch.Runner.Client.{send}
use eastwatch.Runner.Once.{Ended, run-Ended, complete-Ended}

module _ (text_le : String → String → Bool) (id : String) (generation : ℕ) (c : Completion) where
  abbrev completion : (workspace_id : String) (now : ℕ) → Call
  completion w now = Call.completes w id generation c now

  -- The calls of others, with the completion of the job somewhere among them, behind which the job
  -- has ended.
  pub record Reported (calls : List Call) (db db' : Db) : Type 0 where
    pub earlier : List Call
    pub later : List Call
    pub split : earlier ++ later ≡ calls
    pub workspace_id : String
    pub now : ℕ
    pub effect : db' ≡ run text_le (earlier ++ completion workspace_id now ∷ later) db
    pub over : Ended id db'

  -- The database is that of the calls of others, or of these with the completion among them.
  abbrev pub AtMostOnce : List Call → Db → Db → Type 0
  AtMostOnce calls db db' = (db' ≡ run text_le calls db) ⊎ Reported calls db db'

  pub then_AtMostOnce :
      (cs ds : List Call) (db d db' : Db)
      → AtMostOnce cs db d
      → (Ended id d → db' ≡ run text_le ds d)
      → AtMostOnce ds d db'
      → AtMostOnce (cs ++ ds) db db'
  then_AtMostOnce cs ds db d db' (inl e) silent (inl f) =
      inl (f ∙ ap (run text_le ds) e ∙ sym (run-append text_le cs ds db))
  then_AtMostOnce cs ds db d db' (inl e) silent (inr r) = inr (record {
    earlier = cs ++ r.earlier;
    later = r.later;
    split = append_assoc cs r.earlier r.later ∙ ap (λ x. cs ++ x) r.split;
    workspace_id = r.workspace_id;
    now = r.now;
    effect =
        r.effect
        ∙ ap (run text_le (r.earlier ++ completion r.workspace_id r.now ∷ r.later)) e
        ∙ sym (run-append text_le cs (r.earlier ++ completion r.workspace_id r.now ∷ r.later) db)
        ∙ ap (λ x. run text_le x db)
            (sym (append_assoc cs r.earlier (completion r.workspace_id r.now ∷ r.later)));
    over = r.over;
  })
  then_AtMostOnce cs ds db d db' (inr r) silent f = inr (record {
    earlier = r.earlier;
    later = r.later ++ ds;
    split = sym (append_assoc r.earlier r.later ds) ∙ ap (λ x. x ++ ds) r.split;
    workspace_id = r.workspace_id;
    now = r.now;
    effect =
        silent r.over
        ∙ ap (run text_le ds) r.effect
        ∙ sym (run-append text_le (r.earlier ++ completion r.workspace_id r.now ∷ r.later) ds db)
        ∙ ap (λ x. run text_le x db)
            (append_assoc r.earlier (completion r.workspace_id r.now ∷ r.later) ds);
    over = subst (Ended id) (sym (silent r.over)) (run-Ended text_le ds id d r.over);
  })

  module _ (settings : Settings) (sha256 : String → String) (credentials : Option Credentials)
      (at : ℕ → Sending) where
    abbrev pub report : Request
    report = Request.complete id generation c

    -- A served report does nothing, or completes the job for the workspace of the token.
    serve-effect :
        (v : Visit) (db : Db)
        → ((serve text_le settings sha256 credentials v report db).1 ≡ db)
          ⊎ ((w : String) × (now : ℕ) × ((serve text_le settings sha256 credentials v report db).1
                ≡ (complete_job w id generation c now db).1))
    unfolding serve route
    serve-effect v db = elim (Option-cases (workspace text_le settings sha256 credentials db)) [
      | inl e ↦ inl (rw (e, serve))
      | inr (w, e) ↦ elim (Bool-cases (is_valid report)) [
        | inl valid ↦ inr (
          w,
          v.at,
          rw (e, serve, valid)
              (respond-state Response.accepted (complete_job w id generation c v.at db)),
        )
        | inr bad ↦ inl (rw (e, serve, bad))
      ]
    ]

    serve-Silent :
        (v : Visit) (db : Db)
        → Ended id db
        → (serve text_le settings sha256 credentials v report db).1 ≡ db
    serve-Silent v db e = elim (serve-effect v db) [
      | inl same ↦ same
      | inr (w, now, same) ↦
          same ∙ ended_complete w id generation c now db e.row e.keyed e.found e.over
    ]

    serve-AtMostOnce :
        (v : Visit) (cs : List Call) (db : Db)
        → Keyed (run text_le cs db)
        → AtMostOnce cs db
            (serve text_le settings sha256 credentials v report (run text_le cs db)).1
    unfolding run step
    serve-AtMostOnce v cs db u = elim (serve-effect v (run text_le cs db)) [
      | inl same ↦ inl same
      | inr (w, now, same) ↦
          elim (complete-Ended text_le w id generation c now (run text_le cs db) u) [
            | inl unchanged ↦ inl (same ∙ unchanged)
            | inr over ↦ inr (record {
              earlier = cs;
              later = [];
              split = append-nil cs;
              workspace_id = w;
              now = now;
              effect = same ∙ sym (run-append text_le cs (completion w now ∷ []) db);
              over = subst (Ended id) (sym same) over;
            })
          ]
    ]

    abbrev pub sent : ℕ → Db → Option Response × Db
    sent i = send text_le settings sha256 credentials at i report

    Fate-cases : (f : Fate) → (f ≡ Fate.lost) ⊎ ((f ≡ Fate.unanswered) ⊎ (f ≡ Fate.answered))
    Fate-cases Fate.lost = inl refl
    Fate-cases Fate.unanswered = inr (inl refl)
    Fate-cases Fate.answered = inr (inr refl)

    abbrev served : ℕ → Db → Db
    served i db =
        (serve text_le settings sha256 credentials (at i).visit report
          (run text_le (at i).others db)).1

    send-state :
        (i : ℕ) (db : Db)
        → ((sent i db).1 ≡ run text_le (at i).others db) ⊎ ((sent i db).1 ≡ served i db)
    unfolding send
    send-state i db = elim (Fate-cases (at i).fate) [
      | inl e ↦ inl (rw (e, send))
      | inr (inl e) ↦ inr (rw (e, send))
      | inr (inr e) ↦ inr (rw (e, send))
    ]

    pub send-Silent : (i : ℕ) (db : Db) → Ended id db → (sent i db).1 ≡ run text_le (at i).others db
    send-Silent i db e = elim (send-state i db) [
      | inl same ↦ same
      | inr same ↦
          same
          ∙ serve-Silent (at i).visit (run text_le (at i).others db)
              (run-Ended text_le (at i).others id db e)
    ]

    pub send-AtMostOnce : (i : ℕ) (db : Db) → Keyed db → AtMostOnce (at i).others db (sent i db).1
    send-AtMostOnce i db u = elim (send-state i db) [
      | inl same ↦ inl same
      | inr same ↦
          subst (AtMostOnce (at i).others db) (sym same) (
            serve-AtMostOnce (at i).visit (at i).others db (run-Grows text_le (at i).others db u).1)
    ]
