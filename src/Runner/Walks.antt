-- ===== src/Runner/Walks.antt =====
-- The requests of an upload one after another: `post` and the loop around it.
use mathlib.Core.List.{append_assoc, append-nil}
use eastwatch.Prelude.{
  ℕ, zero, suc, ◌+◌, ◌*◌, min, Bool, Option, some, String, List, [], ◌++◌, ◌≡◌, refl, ◌∙◌, sym, ap,
  subst, inl, inr, arith, Bool-cases,
}
use eastwatch.Models.{Completion}
use eastwatch.Schema.{Db}
use eastwatch.Jobs.Rows.{Keyed}
use eastwatch.History.{Call, run}
use eastwatch.History.Laws.{run-Grows}
use eastwatch.Api.{Credentials, Settings}
use eastwatch.Api.Laws.{run-append}
use eastwatch.Runner.{Sending}
use eastwatch.Runner.Client.{judge, Sent, post_from, post, complete, upload_terminal}
use eastwatch.Runner.Uploads.{is_settled, Verdict-cases, upload, upload-settled, upload-again}
use eastwatch.Runner.Once.{Ended, run-Ended}
use eastwatch.Runner.Effects.{
  AtMostOnce, then_AtMostOnce, report, sent, send-Silent, send-AtMostOnce,
}

-- What others did before m sendings, from number i on.
abbrev pub others_of : (ℕ → Sending) → (m i : ℕ) → List Call
others_of at zero i = []
others_of at (suc m) i = (at i).others ++ others_of at m (suc i)

others_of-add :
    (at : ℕ → Sending) (m n i : ℕ)
    → others_of at (m + n) i ≡ others_of at m i ++ others_of at n (m + i)
others_of-add at zero n i =
    let left : 0 + n ≡ n = omega arith in
    let right : 0 + i ≡ i = omega arith in
    ap (λ k. others_of at k i) left ∙ sym (ap (others_of at n) right)
others_of-add at (suc m) n i =
    let left : suc m + n ≡ suc (m + n) = omega arith in
    let right : m + suc i ≡ suc m + i = omega arith in
    ap (λ k. others_of at k i) left
    ∙ ap (λ x. (at i).others ++ x)
        (others_of-add at m n (suc i) ∙ ap (λ k. others_of at m (suc i) ++ others_of at n k) right)
    ∙ sym (append_assoc (at i).others (others_of at m (suc i)) (others_of at n (suc m + i)))

module _ (text_le : String → String → Bool) (id : String) (generation : ℕ) (c : Completion)
    (at : ℕ → Sending) where
  -- From before sending i to before sending j, over m sendings.
  pub record Walked (i j : ℕ) (db d : Db) : Type 0 where
    pub m : ℕ
    pub reached : j ≡ m + i
    pub effect : AtMostOnce text_le id generation c (others_of at m i) db d
    pub silent : Ended id db → d ≡ run text_le (others_of at m i) db
    pub keyed : Keyed d

  then_Walked : (i j k : ℕ) (db d e : Db) → Walked i j db d → Walked j k d e → Walked i k db e
  then_Walked i j k db d e p q =
      let calls : others_of at q.m j ≡ others_of at q.m (p.m + i) =
        ap (others_of at q.m) p.reached in
      let all : others_of at p.m i ++ others_of at q.m j ≡ others_of at (p.m + q.m) i =
        ap (λ x. others_of at p.m i ++ x) calls ∙ sym (others_of-add at p.m q.m i) in
      record {
        m = p.m + q.m;
        reached = omega (arith, p.reached, q.reached);
        effect =
            subst (λ x. AtMostOnce text_le id generation c x db e) all
              (then_AtMostOnce text_le id generation c (others_of at p.m i) (others_of at q.m j) db
                d e p.effect q.silent q.effect);
        silent = λ over.
            let before : d ≡ run text_le (others_of at p.m i) db = p.silent over in
            q.silent
              (subst (Ended id) (sym before) (run-Ended text_le (others_of at p.m i) id db over))
            ∙ ap (run text_le (others_of at q.m j)) before
            ∙ sym (run-append text_le (others_of at p.m i) (others_of at q.m j) db)
            ∙ ap (λ x. run text_le x db) all;
        keyed = q.keyed;
      }

  stay_Walked : (i : ℕ) (db : Db) → Keyed db → Walked i i db db
  unfolding run
  stay_Walked i db u = record {
    m = 0;
    reached = omega arith;
    effect = inl refl;
    silent = λ _. refl;
    keyed = u;
  }

  AtMostOnce-Keyed :
      (cs : List Call) (db d : Db) → Keyed db → AtMostOnce text_le id generation c cs db d → Keyed d
  AtMostOnce-Keyed cs db d u (inl e) = subst Keyed (sym e) (run-Grows text_le cs db u).1
  AtMostOnce-Keyed cs db d u (inr r) = r.over.keyed

  module _ (settings : Settings) (sha256 : String → String) (credentials : Option Credentials) where
    abbrev after : ℕ → Db → Db
    after i db = (sent text_le id generation c settings sha256 credentials at i db).1

    one_Walked : (i : ℕ) (db : Db) → Keyed db → Walked i (suc i) db (after i db)
    one_Walked i db u =
        let none_left : (at i).others ++ [] ≡ (at i).others = append-nil (at i).others in
        let once = send-AtMostOnce text_le id generation c settings sha256 credentials at i db u in
        record {
          m = 1;
          reached = omega arith;
          effect =
              subst (λ x. AtMostOnce text_le id generation c x db (after i db)) (sym none_left)
                once;
          silent = λ over.
              send-Silent text_le id generation c settings sha256 credentials at i db over
              ∙ ap (λ x. run text_le x db) (sym none_left);
          keyed = AtMostOnce-Keyed (at i).others db (after i db) u once;
        }

    abbrev posted : (left attempt i : ℕ) → Db → Sent
    posted left attempt i =
        post_from text_le settings sha256 credentials at left attempt i
          (report text_le id generation c settings sha256 credentials at)

    post-Walked :
        (left attempt i : ℕ) (db : Db)
        → Keyed db
        → Walked i (posted left attempt i db).following db (posted left attempt i db).db
    unfolding post_from
    post-Walked zero attempt i db u = stay_Walked i db u
    post-Walked (suc left) attempt i db u =
        let first = one_Walked i db u in
        elim (Verdict-cases
          (judge (sent text_le id generation c settings sha256 credentials at i db).0)) [
            | inl (p, e) ↦ rw (e, post_from) first
            | inr e ↦
                rw (e, post_from)
                  (then_Walked i (suc i) (posted left (suc attempt) (suc i) (after i db)).following
                    db (after i db) (posted left (suc attempt) (suc i) (after i db)).db first
                    (post-Walked left (suc attempt) (suc i) (after i db) first.keyed))
          ]

    abbrev pub uploading : (turns delay i : ℕ) → Db → Option Sent
    uploading = upload text_le settings sha256 credentials at id generation c

    upload-Walked :
        (turns delay i : ℕ) (db : Db) (s : Sent)
        → Keyed db
        → uploading turns delay i db ≡ some s
        → Walked i s.following db s.db
    unfolding upload_terminal complete post
    upload-Walked zero delay i db s u h = absurd (ground (arith, h))
    upload-Walked (suc turns) delay i db s u h =
        let first = posted 4 0 i db in
        let walked = post-Walked 4 0 i db u in
        elim (Bool-cases (is_settled first.outcome)) [
          | inl over ↦
              let e =
                upload-settled text_le settings sha256 credentials at id generation c turns delay i
                  db over in
              let same : first ≡ s = ground (arith, sym e ∙ h) in
              subst (λ x. Walked i x.following db x.db) same walked
          | inr on ↦
              let e =
                upload-again text_le settings sha256 credentials at id generation c turns delay i db
                  on in
              then_Walked i first.following s.following db first.db s.db walked (
                upload-Walked turns (min 30 (delay * 2)) first.following first.db s walked.keyed
                  (sym e ∙ h))
        ]

    -- An upload that ends has told the store of the job's end at most once. However many of its
    -- requests arrived, lost their response and were repeated, the controller's database is the one
    -- that the calls of others in between alone leave, or the one that they leave with a single
    -- completion of the job, from this lease and with this content, among them.
    pub upload_once :
        (turns delay i : ℕ) (db : Db) (s : Sent)
        → Keyed db
        → uploading turns delay i db ≡ some s
        → (m : ℕ) × (s.following ≡ m + i)
          × AtMostOnce text_le id generation c (others_of at m i) db s.db
    upload_once turns delay i db s u h =
        let walked = upload-Walked turns delay i db s u h in
        (walked.m, walked.reached, walked.effect)
