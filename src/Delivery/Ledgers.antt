-- ===== src/Delivery/Ledgers.antt =====
-- Updates and inserts, and the order of the outbox.
use eastwatch.Prelude.{
  ℕ, suc, ◌≤◌, ◌<◌, false, String, List, [], ◌∷◌, ◌++◌, ◌≡◌, refl, sym, ◌∙◌, subst, arith, str_eq,
  eq_iff, inl, inr, Bool-cases,
}
use eastwatch.Table.{has_where}
use eastwatch.Table.Every.{All, All-map, All-append}
use eastwatch.Table.Follows.{
  Match, Match-refl, Follows-refl, Follows-trans, Follows-append, Match-Follows,
}
use eastwatch.Schema.{Db, OutboxItem, Notice, dedupe_eq}
use eastwatch.Transaction.{insert_notice, new_item}
use eastwatch.Delivery.{Travels, Travels-refl, Travels-trans, Deduped, Rising, Sends}

str_eq_comm : (s t : String) → str_eq s t ≡ str_eq t s
str_eq_comm s t = ground (arith, eq_iff s t, eq_iff t s)

dedupe_eq_comm : (m n : Notice) → dedupe_eq m n ≡ dedupe_eq n m
unfolding dedupe_eq
dedupe_eq_comm (Notice.job_started j) (Notice.job_started k) = str_eq_comm j k
dedupe_eq_comm (Notice.job_completed j w g s) (Notice.job_completed k v h t) =
    ground (arith, str_eq_comm j k)
dedupe_eq_comm (Notice.runner_lost j) (Notice.runner_lost k) = str_eq_comm j k
dedupe_eq_comm (Notice.dispatch_rejected e p i r b t) (Notice.dispatch_rejected f q j s c u) =
    str_eq_comm e f
dedupe_eq_comm _ _ = refl

-- What rows that have travelled keep.
Match-has :
    (n : Notice) (xs ys : List OutboxItem)
    → Match Travels xs ys
    → has_where (λ (y : OutboxItem). dedupe_eq y.notice n) ys
      ≡ has_where (λ (y : OutboxItem). dedupe_eq y.notice n) xs
unfolding has_where
Match-has n [] [] h = refl
Match-has n [] (y ∷ ys) h = absurd h
Match-has n (x ∷ xs) [] h = absurd h
Match-has n (x ∷ xs) (y ∷ ys) h = rw (h.0.same_notice) (rw (Match-has n xs ys h.1))

Match-All :
    (P : ℕ → Type 0) (xs ys : List OutboxItem)
    → Match Travels xs ys
    → All (λ (x : OutboxItem). P x.outbox_id) xs
    → All (λ (y : OutboxItem). P y.outbox_id) ys
Match-All P [] [] h a = tt
Match-All P [] (y ∷ ys) h a = absurd h
Match-All P (x ∷ xs) [] h a = absurd h
Match-All P (x ∷ xs) (y ∷ ys) h a = (subst P (sym h.0.same_id) a.0, Match-All P xs ys h.1 a.1)

Match-Deduped : (xs ys : List OutboxItem) → Match Travels xs ys → Deduped xs → Deduped ys
Match-Deduped [] [] h d = tt
Match-Deduped [] (y ∷ ys) h d = absurd h
Match-Deduped (x ∷ xs) [] h d = absurd h
Match-Deduped (x ∷ xs) (y ∷ ys) h d =
    (rw h.0.same_notice (Match-has x.notice xs ys h.1 ∙ d.0), Match-Deduped xs ys h.1 d.1)

Match-Rising : (xs ys : List OutboxItem) → Match Travels xs ys → Rising xs → Rising ys
Match-Rising [] [] h r = tt
Match-Rising [] (y ∷ ys) h r = absurd h
Match-Rising (x ∷ xs) [] h r = absurd h
Match-Rising (x ∷ xs) (y ∷ ys) h r =
    (rw h.0.same_id (Match-All (λ n. x.outbox_id < n) xs ys h.1 r.0), Match-Rising xs ys h.1 r.1)

-- An UPDATE along `Travels`.
pub Sends-Match :
    (db db' : Db)
    → db'.outbox_seq ≡ db.outbox_seq
    → Match Travels db.outbox db'.outbox
    → Sends db db'
Sends-Match db db' seq h = record {
  follows = Match-Follows Travels db.outbox db'.outbox h;
  ledger = λ l. record {
    numbered = rw seq (Match-All (λ n. n ≤ db.outbox_seq) db.outbox db'.outbox h l.numbered);
    rising = Match-Rising db.outbox db'.outbox h l.rising;
    deduped = Match-Deduped db.outbox db'.outbox h l.deduped;
  };
}

-- A new row behind the others.
append-Rising :
    (xs : List OutboxItem) (y : OutboxItem)
    → All (λ (x : OutboxItem). x.outbox_id < y.outbox_id) xs
    → Rising xs
    → Rising (xs ++ y ∷ [])
append-Rising [] y a r = (tt, tt)
append-Rising (x ∷ xs) y a r = (
  All-append (λ (z : OutboxItem). x.outbox_id < z.outbox_id) xs (y ∷ []) r.0 (a.0, tt),
  append-Rising xs y a.1 r.1,
)

append_has :
    (n : Notice) (xs : List OutboxItem) (y : OutboxItem)
    → has_where (λ (x : OutboxItem). dedupe_eq x.notice n) xs ≡ false
    → dedupe_eq y.notice n ≡ false
    → has_where (λ (x : OutboxItem). dedupe_eq x.notice n) (xs ++ y ∷ []) ≡ false
unfolding has_where
append_has n [] y h e = rw e
append_has n (x ∷ xs) y h e = ground (arith, append_has n xs y)

append-Deduped :
    (xs : List OutboxItem) (y : OutboxItem)
    → has_where (λ (x : OutboxItem). dedupe_eq x.notice y.notice) xs ≡ false
    → Deduped xs
    → Deduped (xs ++ y ∷ [])
unfolding has_where
append-Deduped [] y h d = (refl, tt)
append-Deduped (x ∷ xs) y h d = elim (Bool-cases (dedupe_eq x.notice y.notice)) [
  | inl same ↦ absurd (ground (arith, same))
  | inr differs ↦ (
    append_has x.notice xs y d.0 (dedupe_eq_comm y.notice x.notice ∙ differs),
    append-Deduped xs y (ground (arith, differs)) d.1,
  )
]

pub Sends-refl : (db : Db) → Sends db db
Sends-refl db = record { follows = Follows-refl Travels Travels-refl db.outbox; ledger = λ l. l }

pub Sends-trans : (a b c : Db) → Sends a b → Sends b c → Sends a c
Sends-trans a b c s t = record {
  follows = Follows-trans Travels Travels-trans a.outbox b.outbox c.outbox s.follows t.follows;
  ledger = λ l. t.ledger (s.ledger l);
}

-- A change of other tables.
pub Sends-same :
    (db db' : Db) → db'.outbox ≡ db.outbox → db'.outbox_seq ≡ db.outbox_seq → Sends db db'
Sends-same db db' same seq =
    Sends-Match db db' seq (rw same (Match-refl Travels Travels-refl db.outbox))

pub Sends-insert : (n : Notice) (now : ℕ) (db : Db) → Sends db (insert_notice n now db)
unfolding insert_notice
Sends-insert n now db =
    elim (Bool-cases (has_where (λ (x : OutboxItem). dedupe_eq x.notice n) db.outbox)) [
      | inl old ↦ rw old (Sends-refl db)
      | inr new ↦ rw new (record {
        follows =
            Follows-append Travels Travels-refl db.outbox (new_item (suc db.outbox_seq) n now ∷ []);
        ledger = λ l. record {
          numbered =
              All-append _ db.outbox _ (All-map (λ x h. omega (arith, h)) db.outbox l.numbered)
                (omega arith, tt);
          rising =
              append-Rising db.outbox _ (All-map (λ x h. omega (arith, h)) db.outbox l.numbered)
                l.rising;
          deduped = append-Deduped db.outbox _ new l.deduped;
        };
      })
    ]
