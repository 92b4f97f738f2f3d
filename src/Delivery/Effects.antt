-- ===== src/Delivery/Effects.antt =====
-- What each method of the store sends.
use eastwatch.Prelude.{
  ℕ, ◌+◌, ◌≤◌, last_1000, false, String, none, some, List, [], ◌∷◌, ◌≡◌, refl, arith, ◌==◌, ◌&&◌,
}
use eastwatch.Table.{update_where}
use eastwatch.Table.Every.{All-of}
use eastwatch.Table.Follows.{Match, Match-refl, Match-trans, Match-update}
use eastwatch.Schema.{Db, OutboxItem, OutboxState, item_pending}
use eastwatch.Store.Outbox.{
  overdue, deliver_until, deliver_rows, release_overdue, due_rows, leased_item, claim_outbox,
  mark_outbox_delivered, mark_outbox_failed,
}
use eastwatch.Delivery.{is_delivered, Travels, Travels-refl, Travels-trans, Sends}
use eastwatch.Delivery.Ledgers.{Sends-Match}

-- A change of the columns of an item that is not delivered.
travels :
    (x y : OutboxItem)
    → (y.outbox_id ≡ x.outbox_id) × (y.notice ≡ x.notice)
    → (x.lease_generation ≤ y.lease_generation) × (x.attempts ≤ y.attempts)
    → is_delivered x.state ≡ false
    → Travels x y
travels x y same grow open_ = record {
  same_id = same.0;
  same_notice = same.1;
  generation_grows = grow.0;
  attempts_grow = grow.1;
  final = λ h. cc;
}

release-Travels :
    (now : ℕ) (table : List OutboxItem) → Match Travels table (release_overdue now table)
unfolding release_overdue
release-Travels now table =
    Match-update Travels Travels-refl (overdue now) _ table
      (All-of (λ x h. travels x _ (refl, refl) (omega arith, omega arith) (ground arith)) table)

deliver-Travels :
    (until : ℕ) (rows table : List OutboxItem) → Match Travels table (deliver_rows until rows table)
unfolding deliver_rows
deliver-Travels until [] table = Match-refl Travels Travels-refl table
deliver-Travels until (row ∷ rows) table =
    let table' =
      update_where (λ (x : OutboxItem). x.outbox_id == row.outbox_id && item_pending x.state)
        (deliver_until until) table in
    Match-trans Travels Travels-trans table table' (deliver_rows until rows table')
      (Match-update Travels Travels-refl _ _ table
        (All-of (λ x h. travels x _ (refl, refl) (omega arith, omega arith) (ground arith)) table))
      (deliver-Travels until rows table')

pub claim_outbox-Sends :
    (limit seconds now : ℕ) (db : Db) → Sends db (claim_outbox limit seconds now db).1
unfolding claim_outbox
claim_outbox-Sends limit seconds now db =
    let table = release_overdue now db.outbox in
    Sends-Match db (claim_outbox limit seconds now db).1 refl (
      Match-trans Travels Travels-trans db.outbox table
        (deliver_rows (now + seconds) (due_rows limit now table) table)
        (release-Travels now db.outbox)
        (deliver-Travels (now + seconds) (due_rows limit now table) table))

settle-Travels :
    (id generation : ℕ) (f : OutboxItem → OutboxItem)
    → ((x : OutboxItem) → ((f x).outbox_id ≡ x.outbox_id) × ((f x).notice ≡ x.notice))
    → ((x : OutboxItem)
        → (x.lease_generation ≤ (f x).lease_generation) × (x.attempts ≤ (f x).attempts))
    → (table : List OutboxItem)
    → Match Travels table (update_where (leased_item id generation) f table)
settle-Travels id generation f same grow table =
    Match-update Travels Travels-refl (leased_item id generation) f table
      (All-of (λ x h. travels x (f x) (same x) (grow x) (ground arith)) table)

pub delivered-Sends :
    (id generation now : ℕ) (db : Db) → Sends db (mark_outbox_delivered id generation now db).1
unfolding mark_outbox_delivered
delivered-Sends id generation now db =
    Sends-Match db (mark_outbox_delivered id generation now db).1 (ground arith) (
      ground (
        arith,
        Match-refl Travels Travels-refl db.outbox,
        settle-Travels id generation
            (λ x. record x {
              state = OutboxState.delivered;
              lease_until = none;
              delivered_at = some now;
            })
            (λ x. (refl, refl)) (λ x. (omega arith, omega arith)) db.outbox,
      ))

pub failed-Sends :
    (id generation : ℕ) (error : String) (retry_at : ℕ) (db : Db)
    → Sends db (mark_outbox_failed id generation error retry_at db).1
unfolding mark_outbox_failed
failed-Sends id generation error retry_at db =
    Sends-Match db (mark_outbox_failed id generation error retry_at db).1 (ground arith) (
      ground (
        arith,
        Match-refl Travels Travels-refl db.outbox,
        settle-Travels id generation
            (λ x. record x {
              state = OutboxState.pending;
              lease_until = none;
              available_at = retry_at;
              last_error = some (last_1000 error);
            })
            (λ x. (refl, refl)) (λ x. (omega arith, omega arith)) db.outbox,
      ))
