-- ===== src/Notices/Rounds.antt =====
-- `HostedOutbox.run_once`: one round of deliveries. `error_text` is `str(error)`; the clock is read
-- once in a round.
use eastwatch.Prelude.{ℕ, ◌+◌, String, List, [], ◌∷◌, Result, ok, err, Error}
use eastwatch.Table.{length}
use eastwatch.Schema.{Db}
use eastwatch.Store.Outbox.{ClaimedItem, claim_outbox, mark_outbox_delivered, mark_outbox_failed}
use eastwatch.Retention.{ProjectTokens}
use eastwatch.Notices.Deliveries.{Forge, deliver, retry_delay}

abbrev pub go_on : Result (Unit {0}) × Db → (Db → Result (Unit {0}) × Db) → Result (Unit {0}) × Db
go_on (ok t, d) rest = rest d
go_on (err e, d) rest = (err e, d)

module _ (forge : Forge) (tokens : ProjectTokens) (error_text : Error → String) where
  -- A delivery that raised is tried again later; one that returned is marked.
  unfoldable pub settle_item : ClaimedItem → ℕ → Result (Unit {0}) × Db → Result (Unit {0}) × Db
  unfolding mark_outbox_failed mark_outbox_delivered
  settle_item item now (err e, db) =
      mark_outbox_failed item.outbox_id item.lease_generation (error_text e)
        (now + retry_delay item.attempt) db
  settle_item item now (ok t, db) =
      mark_outbox_delivered item.outbox_id item.lease_generation now db

  unfoldable pub deliver_item : ClaimedItem → ℕ → Db → Result (Unit {0}) × Db
  unfolding settle_item deliver
  deliver_item item now db = settle_item item now (deliver forge tokens item now db)

  -- The loop: an exception of a mark ends the round.
  unfoldable pub deliver_items : ℕ → List ClaimedItem → Db → Result (Unit {0}) × Db
  unfolding deliver_item
  deliver_items now [] db = (ok tt, db)
  deliver_items now (item ∷ items) db =
      go_on (deliver_item item now db) (λ d. deliver_items now items d)

  unfoldable pub run_once : ℕ → Db → Result ℕ × Db
  unfolding claim_outbox deliver_items
  run_once now db = count_round (claim_outbox 20 60 now db)
    where
      count_items : List ClaimedItem → Result (Unit {0}) × Db → Result ℕ × Db
      count_items items (ok t, d) = (ok (length items), d)
      count_items items (err e, d) = (err e, d)

      count_round : Result (List ClaimedItem) × Db → Result ℕ × Db
      count_round (ok items, d) = count_items items (deliver_items now items d)
      count_round (err e, d) = (err e, d)
