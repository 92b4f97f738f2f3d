-- ===== src/Store/Outbox.antt =====
-- ControllerStore.claim_outbox, mark_outbox_delivered and mark_outbox_failed.
use eastwatch.Prelude.{
  ℕ, ◌+◌, Bool, none, some, String, List, [], ◌∷◌, ok, err, Error, leb, column_lt, ◌==◌, ◌&&◌,
  if◌then◌else◌, last_1000,
}
use eastwatch.Table.{select_where, update_where, count_where, sort_by, take}
use eastwatch.Schema.{OutboxItem, OutboxState, Notice, item_pending, item_delivering}
use eastwatch.Transaction.{Method, transaction}

-- The dict that `claim_outbox` gives for a row; `notice` is its kind and its payload.
pub record ClaimedItem : Type 0 where
  pub outbox_id : ℕ
  pub notice : Notice
  pub attempt : ℕ
  pub lease_generation : ℕ

abbrev pub overdue : ℕ → OutboxItem → Bool
overdue now x = item_delivering x.state && column_lt x.lease_until now

abbrev pub due : ℕ → OutboxItem → Bool
due now x = item_pending x.state && leb x.available_at now

abbrev pub by_outbox_id : OutboxItem → OutboxItem → Bool
by_outbox_id x y = leb x.outbox_id y.outbox_id

abbrev pub deliver_until : ℕ → OutboxItem → OutboxItem
deliver_until lease_until x = record x {
  state = OutboxState.delivering;
  lease_until = some lease_until;
  lease_generation = x.lease_generation + 1;
  attempts = x.attempts + 1;
}

abbrev pub claimed_item : OutboxItem → ClaimedItem
claimed_item x = record {
  outbox_id = x.outbox_id;
  notice = x.notice;
  attempt = x.attempts + 1;
  lease_generation = x.lease_generation + 1;
}

-- The loop over the selected rows.
unfoldable pub deliver_rows : ℕ → List OutboxItem → List OutboxItem → List OutboxItem
deliver_rows lease_until [] table = table
deliver_rows lease_until (row ∷ rows) table = deliver_rows lease_until rows (
    update_where (λ x. x.outbox_id == row.outbox_id && item_pending x.state)
      (deliver_until lease_until) table)

-- Leases that ran out go back to pending.
unfoldable pub release_overdue : ℕ → List OutboxItem → List OutboxItem
release_overdue now =
    update_where (overdue now) λ x. record x { state = OutboxState.pending; lease_until = none }

unfoldable pub due_rows : ℕ → ℕ → List OutboxItem → List OutboxItem
due_rows limit now table = take limit (sort_by by_outbox_id (select_where (due now) table))

abbrev pub map_items : List OutboxItem → List ClaimedItem
map_items [] = []
map_items (x ∷ xs) = claimed_item x ∷ map_items xs

-- A negative `limit` is 0, by its `max`.
unfoldable pub claim_outbox : (limit lease_seconds now : ℕ) → Method (List ClaimedItem)
unfolding transaction release_overdue due_rows deliver_rows
claim_outbox limit lease_seconds now = transaction λ db.
    let table = release_overdue now db.outbox in
    let rows = due_rows limit now table in
    ok (map_items rows, record db { outbox = deliver_rows (now + lease_seconds) rows table })

abbrev pub leased_item : ℕ → ℕ → OutboxItem → Bool
leased_item outbox_id generation x =
    x.outbox_id == outbox_id && item_delivering x.state && x.lease_generation == generation

unfoldable pub mark_outbox_delivered : (outbox_id generation now : ℕ) → Method (Unit {0})
unfolding transaction
mark_outbox_delivered outbox_id generation now = transaction λ db.
    if count_where (leased_item outbox_id generation) db.outbox == 1
    then ok (
      tt,
      record db {
        outbox =
            update_where (leased_item outbox_id generation)
              (λ x. record x {
                state = OutboxState.delivered;
                lease_until = none;
                delivered_at = some now;
              })
              db.outbox;
      },
    )
    else err Error.runtime

unfoldable pub mark_outbox_failed : (outbox_id generation : ℕ) → String → ℕ → Method (Unit {0})
unfolding transaction
mark_outbox_failed outbox_id generation error retry_at = transaction λ db.
    if count_where (leased_item outbox_id generation) db.outbox == 1
    then ok (
      tt,
      record db {
        outbox =
            update_where (leased_item outbox_id generation)
              (λ x. record x {
                state = OutboxState.pending;
                lease_until = none;
                available_at = retry_at;
                last_error = some (last_1000 error);
              })
              db.outbox;
      },
    )
    else err Error.runtime
