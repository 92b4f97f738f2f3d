-- ===== src/Delivery/Fences.antt =====
-- The lease of an outbox item that was passed on.
use eastwatch.Prelude.{
  ℕ, ◌<◌, Bool, String, some, List, [], ◌∷◌, err, Error, ◌==◌, ◌≡◌, refl, arith, inl, inr,
  Bool-cases,
}
use eastwatch.Table.{find_where, count_where}
use eastwatch.Table.Every.{All}
use eastwatch.Schema.{Db, OutboxItem}
use eastwatch.Store.Outbox.{leased_item, mark_outbox_delivered, mark_outbox_failed}
use eastwatch.History.{Call, run}
use eastwatch.Delivery.{Rising, Ledger}
use eastwatch.Delivery.Always.{outbox_history, outbox-Ledger}

count-above :
    (id generation : ℕ) (table : List OutboxItem)
    → All (λ (x : OutboxItem). id < x.outbox_id) table
    → count_where (leased_item id generation) table ≡ 0
unfolding count_where
count-above id generation [] a = refl
count-above id generation (x ∷ table) a = ground (arith, count-above id generation table a.1, a.0)

count-passed :
    (id generation : ℕ) (table : List OutboxItem) (y : OutboxItem)
    → Rising table
    → find_where (λ (x : OutboxItem). x.outbox_id == id) table ≡ some y
    → generation < y.lease_generation
    → count_where (leased_item id generation) table ≡ 0
unfolding count_where find_where
count-passed id generation [] y r e older = refl
count-passed id generation (x ∷ table) y r e older = elim (Bool-cases (x.outbox_id == id)) [
  | inr miss ↦
      ground (arith, miss, count-passed id generation table y r.1 (ground (arith, e, miss)) older)
  | inl hit ↦
      let same : x.outbox_id ≡ id = ground (arith, hit) in
      let above = count-above x.outbox_id generation table r.0 in
      let found : x ≡ y = ground (arith, e, hit) in ground (arith, found, older, rw same at above)
]

-- From a database whose outbox has rising numbers and distinct dedupe keys: a delivery under a lease
-- generation below that of the item is refused after any calls, be it reported as done or as
-- failed, and changes nothing.
pub outbox_fenced :
    (text_le : String → String → Bool) (calls : List Call) (db : Db) (id generation : ℕ)
    (x : OutboxItem) (now : ℕ) (error : String) (retry_at : ℕ)
    → Ledger db
    → find_where (λ (y : OutboxItem). y.outbox_id == id) db.outbox ≡ some x
    → generation < x.lease_generation
    → (mark_outbox_delivered id generation now (run text_le calls db)
        ≡ (err Error.runtime, run text_le calls db))
      × (mark_outbox_failed id generation error retry_at (run text_le calls db)
          ≡ (err Error.runtime, run text_le calls db))
unfolding mark_outbox_delivered mark_outbox_failed
outbox_fenced text_le calls db id generation x now error retry_at l e older =
    let (y, found, life) = outbox_history text_le calls db id x e in
    let gone =
      count-passed id generation (run text_le calls db).outbox y
        (outbox-Ledger text_le calls db l).rising found (omega (arith, life.generation_grows)) in
    (rw gone, rw gone)
