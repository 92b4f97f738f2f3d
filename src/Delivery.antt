-- ===== src/Delivery.antt =====
-- The life of a notice in the outbox, and the order of the outbox. The children follow them through
-- every method of the store.
pub mod Ledgers
pub mod Effects
pub mod Silent
pub mod Always
pub mod Fences
use eastwatch.Prelude.{ℕ, ◌≤◌, ◌<◌, Bool, true, false, List, [], ◌∷◌, ◌≡◌, refl, ◌∙◌, arith}
use eastwatch.Table.{has_where}
use eastwatch.Table.Every.{All}
use eastwatch.Table.Follows.{Follows}
use eastwatch.Schema.{Db, OutboxItem, OutboxState, dedupe_eq}

abbrev pub is_delivered : OutboxState → Bool
is_delivered OutboxState.delivered = true
is_delivered _ = false

-- What may become of a row of `outbox`: a delivered item never changes again.
pub record Travels (x y : OutboxItem) : Type 0 where
  pub same_id : y.outbox_id ≡ x.outbox_id
  pub same_notice : y.notice ≡ x.notice
  pub generation_grows : x.lease_generation ≤ y.lease_generation
  pub attempts_grow : x.attempts ≤ y.attempts
  pub final : is_delivered x.state ≡ true → y ≡ x

pub Travels-refl : (x : OutboxItem) → Travels x x
Travels-refl x = record {
  same_id = refl;
  same_notice = refl;
  generation_grows = omega arith;
  attempts_grow = omega arith;
  final = λ _. refl;
}

pub Travels-trans : (x y z : OutboxItem) → Travels x y → Travels y z → Travels x z
Travels-trans x y z t u = record {
  same_id = u.same_id ∙ t.same_id;
  same_notice = u.same_notice ∙ t.same_notice;
  generation_grows = omega arith;
  attempts_grow = omega arith;
  final = λ h. u.final (rw (t.final h) h) ∙ t.final h;
}

-- No two rows have one dedupe key.
abbrev pub Deduped : List OutboxItem → Type 0
Deduped [] = Unit
Deduped (x ∷ xs) =
    (has_where (λ (y : OutboxItem). dedupe_eq y.notice x.notice) xs ≡ false) × Deduped xs

-- The numbers of the rows rise.
abbrev pub Rising : List OutboxItem → Type 0
Rising [] = Unit
Rising (x ∷ xs) = All (λ (y : OutboxItem). x.outbox_id < y.outbox_id) xs × Rising xs

pub record Ledger (db : Db) : Type 0 where
  pub numbered : All (λ (x : OutboxItem). x.outbox_id ≤ db.outbox_seq) db.outbox
  pub rising : Rising db.outbox
  pub deduped : Deduped db.outbox

-- From one database to the other every row has travelled, and the ledger stays in order.
pub record Sends (db db' : Db) : Type 0 where
  pub follows : Follows Travels db.outbox db'.outbox
  pub ledger : Ledger db → Ledger db'
