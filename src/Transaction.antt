-- ===== src/Transaction.antt =====
-- `ControllerStore.transaction` of src/eastwatch/controller/store.py, and the inserts that several
-- methods share. `BEGIN IMMEDIATE` makes transactions run one after another, so a method is a
-- function on the database.
use eastwatch.Prelude.{
  ℕ, suc, Bool, true, false, Option, none, some, [], ◌∷◌, ◌++◌, ◌≡◌, refl, Result, ok, err, Error,
  ◌>>=◌, arith, str_eq, ◌&&◌, if◌then◌else◌,
}
use eastwatch.Table.{has_where}
use eastwatch.Schema.{Db, Project, Receipt, OutboxItem, OutboxState, Notice, dedupe_eq}

-- The statements between BEGIN and COMMIT: they give a value and the new database, or raise.
abbrev pub Body : Type 0 → Type 0
Body A = Db → Result (A × Db)

-- A method as its caller sees it.
abbrev pub Method : Type 0 → Type 0
Method A = Db → Result A × Db

abbrev pub settle : {A : Type 0} → Db → Result (A × Db) → Result A × Db
settle db (ok (a, changed)) = (ok a, changed)
settle db (err e) = (err e, db)

-- `with self.transaction()`: an exception rolls the database back and is raised again.
unfoldable pub transaction : {A : Type 0} → Body A → Method A
transaction body db = settle db (body db)

-- INSERT OR IGNORE INTO event_receipts: the rowcount and the new database. A receipt of an unknown
-- project violates the foreign key, which OR IGNORE does not ignore.
unfoldable pub insert_receipt : Receipt → Body Bool
insert_receipt r db =
    if has_where
      (λ (x : Receipt). str_eq x.project_key r.project_key && str_eq x.event_key r.event_key)
      db.receipts
    then ok (false, db)
    else if has_where (λ (p : Project). str_eq p.project_key r.project_key) db.projects
    then ok (true, record db { receipts = db.receipts ++ r ∷ [] })
    else err Error.integrity

unfoldable pub new_item : ℕ → Notice → ℕ → OutboxItem
new_item id notice now = record {
  outbox_id = id;
  notice = notice;
  state = OutboxState.pending;
  available_at = now;
  lease_until = none;
  lease_generation = 0;
  attempts = 0;
  last_error = none;
  created_at = now;
  delivered_at = none;
}

-- INSERT OR IGNORE INTO outbox, available and created at `now`: a second notice with one
-- `dedupe_key` is dropped.
unfoldable pub insert_notice : Notice → ℕ → Db → Db
unfolding new_item
insert_notice notice now db =
    if has_where (λ (x : OutboxItem). dedupe_eq x.notice notice) db.outbox then db else record db {
      outbox = db.outbox ++ new_item (suc db.outbox_seq) notice now ∷ [];
      outbox_seq = suc db.outbox_seq;
    }

-- What a body leaves behind it satisfies P, if it does not raise.
abbrev pub After : {A : Type 0} → (Db → Type 0) → Result (A × Db) → Type 0
After P (ok (a, db)) = P db
After P (err e) = Unit

settle-ok :
    {A : Type 0} (db : Db) (r : Result (A × Db)) (a : A) (db' : Db)
    → settle db r ≡ (ok a, db')
    → r ≡ ok (a, db')
settle-ok db (ok (b, changed)) a db' e = ground arith
settle-ok db (err x) a db' e = absurd (ground arith)

settle_rule :
    {A : Type 0} (P : Db → Type 0) (db : Db) (r : Result (A × Db))
    → P db
    → After P r
    → P (settle db r).1
settle_rule P db (ok (a, changed)) old new = new
settle_rule P db (err e) old new = old

-- A property of the old database and of what the body commits holds behind the transaction, whether
-- it commits or rolls back.
pub transaction_rule :
    {A : Type 0} (P : Db → Type 0) (body : Body A) (db : Db)
    → P db
    → After P (body db)
    → P (transaction body db).1
unfolding transaction
transaction_rule P body db old new = settle_rule P db (body db) old new

-- The statements of a body, test by test.
module _ {A : Type 0} (P : Db → Type 0) where
  pub After-if :
      (b : Bool) (r s : Result (A × Db))
      → (b ≡ true → After P r)
      → (b ≡ false → After P s)
      → After P (if b then r else s)
  After-if true r s h k = h refl
  After-if false r s h k = k refl

  pub After-option :
      {B : Type 0} (o : Option B) (r : Result (A × Db)) (f : B → Result (A × Db))
      → After P r
      → ((b : B) → o ≡ some b → After P (f b))
      → After P (elim o [ none ↦ r | some b ↦ f b ])
  After-option none r f h k = h
  After-option (some b) r f h k = k b refl

  pub After-bind :
      {B : Type 0} (r : Result B) (f : B → Result (A × Db))
      → ((b : B) → r ≡ ok b → After P (f b))
      → After P (r >>= f)
  After-bind (ok b) f h = h b refl
  After-bind (err e) f h = tt

-- A method that returned has run its body to the end.
pub transaction-ok :
    {A : Type 0} (body : Body A) (db : Db) (a : A) (db' : Db)
    → transaction body db ≡ (ok a, db')
    → body db ≡ ok (a, db')
unfolding transaction
transaction-ok body db a db' e = settle-ok db (body db) a db' e

pub ok-transaction :
    {A : Type 0} (body : Body A) (db : Db) (a : A) (db' : Db)
    → body db ≡ ok (a, db')
    → transaction body db ≡ (ok a, db')
unfolding transaction
ok-transaction body db a db' e = rw e
