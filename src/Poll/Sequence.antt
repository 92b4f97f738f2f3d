-- ===== src/Poll/Sequence.antt =====
-- Calls of the store one after another, where each commits by itself: what an earlier call wrote
-- stays when a later one raises.
use eastwatch.Prelude.{Result, ok, err, List, [], ◌∷◌}
use eastwatch.Schema.{Db}
use eastwatch.Transaction.{Method}

abbrev pub onward : {A B : Type 0} → Result A × Db → (A → Method B) → Result B × Db
onward (ok a, db) next = next a db
onward (err e, db) next = (err e, db)

infixl 5 ◌>>=◌
abbrev pub ◌>>=◌ : {A B : Type 0} → Method A → (A → Method B) → Method B
m >>= next = λ db. onward (m db) next

-- What does not touch the database.
abbrev pub lift : {A : Type 0} → Result A → Method A
lift r = λ db. (r, db)

abbrev pub done : {A : Type 0} → A → Method A
done a = λ db. (ok a, db)

-- `for x in xs`
abbrev pub each : {A : Type 0} → (A → Method (Unit {0})) → List A → Method (Unit {0})
each f [] = λ db. (ok tt, db)
each f (x ∷ xs) = λ db. onward (f x db) (λ t. each f xs)
