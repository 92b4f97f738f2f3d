-- ===== src/Table/Counts.antt =====
-- How an UPDATE changes the number of rows with a condition.
use eastwatch.Prelude.{◌+◌, ◌≤◌, Bool, true, ◌≡◌, List, [], ◌∷◌, ◌++◌, arith}
use eastwatch.Table.{update_where, count_where}
use eastwatch.Table.Every.{All}

module _ {A : Type 0} (q p : A → Bool) (f : A → A) where
  pub count-update_le :
      (xs : List A)
      → All (λ x. p x ≡ true → q (f x) ≡ true → q x ≡ true) xs
      → count_where q (update_where p f xs) ≤ count_where q xs
  unfolding count_where update_where
  count-update_le [] h = omega arith
  count-update_le (x ∷ xs) h = ground (arith, h.0, count-update_le xs h.1)

  pub count-update_add :
      (xs : List A) → count_where q (update_where p f xs) ≤ count_where q xs + count_where p xs
  unfolding count_where update_where
  count-update_add [] = omega arith
  count-update_add (x ∷ xs) = ground (arith, count-update_add xs)

module _ {A : Type 0} (q : A → Bool) where
  pub count-append :
      (xs ys : List A) → count_where q (xs ++ ys) ≡ count_where q xs + count_where q ys
  unfolding count_where
  count-append [] ys = omega arith
  count-append (x ∷ xs) ys = omega (arith, count-append xs ys)
