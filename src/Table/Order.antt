-- ===== src/Table/Order.antt =====
-- ORDER BY with LIMIT: the chosen rows come before the rows that are left, and no row is lost.
use eastwatch.Prelude.{
  ℕ, zero, suc, ◌+◌, ◌≤◌, Bool, true, false, String, eq_iff, ◌≡◌, refl, ◌∙◌, List, [], ◌∷◌, arith,
  inl, inr, Bool-cases, if◌then◌else◌,
}
use eastwatch.Table.{take, drop, count_where, select_where, insert_by, sort_by}
use eastwatch.Table.Every.{All, All-map, All-insert}
use eastwatch.Table.Keys.{has_key, Unique}

module _ {A : Type 0} (le : A → A → Bool) where
  count-insert :
      (p : A → Bool) (x : A) (xs : List A)
      → count_where p (insert_by le x xs) ≡ (if p x then 1 else 0) + count_where p xs
  unfolding count_where insert_by
  count-insert p x [] = refl
  count-insert p x (y ∷ ys) = elim (Bool-cases (le x y)) [
    | inl e ↦ rw e
    | inr e ↦ rw e (omega (arith, count-insert p x ys))
  ]

  pub count-sort : (p : A → Bool) (xs : List A) → count_where p (sort_by le xs) ≡ count_where p xs
  unfolding count_where sort_by
  count-sort p [] = refl
  count-sort p (x ∷ xs) = omega (arith, count-insert p x (sort_by le xs), count-sort p xs)

  module _ (rank : A → ℕ) (sound : (x y : A) → le x y ≡ true → rank x ≤ rank y)
      (total : (x y : A) → le x y ≡ false → rank y ≤ rank x) where
    -- No row has a smaller rank than a row before it.
    abbrev pub Ranked : List A → Type 0
    Ranked [] = Unit
    Ranked (x ∷ xs) = All (λ y. rank x ≤ rank y) xs × Ranked xs

    insert-Ranked : (x : A) (xs : List A) → Ranked xs → Ranked (insert_by le x xs)
    unfolding insert_by
    insert-Ranked x [] r = (tt, tt)
    insert-Ranked x (y ∷ ys) r = elim (Bool-cases (le x y)) [
      | inl e ↦ rw e ((sound x y e, All-map (λ z h. omega (arith, sound x y e, h)) ys r.0), r)
      | inr e ↦
          rw e (All-insert (λ z. rank y ≤ rank z) le x ys (total x y e) r.0, insert-Ranked x ys r.1)
    ]

    pub sort-Ranked : (xs : List A) → Ranked (sort_by le xs)
    unfolding sort_by
    sort-Ranked [] = tt
    sort-Ranked (x ∷ xs) = insert-Ranked x (sort_by le xs) (sort-Ranked xs)

    All-drop : (P : A → Type 0) (n : ℕ) (xs : List A) → All P xs → All P (drop n xs)
    All-drop P zero xs a = a
    All-drop P (suc n) [] a = tt
    All-drop P (suc n) (x ∷ xs) a = All-drop P n xs a.1

    pub take-Ranked :
        (n : ℕ) (xs : List A)
        → Ranked xs
        → All (λ x. All (λ y. rank x ≤ rank y) (drop n xs)) (take n xs)
    take-Ranked zero xs r = tt
    take-Ranked (suc n) [] r = tt
    take-Ranked (suc n) (x ∷ xs) r =
        (All-drop (λ y. rank x ≤ rank y) n xs r.0, take-Ranked n xs r.1)

module _ {A : Type 0} where
  pub count-take-drop :
      (p : A → Bool) (n : ℕ) (xs : List A)
      → count_where p (take n xs) + count_where p (drop n xs) ≡ count_where p xs
  unfolding count_where
  count-take-drop p zero xs = omega arith
  count-take-drop p (suc n) [] = omega arith
  count-take-drop p (suc n) (x ∷ xs) = omega (arith, count-take-drop p n xs)

module _ {A : Type 0} (key : A → String) where
  has_key-insert :
      (le : A → A → Bool) (k : String) (x : A) (xs : List A)
      → has_key key k (insert_by le x xs) ≡ has_key key k (x ∷ xs)
  unfolding insert_by
  has_key-insert le k x [] = refl
  has_key-insert le k x (y ∷ ys) = elim (Bool-cases (le x y)) [
    | inl e ↦ rw e
    | inr e ↦ rw e (ground (arith, has_key-insert le k x ys))
  ]

  has_key-sort :
      (le : A → A → Bool) (k : String) (xs : List A)
      → has_key key k (sort_by le xs) ≡ has_key key k xs
  unfolding sort_by
  has_key-sort le k [] = refl
  has_key-sort le k (x ∷ xs) = has_key-insert le k x (sort_by le xs) ∙ rw (has_key-sort le k xs)

  has_key-select :
      (q : A → Bool) (k : String) (xs : List A)
      → has_key key k xs ≡ false
      → has_key key k (select_where q xs) ≡ false
  unfolding select_where
  has_key-select q k [] h = refl
  has_key-select q k (x ∷ xs) h = ground (arith, has_key-select q k xs)

  has_key-take :
      (n : ℕ) (k : String) (xs : List A)
      → has_key key k xs ≡ false
      → has_key key k (take n xs) ≡ false
  has_key-take zero k xs h = refl
  has_key-take (suc n) k [] h = refl
  has_key-take (suc n) k (x ∷ xs) h = ground (arith, has_key-take n k xs)

  Unique-insert :
      (le : A → A → Bool) (x : A) (xs : List A)
      → has_key key (key x) xs ≡ false
      → Unique key xs
      → Unique key (insert_by le x xs)
  unfolding insert_by
  Unique-insert le x [] h u = (refl, tt)
  Unique-insert le x (y ∷ ys) h u = elim (Bool-cases (le x y)) [
    | inl e ↦ rw e (h, u)
    | inr e ↦ rw e (
      has_key-insert le (key y) x ys
          ∙ ground (arith, eq_iff (key x) (key y), eq_iff (key y) (key x), u.0, h),
      Unique-insert le x ys (ground (arith, h)) u.1,
    )
  ]

  pub Unique-sort : (le : A → A → Bool) (xs : List A) → Unique key xs → Unique key (sort_by le xs)
  unfolding sort_by
  Unique-sort le [] u = tt
  Unique-sort le (x ∷ xs) u =
      Unique-insert le x (sort_by le xs) (has_key-sort le (key x) xs ∙ u.0) (Unique-sort le xs u.1)

  pub Unique-select : (q : A → Bool) (xs : List A) → Unique key xs → Unique key (select_where q xs)
  unfolding select_where
  Unique-select q [] u = tt
  Unique-select q (x ∷ xs) u = elim (Bool-cases (q x)) [
    | inl e ↦ rw e (has_key-select q (key x) xs u.0, Unique-select q xs u.1)
    | inr e ↦ rw e (Unique-select q xs u.1)
  ]

  pub Unique-take : (n : ℕ) (xs : List A) → Unique key xs → Unique key (take n xs)
  Unique-take zero xs u = tt
  Unique-take (suc n) [] u = tt
  Unique-take (suc n) (x ∷ xs) u = (has_key-take n (key x) xs u.0, Unique-take n xs u.1)
