-- ===== src/Table/Finds.antt =====
-- SELECTs behind an UPDATE or an INSERT.
use eastwatch.Prelude.{
  Bool, true, false, ◌≡◌, refl, none, some, List, [], ◌∷◌, ◌++◌, arith, inl, inr, Bool-cases,
  if◌then◌else◌,
}
use eastwatch.Table.{find_where, has_where, update_where, count_where, select_where}

module _ {A : Type 0} (q : A → Bool) where
  -- The UPDATE changes no column that the SELECT tests: the same row is found, changed.
  pub find-update :
      (p : A → Bool) (f : A → A)
      → ((x : A) → q (f x) ≡ q x)
      → (xs : List A) (r : A) → find_where q xs ≡ some r
      → find_where q (update_where p f xs) ≡ some (if p r then f r else r)
  unfolding find_where update_where
  find-update p f same [] r e = absurd (cc)
  find-update p f same (x ∷ xs) r e = elim (Bool-cases (q x)) [
    | inl hit ↦ elim (Bool-cases (p x)) [
      | inl up ↦ rw up (rw (same x) (rw hit (ground arith)))
      | inr down ↦ rw down (rw hit (ground arith))
    ]
    | inr miss ↦ elim (Bool-cases (p x)) [
      | inl up ↦ rw up (rw (same x) (rw miss (find-update p f same xs r (ground arith))))
      | inr down ↦ rw down (rw miss (find-update p f same xs r (ground arith)))
    ]
  ]

  pub find-append_none :
      (xs ys : List A) → find_where q xs ≡ none → find_where q (xs ++ ys) ≡ find_where q ys
  unfolding find_where
  find-append_none [] ys e = refl
  find-append_none (x ∷ xs) ys e = ground (arith, find-append_none xs ys)

  pub find-append_some :
      (xs ys : List A) (r : A) → find_where q xs ≡ some r → find_where q (xs ++ ys) ≡ some r
  unfolding find_where
  find-append_some [] ys r e = absurd (cc)
  find-append_some (x ∷ xs) ys r e = ground (arith, find-append_some xs ys r)

  pub has-append : (xs : List A) (y : A) → q y ≡ true → has_where q (xs ++ y ∷ []) ≡ true
  unfolding has_where
  has-append [] y h = rw h
  has-append (x ∷ xs) y h = ground (arith, has-append xs y h)

  pub has-append_left : (xs ys : List A) → has_where q xs ≡ true → has_where q (xs ++ ys) ≡ true
  unfolding has_where
  has-append_left [] ys h = absurd (cc)
  has-append_left (x ∷ xs) ys h = ground (arith, has-append_left xs ys)

  -- No row has the stronger condition.
  pub find-none :
      (p : A → Bool)
      → ((x : A) → q x ≡ true → p x ≡ true)
      → (xs : List A) → has_where p xs ≡ false
      → find_where q xs ≡ none
  unfolding find_where has_where
  find-none p h [] e = refl
  find-none p h (x ∷ xs) e = ground (arith, h x, find-none p h xs)

  pub select-none : (xs : List A) → count_where q xs ≡ 0 → select_where q xs ≡ []
  unfolding count_where select_where
  select-none [] e = refl
  select-none (x ∷ xs) e = ground (arith, select-none xs)

  -- An UPDATE of every row with a condition, which the changed rows have no more.
  pub count-update_none :
      (f : A → A)
      → ((x : A) → q x ≡ true → q (f x) ≡ false)
      → (xs : List A) → count_where q (update_where q f xs) ≡ 0
  unfolding count_where update_where
  count-update_none f gone [] = refl
  count-update_none f gone (x ∷ xs) = ground (arith, gone x, count-update_none f gone xs)
