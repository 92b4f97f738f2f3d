-- ===== src/Table/Every.antt =====
-- A statement about every row of a table, and how the statements of SQL keep it.
use eastwatch.Prelude.{
  ℕ, zero, suc, ◌≤◌, Bool, true, false, ◌≡◌, refl, ◌⊎◌, subst, List, [], ◌∷◌, ◌++◌, some, arith,
  inl, inr, Bool-cases,
}
use eastwatch.Table.{
  length, take, update_where, select_where, find_where, has_where, insert_by, sort_by,
}

module _ {A : Type 0} where
  abbrev pub All : (A → Type 0) → List A → Type 0
  All P [] = Unit
  All P (x ∷ xs) = P x × All P xs

  pub All-map : {P Q : A → Type 0} → ((x : A) → P x → Q x) → (xs : List A) → All P xs → All Q xs
  All-map h [] a = tt
  All-map h (x ∷ xs) a = (h x a.0, All-map h xs a.1)

  pub All-map₂ :
      {P Q S : A → Type 0}
      → ((x : A) → P x → Q x → S x)
      → (xs : List A) → All P xs
      → All Q xs
      → All S xs
  All-map₂ h [] a b = tt
  All-map₂ h (x ∷ xs) a b = (h x a.0 b.0, All-map₂ h xs a.1 b.1)

  pub All-of : {P : A → Type 0} → ((x : A) → P x) → (xs : List A) → All P xs
  All-of h [] = tt
  All-of h (x ∷ xs) = (h x, All-of h xs)

  pub All-append : (P : A → Type 0) (xs ys : List A) → All P xs → All P ys → All P (xs ++ ys)
  All-append P [] ys a b = b
  All-append P (x ∷ xs) ys a b = (a.0, All-append P xs ys a.1 b)

  pub All-update :
      {P Q : A → Type 0} (p : A → Bool) (f : A → A)
      → ((x : A) → P x → p x ≡ true → Q (f x))
      → ((x : A) → P x → p x ≡ false → Q x)
      → (xs : List A) → All P xs
      → All Q (update_where p f xs)
  unfolding update_where
  All-update p f hit miss [] a = tt
  All-update p f hit miss (x ∷ xs) a = elim (Bool-cases (p x)) [
    | inl e ↦ rw e (hit x a.0 e, All-update p f hit miss xs a.1)
    | inr e ↦ rw e (miss x a.0 e, All-update p f hit miss xs a.1)
  ]

  -- A selected row satisfies the condition, and what every row satisfies.
  pub All-select :
      (P : A → Type 0) (q : A → Bool) (xs : List A)
      → All P xs
      → All (λ x. P x × (q x ≡ true)) (select_where q xs)
  unfolding select_where
  All-select P q [] a = tt
  All-select P q (x ∷ xs) a = elim (Bool-cases (q x)) [
    | inl e ↦ rw e ((a.0, e), All-select P q xs a.1)
    | inr e ↦ rw e (All-select P q xs a.1)
  ]

  pub All-insert :
      (P : A → Type 0) (le : A → A → Bool) (x : A) (xs : List A)
      → P x
      → All P xs
      → All P (insert_by le x xs)
  unfolding insert_by
  All-insert P le x [] h a = (h, tt)
  All-insert P le x (y ∷ ys) h a = elim (Bool-cases (le x y)) [
    | inl e ↦ rw e (h, a)
    | inr e ↦ rw e (a.0, All-insert P le x ys h a.1)
  ]

  pub All-sort :
      (P : A → Type 0) (le : A → A → Bool) (xs : List A) → All P xs → All P (sort_by le xs)
  unfolding sort_by
  All-sort P le [] a = tt
  All-sort P le (x ∷ xs) a = All-insert P le x (sort_by le xs) a.0 (All-sort P le xs a.1)

  pub All-take : (P : A → Type 0) (n : ℕ) (xs : List A) → All P xs → All P (take n xs)
  All-take P zero xs a = tt
  All-take P (suc n) [] a = tt
  All-take P (suc n) (x ∷ xs) a = (a.0, All-take P n xs a.1)

  pub length-take_le : (n : ℕ) (xs : List A) → length (take n xs) ≤ n
  length-take_le zero xs = omega arith
  length-take_le (suc n) [] = omega arith
  length-take_le (suc n) (x ∷ xs) = omega (arith, length-take_le n xs)

  -- The row that `fetchone()` gives satisfies the condition.
  pub find-holds : (q : A → Bool) (xs : List A) (r : A) → find_where q xs ≡ some r → q r ≡ true
  unfolding find_where
  find-holds q [] r e = cc
  find-holds q (x ∷ xs) r e = elim (Bool-cases (q x)) [
    | inl h ↦ ground (arith, h)
    | inr h ↦ find-holds q xs r (ground (arith, h))
  ]

  pub find-All :
      (P : A → Type 0) (q : A → Bool) (xs : List A) (r : A)
      → All P xs
      → find_where q xs ≡ some r
      → P r
  unfolding find_where
  find-All P q [] r a e = absurd (cc)
  find-All P q (x ∷ xs) r a e = elim (Bool-cases (q x)) [
    | inl h ↦ subst P (ground (arith, h)) a.0
    | inr h ↦ find-All P q xs r a.1 (ground (arith, h))
  ]

All-uninsert :
    {A : Type 0} (P : A → Type 0) (le : A → A → Bool) (x : A) (xs : List A)
    → All P (insert_by le x xs)
    → P x × All P xs
unfolding insert_by
All-uninsert P le x [] a = (a.0, tt)
All-uninsert P le x (y ∷ ys) a = elim (Bool-cases (le x y)) [
  | inl e ↦ let a' = rw (e, insert_by) at a in (a'.0, a'.1)
  | inr e ↦
      let a' = rw (e, insert_by) at a in let (p, q) = All-uninsert P le x ys a'.1 in (p, (a'.0, q))
]

pub All-unsort :
    {A : Type 0} (P : A → Type 0) (le : A → A → Bool) (xs : List A)
    → All P (sort_by le xs)
    → All P xs
unfolding sort_by
All-unsort P le [] a = tt
All-unsort P le (x ∷ xs) a =
    let (p, q) = All-uninsert P le x (sort_by le xs) a in (p, All-unsort P le xs q)

pub All-picked :
    {A : Type 0} (P : A → Type 0) (q : A → Bool) (xs : List A)
    → All (λ x. q x ≡ true → P x) xs
    → All P (select_where q xs)
unfolding select_where
All-picked P q [] a = tt
All-picked P q (x ∷ xs) a = elim (Bool-cases (q x)) [
  | inl e ↦ rw e (a.0 e, All-picked P q xs a.1)
  | inr e ↦ rw e (All-picked P q xs a.1)
]

-- A row of a list.
abbrev pub Listed : {A : Type 0} → A → List A → Type 0
Listed x [] = ⊥
Listed x (y ∷ ys) = (x ≡ y) ⊎ Listed x ys

pub Listed-All : {A : Type 0} (ys : List A) → All (λ x. Listed x ys) ys
Listed-All [] = tt
Listed-All (y ∷ ys) = (inl refl, All-map (λ x l. inr l) ys (Listed-All ys))

pub find-Listed :
    {A : Type 0} (q : A → Bool) (xs : List A) (r : A) → find_where q xs ≡ some r → Listed r xs
find-Listed q xs r e = find-All (λ x. Listed x xs) q xs r (Listed-All xs) e

-- What the selected rows satisfy.
pub All-unpick :
    {A : Type 0} (P : A → Type 0) (q : A → Bool) (xs : List A)
    → All P (select_where q xs)
    → All (λ x. q x ≡ true → P x) xs
unfolding select_where
All-unpick P q [] a = tt
All-unpick P q (x ∷ xs) a = elim (Bool-cases (q x)) [
  | inl e ↦ let a' = rw (e, select_where) at a in ((λ _. a'.0), All-unpick P q xs a'.1)
  | inr e ↦ ((λ h. absurd (ground (arith, h, e))), All-unpick P q xs (rw (e, select_where) at a))
]

pub has-select :
    {A : Type 0} (q : A → Bool) (xs : List A) → (select_where q xs ≡ []) ⊎ (has_where q xs ≡ true)
unfolding select_where has_where
has-select q [] = inl refl
has-select q (x ∷ xs) = elim (Bool-cases (q x)) [
  | inl e ↦ inr (rw e)
  | inr e ↦ rw e (has-select q xs)
]
