-- ===== src/Table/Keys.antt =====
-- Primary keys: no two rows of a table have one key. An UPDATE of a row that was selected by its
-- key is an UPDATE of that row alone.
use eastwatch.Prelude.{
  Bool, true, false, ◌≡◌, refl, sym, ap, List, [], ◌∷◌, ◌++◌, some, String, str_eq, eq_iff, arith,
  inl, inr, Bool-cases, if◌then◌else◌, ◌≤◌, ◌∙◌,
}
use eastwatch.Table.{update_where, find_where, count_where}
use eastwatch.Table.Every.{All, All-map, All-map₂}

pub str_eq_refl : (s : String) → str_eq s s ≡ true
str_eq_refl s = (eq_iff s s).1 refl

module _ {A : Type 0} (key : A → String) where
  abbrev pub has_key : String → List A → Bool
  has_key k [] = false
  has_key k (x ∷ xs) = if str_eq (key x) k then true else has_key k xs

  abbrev pub Unique : List A → Type 0
  Unique [] = Unit
  Unique (x ∷ xs) = (has_key (key x) xs ≡ false) × Unique xs

  pub has_key-update :
      (p : A → Bool) (f : A → A)
      → ((x : A) → key (f x) ≡ key x)
      → (k : String) (xs : List A) → has_key k (update_where p f xs) ≡ has_key k xs
  unfolding update_where
  has_key-update p f same k [] = refl
  has_key-update p f same k (x ∷ xs) = elim (Bool-cases (p x)) [
    | inl e ↦ rw e (rw (same x) (rw (has_key-update p f same k xs)))
    | inr e ↦ rw e (rw (has_key-update p f same k xs))
  ]

  pub Unique-update :
      (p : A → Bool) (f : A → A)
      → ((x : A) → key (f x) ≡ key x)
      → (xs : List A) → Unique xs
      → Unique (update_where p f xs)
  unfolding update_where
  Unique-update p f same [] u = tt
  Unique-update p f same (x ∷ xs) u = elim (Bool-cases (p x)) [
    | inl e ↦
        rw e (rw (same x) (has_key-update p f same (key x) xs ∙ u.0), Unique-update p f same xs u.1)
    | inr e ↦ rw e (has_key-update p f same (key x) xs ∙ u.0, Unique-update p f same xs u.1)
  ]

  pub has_key-append :
      (k : String) (xs : List A) (y : A)
      → has_key k xs ≡ false
      → str_eq (key y) k ≡ false
      → has_key k (xs ++ y ∷ []) ≡ false
  has_key-append k [] y h e = rw e
  has_key-append k (x ∷ xs) y h e = elim (Bool-cases (str_eq (key x) k)) [
    | inl hit ↦ absurd (cc)
    | inr miss ↦ rw miss (has_key-append k xs y (ground arith) e)
  ]

  pub Unique-append :
      (xs : List A) (y : A) → has_key (key y) xs ≡ false → Unique xs → Unique (xs ++ y ∷ [])
  Unique-append [] y h u = (refl, tt)
  Unique-append (x ∷ xs) y h u = (
    has_key-append (key x) xs y u.0
        (ground (arith, eq_iff (key x) (key y), eq_iff (key y) (key x))),
    Unique-append xs y (ground arith) u.1,
  )

  pub has_key-find :
      (q : A → Bool) (xs : List A) (r : A) → find_where q xs ≡ some r → has_key (key r) xs ≡ true
  unfolding find_where
  has_key-find q [] r e = cc
  has_key-find q (x ∷ xs) r e = elim (Bool-cases (q x)) [
    | inl h ↦ ground (arith, h, eq_iff (key x) (key r))
    | inr h ↦ ground (arith, h, has_key-find q xs r)
  ]

  pub not_key :
      (k : String) (xs : List A) → has_key k xs ≡ false → All (λ x. str_eq (key x) k ≡ false) xs
  not_key k [] h = tt
  not_key k (x ∷ xs) h = elim (Bool-cases (str_eq (key x) k)) [
    | inl e ↦ absurd (ground arith)
    | inr e ↦ (e, not_key k xs (ground arith))
  ]

  -- A row with the key of the selected row is the selected row.
  pub Unique-find :
      (q : A → Bool) (xs : List A) (r : A)
      → Unique xs
      → find_where q xs ≡ some r
      → All (λ x. str_eq (key x) (key r) ≡ true → x ≡ r) xs
  unfolding find_where
  Unique-find q [] r u e = tt
  Unique-find q (x ∷ xs) r u e = elim (Bool-cases (q x)) [
    | inl h ↦
        let same : x ≡ r = ground (arith, h) in
        (
          λ _. same,
          All-map (λ y n y_is. absurd (ground (arith, ap key same))) xs (not_key (key x) xs u.0),
        )
    | inr h ↦
        let later : find_where q xs ≡ some r = ground (arith, h) in
        (
          λ x_is. absurd (ground (arith, eq_iff (key x) (key r), has_key-find q xs r later)),
          Unique-find q xs r u.1 later,
        )
  ]

  -- At most one row has a condition that fixes the key.
  pub count-not_key :
      (p : A → Bool) (k : String)
      → ((x : A) → p x ≡ true → str_eq (key x) k ≡ true)
      → (xs : List A) → has_key k xs ≡ false
      → count_where p xs ≡ 0
  unfolding count_where
  count-not_key p k fix [] h = refl
  count-not_key p k fix (x ∷ xs) h = ground (arith, fix x, count-not_key p k fix xs)

  pub count-Unique :
      (p : A → Bool) (k : String)
      → ((x : A) → p x ≡ true → str_eq (key x) k ≡ true)
      → (xs : List A) → Unique xs
      → count_where p xs ≤ 1
  unfolding count_where
  count-Unique p k fix [] u = omega arith
  count-Unique p k fix (x ∷ xs) u = elim (Bool-cases (p x)) [
    | inl h ↦ ground (
      arith,
      h,
      fix x h,
      eq_iff (key x) k,
      count-not_key p (key x)
          (λ (y : A) (py : p y ≡ true).
            ground (arith, fix y py, fix x h, eq_iff (key x) k, eq_iff (key y) k, str_eq_refl k))
          xs u.0,
    )
    | inr h ↦ ground (arith, h, count-Unique p k fix xs u.1)
  ]

  -- So it is where the key is given by the condition of the SELECT.
  pub Unique-find_key :
      (q : A → Bool) (k : String) (xs : List A) (r : A)
      → Unique xs
      → find_where q xs ≡ some r
      → str_eq (key r) k ≡ true
      → All (λ x. str_eq (key x) k ≡ true → x ≡ r) xs
  Unique-find_key q k xs r u e r_is =
      All-map
        (λ x same x_is.
          same (
            rw ((eq_iff (key x) k).0 x_is ∙ sym ((eq_iff (key r) k).0 r_is)) (str_eq_refl (key r))))
        xs (Unique-find q xs r u e)

  differ : (j k : String) → str_eq j k ≡ false → str_eq k j ≡ true → ⊥
  differ j k n e = ground (arith, eq_iff j k, eq_iff k j)

  -- Every row is the only one with its key.
  pub Unique-alone :
      (xs : List A) → Unique xs → All (λ r. All (λ x. str_eq (key x) (key r) ≡ true → x ≡ r) xs) xs
  Unique-alone [] u = tt
  Unique-alone (x ∷ xs) u = (
    (λ _. refl, All-map (λ y n y_is. absurd (cc)) xs (not_key (key x) xs u.0)),
    All-map₂ (λ r n alone. (λ x_is. absurd (differ (key r) (key x) n x_is), alone)) xs
        (not_key (key x) xs u.0) (Unique-alone xs u.1),
  )

module _ {A : Type 0} (p q : A → Bool) where
  -- A row found by a stronger condition is the row of a weaker one that only it satisfies.
  pub find-weaker :
      ((x : A) → q x ≡ true → p x ≡ true)
      → (xs : List A) (r : A) → find_where q xs ≡ some r
      → All (λ x. p x ≡ true → x ≡ r) xs
      → find_where p xs ≡ some r
  unfolding find_where
  find-weaker weaker [] r e alone = absurd (cc)
  find-weaker weaker (x ∷ xs) r e alone = elim (Bool-cases (p x)) [
    | inl hit ↦ rw hit (ap some (alone.0 hit))
    | inr miss ↦ rw miss (find-weaker weaker xs r (ground (arith, e, miss, weaker x)) alone.1)
  ]
