-- ===== src/Table/Follows.antt =====
-- A table after some statements, row by row against the table before.
use eastwatch.Prelude.{
  ◌≤◌, some, subst, arith, String, refl, ◌∙◌, Bool, true, ◌≡◌, List, [], ◌∷◌, ◌++◌, inl, inr,
  Bool-cases,
}
use eastwatch.Table.{update_where, find_where, count_where}
use eastwatch.Table.Every.{All}
use eastwatch.Table.Keys.{has_key, Unique}

module _ {A : Type 0} (R : A → A → Type 0) where
  -- Each row of the first table stands at the same place of the second, related by R; rows may
  -- have been inserted behind them.
  abbrev pub Follows : List A → List A → Type 0
  Follows [] ys = Unit
  Follows (x ∷ xs) [] = ⊥
  Follows (x ∷ xs) (y ∷ ys) = R x y × Follows xs ys

  pub Follows-refl : ((x : A) → R x x) → (xs : List A) → Follows xs xs
  Follows-refl r [] = tt
  Follows-refl r (x ∷ xs) = (r x, Follows-refl r xs)

  pub Follows-trans :
      ((x y z : A) → R x y → R y z → R x z)
      → (xs ys zs : List A) → Follows xs ys
      → Follows ys zs
      → Follows xs zs
  Follows-trans t [] ys zs h k = tt
  Follows-trans t (x ∷ xs) [] zs h k = absurd h
  Follows-trans t (x ∷ xs) (y ∷ ys) [] h k = absurd k
  Follows-trans t (x ∷ xs) (y ∷ ys) (z ∷ zs) h k =
      (t x y z h.0 k.0, Follows-trans t xs ys zs h.1 k.1)

  pub Follows-append : ((x : A) → R x x) → (xs ys : List A) → Follows xs (xs ++ ys)
  Follows-append r [] ys = tt
  Follows-append r (x ∷ xs) ys = (r x, Follows-append r xs ys)

  -- Row by row, and nothing inserted.
  abbrev pub Match : List A → List A → Type 0
  Match [] [] = Unit
  Match [] (y ∷ ys) = ⊥
  Match (x ∷ xs) [] = ⊥
  Match (x ∷ xs) (y ∷ ys) = R x y × Match xs ys

  pub Match-Follows : (xs ys : List A) → Match xs ys → Follows xs ys
  Match-Follows [] ys h = tt
  Match-Follows (x ∷ xs) [] h = h
  Match-Follows (x ∷ xs) (y ∷ ys) h = (h.0, Match-Follows xs ys h.1)

  pub Match-refl : ((x : A) → R x x) → (xs : List A) → Match xs xs
  Match-refl r [] = tt
  Match-refl r (x ∷ xs) = (r x, Match-refl r xs)

  pub Match-trans :
      ((x y z : A) → R x y → R y z → R x z)
      → (xs ys zs : List A) → Match xs ys
      → Match ys zs
      → Match xs zs
  Match-trans t [] [] zs h k = k
  Match-trans t [] (y ∷ ys) zs h k = absurd h
  Match-trans t (x ∷ xs) [] zs h k = absurd h
  Match-trans t (x ∷ xs) (y ∷ ys) [] h k = absurd k
  Match-trans t (x ∷ xs) (y ∷ ys) (z ∷ zs) h k = (t x y z h.0 k.0, Match-trans t xs ys zs h.1 k.1)

  -- After an UPDATE that takes each row it changes along R.
  pub Match-update :
      ((x : A) → R x x)
      → (p : A → Bool) (f : A → A) (xs : List A) → All (λ x. p x ≡ true → R x (f x)) xs
      → Match xs (update_where p f xs)
  unfolding update_where
  Match-update r p f [] h = tt
  Match-update r p f (x ∷ xs) h = elim (Bool-cases (p x)) [
    | inl e ↦ rw e (h.0 e, Match-update r p f xs h.1)
    | inr e ↦ rw e (r x, Match-update r p f xs h.1)
  ]

  -- A matched table has the keys of the first.
  module _ (key : A → String) (keeps : (x y : A) → R x y → key y ≡ key x) where
    Match-has_key :
        (k : String) (xs ys : List A) → Match xs ys → has_key key k ys ≡ has_key key k xs
    Match-has_key k [] [] h = refl
    Match-has_key k [] (y ∷ ys) h = absurd h
    Match-has_key k (x ∷ xs) [] h = absurd h
    Match-has_key k (x ∷ xs) (y ∷ ys) h = rw (keeps x y h.0) (rw (Match-has_key k xs ys h.1))

    pub Match-Unique : (xs ys : List A) → Match xs ys → Unique key xs → Unique key ys
    Match-Unique [] [] h u = tt
    Match-Unique [] (y ∷ ys) h u = absurd h
    Match-Unique (x ∷ xs) [] h u = absurd h
    Match-Unique (x ∷ xs) (y ∷ ys) h u =
        (rw (keeps x y h.0) (Match-has_key (key x) xs ys h.1 ∙ u.0), Match-Unique xs ys h.1 u.1)

  -- The row that a SELECT by key gives, if it gave one before, is a successor of that row.
  module _ (p : A → Bool) (keeps : (x y : A) → R x y → p y ≡ p x) where
    pub Follows-find :
        (xs ys : List A) (x : A)
        → Follows xs ys
        → find_where p xs ≡ some x
        → (y : A) × (find_where p ys ≡ some y) × R x y
    unfolding find_where
    Follows-find [] ys x h e = absurd (cc)
    Follows-find (a ∷ xs) [] x h e = absurd h
    Follows-find (a ∷ xs) (b ∷ ys) x h e = elim (Bool-cases (p a)) [
      | inl hit ↦ (b, ground (arith, keeps a b h.0), subst (λ z. R z b) (ground (arith, hit)) h.0)
      | inr miss ↦
          let (y, found, r) = Follows-find xs ys x h.1 (ground (arith, miss)) in
          (y, ground (arith, keeps a b h.0), r)
    ]

module _ {A : Type 0} (R S : A → A → Type 0) where
  pub Match-map : ((x y : A) → R x y → S x y) → (xs ys : List A) → Match R xs ys → Match S xs ys
  Match-map f [] [] h = tt
  Match-map f [] (y ∷ ys) h = h
  Match-map f (x ∷ xs) [] h = h
  Match-map f (x ∷ xs) (y ∷ ys) h = (f x y h.0, Match-map f xs ys h.1)

-- A condition that R carries backwards holds of no more rows than before.
module _ {A : Type 0} (R : A → A → Type 0) (q : A → Bool) where
  pub Match-count :
      ((x y : A) → R x y → q y ≡ true → q x ≡ true)
      → (xs ys : List A) → Match R xs ys
      → count_where q ys ≤ count_where q xs
  unfolding count_where
  Match-count back [] [] h = omega arith
  Match-count back [] (y ∷ ys) h = absurd h
  Match-count back (x ∷ xs) [] h = absurd h
  Match-count back (x ∷ xs) (y ∷ ys) h = ground (arith, back x y h.0, Match-count back xs ys h.1)

module _ {A : Type 0} (R S T : A → A → Type 0) where
  pub Match-then :
      ((x y z : A) → R x y → S y z → T x z)
      → (xs ys zs : List A) → Match R xs ys
      → Match S ys zs
      → Match T xs zs
  Match-then t [] [] [] h k = tt
  Match-then t [] [] (z ∷ zs) h k = absurd k
  Match-then t [] (y ∷ ys) zs h k = absurd h
  Match-then t (x ∷ xs) [] zs h k = absurd h
  Match-then t (x ∷ xs) (y ∷ ys) [] h k = absurd k
  Match-then t (x ∷ xs) (y ∷ ys) (z ∷ zs) h k = (t x y z h.0 k.0, Match-then t xs ys zs h.1 k.1)
