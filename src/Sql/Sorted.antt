-- ===== src/Sql/Sorted.antt =====
-- ORDER BY and LIMIT: what they do to the rows of a table.
use host_forge.Base.{
  ℕ, zero, suc, ◌≤◌, ◌≡◌, refl, ◌⊎◌, inl, inr, Bool, false, ◌||◌, List, [], ◌∷◌, arith, ◌∙◌, length,
  take, eq_iff, exists_where, Bool-cases, String, true, if◌then◌else◌,
}
use host_forge.Sql.{insert_row, order_by, filter_rows}
use host_forge.Sql.Laws.{Member}
use host_forge.Sql.Keys.{DistinctBy, has_key}

module _ {A : Type 0} (before : A → A → Bool) where
  insert_row-Member :
      (a x : A) (xs : List A) → (a ≡ x) ⊎ Member a xs → Member a (insert_row before x xs)
  unfolding insert_row
  insert_row-Member a x [] m = m
  insert_row-Member a x (y ∷ ys) m = elim (Bool-cases (before y x)) [
    | inl e ↦ rw e (behind (insert_row-Member a x ys) m)
    | inr e ↦ rw e m
  ]
    where
      behind :
          ((a ≡ x) ⊎ Member a ys → Member a (insert_row before x ys))
          → (a ≡ x) ⊎ Member a (y ∷ ys)
          → (a ≡ y) ⊎ Member a (insert_row before x ys)
      behind rest (inl q) = inr (rest (inl q))
      behind rest (inr (inl q)) = inl q
      behind rest (inr (inr n)) = inr (rest (inr n))

  Member-insert_row :
      (a x : A) (xs : List A) → Member a (insert_row before x xs) → (a ≡ x) ⊎ Member a xs
  unfolding insert_row
  Member-insert_row a x [] m = m
  Member-insert_row a x (y ∷ ys) m = elim (Bool-cases (before y x)) [
    | inl e ↦ front (Member-insert_row a x ys) (rw e at m)
    | inr e ↦ rw e at m
  ]
    where
      front :
          (Member a (insert_row before x ys) → (a ≡ x) ⊎ Member a ys)
          → (a ≡ y) ⊎ Member a (insert_row before x ys)
          → (a ≡ x) ⊎ Member a (y ∷ ys)
      front rest (inl q) = inr (inl q)
      front rest (inr n) = elim (rest n) [ inl q ↦ inl q | inr k ↦ inr (inr k) ]

  pub order_by-Member : (a : A) (xs : List A) → Member a xs → Member a (order_by before xs)
  unfolding order_by
  order_by-Member a [] m = absurd m
  order_by-Member a (x ∷ xs) (inl e) = insert_row-Member a x (order_by before xs) (inl e)
  order_by-Member a (x ∷ xs) (inr m) =
      insert_row-Member a x (order_by before xs) (inr (order_by-Member a xs m))

  pub Member-order_by : (a : A) (xs : List A) → Member a (order_by before xs) → Member a xs
  unfolding order_by
  Member-order_by a [] m = absurd m
  Member-order_by a (x ∷ xs) m = elim (Member-insert_row a x (order_by before xs) m) [
    | inl e ↦ inl e
    | inr n ↦ inr (Member-order_by a xs n)
  ]

  insert_row-exists :
      (p : A → Bool) (x : A) (xs : List A)
      → exists_where p (insert_row before x xs) ≡ (p x || exists_where p xs)
  unfolding insert_row
  insert_row-exists p x [] = refl
  insert_row-exists p x (y ∷ ys) = ground (arith, insert_row-exists p x ys)

  pub order_by-exists :
      (p : A → Bool) (xs : List A) → exists_where p (order_by before xs) ≡ exists_where p xs
  unfolding order_by
  order_by-exists p [] = refl
  order_by-exists p (x ∷ xs) =
      ground (arith, insert_row-exists p x (order_by before xs), order_by-exists p xs)

  insert_row-length : (x : A) (xs : List A) → length (insert_row before x xs) ≡ suc (length xs)
  unfolding insert_row
  insert_row-length x [] = refl
  insert_row-length x (y ∷ ys) = ground (arith, insert_row-length x ys)

  pub length-order_by : (xs : List A) → length (order_by before xs) ≡ length xs
  unfolding order_by
  length-order_by [] = refl
  length-order_by (x ∷ xs) =
      ground (arith, insert_row-length x (order_by before xs), length-order_by xs)

module _ {A : Type 0} where
  pub Member-take : (n : ℕ) (a : A) (xs : List A) → Member a (take n xs) → Member a xs
  Member-take zero a xs m = absurd m
  Member-take (suc n) a [] m = m
  Member-take (suc n) a (x ∷ xs) (inl e) = inl e
  Member-take (suc n) a (x ∷ xs) (inr m) = inr (Member-take n a xs m)

  pub take_all : (n : ℕ) (xs : List A) → length xs ≤ n → take n xs ≡ xs
  take_all zero [] h = refl
  take_all zero (x ∷ xs) h = absurd (omega arith)
  take_all (suc n) [] h = refl
  take_all (suc n) (x ∷ xs) h = rw (take_all n xs (omega arith)) refl

  exists_where-take :
      (p : A → Bool) (n : ℕ) (xs : List A)
      → exists_where p xs ≡ false
      → exists_where p (take n xs) ≡ false
  exists_where-take p zero xs h = refl
  exists_where-take p (suc n) [] h = refl
  exists_where-take p (suc n) (x ∷ xs) h = ground (arith, exists_where-take p n xs)

  exists_where-filter_rows :
      (p q : A → Bool) (xs : List A)
      → exists_where p xs ≡ false
      → exists_where p (filter_rows q xs) ≡ false
  exists_where-filter_rows p q [] h = refl
  exists_where-filter_rows p q (x ∷ xs) h = ground (arith, exists_where-filter_rows p q xs)

  pub DistinctBy-take :
      (key : A → String) (n : ℕ) (xs : List A) → DistinctBy key xs → DistinctBy key (take n xs)
  DistinctBy-take key zero xs d = tt
  DistinctBy-take key (suc n) [] d = tt
  DistinctBy-take key (suc n) (x ∷ xs) d =
      (exists_where-take (has_key key (key x)) n xs d.0, DistinctBy-take key n xs d.1)

  pub DistinctBy-filter_rows :
      (key : A → String) (q : A → Bool) (xs : List A)
      → DistinctBy key xs
      → DistinctBy key (filter_rows q xs)
  DistinctBy-filter_rows key q [] d = tt
  DistinctBy-filter_rows key q (x ∷ xs) d = elim (Bool-cases (q x)) [
    | inl e ↦ rw e (
      exists_where-filter_rows (has_key key (key x)) q xs d.0,
      DistinctBy-filter_rows key q xs d.1,
    )
    | inr e ↦ rw e (DistinctBy-filter_rows key q xs d.1)
  ]

  DistinctBy-insert_row :
      (key : A → String) (before : A → A → Bool) (x : A) (xs : List A)
      → exists_where (has_key key (key x)) xs ≡ false
      → DistinctBy key xs
      → DistinctBy key (insert_row before x xs)
  unfolding insert_row
  DistinctBy-insert_row key before x [] h d = (refl, tt)
  DistinctBy-insert_row key before x (y ∷ ys) h d = elim (Bool-cases (before y x)) [
    | inr e ↦ rw e (h, d)
    | inl e ↦ rw e (
      insert_row-exists before (has_key key (key y)) x ys
          ∙ ground (arith, eq_iff (key x) (key y), eq_iff (key y) (key x), d.0),
      DistinctBy-insert_row key before x ys (ground arith) d.1,
    )
  ]

  pub DistinctBy-order_by :
      (key : A → String) (before : A → A → Bool) (xs : List A)
      → DistinctBy key xs
      → DistinctBy key (order_by before xs)
  unfolding order_by
  DistinctBy-order_by key before [] d = tt
  DistinctBy-order_by key before (x ∷ xs) d =
      DistinctBy-insert_row key before x (order_by before xs)
        (order_by-exists before (has_key key (key x)) xs ∙ d.0)
        (DistinctBy-order_by key before xs d.1)

module _ {A : Type 0} (before : A → A → Bool) where
  -- No row comes before the one in front of it.
  abbrev pub IsInOrder : List A → Type 0
  IsInOrder [] = Unit {0}
  IsInOrder (x ∷ []) = Unit {0}
  IsInOrder (x ∷ y ∷ ys) = (before y x ≡ false) × IsInOrder (y ∷ ys)

  insert_row-IsInOrder :
      ((a b : A) → before a b ≡ true → before b a ≡ false)
      → (x : A) (xs : List A) → IsInOrder xs
      → IsInOrder (insert_row before x xs)
  unfolding insert_row
  insert_row-IsInOrder asym x [] h = tt
  insert_row-IsInOrder asym x (y ∷ []) h = elim (Bool-cases (before y x)) [
    | inl e ↦ rw e (asym y x e, tt)
    | inr e ↦ rw e (e, tt)
  ]
  insert_row-IsInOrder asym x (y ∷ z ∷ zs) h = elim (Bool-cases (before y x)) [
    | inr e ↦ rw e (e, h)
    | inl e ↦
        rw e
          (behind (asym y x e) (insert_row-IsInOrder asym x (z ∷ zs) h.1) (Bool-cases (before z x)))
  ]
    where
      behind :
          before x y ≡ false
          → IsInOrder (if before z x then z ∷ insert_row before x zs else x ∷ z ∷ zs)
          → (before z x ≡ true) ⊎ (before z x ≡ false)
          → IsInOrder (y ∷ (if before z x then z ∷ insert_row before x zs else x ∷ z ∷ zs))
      behind later rest (inl t) = let rest' = rw t at rest in rw t (h.0, rest')
      behind later rest (inr t) = let rest' = rw t at rest in rw t (later, rest')

  pub order_by-IsInOrder :
      ((a b : A) → before a b ≡ true → before b a ≡ false)
      → (xs : List A) → IsInOrder (order_by before xs)
  unfolding order_by
  order_by-IsInOrder asym [] = tt
  order_by-IsInOrder asym (x ∷ xs) =
      insert_row-IsInOrder asym x (order_by before xs) (order_by-IsInOrder asym xs)
