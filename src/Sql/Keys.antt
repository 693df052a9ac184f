-- ===== src/Sql/Keys.antt =====
-- A table with a text as its primary key.
use mathlib.Core.Path.{subst}
use host_forge.Base.{
  String, ◌≤◌, ◌≡◌, refl, ap, sym, ◌∙◌, inl, inr, Bool, true, false, some, List, [], ◌∷◌, ◌++◌,
  arith, ◌==◌, if◌then◌else◌, eq_iff, eq_refl, exists_where, Bool-cases, ◌⊎◌,
}
use host_forge.Sql.{update_where, count_where, find_where, delete_where}
use host_forge.Sql.Laws.{Member, exists_where-append, not_Member_of_none}

module _ {A : Type 0} where
  pub exists_where-delete_where :
      (p q : A → Bool) (xs : List A)
      → exists_where p xs ≡ false
      → exists_where p (delete_where q xs) ≡ false
  unfolding delete_where
  exists_where-delete_where p q [] h = refl
  exists_where-delete_where p q (x ∷ xs) h = ground (arith, exists_where-delete_where p q xs)

  pub Member-delete_where :
      (p : A → Bool) (a : A) (xs : List A)
      → p a ≡ false
      → Member a xs
      → Member a (delete_where p xs)
  unfolding delete_where
  Member-delete_where p a [] h m = absurd m
  Member-delete_where p a (x ∷ xs) h (inl e) = rw (sym (ap p e) ∙ h) (inl e)
  Member-delete_where p a (x ∷ xs) h (inr m) = elim (Bool-cases (p x)) [
    | inl e ↦ rw e (Member-delete_where p a xs h m)
    | inr e ↦ rw e (inr (Member-delete_where p a xs h m))
  ]

  pub Member-of_delete_where :
      (p : A → Bool) (a : A) (xs : List A)
      → Member a (delete_where p xs)
      → (p a ≡ false) × Member a xs
  unfolding delete_where
  Member-of_delete_where p a [] m = absurd m
  Member-of_delete_where p a (x ∷ xs) m = elim (Bool-cases (p x)) [
    | inl e ↦ let (h, n) = Member-of_delete_where p a xs (rw e at m) in (h, inr n)
    | inr e ↦ kept e (Member-of_delete_where p a xs) (rw e at m)
  ]
    where
      kept :
          p x ≡ false
          → (Member a (delete_where p xs) → (p a ≡ false) × Member a xs)
          → (a ≡ x) ⊎ Member a (delete_where p xs)
          → (p a ≡ false) × Member a (x ∷ xs)
      kept e rest (inl q) = (ap p q ∙ e, inl q)
      kept e rest (inr n) = let (h, n') = rest n in (h, inr n')

module _ {A : Type 0} (key : A → String) where
  abbrev pub has_key : String → A → Bool
  has_key k a = key a == k

  -- PRIMARY KEY
  abbrev pub DistinctBy : List A → Type 0
  DistinctBy [] = Unit {0}
  DistinctBy (x ∷ xs) = (exists_where (has_key (key x)) xs ≡ false) × DistinctBy xs

  pub count_where-DistinctBy :
      (p : A → Bool) (k : String) (xs : List A)
      → ((x : A) → p x ≡ true → key x ≡ k)
      → DistinctBy xs
      → count_where p xs ≤ 1
  count_where-DistinctBy p k [] h d = omega arith
  count_where-DistinctBy p k (x ∷ xs) h d = elim (Bool-cases (p x)) [
    | inl e ↦ rw (e, others (h x e) xs d.0) (omega arith)
    | inr e ↦ rw e (count_where-DistinctBy p k xs h d.1)
  ]
    where
      others :
          key x ≡ k
          → (ys : List A) → exists_where (has_key (key x)) ys ≡ false
          → count_where p ys ≡ 0
      others e [] g = refl
      others e (y ∷ ys) g = ground (arith, h y, others e ys, eq_iff (key y) (key x), e)

  pub DistinctBy-update_where :
      (p : A → Bool) (f : A → A) (xs : List A)
      → ((x : A) → key (f x) ≡ key x)
      → DistinctBy xs
      → DistinctBy (update_where p f xs)
  DistinctBy-update_where p f [] h d = tt
  DistinctBy-update_where p f (x ∷ xs) h d = (
    subst (λ k. exists_where (has_key k) (update_where p f xs) ≡ false) (sym same)
        (absent (key x) xs d.0),
    DistinctBy-update_where p f xs h d.1,
  )
    where
      same : key (if p x then f x else x) ≡ key x
      same = ground (arith, h x)

      absent :
          (k : String) (ys : List A)
          → exists_where (has_key k) ys ≡ false
          → exists_where (has_key k) (update_where p f ys) ≡ false
      absent k [] g = refl
      absent k (y ∷ ys) g = ground (arith, h y, absent k ys)

  pub DistinctBy-delete_where :
      (p : A → Bool) (xs : List A) → DistinctBy xs → DistinctBy (delete_where p xs)
  unfolding delete_where
  DistinctBy-delete_where p [] d = tt
  DistinctBy-delete_where p (x ∷ xs) d = elim (Bool-cases (p x)) [
    | inl e ↦ rw e (DistinctBy-delete_where p xs d.1)
    | inr e ↦
        rw e
          (exists_where-delete_where (has_key (key x)) p xs d.0, DistinctBy-delete_where p xs d.1)
  ]

  -- INSERT of a row whose key is not taken.
  pub DistinctBy-append :
      (a : A) (xs : List A)
      → exists_where (has_key (key a)) xs ≡ false
      → DistinctBy xs
      → DistinctBy (xs ++ (a ∷ []))
  DistinctBy-append a [] h d = (refl, tt)
  DistinctBy-append a (x ∷ xs) h d = (
    exists_where-append (has_key (key x)) xs (a ∷ [])
        ∙ ground (arith, eq_iff (key x) (key a), eq_iff (key a) (key x), d.0),
    DistinctBy-append a xs (ground arith) d.1,
  )

  -- The key finds its row.
  pub find_where-DistinctBy :
      (a : A) (xs : List A) → DistinctBy xs → Member a xs → find_where (has_key (key a)) xs ≡ some a
  find_where-DistinctBy a [] d m = absurd m
  find_where-DistinctBy a (x ∷ xs) d (inl e) =
      subst (λ y. (if key y == key a then some y else find_where (has_key (key a)) xs) ≡ some a) e
        (rw (eq_refl (key a)) refl)
  find_where-DistinctBy a (x ∷ xs) d (inr m) =
      let other = not_Member_of_none (has_key (key x)) a xs d.0 m in
      ground
        (arith, eq_iff (key x) (key a), eq_iff (key a) (key x), find_where-DistinctBy a xs d.1 m)

  -- A key names one row.
  pub DistinctBy-same :
      (a b : A) (xs : List A) → DistinctBy xs → Member a xs → Member b xs → key a ≡ key b → b ≡ a
  DistinctBy-same a b xs d ma mb e =
      let fa = find_where-DistinctBy a xs d ma in
      let fb = find_where-DistinctBy b xs d mb in
      some-eq (sym fb ∙ (ap (λ k. find_where (has_key k) xs) (sym e) ∙ fa))
    where
      some-eq : some b ≡ some a → b ≡ a
      some-eq q = cc
