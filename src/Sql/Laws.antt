-- ===== src/Sql/Laws.antt =====
-- Laws of rows and tests on them, for any row type.
use host_forge.Base.{
  ◌≡◌, refl, sym, ap, ◌∙◌, ◌⊎◌, inl, inr, Bool, true, false, ◌||◌, none, some, List, [], ◌∷◌, ◌++◌,
  arith, All, exists_where, Bool-cases,
}
use mathlib.Core.Path.{subst}
use host_forge.Sql.{find_where, filter_rows}

module _ {A : Type 0} where
  abbrev pub Member : A → List A → Type 0
  Member a [] = ⊥
  Member a (x ∷ xs) = (a ≡ x) ⊎ Member a xs

  pub exists_where-append :
      (p : A → Bool) (xs ys : List A)
      → exists_where p (xs ++ ys) ≡ (exists_where p xs || exists_where p ys)
  exists_where-append p [] ys = refl
  exists_where-append p (x ∷ xs) ys = ground (arith, exists_where-append p xs ys)

  pub Member-exists_where :
      (p : A → Bool) (a : A) (xs : List A) → Member a xs → p a ≡ true → exists_where p xs ≡ true
  Member-exists_where p a [] m h = absurd m
  Member-exists_where p a (x ∷ xs) (inl e) h = ground (arith, ap p e)
  Member-exists_where p a (x ∷ xs) (inr m) h = ground (arith, Member-exists_where p a xs m h)

  pub filter_rows_sound :
      (p : A → Bool) (a : A) (xs : List A)
      → Member a (filter_rows p xs)
      → (p a ≡ true) × Member a xs
  filter_rows_sound p a [] m = absurd m
  filter_rows_sound p a (x ∷ xs) m = elim (Bool-cases (p x)) [
    | inl e ↦ kept e (filter_rows_sound p a xs) (rw e at m)
    | inr e ↦ let (h, n) = filter_rows_sound p a xs (rw e at m) in (h, inr n)
  ]
    where
      kept :
          p x ≡ true
          → (Member a (filter_rows p xs) → (p a ≡ true) × Member a xs)
          → (a ≡ x) ⊎ Member a (filter_rows p xs)
          → (p a ≡ true) × Member a (x ∷ xs)
      kept e rest (inl q) = (ap p q ∙ e, inl q)
      kept e rest (inr n) = let (h, n') = rest n in (h, inr n')

  pub filter_rows_complete :
      (p : A → Bool) (a : A) (xs : List A) → p a ≡ true → Member a xs → Member a (filter_rows p xs)
  filter_rows_complete p a [] h m = absurd m
  filter_rows_complete p a (x ∷ xs) h (inl q) = rw (sym (ap p q) ∙ h) (inl q)
  filter_rows_complete p a (x ∷ xs) h (inr m) = elim (Bool-cases (p x)) [
    | inl e ↦ rw e (inr (filter_rows_complete p a xs h m))
    | inr e ↦ rw e (filter_rows_complete p a xs h m)
  ]

  pub All-Member : (P : A → Type 0) (a : A) (xs : List A) → All P xs → Member a xs → P a
  All-Member P a [] h m = absurd m
  All-Member P a (x ∷ xs) h (inl e) = subst P (sym e) h.0
  All-Member P a (x ∷ xs) h (inr m) = All-Member P a xs h.1 m

  pub All-intro : {P : A → Type 0} (xs : List A) → ((a : A) → Member a xs → P a) → All P xs
  All-intro [] h = tt
  All-intro (x ∷ xs) h = (h x (inl refl), All-intro xs (λ a m. h a (inr m)))

  pub find_where_sound :
      (p : A → Bool) (a : A) (xs : List A) → find_where p xs ≡ some a → (p a ≡ true) × Member a xs
  find_where_sound p a [] h = cc
  find_where_sound p a (x ∷ xs) h = elim (Bool-cases (p x)) [
    | inl e ↦ let q : x ≡ a = ground arith in (subst (λ y. p y ≡ true) q e, inl (sym q))
    | inr e ↦ let (g, m) = find_where_sound p a xs (rw e at h) in (g, inr m)
  ]

  pub find_where-none :
      (p : A → Bool) (xs : List A) → find_where p xs ≡ none → exists_where p xs ≡ false
  find_where-none p [] h = refl
  find_where-none p (x ∷ xs) h = ground (arith, find_where-none p xs)

  -- The row that was appended under a fresh key is the one that the key finds.
  pub find_where-append_new :
      (p : A → Bool) (a : A) (xs : List A)
      → exists_where p xs ≡ false
      → p a ≡ true
      → find_where p (xs ++ (a ∷ [])) ≡ some a
  find_where-append_new p a [] h g = rw g
  find_where-append_new p a (x ∷ xs) h g = ground (arith, find_where-append_new p a xs)

  pub exists_where_mono :
      (p q : A → Bool) (xs : List A)
      → ((x : A) → p x ≡ true → q x ≡ true)
      → exists_where q xs ≡ false
      → exists_where p xs ≡ false
  exists_where_mono p q [] h e = refl
  exists_where_mono p q (x ∷ xs) h e = ground (arith, h x, exists_where_mono p q xs h)

  -- A row passes one test, and none passes another: so a row passes a third that they imply.
  pub exists_where_sharp :
      (p r q : A → Bool) (xs : List A)
      → ((x : A) → p x ≡ true → r x ≡ false → q x ≡ true)
      → exists_where r xs ≡ false
      → exists_where p xs ≡ true
      → exists_where q xs ≡ true
  exists_where_sharp p r q [] h e g = cc
  exists_where_sharp p r q (x ∷ xs) h e g = ground (arith, h x, exists_where_sharp p r q xs h)

  pub Member-append : (b : A) (xs ys : List A) → Member b (xs ++ ys) → Member b xs ⊎ Member b ys
  Member-append b [] ys m = inr m
  Member-append b (x ∷ xs) ys (inl e) = inl (inl e)
  Member-append b (x ∷ xs) ys (inr m) = elim (Member-append b xs ys m) [
    | inl n ↦ inl (inr n)
    | inr n ↦ inr n
  ]

  pub exists_where-Member :
      (p : A → Bool) (xs : List A) → exists_where p xs ≡ true → (a : A) × Member a xs × (p a ≡ true)
  exists_where-Member p [] h = cc
  exists_where-Member p (x ∷ xs) h = elim (Bool-cases (p x)) [
    | inl e ↦ (x, inl refl, e)
    | inr e ↦ let (a, m, g) = exists_where-Member p xs (rw e at h) in (a, inr m, g)
  ]

  pub not_Member_of_none :
      (p : A → Bool) (a : A) (xs : List A) → exists_where p xs ≡ false → Member a xs → p a ≡ false
  not_Member_of_none p a xs h m = elim (Bool-cases (p a)) [
    | inl e ↦ cc (h, Member-exists_where p a xs m e)
    | inr e ↦ e
  ]
