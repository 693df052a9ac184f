-- ===== src/Sql/Updates.antt =====
-- What an UPDATE and its count do to rows and tests.
use host_forge.Base.{
  ◌<◌, ◌≡◌, refl, ap, inl, inr, Bool, true, false, List, [], ◌∷◌, arith, if◌then◌else◌, All,
  exists_where, Bool-cases,
}
use host_forge.Sql.{update_where, count_where}
use host_forge.Sql.Laws.{Member}

module _ {A : Type 0} where
  -- Where no row matches, an UPDATE changes nothing.
  pub update_where_none :
      (p : A → Bool) (f : A → A) (xs : List A)
      → exists_where p xs ≡ false
      → update_where p f xs ≡ xs
  update_where_none p f [] h = refl
  update_where_none p f (x ∷ xs) h = ground (arith, update_where_none p f xs)

  pub count_where_none :
      (p : A → Bool) (xs : List A) → count_where p xs ≡ 0 → exists_where p xs ≡ false
  count_where_none p [] h = refl
  count_where_none p (x ∷ xs) h = ground (arith, count_where_none p xs)

  -- Two UPDATEs in a row, the first taking some rows out of the second's reach.
  pub update_where_twice :
      (p q : A → Bool) (f g : A → A) (xs : List A)
      → ((x : A) → p x ≡ true → (q x ≡ true) × (q (f x) ≡ false))
      → update_where q g (update_where p f xs) ≡ update_where q (λ x. if p x then f x else g x) xs
  update_where_twice p q f g [] h = refl
  update_where_twice p q f g (x ∷ xs) h = ground (arith, h x, update_where_twice p q f g xs h)

  pub count_where_zero :
      (p : A → Bool) (xs : List A) → exists_where p xs ≡ false → count_where p xs ≡ 0
  count_where_zero p [] h = refl
  count_where_zero p (x ∷ xs) h = ground (arith, count_where_zero p xs)

  -- An UPDATE that brings no row into a test's reach.
  pub exists_where-update_where_le :
      (p q : A → Bool) (f : A → A) (xs : List A)
      → ((x : A) → Member x xs → p x ≡ true → q (f x) ≡ true → q x ≡ true)
      → exists_where q xs ≡ false
      → exists_where q (update_where p f xs) ≡ false
  exists_where-update_where_le p q f [] h e = refl
  exists_where-update_where_le p q f (x ∷ xs) h e =
      ground (arith, h x (inl refl), exists_where-update_where_le p q f xs (λ y m. h y (inr m)))

  -- An UPDATE that the test does not see.
  pub exists_where-update_where :
      (p q : A → Bool) (f : A → A) (xs : List A)
      → ((x : A) → Member x xs → p x ≡ true → q (f x) ≡ q x)
      → exists_where q (update_where p f xs) ≡ exists_where q xs
  exists_where-update_where p q f [] h = refl
  exists_where-update_where p q f (x ∷ xs) h =
      ground (arith, h x (inl refl), exists_where-update_where p q f xs (λ y m. h y (inr m)))

  pub All-update_where :
      (P : A → Type 0) (p : A → Bool) (f : A → A) (xs : List A)
      → ((x : A) → Member x xs → p x ≡ true → P (f x))
      → ((x : A) → Member x xs → p x ≡ false → P x)
      → All P (update_where p f xs)
  All-update_where P p f [] h g = tt
  All-update_where P p f (x ∷ xs) h g = elim (Bool-cases (p x)) [
    | inl e ↦
        rw e (h x (inl refl) e, All-update_where P p f xs (λ y m. h y (inr m)) (λ y m. g y (inr m)))
    | inr e ↦
        rw e (g x (inl refl) e, All-update_where P p f xs (λ y m. h y (inr m)) (λ y m. g y (inr m)))
  ]

  pub count_where_pos :
      (p : A → Bool) (a : A) (xs : List A) → Member a xs → p a ≡ true → 0 < count_where p xs
  count_where_pos p a [] m h = absurd m
  count_where_pos p a (x ∷ xs) (inl e) h = ground (arith, ap p e)
  count_where_pos p a (x ∷ xs) (inr m) h = ground (arith, count_where_pos p a xs m h)

  pub Member-update_where :
      (p : A → Bool) (f : A → A) (a : A) (xs : List A)
      → Member a xs
      → Member (if p a then f a else a) (update_where p f xs)
  Member-update_where p f a [] m = absurd m
  Member-update_where p f a (x ∷ xs) (inl e) = inl (ap (λ y. if p y then f y else y) e)
  Member-update_where p f a (x ∷ xs) (inr m) = inr (Member-update_where p f a xs m)

  pub Member-update_where_other :
      (p : A → Bool) (f : A → A) (a : A) (xs : List A)
      → p a ≡ false
      → Member a xs
      → Member a (update_where p f xs)
  Member-update_where_other p f a xs h m = let m' = Member-update_where p f a xs m in rw h at m'

  -- A row of an updated table comes from a row of the table.
  pub Member-of_update_where :
      (p : A → Bool) (f : A → A) (b : A) (xs : List A)
      → Member b (update_where p f xs)
      → (a : A) × Member a xs × (b ≡ (if p a then f a else a))
  Member-of_update_where p f b [] m = absurd m
  Member-of_update_where p f b (x ∷ xs) (inl e) = (x, inl refl, e)
  Member-of_update_where p f b (x ∷ xs) (inr m) =
      let (a, n, e) = Member-of_update_where p f b xs m in (a, inr n, e)
