-- ===== src/Sql/Order.antt =====
-- The first row in an ORDER BY.
use host_forge.Base.{
  ◌≡◌, refl, ap, ◌∙◌, inl, inr, Bool, true, false, none, some, List, [], ◌∷◌, arith, if◌then◌else◌,
  All, Bool-cases, Option-cases,
}
use mathlib.Core.Path.{subst}
use host_forge.Sql.{first_row}
use host_forge.Sql.Laws.{Member, All-Member, All-intro}

module _ {A : Type 0} where
  -- The first row is one of the rows, and there is one unless the table is empty.
  pub first_row-Member :
      (before : A → A → Bool) (a : A) (xs : List A) → first_row before xs ≡ some a → Member a xs
  first_row-Member before a [] h = cc
  first_row-Member before a (x ∷ xs) h = elim (Option-cases (first_row before xs)) [
    | inl e ↦ inl (ground arith)
    | inr (y, e) ↦ elim (Bool-cases (before y x)) [
      | inl b ↦ inr (first_row-Member before a xs (e ∙ rw (e, b) at h))
      | inr b ↦ inl (ground arith)
    ]
  ]

  pub first_row-none : (before : A → A → Bool) (xs : List A) → first_row before xs ≡ none → xs ≡ []
  first_row-none before [] h = refl
  first_row-none before (x ∷ xs) h = elim (Option-cases (first_row before xs)) [
    | inl e ↦ let q : some x ≡ none = rw e at h in cc
    | inr (y, e) ↦ let q : some (if before y x then y else x) ≡ none = rw e at h in cc
  ]

  -- No row comes before the first one, where `before` is a strict total preorder.
  pub first_row-least :
      (before : A → A → Bool)
      → ((x y z : A) → before x y ≡ false → before y z ≡ false → before x z ≡ false)
      → ((x y : A) → before x y ≡ true → before y x ≡ false)
      → ((x : A) → before x x ≡ false)
      → (a : A) (xs : List A) → first_row before xs ≡ some a
      → All (λ x. before x a ≡ false) xs
  first_row-least before trans asym irrefl a [] h = tt
  first_row-least before trans asym irrefl a (x ∷ xs) h =
      elim (Option-cases (first_row before xs)) [
        | inl e ↦
            let q : x ≡ a = ground arith in
            (subst (λ y. before x y ≡ false) q (irrefl x), rw (first_row-none before xs e) tt)
        | inr (y, e) ↦ elim (Bool-cases (before y x)) [
          | inl b ↦
              let q : y ≡ a = ground arith in
              (
                subst (λ z. before x z ≡ false) q (asym y x b),
                first_row-least before trans asym irrefl a xs (e ∙ ap some q),
              )
          | inr b ↦
              let q : x ≡ a = ground arith in
              (
                subst (λ z. before x z ≡ false) q (irrefl x),
                All-intro xs (λ z m.
                    subst (λ w. before z w ≡ false) q
                      (trans z y x
                        (All-Member _ z xs (first_row-least before trans asym irrefl y xs e) m) b)),
              )
        ]
      ]
