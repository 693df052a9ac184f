-- ===== src/Metrics/Window.antt =====
-- The ring of internal/hostmetrics/sampler.go against what it stands for, the window of the last samples.
use native.Mathlib.Nat.{add-mod_right, mod-eq_of_lt}
use host_forge.Base.{
  ℕ, zero, suc, ◌+◌, ◌-◌, ◌%◌, ◌≤◌, ◌<◌, ◌≡◌, refl, sym, ◌∙◌, arith, ltb, eqb, List, [], ◌∷◌, ◌++◌,
  length, take, drop, get_elem?, length-append, none, Bool-cases, inl, inr,
}
use host_forge.Base.Int.{ℤ, pos}
use host_forge.Base.Slices.{
  append_nil, append_assoc, length-rotate, length-drop, get_elem?-take, get_elem?-drop,
  get_elem?-append,
}
use host_forge.Metrics.Ring.{
  history, last_points, Sampler, new_sampler, at_least_two, push, push_all, ordered, latest,
}
use host_forge.Metrics.Rotation.{
  at_least_two-le, new_sampler-IsRing, rotated, push-IsRing, slide, ordered-push, IsRing,
}

index_eq : (h c : ℕ) → suc h + c - 1 ≡ h + c
index_eq h c = omega arith

module _ {ℓ} {A : Type ℓ} where
  -- The samples that are left of a list when all but the last `n` have gone.
  abbrev pub last : ℕ → List A → List A
  last n xs = drop (length xs - n) xs

  last_short : (n : ℕ) (xs : List A) → length xs ≤ n → last n xs ≡ xs
  last_short n xs le = let none_gone : length xs - n ≡ 0 = omega arith in rw none_gone refl

  last-slide_full :
      (n : ℕ) (q : List A) (x : A) (xs : List A)
      → length q ≡ n
      → 2 ≤ n
      → last n (drop 1 (q ++ (x ∷ [])) ++ xs) ≡ last n (q ++ (x ∷ xs))
  last-slide_full n [] x xs filled two = absurd (omega arith)
  last-slide_full n (y ∷ q) x xs filled two =
      let counted : suc (length (q ++ (x ∷ xs))) - n ≡ suc (length (q ++ (x ∷ xs)) - n) =
        omega (arith, length-append q (x ∷ xs)) in
      rw (append_assoc q (x ∷ []) xs, counted) refl

  last-slide :
      (n : ℕ) (q : List A) (x : A) (xs : List A)
      → length q ≤ n
      → 2 ≤ n
      → last n (slide n q x ++ xs) ≡ last n (q ++ (x ∷ xs))
  last-slide n q x xs le two = elim (Bool-cases (ltb (length q) n)) [
    | inl room ↦ rw (room, append_assoc q (x ∷ []) xs) refl
    | inr none_left ↦ rw none_left (last-slide_full n q x xs (ground arith) two)
  ]

  length-ordered : (s : Sampler A) → IsRing s → length (ordered s) ≡ length s.ring
  length-ordered s v = rw (rotated s v) (length-rotate s.head s.ring)

  capacity-push : (s : Sampler A) (x : A) → (push s x).capacity ≡ s.capacity
  unfolding push
  capacity-push s x = ground arith

  ordered-push_all :
      (xs : List A) (s : Sampler A)
      → IsRing s
      → ordered (push_all s xs) ≡ last s.capacity (ordered s ++ xs)
  unfolding push_all ordered
  ordered-push_all [] s v =
      rw (append_nil (ordered s))
        (sym (last_short s.capacity (ordered s) (omega (arith, length-ordered s v, v.room))))
  ordered-push_all (x ∷ xs) s v =
      ordered-push_all xs (push s x) (push-IsRing s x v)
      ∙ rw (capacity-push s x, ordered-push s x v)
          (last-slide s.capacity (ordered s) x xs (omega (arith, length-ordered s v, v.room))
            v.positive)

  newest_rotated :
      (h c : ℕ) (xs : List A)
      → length xs ≡ c
      → h < c
      → get_elem? xs ((h + c - 1) % c) ≡ get_elem? (drop h xs ++ take h xs) (length xs - 1)
  newest_rotated zero c xs filled lt =
      let index : (0 + c - 1) % c ≡ c - 1 = mod-eq_of_lt (omega arith) ∙ omega arith in
      rw (index, append_nil xs, filled) refl
  newest_rotated (suc h) c xs filled lt =
      let index : (suc h + c - 1) % c ≡ h =
        rw (index_eq h c) (add-mod_right h c ∙ mod-eq_of_lt (omega arith)) in
      let place : length xs - 1 ≡ length (drop (suc h) xs) + h =
        omega (arith, length-drop (suc h) xs) in
      rw (index, place, get_elem?-append (drop (suc h) xs) (take (suc h) xs) h)
        (sym (get_elem?-take (suc h) h xs (omega arith)))

  none_there : (xs : List A) → length xs ≡ 0 → get_elem? xs (length xs - 1) ≡ none
  none_there [] e = refl
  none_there (x ∷ xs) e = absurd (omega arith)

  latest-ordered :
      (s : Sampler A) → IsRing s → latest s ≡ get_elem? (ordered s) (length (ordered s) - 1)
  unfolding latest
  latest-ordered s v = elim (Bool-cases (eqb (length s.ring) 0)) [
    | inl nothing ↦
        let no_elements : length (ordered s) ≡ 0 = ground (arith, length-ordered s v) in
        rw nothing (sym (none_there (ordered s) no_elements))
    | inr some_left ↦ elim (Bool-cases s.full) [
      | inl full ↦
          rw (length-ordered s v, rotated s v, some_left, full)
            (newest_rotated s.head s.capacity s.ring (v.wrapped full).0 (v.wrapped full).1)
      | inr part ↦
          rw (length-ordered s v, rotated s v, some_left, part, v.start part, append_nil s.ring)
            refl
    ]
  ]

  newest-last :
      (n : ℕ) (xs : List A)
      → 1 ≤ n
      → get_elem? (last n xs) (length (last n xs) - 1) ≡ get_elem? xs (length xs - 1)
  newest-last n xs le =
      let place : (length xs - n) + (length xs - (length xs - n) - 1) ≡ length xs - 1 =
        omega arith in
      rw
        (
          get_elem?-drop (length xs - n) (length (last n xs) - 1) xs,
          length-drop (length xs - n) xs,
          place,
        )
        refl

  push_all-IsRing : (xs : List A) (s : Sampler A) → IsRing s → IsRing (push_all s xs)
  unfolding push_all
  push_all-IsRing [] s v = v
  push_all-IsRing (x ∷ xs) s v = push_all-IsRing xs (push s x) (push-IsRing s x v)

  last_points-last : (n : ℕ) (xs : List A) → last_points (pos (suc n)) xs ≡ last (suc n) xs
  last_points-last n xs = elim (Bool-cases (ltb (suc n) (length xs))) [
    | inl more ↦ rw more refl
    | inr enough ↦ rw enough (sym (last_short (suc n) xs (ground arith)))
  ]

  -- However many samples a new sampler has been given, it holds the last of them, oldest first, as many
  -- as its capacity (at least two); `Latest` is the newest; and `History` with a positive bound is the
  -- last of those, so many.
  pub ordered_is_window :
      (capacity : ℤ) (xs : List A) (n : ℕ)
      → (ordered (push_all (new_sampler capacity) xs) ≡ last (at_least_two capacity) xs)
        × (latest (push_all (new_sampler capacity) xs) ≡ get_elem? xs (length xs - 1))
        × (history (push_all (new_sampler capacity) xs) (pos (suc n))
            ≡ last (suc n) (last (at_least_two capacity) xs))
  unfolding new_sampler ordered history
  ordered_is_window capacity xs n =
      let v = new_sampler-IsRing capacity in
      let window = ordered-push_all xs (new_sampler capacity) v in
      (
        window,
        latest-ordered (push_all (new_sampler capacity) xs)
              (push_all-IsRing xs (new_sampler capacity) v)
            ∙ rw window
                (newest-last (at_least_two capacity) xs (omega (arith, at_least_two-le capacity))),
        rw window (last_points-last n (last (at_least_two capacity) xs)),
      )
