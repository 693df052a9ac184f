-- ===== src/Base/Slices.antt =====
-- Parts of a list: what taking, dropping and writing do to each other.
use host_forge.Base.{
  ℕ, zero, suc, ◌+◌, ◌-◌, ◌≤◌, ◌<◌, ◌≡◌, refl, sym, ap, arith, List, [], ◌∷◌, ◌++◌, length, take,
  drop, get_elem?, set, length-append,
}

plain : (i : ℕ) → i ≡ 0 + i
plain i = omega arith

shifted : (n i : ℕ) → suc n + i ≡ suc (n + i)
shifted n i = omega arith

module _ {ℓ} {A : Type ℓ} where
  pub drop_all : (n : ℕ) (xs : List A) → length xs ≤ n → drop n xs ≡ []
  drop_all zero [] le = refl
  drop_all zero (x ∷ xs) le = absurd (omega arith)
  drop_all (suc n) [] le = refl
  drop_all (suc n) (x ∷ xs) le = drop_all n xs (omega arith)

  pub take_all : (n : ℕ) (xs : List A) → length xs ≤ n → take n xs ≡ xs
  take_all zero [] le = refl
  take_all zero (x ∷ xs) le = absurd (omega arith)
  take_all (suc n) [] le = refl
  take_all (suc n) (x ∷ xs) le = ap (λ (ys : List A). x ∷ ys) (take_all n xs (omega arith))

  pub append_nil : (xs : List A) → xs ++ [] ≡ xs
  append_nil [] = refl
  append_nil (x ∷ xs) = ap (λ (ys : List A). x ∷ ys) (append_nil xs)

  pub append_assoc : (xs ys zs : List A) → (xs ++ ys) ++ zs ≡ xs ++ (ys ++ zs)
  append_assoc [] ys zs = refl
  append_assoc (x ∷ xs) ys zs = ap (λ (us : List A). x ∷ us) (append_assoc xs ys zs)

  pub drop-set : (i : ℕ) (v : A) (xs : List A) → drop (suc i) (set xs i v) ≡ drop (suc i) xs
  drop-set i v [] = refl
  drop-set zero v (x ∷ xs) = refl
  drop-set (suc i) v (x ∷ xs) = drop-set i v xs

  pub take-set :
      (i : ℕ) (v : A) (xs : List A)
      → i < length xs
      → take (suc i) (set xs i v) ≡ take i xs ++ (v ∷ [])
  take-set i v [] lt = absurd (omega arith)
  take-set zero v (x ∷ xs) lt = refl
  take-set (suc i) v (x ∷ xs) lt = ap (λ (ys : List A). x ∷ ys) (take-set i v xs (omega arith))

  pub drop_one :
      (i : ℕ) (xs ys : List A) → i < length xs → drop 1 (drop i xs ++ ys) ≡ drop (suc i) xs ++ ys
  drop_one i [] ys lt = absurd (omega arith)
  drop_one zero (x ∷ xs) ys lt = refl
  drop_one (suc i) (x ∷ xs) ys lt = drop_one i xs ys (omega arith)

  pub length-rotate : (i : ℕ) (xs : List A) → length (drop i xs ++ take i xs) ≡ length xs
  length-rotate zero xs = ap length (append_nil xs)
  length-rotate (suc i) [] = refl
  length-rotate (suc i) (x ∷ xs) = omega (
    arith,
    length-append (drop i xs) (x ∷ take i xs),
    length-append (drop i xs) (take i xs),
    length-rotate i xs,
  )

  pub length-take : (n : ℕ) (xs : List A) → n ≤ length xs → length (take n xs) ≡ n
  length-take zero xs le = refl
  length-take (suc n) [] le = absurd (omega arith)
  length-take (suc n) (x ∷ xs) le = ap suc (length-take n xs (omega arith))

  pub length-drop : (n : ℕ) (xs : List A) → length (drop n xs) ≡ length xs - n
  length-drop zero xs = omega arith
  length-drop (suc n) [] = omega arith
  length-drop (suc n) (x ∷ xs) = omega (arith, length-drop n xs)

  pub get_elem?-take : (n i : ℕ) (xs : List A) → i < n → get_elem? (take n xs) i ≡ get_elem? xs i
  get_elem?-take zero i xs lt = absurd (omega arith)
  get_elem?-take (suc n) i [] lt = refl
  get_elem?-take (suc n) zero (x ∷ xs) lt = refl
  get_elem?-take (suc n) (suc i) (x ∷ xs) lt = get_elem?-take n i xs (omega arith)

  pub get_elem?-drop : (n i : ℕ) (xs : List A) → get_elem? (drop n xs) i ≡ get_elem? xs (n + i)
  get_elem?-drop zero i xs = ap (get_elem? xs) (plain i)
  get_elem?-drop (suc n) i [] = refl
  get_elem?-drop (suc n) i (x ∷ xs) = rw (shifted n i) (get_elem?-drop n i xs)

  pub get_elem?-append :
      (xs ys : List A) (i : ℕ) → get_elem? (xs ++ ys) (length xs + i) ≡ get_elem? ys i
  get_elem?-append [] ys i = ap (get_elem? ys) (sym (plain i))
  get_elem?-append (x ∷ xs) ys i = rw (shifted (length xs) i) (get_elem?-append xs ys i)
