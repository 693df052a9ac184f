-- ===== src/Clock/Order.antt =====
-- How far the order of the written times is from the order of the times: RFC3339Nano texts compared by
-- SQLite, as the claim in internal/repository/operations.go compares available_at.
use host_forge.Base.{
  ℕ, ◌+◌, ◌*◌, ◌/◌, ◌%◌, ◌≤◌, ◌<◌, ◌≡◌, refl, arith, true, false, List, [], ◌∷◌, ◌++◌, eqb,
  Bool-cases, inl, inr, ltb, ltb→lt,
}
use host_forge.Base.Text.{lex_lt}
use host_forge.Clock.{trim_zeros, digits, Time, second, at, text, fraction, stamp_lt, stamp_le}

not_zero : (n : ℕ) → 0 < n → eqb n 0 ≡ false
not_zero n lt = ground arith

text_lt : (x y : ℕ) (xs ys : List ℕ) → x < y → lex_lt (x ∷ xs) (y ∷ ys) ≡ true
unfolding lex_lt
text_lt x y xs ys lt = ground arith

text_not_gt : (x y : ℕ) (xs ys : List ℕ) → lex_lt (x ∷ xs) (y ∷ ys) ≡ true → x ≤ y
unfolding lex_lt
text_not_gt x y xs ys lt = ground arith

text_ge : (x y : ℕ) (xs ys : List ℕ) → y < x → lex_lt (x ∷ xs) (y ∷ ys) ≡ false
unfolding lex_lt
text_ge x y xs ys lt = ground arith

-- The order of two written times is right but for less than a second: one that is not after another
-- is less than a second after it, and one that is a second or more before it is not after it.
pub stamp_le-within_second :
    (a b : Time)
    → (stamp_le (at a) (at b) ≡ true → a < b + second)
      × (a + second ≤ b → stamp_le (at a) (at b) ≡ true)
unfolding stamp_le stamp_lt text
stamp_le-within_second a b = (
  (λ h. elim (Bool-cases (ltb (b / second) (a / second))) [
    | inl above ↦ absurd (
        cc (
          h,
          text_lt (b / second) (a / second) (fraction (b % second)) (fraction (a % second))
              (ltb→lt _ _ above),
        ))
    | inr below ↦ (let le : a / second ≤ b / second = ground arith in omega (arith, le))
  ]),
  (λ le.
      rw
        (text_ge (b / second) (a / second) (fraction (b % second)) (fraction (a % second))
          (omega (arith, le)))
        refl),
)

fraction_dot : (n : ℕ) → 0 < n → (xs : List ℕ) × (fraction n ≡ b'.' ∷ xs)
unfolding fraction
fraction_dot n lt = (trim_zeros (digits 9 100000000 n) ++ (b'Z' ∷ []), rw (not_zero n lt) refl)

fraction_whole : fraction 0 ≡ b'Z' ∷ []
unfolding fraction
fraction_whole = refl

dot_first : (s : ℕ) (xs ys : List ℕ) → lex_lt (s ∷ b'Z' ∷ ys) (s ∷ b'.' ∷ xs) ≡ false
unfolding lex_lt
dot_first s xs ys = ground arith

-- A fraction of a second sorts before the whole second that it follows: the text has "." where the
-- other has "Z". So a time up to a second ahead already counts as reached at a whole second.
pub fraction_sorts_first :
    (s n : ℕ) → 0 < n → n < second → stamp_le (at (s * second + n)) (at (s * second)) ≡ true
unfolding stamp_le stamp_lt text
fraction_sorts_first s n some_part part =
    let seconds : (s * second + n) / second ≡ s = omega arith in
    let rest : (s * second + n) % second ≡ n = omega arith in
    let whole : s * second / second ≡ s = omega arith in
    let nothing : s * second % second ≡ 0 = omega arith in
    let (digits, dotted) = fraction_dot n some_part in
    rw (seconds, rest, whole, nothing, fraction_whole, dotted, dot_first s digits []) refl
