-- ===== src/Clock.antt =====
-- Times as the store writes them: `now.UTC().Format(time.RFC3339Nano)`, and the order in which SQLite
-- compares two such texts (internal/repository/operations.go).
-- A time is a number of nanoseconds. The text "2006-01-02T15:04:05" in front has one width for every
-- year up to 9999, so its order is that of the seconds and one number stands for it.
pub mod Order
pub mod Texts
use host_forge.Base.{
  is_nil, ℕ, zero, suc, ◌+◌, ◌*◌, ◌/◌, ◌%◌, Bool, true, false, not, ◌&&◌, List, [], ◌∷◌, ◌++◌, eqb,
  if◌then◌else◌,
}
use host_forge.Base.Text.{lex_lt}

abbrev pub Time : Type 0
Time = ℕ

abbrev pub second : ℕ
second = 1000000000

-- A column that holds a time, or ''.
pub data Stamp : Type 0 where
  empty : Stamp
  at : Time → Stamp

-- The last k decimal digits, as characters.
unfoldable pub digits : ℕ → ℕ → ℕ → List ℕ
digits zero scale n = []
digits (suc k) scale n = (b'0' + n / scale % 10) ∷ digits k (scale / 10) n

unfoldable pub trim_zeros : List ℕ → List ℕ
trim_zeros [] = []
trim_zeros (d ∷ ds) = let rest = trim_zeros ds in if eqb d b'0' && is_nil rest then [] else d ∷ rest

-- The layout's ".999999999Z": no trailing zeros, and no point before a whole second.
unfoldable pub fraction : ℕ → List ℕ
unfolding digits trim_zeros
fraction n =
    if eqb n 0 then b'Z' ∷ [] else b'.' ∷ (trim_zeros (digits 9 100000000 n) ++ (b'Z' ∷ []))

unfoldable pub text : Stamp → List ℕ
text empty = []
text (at t) = (t / second) ∷ fraction (t % second)

-- SQL `a < b` and `a <= b` on two such texts.
unfoldable pub stamp_lt : Stamp → Stamp → Bool
unfolding text
stamp_lt a b = lex_lt (text a) (text b)

unfoldable pub stamp_le : Stamp → Stamp → Bool
unfolding stamp_lt
stamp_le a b = not (stamp_lt b a)

-- `now.Format(time.RFC3339)`, which drops what is below a second.
abbrev pub whole_second : Time → Stamp
whole_second t = at (t / second * second)
