-- ===== src/Clock/Texts.antt =====
-- The order of written times as an order: SQLite's comparison of two stamps.
use host_forge.Base.{ℕ, ◌*◌, ◌/◌, ◌%◌, ◌≡◌, refl, arith, true, false, not, List, [], ◌∷◌, ltb}
use host_forge.Base.Text.{lex_lt}
use host_forge.Clock.{Stamp, Time, second, stamp_lt, stamp_le, text, fraction, whole_second}

pub lex_lt_irrefl : (xs : List ℕ) → lex_lt xs xs ≡ false
unfolding lex_lt
lex_lt_irrefl [] = refl
lex_lt_irrefl (x ∷ xs) = ground (arith, lex_lt_irrefl xs)

pub lex_lt_asym : (xs ys : List ℕ) → lex_lt xs ys ≡ true → lex_lt ys xs ≡ false
unfolding lex_lt
lex_lt_asym [] [] h = cc
lex_lt_asym [] (y ∷ ys) h = refl
lex_lt_asym (x ∷ xs) [] h = cc
lex_lt_asym (x ∷ xs) (y ∷ ys) h = ground (arith, lex_lt_asym xs ys)

-- "Not before" goes on through a third row.
pub lex_lt_trans :
    (xs ys zs : List ℕ) → lex_lt xs ys ≡ false → lex_lt ys zs ≡ false → lex_lt xs zs ≡ false
unfolding lex_lt
lex_lt_trans [] [] [] h g = refl
lex_lt_trans [] [] (z ∷ zs) h g = cc
lex_lt_trans [] (y ∷ ys) zs h g = cc
lex_lt_trans (x ∷ xs) [] [] h g = refl
lex_lt_trans (x ∷ xs) [] (z ∷ zs) h g = cc
lex_lt_trans (x ∷ xs) (y ∷ ys) [] h g = refl
lex_lt_trans (x ∷ xs) (y ∷ ys) (z ∷ zs) h g = ground (arith, lex_lt_trans xs ys zs)

pub stamp_lt_irrefl : (a : Stamp) → stamp_lt a a ≡ false
unfolding stamp_lt
stamp_lt_irrefl a = lex_lt_irrefl (text a)

pub stamp_lt_asym : (a b : Stamp) → stamp_lt a b ≡ true → stamp_lt b a ≡ false
unfolding stamp_lt
stamp_lt_asym a b h = lex_lt_asym (text a) (text b) h

pub stamp_lt_trans :
    (a b c : Stamp) → stamp_lt a b ≡ false → stamp_lt b c ≡ false → stamp_lt a c ≡ false
unfolding stamp_lt
stamp_lt_trans a b c h g = lex_lt_trans (text a) (text b) (text c) h g

pub stamp_le_trans :
    (a b c : Stamp) → stamp_le a b ≡ true → stamp_le b c ≡ true → stamp_le a c ≡ true
unfolding stamp_le
stamp_le_trans a b c h g = ground (arith, stamp_lt_trans c b a)

first_decides : (x y : ℕ) (xs : List ℕ) → lex_lt (y ∷ xs) (x ∷ xs) ≡ ltb y x
unfolding lex_lt
first_decides x y xs = ground (arith, lex_lt_irrefl xs)

-- Texts of whole seconds are in the order of the seconds.
pub stamp_le-whole_second :
    (a b : Time) → stamp_le (whole_second a) (whole_second b) ≡ not (ltb (b / second) (a / second))
unfolding stamp_le stamp_lt text
stamp_le-whole_second a b =
    let ea : a / second * second / second ≡ a / second = omega arith in
    let eb : b / second * second / second ≡ b / second = omega arith in
    let ra : a / second * second % second ≡ 0 = omega arith in
    let rb : b / second * second % second ≡ 0 = omega arith in
    rw (ea, eb, ra, rb, first_decides (a / second) (b / second) (fraction 0)) refl
