-- ===== src/Sql.antt =====
-- Tables as lists of rows: `UPDATE … WHERE`, `RowsAffected`, and the row that a primary key names.
pub mod Keys
pub mod Laws
pub mod Order
pub mod Results
pub mod Sorted
pub mod Updates
use host_forge.Base.{
  ℕ, suc, ◌≡◌, refl, Bool, true, false, Option, none, some, List, [], ◌∷◌, arith, if◌then◌else◌,
  All, exists_where,
}

module _ {ℓ} {A : Type ℓ} where
  -- UPDATE t SET f WHERE p
  abbrev pub update_where : (A → Bool) → (A → A) → List A → List A
  update_where p f [] = []
  update_where p f (r ∷ rs) = (if p r then f r else r) ∷ update_where p f rs

  -- SELECT COUNT(*) FROM t WHERE p, which is also what an UPDATE reports as RowsAffected.
  abbrev pub count_where : (A → Bool) → List A → ℕ
  count_where p [] = 0
  count_where p (r ∷ rs) = let rest = count_where p rs in if p r then suc rest else rest

  abbrev pub find_where : (A → Bool) → List A → Option A
  find_where p [] = none
  find_where p (r ∷ rs) = if p r then some r else find_where p rs

  -- The first row in an ORDER BY: no other row comes before it.
  abbrev earlier : (A → A → Bool) → A → Option A → Option A
  earlier before x none = some x
  earlier before x (some y) = some (if before y x then y else x)

  abbrev pub first_row : (A → A → Bool) → List A → Option A
  first_row before [] = none
  first_row before (x ∷ xs) = earlier before x (first_row before xs)

  -- ORDER BY: rows of equal rank keep their order.
  unfoldable pub insert_row : (A → A → Bool) → A → List A → List A
  insert_row before x [] = x ∷ []
  insert_row before x (y ∷ ys) =
      let rest = insert_row before x ys in if before y x then y ∷ rest else x ∷ y ∷ ys

  unfoldable pub order_by : (A → A → Bool) → List A → List A
  order_by before [] = []
  order_by before (x ∷ xs) = insert_row before x (order_by before xs)

  -- DELETE FROM t WHERE p
  unfoldable pub delete_where : (A → Bool) → List A → List A
  delete_where p [] = []
  delete_where p (r ∷ rs) = let rest = delete_where p rs in if p r then rest else r ∷ rest

  abbrev pub filter_rows : (A → Bool) → List A → List A
  filter_rows p [] = []
  filter_rows p (r ∷ rs) = let rest = filter_rows p rs in if p r then r ∷ rest else rest

-- What a transaction reports: an error rolls back, so it carries no database.
pub data Error : Type 0 where
  no_rows invalid_input constraint not_found unavailable rate_limited in_use unconfirmed : Error

pub data Result {ℓ} (A : Type ℓ) : Type ℓ where
  ok : A → Result A
  err : Error → Result A

infixl 5 ◌>>=◌ ◌>>◌
abbrev pub ◌>>=◌ {ℓ κ} : {A : Type ℓ} {B : Type κ} → Result A → (A → Result B) → Result B
ok a >>= f = f a
err e >>= f = err e

-- A statement that is only there for its error.
abbrev pub ◌>>◌ {κ} : {C : Type κ} → Result (Unit {0}) → Result C → Result C
err failure >> next = err failure
ok done >> next = next

-- `if !t { return e }`
abbrev pub guard : Bool → Error → Result (Unit {0})
guard holds failure = if holds then ok tt else err failure

-- QueryRow(…).Scan: `e` stands for sql.ErrNoRows, or what the caller makes of it.
abbrev pub require {ℓ} : {A : Type ℓ} → Error → Option A → Result A
require e none = err e
require e (some a) = ok a
