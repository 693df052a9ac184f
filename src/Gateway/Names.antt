-- ===== src/Gateway/Names.antt =====
-- Names that reach PgBouncer and PostgreSQL: gatewaySafeID and its three callers, and GatewayPoolBudget
-- of internal/repository/database_gateways.go. A name is kept as its characters' codes.
use mathlib.Core.Path.{subst}
use host_forge.Base.{
  ℕ, ◌+◌, ◌≤◌, String, Option, none, some, List, [], ◌∷◌, ◌++◌, Bool, true, false, not, ◌&&◌, ◌||◌,
  ◌≡◌, arith, All, is_nil, length, length-append, leb, eqb, if◌then◌else◌, Bool-cases, inl, inr,
}
use host_forge.Base.Text.{codes, trim_space, lower_code}

-- 'a' to 'z' and '0' to '9'
unfoldable pub is_plain : ℕ → Bool
is_plain c = leb 97 c && leb c 122 || leb 48 c && leb c 57

-- The characters that are left of strings.ToLower(id).
unfoldable pub plain_codes : List ℕ → List ℕ
plain_codes [] = []
plain_codes (c ∷ cs) =
    let rest = plain_codes cs in if is_plain (lower_code c) then lower_code c ∷ rest else rest

unfoldable pub gateway_safe_id : List ℕ → String → Option (List ℕ)
gateway_safe_id prefix id =
    let plain = plain_codes (codes (trim_space id)) in
    if is_nil plain || not (leb (length (prefix ++ plain)) 63) then none else some (prefix ++ plain)

unfoldable pub gateway_route_alias : String → Option (List ℕ)
gateway_route_alias id = gateway_safe_id (codes "hf_") id

unfoldable pub gateway_backend_alias : String → Option (List ℕ)
gateway_backend_alias id = gateway_safe_id (codes "hfb_") id

unfoldable pub gateway_credential_role : String → Option (List ℕ)
gateway_credential_role id = gateway_safe_id (codes "hfc_") id

-- A lower-case letter, a digit or "_".
unfoldable pub is_safe_code : ℕ → Bool
unfolding is_plain
is_safe_code c = is_plain c || eqb c b'_'

abbrev pub IsSafe : List ℕ → Type 0
IsSafe cs = All (λ c. is_safe_code c ≡ true) cs

plain_codes-IsSafe : (cs : List ℕ) → IsSafe (plain_codes cs)
unfolding plain_codes is_safe_code is_plain
plain_codes-IsSafe [] = tt
plain_codes-IsSafe (c ∷ cs) = elim (Bool-cases (is_plain (lower_code c))) [
  | inl e ↦ rw e (ground arith, plain_codes-IsSafe cs)
  | inr e ↦ rw e (plain_codes-IsSafe cs)
]

append-IsSafe : (xs ys : List ℕ) → IsSafe xs → IsSafe ys → IsSafe (xs ++ ys)
append-IsSafe [] ys h g = g
append-IsSafe (x ∷ xs) ys h g = (h.0, append-IsSafe xs ys h.1 g)

not_nil : (cs : List ℕ) → is_nil cs ≡ false → 1 ≤ length cs
not_nil [] h = cc
not_nil (c ∷ cs) h = omega arith

-- A name made under a safe prefix has at most 63 characters, more than the prefix has, and only
-- lower-case letters, digits and "_".
pub gateway_safe_id-IsSafe :
    (prefix : List ℕ) (id : String) (name : List ℕ)
    → IsSafe prefix
    → gateway_safe_id prefix id ≡ some name
    → IsSafe name × (length name ≤ 63) × (length prefix + 1 ≤ length name)
unfolding gateway_safe_id
gateway_safe_id-IsSafe prefix id name safe h =
    let plain = plain_codes (codes (trim_space id)) in
    let made : prefix ++ plain ≡ name = ground arith in
    let some_left : is_nil plain ≡ false = ground arith in
    let short : leb (length (prefix ++ plain)) 63 ≡ true = ground arith in
    let sizes = length-append prefix plain in
    (
      subst IsSafe made
          (append-IsSafe prefix plain safe (plain_codes-IsSafe (codes (trim_space id)))),
      subst (λ cs. length cs ≤ 63) made (ground arith),
      subst (λ cs. length prefix + 1 ≤ length cs) made
          (omega (arith, sizes, not_nil plain some_left)),
    )
