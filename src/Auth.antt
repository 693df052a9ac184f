-- ===== src/Auth.antt =====
-- Bearer tokens, signed sessions and webhook signatures: internal/auth/auth.go.
-- HMAC, base64 and JSON are parameters, as are the random nonce and the clock.
pub mod Sessions
use Prim.Native.String.{◌++◌ as concat}
use host_forge.Base.{
  ℕ, zero, suc, ◌+◌, ◌*◌, ◌-◌, ◌/◌, String, Option, none, some, List, [], ◌∷◌, Bool, true, false,
  not, ◌&&◌, ◌==◌, if◌then◌else◌, eqb, leb,
}
use host_forge.Base.Int.{ℤ, pos, negsuc, ltb_ℤ}
use host_forge.Base.Text.{trim_space, split_on, strip_prefix, codes}
use host_forge.Clock.{Time, second}

pub record SessionClaims : Type 0 where
  pub subject : String
  pub issued : ℤ
  pub expires : ℤ
  pub nonce : String

-- Each error of the two session functions.
pub data SessionError : Type 0 where
  ttl_not_positive bad_format bad_payload bad_signature_text wrong_signature bad_claims expired :
      SessionError

pub data Session {ℓ} (A : Type ℓ) : Type ℓ where
  granted : A → Session A
  refused : SessionError → Session A

-- What follows "Bearer ", as long as something does.
unfoldable pub bearer_token : String → Option String
bearer_token header = elim (strip_prefix "Bearer " (trim_space header)) [
  | none ↦ none
  | some rest ↦ if trim_space rest == "" then none else some (trim_space rest)
]

-- hmac.Equal on the bytes of two texts.
unfoldable pub bearer_matches : String → String → Bool
bearer_matches header expected = elim (bearer_token header) [
  | none ↦ false
  | some provided ↦ provided == trim_space expected
]

-- hmac.Equal
unfoldable pub equal_bytes : List ℕ → List ℕ → Bool
equal_bytes [] [] = true
equal_bytes [] (y ∷ ys) = false
equal_bytes (x ∷ xs) [] = false
equal_bytes (x ∷ xs) (y ∷ ys) = eqb x y && equal_bytes xs ys

-- time.Unix of an instant from 1970 on.
unfoldable pub unix : Time → ℤ
unix t = pos (t / second)

unfoldable pub session_claims : ℕ → String → Time → SessionClaims
unfolding unix
session_claims ttl nonce now = record {
  subject = "admin";
  issued = unix now;
  expires = unix (now + ttl);
  nonce = nonce;
}

-- RawURLEncoding's two directions, HMAC-SHA256 under a key, and the two directions of encoding/json.
pub record Primitives : Type 0 where
  pub encode : List ℕ → String
  pub decode : String → Option (List ℕ)
  pub mac : String → List ℕ → List ℕ
  pub marshal : SessionClaims → List ℕ
  pub unmarshal : List ℕ → Option SessionClaims

-- The value of a hexadecimal digit, and `hex.DecodeString`.
unfoldable pub hex_digit : ℕ → Option ℕ
hex_digit c =
    if leb 48 c && leb c 57
    then some (c - 48)
    else if leb 97 c && leb c 102
    then some (c - 87)
    else if leb 65 c && leb c 70
    then some (c - 55)
    else none

unfoldable pub hex_byte : Option ℕ → Option ℕ → Option (List ℕ) → Option (List ℕ)
hex_byte (some high) (some low) (some rest) = some ((16 * high + low) ∷ rest)
hex_byte _ _ _ = none

unfoldable pub hex_decode : List ℕ → Option (List ℕ)
hex_decode [] = some []
hex_decode (c ∷ []) = none
hex_decode (c ∷ d ∷ cs) = hex_byte (hex_digit c) (hex_digit d) (hex_decode cs)

module _ (P : Primitives) where
  unfoldable pub sign : String → List ℕ → List ℕ
  sign secret payload = P.mac (trim_space secret) payload

  unfoldable pub session_token : String → SessionClaims → String
  session_token secret claims =
      concat (P.encode (P.marshal claims)) (concat "." (P.encode (sign secret (P.marshal claims))))

  -- `nonce` is the hex text of the twelve random bytes.
  unfoldable pub new_signed_session : String → ℤ → String → Time → Session (String × SessionClaims)
  new_signed_session secret (negsuc n) nonce now = refused ttl_not_positive
  new_signed_session secret (pos zero) nonce now = refused ttl_not_positive
  new_signed_session secret (pos (suc ttl)) nonce now = granted (
    session_token secret (session_claims (suc ttl) nonce now),
    session_claims (suc ttl) nonce now,
  )

  unfoldable pub check_expiry : SessionClaims → Time → Session SessionClaims
  check_expiry claims now =
      if ltb_ℤ (unix now) claims.expires then granted claims else refused expired

  unfoldable pub check_claims : Option SessionClaims → Time → Session SessionClaims
  check_claims none now = refused bad_claims
  check_claims (some claims) now = check_expiry claims now

  unfoldable pub check_signature :
      String → Option (List ℕ) → Option (List ℕ) → Time → Session SessionClaims
  check_signature secret none signature now = refused bad_payload
  check_signature secret (some payload) none now = refused bad_signature_text
  check_signature secret (some payload) (some signature) now =
      if equal_bytes signature (sign secret payload)
      then check_claims (P.unmarshal payload) now
      else refused wrong_signature

  unfoldable pub check_parts : String → List String → Time → Session SessionClaims
  check_parts secret (payload ∷ signature ∷ []) now =
      check_signature secret (P.decode payload) (P.decode signature) now
  check_parts secret _ now = refused bad_format

  unfoldable pub verify_signed_session : String → String → Time → Session SessionClaims
  verify_signed_session secret raw now = check_parts secret (split_on b'.' (trim_space raw)) now

  unfoldable pub check_hub_signature : String → Option (List ℕ) → List ℕ → Bool
  check_hub_signature secret none body = false
  check_hub_signature secret (some received) body = equal_bytes received (sign secret body)

  unfoldable pub verify_github_signature : String → String → List ℕ → Bool
  verify_github_signature secret header body = elim (strip_prefix "sha256=" (trim_space header)) [
    | none ↦ false
    | some text ↦
        if trim_space text == ""
        then false
        else check_hub_signature secret (hex_decode (codes (trim_space text))) body
  ]
