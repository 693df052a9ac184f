-- ===== src/Auth/Sessions.antt =====
-- Which sessions VerifySignedSession of internal/auth/auth.go accepts.
use Prim.Native.String.{◌++◌ as concat}
use mathlib.Core.Path.{subst}
use host_forge.Base.{
  ℕ, suc, ◌+◌, ◌/◌, String, Option, none, some, List, [], ◌∷◌, true, false, ◌≡◌, refl, ap, ◌∙◌,
  arith, ltb, eqb, if◌then◌else◌, Bool-cases, Option-cases, inl, inr,
}
use host_forge.Base.Int.{pos, ltb_ℤ}
use host_forge.Base.Text.{
  trim_space, split_on, has_code, has_space, trim_space_same, has_space-append, split_on-none,
  split_on-append, split_on-dot,
}
use host_forge.Clock.{Time, second}
use host_forge.Auth.{
  SessionClaims, granted, refused, expired, Primitives, sign, session_token, session_claims,
  new_signed_session, verify_signed_session, check_parts, check_signature, check_claims,
  check_expiry, equal_bytes, unix,
}

equal_bytes_refl : (xs : List ℕ) → equal_bytes xs xs ≡ true
unfolding equal_bytes
equal_bytes_refl [] = refl
equal_bytes_refl (x ∷ xs) = ground (arith, equal_bytes_refl xs)

equal_bytes_eq : (xs ys : List ℕ) → equal_bytes xs ys ≡ true → xs ≡ ys
unfolding equal_bytes
equal_bytes_eq [] [] h = refl
equal_bytes_eq [] (y ∷ ys) h = cc
equal_bytes_eq (x ∷ xs) [] h = cc
equal_bytes_eq (x ∷ xs) (y ∷ ys) h = ground (arith, equal_bytes_eq xs ys)

dot-has_space : has_space "." ≡ false
unfolding has_space
dot-has_space = refl

module _ (P : Primitives) where
  -- encoding/base64 reads back what it wrote, in an alphabet without "." and spaces.
  pub record IsUrlEncoding : Type 0 where
    pub reads_back : (bytes : List ℕ) → P.decode (P.encode bytes) ≡ some bytes
    pub no_dot : (bytes : List ℕ) → has_code (eqb b'.') (P.encode bytes) ≡ false
    pub no_space : (bytes : List ℕ) → has_space (P.encode bytes) ≡ false

  token_parts :
      IsUrlEncoding
      → (secret : String) (claims : SessionClaims)
      → split_on b'.' (trim_space (session_token P secret claims))
        ≡ P.encode (P.marshal claims) ∷ P.encode (sign P secret (P.marshal claims)) ∷ []
  unfolding session_token
  token_parts u secret claims =
      let head = P.encode (P.marshal claims) in
      let tail = P.encode (sign P secret (P.marshal claims)) in
      let spaceless : has_space (concat head (concat "." tail)) ≡ false =
        has_space-append head (concat "." tail)
        ∙ rw
            (
              u.no_space (P.marshal claims),
              has_space-append "." tail,
              u.no_space (sign P secret (P.marshal claims)),
              dot-has_space,
            )
            refl in
      let after : split_on b'.' (concat "." tail) ≡ "" ∷ tail ∷ [] =
        split_on-dot tail (split_on-none b'.' tail (u.no_dot (sign P secret (P.marshal claims)))) in
      ap (split_on b'.') (trim_space_same (concat head (concat "." tail)) spaceless)
      ∙ split_on-append b'.' head (concat "." tail) (tail ∷ []) (u.no_dot (P.marshal claims)) after

  check_token :
      (secret : String) (claims : SessionClaims) (now : Time)
      → IsUrlEncoding
      → P.unmarshal (P.marshal claims) ≡ some claims
      → verify_signed_session P secret (session_token P secret claims) now
        ≡ check_expiry P claims now
  unfolding verify_signed_session check_parts check_signature check_claims
  check_token secret claims now u json =
      rw
        (
          token_parts u secret claims,
          u.reads_back (P.marshal claims),
          u.reads_back (sign P secret (P.marshal claims)),
          equal_bytes_refl (sign P secret (P.marshal claims)),
          json,
        )
        refl

  -- A session that is made is accepted under the same secret until the second in which it expires, with
  -- the claims it was made with, and is refused as expired from then on. This needs base64 and JSON to
  -- read back what they wrote.
  pub verify-new_session :
      (secret nonce : String) (ttl : ℕ) (now later : Time)
      → IsUrlEncoding
      → P.unmarshal (P.marshal (session_claims (suc ttl) nonce now))
        ≡ some (session_claims (suc ttl) nonce now)
      → (token : String) × (claims : SessionClaims) × (new_signed_session P secret
            (pos (suc ttl))
            nonce
            now
          ≡ granted (token, claims))
        × (verify_signed_session P secret token later ≡ (
            if ltb (later / second) ((now + suc ttl) / second)
            then granted claims
            else refused expired))
  unfolding new_signed_session check_expiry session_claims unix
  verify-new_session secret nonce ttl now later u json =
      let claims = session_claims (suc ttl) nonce now in
      (
        session_token P secret claims,
        claims,
        refl,
        check_token secret claims later u json ∙ ground arith,
      )

  signature_checked :
      (secret : String) (payload signature : Option (List ℕ)) (now : Time) (claims : SessionClaims)
      → check_signature P secret payload signature now ≡ granted claims
      → (bytes : List ℕ) × (payload ≡ some bytes)
        × (signature ≡ some (sign P secret bytes))
        × (P.unmarshal bytes ≡ some claims)
        × (ltb_ℤ (unix now) claims.expires ≡ true)
  unfolding check_signature check_claims check_expiry
  signature_checked secret none signature now claims h = absurd (ground arith)
  signature_checked secret (some bytes) none now claims h = absurd (ground arith)
  signature_checked secret (some bytes) (some given) now claims h =
      elim (Bool-cases (equal_bytes given (sign P secret bytes))) [
        | inr e ↦ absurd (ground arith)
        | inl e ↦ elim (Option-cases (P.unmarshal bytes)) [
          | inl j ↦ absurd (ground arith)
          | inr (found, j) ↦ elim (Bool-cases (ltb_ℤ (unix now) found.expires)) [
            | inr t ↦ absurd (ground arith)
            | inl t ↦
                let same : found ≡ claims = ground arith in
                (
                  bytes,
                  refl,
                  ap some (equal_bytes_eq given (sign P secret bytes) e),
                  j ∙ ap some same,
                  subst (λ c. ltb_ℤ (unix now) c.expires ≡ true) same t,
                )
          ]
        ]
      ]

  -- A session is accepted only if it is two texts with a "." between them, the second of which is the
  -- signature, under the secret, of what the first encodes; that is the claims returned; and the
  -- second in which they expire has not come.
  pub verify_session-IsSigned :
      (secret raw : String) (now : Time) (claims : SessionClaims)
      → verify_signed_session P secret raw now ≡ granted claims
      → (head : String) × (tail : String) × (payload : List ℕ) × (split_on b'.' (trim_space raw)
          ≡ head ∷ tail ∷ [])
        × (P.decode head ≡ some payload)
        × (P.decode tail ≡ some (sign P secret payload))
        × (P.unmarshal payload ≡ some claims)
        × (ltb_ℤ (unix now) claims.expires ≡ true)
  unfolding verify_signed_session check_parts
  verify_session-IsSigned secret raw now claims h =
      signed_parts (split_on b'.' (trim_space raw)) refl h
    where
      signed_parts :
          (parts : List String)
          → split_on b'.' (trim_space raw) ≡ parts
          → check_parts P secret parts now ≡ granted claims
          → (head : String) × (tail : String) × (payload : List ℕ) × (split_on b'.' (trim_space raw)
              ≡ head ∷ tail ∷ [])
            × (P.decode head ≡ some payload)
            × (P.decode tail ≡ some (sign P secret payload))
            × (P.unmarshal payload ≡ some claims)
            × (ltb_ℤ (unix now) claims.expires ≡ true)
      signed_parts [] e g = absurd (ground arith)
      signed_parts (a ∷ []) e g = absurd (ground arith)
      signed_parts (a ∷ b ∷ c ∷ rest) e g = absurd (ground arith)
      signed_parts (a ∷ b ∷ []) e g =
          let (payload, d, s, j, t) =
            signature_checked secret (P.decode a) (P.decode b) now claims g in
          (a, b, payload, e, d, s, j, t)
