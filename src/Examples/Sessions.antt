-- ===== src/Examples/Sessions.antt =====
-- The theorems on sessions, with an encoding that is easy to read back: a number n is n times "a" and
-- a "b".
use Prim.Native.String.{String}
use Prim.Native.Char.{code}
use host_forge.Base.{
  ℕ, zero, suc, ◌+◌, ◌-◌, ◌*◌, ◌/◌, Option, none, some, List, [], ◌∷◌, Bool, true, false, ◌≡◌, refl,
  ap, ◌∙◌, arith, eqb, ltb, if◌then◌else◌,
}
use host_forge.Base.Int.{pos, ltb_ℤ}
use host_forge.Base.Text.{trim_space, split_on, has_code, has_space}
use host_forge.Clock.{second}
use host_forge.Auth.{
  SessionClaims, granted, refused, expired, Primitives, sign, session_claims, new_signed_session,
  verify_signed_session, unix, check_parts, check_signature, check_claims, check_expiry,
  equal_bytes,
}
use host_forge.Auth.Sessions.{IsUrlEncoding, verify-new_session, verify_session-IsSigned}

abbrev marks : ℕ → String → String
marks zero s = s
marks (suc n) s = String.◌∷◌ "a" (marks n s)

abbrev tally : List ℕ → String
tally [] = String.[]
tally (n ∷ ns) = marks n (String.◌∷◌ "b" (tally ns))

abbrev cons_of : ℕ → Option (List ℕ) → Option (List ℕ)
cons_of n none = none
cons_of n (some ns) = some (n ∷ ns)

abbrev count_marks : ℕ → String → Option (List ℕ)
count_marks k String.[] = if eqb k 0 then some [] else none
count_marks k (String.◌∷◌ c s) =
    let here = cons_of k (count_marks 0 s) in
    let more = count_marks (suc k) s in if eqb (code c) 98 then here else more

count_marks-marks :
    (n k m : ℕ) (s : String)
    → n + k ≡ m
    → count_marks k (marks n (String.◌∷◌ "b" s)) ≡ cons_of m (count_marks 0 s)
count_marks-marks zero k m s e =
    let q : k ≡ m = omega arith in ap (λ i. cons_of i (count_marks 0 s)) q
count_marks-marks (suc n) k m s e = count_marks-marks n (suc k) m s (omega arith)

reads_tally : (ns : List ℕ) → count_marks 0 (tally ns) ≡ some ns
reads_tally [] = refl
reads_tally (n ∷ ns) =
    count_marks-marks n 0 n (tally ns) (omega arith) ∙ ap (cons_of n) (reads_tally ns)

marks-has_code :
    (p : ℕ → Bool) (n : ℕ) (s : String)
    → p 97 ≡ false
    → has_code p s ≡ false
    → has_code p (marks n s) ≡ false
unfolding has_code
marks-has_code p zero s a h = h
marks-has_code p (suc n) s a h = rw a (marks-has_code p n s a h)

tally-has_code :
    (p : ℕ → Bool) (ns : List ℕ) → p 97 ≡ false → p 98 ≡ false → has_code p (tally ns) ≡ false
unfolding has_code
tally-has_code p [] a b = refl
tally-has_code p (n ∷ ns) a b = marks-has_code p n _ a (rw b (tally-has_code p ns a b))

marks-has_space : (n : ℕ) (s : String) → has_space s ≡ false → has_space (marks n s) ≡ false
unfolding has_space has_code
marks-has_space zero s h = h
marks-has_space (suc n) s h = marks-has_space n s h

tally-has_space : (ns : List ℕ) → has_space (tally ns) ≡ false
unfolding has_space has_code
tally-has_space [] = refl
tally-has_space (n ∷ ns) = marks-has_space n _ (tally-has_space ns)

abbrev claims : SessionClaims
claims = record { subject = "admin"; issued = pos 9; expires = pos 69; nonce = "c0ffee" }

abbrev tallies : Primitives
tallies = record {
  encode = tally;
  decode = count_marks 0;
  mac = λ key bytes. 7 ∷ bytes;
  marshal = λ c. 1 ∷ [];
  unmarshal = λ bytes. some claims;
}

tallies-IsUrlEncoding : IsUrlEncoding tallies
tallies-IsUrlEncoding = record {
  reads_back = reads_tally;
  no_dot = λ bytes. tally-has_code (eqb b'.') bytes refl refl;
  no_space = tally-has_space;
}

-- Made in second 9 for a minute, and asked for in second 60.
verify-new_session_example :
    (token : String) × (c : SessionClaims) × (new_signed_session tallies "secret"
        (pos (60 * second))
        "c0ffee"
        (9 * second)
      ≡ granted (token, c))
    × (verify_signed_session tallies "secret" token (60 * second) ≡ (
        if ltb (60 * second / second) ((9 * second + 60 * second) / second)
        then granted c
        else refused expired))
verify-new_session_example =
    verify-new_session tallies "secret" "c0ffee" (60 * second - 1) (9 * second) (60 * second)
      tallies-IsUrlEncoding (unfold session_claims unix in refl)

abbrev raw_session : String
raw_session = "ab.aaaaaaabab"

verify_session-IsSigned_example :
    (head : String) × (tail : String) × (payload : List ℕ) × (split_on b'.' (trim_space raw_session)
      ≡ head ∷ tail ∷ [])
    × (count_marks 0 head ≡ some payload)
    × (count_marks 0 tail ≡ some (sign tallies "secret" payload))
    × (some claims ≡ some claims)
    × (ltb_ℤ (unix (60 * second)) claims.expires ≡ true)
verify_session-IsSigned_example =
    verify_session-IsSigned tallies "secret" raw_session (60 * second) claims (
      unfold verify_signed_session check_parts check_signature check_claims check_expiry equal_bytes
        sign split_on trim_space unix in
      refl)
