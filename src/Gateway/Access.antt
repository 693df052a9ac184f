-- ===== src/Gateway/Access.antt =====
-- Who may connect from where: NormalizeExternalAccessCIDRs of internal/repository/database_gateways.go.
use mathlib.Core.Path.{subst}
use host_forge.Base.{
  ℕ, String, Option, some, List, [], ◌∷◌, ◌++◌, Bool, true, false, not, ◌&&◌, ◌||◌, ◌≡◌, refl, sym,
  ap, ◌∙◌, ◌⊎◌, inl, inr, arith, ◌==◌, eq_iff, if◌then◌else◌, ltb, is_nil, length, exists_where,
  Bool-cases, Option-cases,
}
use host_forge.Base.Text.{trim_space, codes, lex_lt}
use host_forge.Clock.Texts.{lex_lt_asym}
use host_forge.Sql.{Result, ok, invalid_input, unconfirmed, guard, require, order_by, ◌>>=◌, ◌>>◌}
use host_forge.Sql.Laws.{Member, Member-append, Member-exists_where, exists_where-append}
use host_forge.Sql.Keys.{has_key, DistinctBy, DistinctBy-append}
use host_forge.Sql.Sorted.{
  order_by-Member, Member-order_by, IsInOrder, order_by-IsInOrder, length-order_by, order_by-exists,
  DistinctBy-order_by,
}
use host_forge.Sql.Results.{Result-cases}

abbrev pub is_open_prefix : String → Bool
is_open_prefix c = (c == "0.0.0.0/0") || (c == "::/0")

-- What the loop keeps; `seen` has the texts of `result`.
pub record Collected : Type 0 where
  pub result : List String
  pub admits_all : Bool

unfoldable pub collect_one : String → Collected → Collected
collect_one c acc = record {
  result = if exists_where (λ d. d == c) acc.result then acc.result else acc.result ++ (c ∷ []);
  admits_all = is_open_prefix c || acc.admits_all;
}

-- `canonical` is netip.ParsePrefix, Masked and String; `bit_len` is Addr().BitLen() of a parsed
-- prefix. ErrInvalidExternalAccessCIDR is invalid_input, ErrOpenAccessConfirmationRequired unconfirmed.
unfoldable pub collect_prefixes :
    (String → Option String) → List String → Collected → Result Collected
collect_prefixes canonical [] acc = ok acc
collect_prefixes canonical (value ∷ values) acc = do
  c ← require invalid_input (canonical (trim_space value))
  collect_prefixes canonical values (collect_one c acc)

unfoldable pub prefix_before : (String → ℕ) → String → String → Bool
prefix_before bit_len a b =
    ltb (bit_len a) (bit_len b) || not (ltb (bit_len b) (bit_len a)) && lex_lt (codes a) (codes b)

unfoldable pub normalize_external_access_cidrs :
    (String → Option String) → (String → ℕ) → List String → Bool → Result (List String)
normalize_external_access_cidrs canonical bit_len values confirm_open_access = do
  acc ← collect_prefixes canonical values (record { result = []; admits_all = false })
  guard (not (is_nil acc.result)) invalid_input
  guard (not acc.admits_all || confirm_open_access) unconfirmed
  ok (order_by (prefix_before bit_len) acc.result)

-- A prefix is the text of some value.
abbrev pub IsFrom : (String → Option String) → List String → String → Type 0
IsFrom canonical values c = (v : String) × Member v values × (canonical (trim_space v) ≡ some c)

abbrev pub text_of : String → String
text_of c = c

add_last : (d c : String) (xs : List String) → (d ≡ c) ⊎ Member d xs → Member d (xs ++ (c ∷ []))
add_last d c [] (inl e) = inl e
add_last d c [] (inr m) = absurd m
add_last d c (x ∷ xs) (inl e) = inr (add_last d c xs (inl e))
add_last d c (x ∷ xs) (inr (inl e)) = inl e
add_last d c (x ∷ xs) (inr (inr m)) = inr (add_last d c xs (inr m))

exists_text :
    (c : String) (xs : List String) → exists_where (has_key text_of c) xs ≡ true → Member c xs
exists_text c [] h = cc
exists_text c (x ∷ xs) h = elim (Bool-cases (x == c)) [
  | inl e ↦ let q : c ≡ x = ground (arith, eq_iff x c) in inl q
  | inr e ↦ inr (exists_text c xs (ground arith))
]

collect_one-adds :
    (c d : String) (acc : Collected)
    → (d ≡ c) ⊎ Member d acc.result
    → Member d (collect_one c acc).result
unfolding collect_one
collect_one-adds c d acc h = elim (Bool-cases (exists_where (has_key text_of c) acc.result)) [
  | inl e ↦ rw e (elim h [
    | inl q ↦ subst (λ x. Member x acc.result) (sym q) (exists_text c acc.result e)
    | inr m ↦ m
  ])
  | inr e ↦ rw e (add_last d c acc.result h)
]

collect_one-only :
    (c d : String) (acc : Collected)
    → Member d (collect_one c acc).result
    → (d ≡ c) ⊎ Member d acc.result
unfolding collect_one
collect_one-only c d acc m = elim (Bool-cases (exists_where (has_key text_of c) acc.result)) [
  | inl e ↦ inr (rw e at m)
  | inr e ↦ elim (Member-append d acc.result (c ∷ []) (rw e at m)) [
    | inl n ↦ inr n
    | inr (inl q) ↦ inl q
    | inr (inr n) ↦ absurd n
  ]
]

-- What the loop keeps of the values it has read.
record IsCollected (canonical : String → Option String) (values : List String) (from to : Collected)
    : Type 0 where
  only : (d : String) → Member d to.result → IsFrom canonical values d ⊎ Member d from.result
  kept : (d : String) → Member d from.result → Member d to.result
  every :
      (v : String)
      → Member v values
      → (c : String) × (canonical (trim_space v) ≡ some c) × Member c to.result
  distinct : DistinctBy text_of from.result → DistinctBy text_of to.result
  opened :
      from.admits_all ≡ exists_where is_open_prefix from.result
      → to.admits_all ≡ exists_where is_open_prefix to.result

collect_one-distinct :
    (c : String) (acc : Collected)
    → DistinctBy text_of acc.result
    → DistinctBy text_of (collect_one c acc).result
unfolding collect_one
collect_one-distinct c acc d = elim (Bool-cases (exists_where (has_key text_of c) acc.result)) [
  | inl e ↦ rw e d
  | inr e ↦ rw e (DistinctBy-append text_of c acc.result e d)
]

collect_one-opened :
    (c : String) (acc : Collected)
    → acc.admits_all ≡ exists_where is_open_prefix acc.result
    → (collect_one c acc).admits_all ≡ exists_where is_open_prefix (collect_one c acc).result
unfolding collect_one
collect_one-opened c acc h = elim (Bool-cases (exists_where (has_key text_of c) acc.result)) [
  | inl e ↦ rw e (elim (Bool-cases (is_open_prefix c)) [
    | inl t ↦
        rw t (sym (Member-exists_where is_open_prefix c acc.result (exists_text c acc.result e) t))
    | inr t ↦ rw t h
  ])
  | inr e ↦ rw e (ground (arith, exists_where-append is_open_prefix acc.result (c ∷ [])))
]

collect-IsCollected :
    (canonical : String → Option String) (values : List String) (from to : Collected)
    → collect_prefixes canonical values from ≡ ok to
    → IsCollected canonical values from to
unfolding collect_prefixes
collect-IsCollected canonical [] from to h =
    let same : from ≡ to = ground arith in
    subst (IsCollected canonical [] from) same (record {
      only = λ d m. inr m;
      kept = λ d m. m;
      every = λ v m. absurd m;
      distinct = λ d. d;
      opened = λ o. o;
    })
collect-IsCollected canonical (value ∷ values) from to h =
    elim (Option-cases (canonical (trim_space value))) [
      | inl e ↦ absurd (ground arith)
      | inr (c, e) ↦
          let next = collect_one c from in
          let rest = collect-IsCollected canonical values next to (rw e at h) in
          record {
            only = λ d m. elim (rest.only d m) [
              | inl (v, n, q) ↦ inl (v, inr n, q)
              | inr n ↦ elim (collect_one-only c d from n) [
                | inl q ↦ inl (value, inl refl, e ∙ ap some (sym q))
                | inr k ↦ inr k
              ]
            ];
            kept = λ d m. rest.kept d (collect_one-adds c d from (inr m));
            every = λ v m. elim m [
              | inl q ↦ (
                c,
                ap (λ t. canonical (trim_space t)) q ∙ e,
                rest.kept c (collect_one-adds c c from (inl refl)),
              )
              | inr n ↦ rest.every v n
            ];
            distinct = λ d. rest.distinct (collect_one-distinct c from d);
            opened = λ o. rest.opened (collect_one-opened c from o);
          }
    ]

prefix_before_asym :
    (bit_len : String → ℕ) (a b : String)
    → prefix_before bit_len a b ≡ true
    → prefix_before bit_len b a ≡ false
unfolding prefix_before
prefix_before_asym bit_len a b h = ground (arith, lex_lt_asym (codes a) (codes b))

-- What the accepted list is: the prefixes of the values, each once, in order.
abbrev pub IsNormal :
    (String → Option String) → (String → ℕ) → List String → Bool → List String → Type 0
IsNormal canonical bit_len values confirmed prefixes =
    ((c : String) → Member c prefixes → IsFrom canonical values c)
    × ((v : String)
        → Member v values
        → (c : String) × (canonical (trim_space v) ≡ some c) × Member c prefixes)
    × DistinctBy text_of prefixes
    × IsInOrder (prefix_before bit_len) prefixes
    × (is_nil prefixes ≡ false)
    × ((not (exists_where is_open_prefix prefixes) || confirmed) ≡ true)

some_left :
    {A : Type 0} (xs ys : List A) → length xs ≡ length ys → is_nil ys ≡ false → is_nil xs ≡ false
some_left [] [] e h = h
some_left [] (y ∷ ys) e h = absurd (omega arith)
some_left (x ∷ xs) ys e h = refl

-- The prefixes of a list that is accepted are those of its values, each once and in order, one at
-- least, and a prefix that admits every address is among them only where that was confirmed.
pub normalize-IsNormal :
    (canonical : String → Option String) (bit_len : String → ℕ) (values : List String)
    (confirmed : Bool) (prefixes : List String)
    → normalize_external_access_cidrs canonical bit_len values confirmed ≡ ok prefixes
    → IsNormal canonical bit_len values confirmed prefixes
unfolding normalize_external_access_cidrs
normalize-IsNormal canonical bit_len values confirmed prefixes h =
    let none_yet : Collected = record { result = []; admits_all = false } in
    elim (Result-cases (collect_prefixes canonical values none_yet)) [
      | inr (e, q) ↦ absurd (ground arith)
      | inl (acc, q) ↦
          let c = collect-IsCollected canonical values none_yet acc q in
          let order = prefix_before bit_len in
          let sorted : order_by order acc.result ≡ prefixes = ground arith in
          let opened = c.opened refl in
          let same_open = order_by-exists order is_open_prefix acc.result in
          let some_kept : is_nil acc.result ≡ false = ground arith in
          let allowed : (not acc.admits_all || confirmed) ≡ true = ground arith in
          subst (IsNormal canonical bit_len values confirmed) sorted (
            (λ d m. elim (c.only d (Member-order_by order d acc.result m)) [
              | inl f ↦ f
              | inr n ↦ absurd n
            ]),
            (λ v m. let (d, e, n) = c.every v m in (d, e, order_by-Member order d acc.result n)),
            DistinctBy-order_by text_of order acc.result (c.distinct tt),
            order_by-IsInOrder order (λ a b. prefix_before_asym bit_len a b) acc.result,
            some_left (order_by order acc.result) acc.result (length-order_by order acc.result)
                some_kept,
            ap (λ b. not b || confirmed) (same_open ∙ sym opened) ∙ allowed,
          )
    ]
