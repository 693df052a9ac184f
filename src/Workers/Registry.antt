-- ===== src/Workers/Registry.antt =====
-- Handlers by kind: internal/workers/registry.go.
use mathlib.Core.Path.{subst}
use host_forge.Base.{
  ℕ, String, Option, none, some, List, [], ◌∷◌, Bool, true, false, ◌==◌, if◌then◌else◌, ◌≡◌, refl,
  arith, eq_iff, ◌≢◌, ◌∙◌, Option-cases, Bool-cases, inl, inr, map, exists_where, ◌||◌,
}
use host_forge.Base.Text.{trim_space, lex_lt, codes}
use host_forge.Sql.{Error, Result, ok, err, invalid_input, constraint}
use host_forge.Queue.Rows.{Operation, Db}

-- HandlerError, or a plain error, whose code is none.
pub record HandlerFailure : Type 0 where
  pub code : Option String
  pub message : String

-- What Ready reports: ErrOperationObsolete, another error, or how long to wait, 0 for "run now".
pub data Readiness : Type 0 where
  obsolete : Readiness
  unready : HandlerFailure → Readiness
  retry_after : ℕ → Readiness

-- How Handle comes back: nil, context.Canceled, or another error.
pub data Outcome : Type 0 where
  handled : Outcome
  cancelled : Outcome
  failed : HandlerFailure → Outcome

-- A handler's work is not modelled: it reads and writes the database as it likes. The readiness
-- check is optional.
pub record Handler : Type 0 where
  pub kind : String
  pub ready : Option (Operation → Db → Readiness)
  pub handle : Operation → Db → Outcome × Db

-- map[string]Handler
abbrev pub Registry : Type 0
Registry = List (String × Handler)

unfoldable pub lookup_kind : String → Registry → Option Handler
lookup_kind kind [] = none
lookup_kind kind ((k, h) ∷ rest) = if k == kind then some h else lookup_kind kind rest

unfoldable pub lookup : Registry → String → Option Handler
lookup r kind = lookup_kind (trim_space kind) r

abbrev pub is_registered : Option Handler → Bool
is_registered none = false
is_registered (some h) = true

unfoldable pub register : Registry → Handler → Result Registry
register r h =
    if trim_space h.kind == ""
    then err invalid_input
    else if is_registered (lookup_kind (trim_space h.kind) r)
    then err constraint
    else ok ((trim_space h.kind, h) ∷ r)

-- The loop of Register: it stops at the first handler that is refused, and keeps those before it.
unfoldable pub register_all : Registry → List Handler → Registry × Option Error
register_all r [] = (r, none)
register_all r (h ∷ hs) = elim (register r h) [ ok r' ↦ register_all r' hs | err e ↦ (r, some e) ]

unfoldable pub insert_sorted : String → List String → List String
insert_sorted s [] = s ∷ []
insert_sorted s (t ∷ ts) =
    let rest = insert_sorted s ts in if lex_lt (codes t) (codes s) then t ∷ rest else s ∷ t ∷ ts

unfoldable pub sort_strings : List String → List String
sort_strings [] = []
sort_strings (s ∷ ss) = insert_sorted s (sort_strings ss)

unfoldable pub kinds : Registry → List String
unfolding insert_sorted sort_strings
kinds r = sort_strings (map (λ entry. entry.0) r)

-- A handler that is accepted is found under its trimmed kind, no other kind's handler changes, and its
-- kind was neither taken nor blank.
pub lookup-register :
    (r r' : Registry) (h : Handler) (kind : String)
    → register r h ≡ ok r'
    → (lookup r' kind ≡ (if trim_space h.kind == trim_space kind then some h else lookup r kind))
      × (lookup_kind (trim_space h.kind) r ≡ none)
      × (trim_space h.kind ≢ "")
unfolding register lookup lookup_kind
lookup-register r r' h kind e = elim (Bool-cases (trim_space h.kind == "")) [
  | inl blank ↦ absurd (ground arith)
  | inr named ↦ elim (Option-cases (lookup_kind (trim_space h.kind) r)) [
    | inr (other, taken) ↦ absurd (ground arith)
    | inl free ↦
        let added : (trim_space h.kind, h) ∷ r ≡ r' = ground arith in
        (
          subst
              (λ (x : Registry). lookup_kind (trim_space kind) x ≡ (
                if trim_space h.kind == trim_space kind
                then some h
                else lookup_kind (trim_space kind) r))
              added refl,
          free,
          (λ q. ground (arith, eq_iff (trim_space h.kind) "")),
        )
  ]
]

insert_sorted-exists :
    (k s : String) (ss : List String)
    → exists_where (λ j. k == j) (insert_sorted s ss) ≡ ((k == s) || exists_where (λ j. k == j) ss)
unfolding insert_sorted
insert_sorted-exists k s [] = refl
insert_sorted-exists k s (t ∷ ts) = ground (arith, insert_sorted-exists k s ts)

sort_strings-exists :
    (k : String) (ss : List String)
    → exists_where (λ j. k == j) (sort_strings ss) ≡ exists_where (λ j. k == j) ss
unfolding sort_strings
sort_strings-exists k [] = refl
sort_strings-exists k (s ∷ ss) =
    ground (arith, insert_sorted-exists k s (sort_strings ss), sort_strings-exists k ss)

keys-lookup_kind :
    (k : String) (r : Registry)
    → exists_where (λ j. k == j) (map (λ entry. entry.0) r) ≡ is_registered (lookup_kind k r)
unfolding lookup_kind
keys-lookup_kind k [] = refl
keys-lookup_kind k ((j, h) ∷ r) = ground (arith, eq_iff k j, eq_iff j k, keys-lookup_kind k r)

-- The sorted kinds are those that have a handler.
pub kinds-lookup_kind :
    (k : String) (r : Registry)
    → exists_where (λ j. k == j) (kinds r) ≡ is_registered (lookup_kind k r)
unfolding kinds
kinds-lookup_kind k r = sort_strings-exists k (map (λ entry. entry.0) r) ∙ keys-lookup_kind k r
