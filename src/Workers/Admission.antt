-- ===== src/Workers/Admission.antt =====
-- Which operations a runtime claims: the kinds that Registry.Kinds of internal/workers/registry.go hands
-- to the claim of internal/repository/operations.go.
use host_forge.Base.{
  String, List, [], ◌∷◌, true, false, ◌≡◌, refl, sym, ◌∙◌, arith, ◌||◌, ◌==◌, is_nil, exists_where,
}
use host_forge.Clock.{Time}
use host_forge.Queue.Rows.{Operation}
use host_forge.Queue.Claim.{kind_admitted, is_runnable}
use host_forge.Workers.Registry.{
  Registry, kinds, sort_strings, insert_sorted, lookup_kind, is_registered, kinds-lookup_kind,
}
use host_forge.Workers.Runtime.{Config, claim_options}

sorted_some : (s : String) (ss : List String) → is_nil (insert_sorted s ss) ≡ false
unfolding insert_sorted
sorted_some s [] = refl
sorted_some s (t ∷ ts) = ground arith

is_nil-kinds : (r : Registry) → is_nil (kinds r) ≡ is_nil r
unfolding kinds sort_strings
is_nil-kinds [] = refl
is_nil-kinds ((k, h) ∷ r) = sorted_some k (kinds r)

admitted_by_list :
    (ks : List String) (kind : String)
    → kind_admitted ks kind ≡ (is_nil ks || exists_where (λ j. kind == j) ks)
admitted_by_list [] kind = refl
admitted_by_list (k ∷ ks) kind = refl

-- The claim of a runtime admits a kind exactly where a handler is registered for it, or, for every
-- kind, where no handler is registered at all; and what its WHERE clause passes is of such a kind.
pub claim-IsAdmitted :
    (cfg : Config) (r : Registry) (owner : String) (now : Time) (ops : List Operation)
    (o : Operation)
    → (kind_admitted (claim_options cfg r owner).kinds o.kind
        ≡ (is_nil r || is_registered (lookup_kind o.kind r)))
      × (is_runnable now (claim_options cfg r owner) ops o ≡ true
          → (is_nil r || is_registered (lookup_kind o.kind r)) ≡ true)
unfolding claim_options is_runnable
claim-IsAdmitted cfg r owner now ops o =
    let admits : kind_admitted (kinds r) o.kind
        ≡ (is_nil r || is_registered (lookup_kind o.kind r)) =
      admitted_by_list (kinds r) o.kind ∙ rw (is_nil-kinds r, kinds-lookup_kind o.kind r) refl in
    (admits, (λ h. sym admits ∙ ground arith))
