-- ===== src/Queue/Invariants/Distinctness.antt =====
-- Ids stay distinct, and each old row makes one move.
use mathlib.Core.Path.{subst}
use host_forge.Base.{
  ◌≡◌, refl, sym, ap, ◌∙◌, Bool, true, false, arith, Bool-cases, inl, inr, List, [], ◌∷◌, ◌++◌,
  ◌==◌, All, exists_where, eq_iff, ◌<◌,
}
use host_forge.Sql.{update_where}
use host_forge.Sql.Laws.{Member, exists_where-append, All-Member}
use host_forge.Sql.Updates.{exists_where-update_where}
use host_forge.Queue.Rows.{Operation}
use host_forge.Queue.Enqueue.{has_id}
use host_forge.Queue.Claim.{claimable}
use host_forge.Queue.Lifecycle.{
  Frame, Move, stays, touched, claimed, deferred, finished, cancelled, interrupted, requeued, IsNew,
  Evolves, Distinct, Change, unchanged, inserted, updated, started,
}

pub Move-Frame : {o p : Operation} → Move o p → Frame o p
Move-Frame {o} {p} (stays e) = record {
  id = ap (λ (x : Operation). x.id) e;
  kind = ap (λ (x : Operation). x.kind) e;
  lock_key = ap (λ (x : Operation). x.lock_key) e;
  priority = ap (λ (x : Operation). x.priority) e;
  max_attempts = ap (λ (x : Operation). x.max_attempts) e;
  service_id = ap (λ (x : Operation). x.service_id) e;
  created_at = ap (λ (x : Operation). x.created_at) e;
}
Move-Frame (touched _ _ _ f) = f
Move-Frame (claimed _ _ _ _ f) = f
Move-Frame (deferred _ _ _ f) = f
Move-Frame (finished _ _ _ f) = f
Move-Frame (cancelled _ _ _ f) = f
Move-Frame (interrupted _ _ _ _ f) = f
Move-Frame (requeued _ _ _ _ f) = f

-- An UPDATE whose rows move keeps the ids distinct.
pub Distinct-update_where :
    (p : Operation → Bool) (f : Operation → Operation) (ops : List Operation)
    → ((o : Operation) → Member o ops → p o ≡ true → (f o).id ≡ o.id)
    → Distinct ops
    → Distinct (update_where p f ops)
Distinct-update_where p f [] keep d = tt
Distinct-update_where p f (o ∷ ops) keep d =
    let rest = Distinct-update_where p f ops (λ x m. keep x (inr m)) d.1 in
    let fresh =
      exists_where-update_where p (has_id o.id) f ops
        (λ x m h. ap (λ i. i == o.id) (keep x (inr m) h))
      ∙ d.0 in
    elim (Bool-cases (p o)) [
      | inl e ↦ rw e (rw (keep o (inl refl) e) fresh, rest)
      | inr e ↦ rw e (fresh, rest)
    ]

Distinct-append :
    (o : Operation) (ops : List Operation)
    → exists_where (has_id o.id) ops ≡ false
    → Distinct ops
    → Distinct (ops ++ (o ∷ []))
Distinct-append o [] h d = (refl, tt)
Distinct-append o (x ∷ ops) h d = (
  ground (
    arith,
    exists_where-append (has_id x.id) ops (o ∷ []),
    eq_iff x.id o.id,
    eq_iff o.id x.id,
    d.0,
  ),
  Distinct-append o ops (ground arith) d.1,
)

Evolves-update_where :
    (p : Operation → Bool) (f : Operation → Operation) (ops : List Operation)
    → ((o : Operation) → Member o ops → p o ≡ true → Move o (f o))
    → Evolves ops (update_where p f ops)
Evolves-update_where p f [] moves = tt
Evolves-update_where p f (o ∷ ops) moves =
    let rest = Evolves-update_where p f ops (λ x m. moves x (inr m)) in
    elim (Bool-cases (p o)) [
      | inl e ↦ rw e (moves o (inl refl) e, rest)
      | inr e ↦ rw e (stays refl, rest)
    ]

Evolves-append : (o : Operation) (ops : List Operation) → IsNew o → Evolves ops (ops ++ (o ∷ []))
Evolves-append o [] new = (new, tt)
Evolves-append o (x ∷ ops) new = (stays refl, Evolves-append o ops new)

Evolves-refl : (ops : List Operation) → Evolves ops ops
Evolves-refl [] = tt
Evolves-refl (o ∷ ops) = (stays refl, Evolves-refl ops)

-- The one row that a claim starts makes a move.
pub started-Move :
    (c : Operation) (f : Operation → Operation) (ops : List Operation)
    → ((o : Operation) → claimable c.id o ≡ true → o.attempt < o.max_attempts → Move o (f o))
    → All
        (λ o. claimable c.id o ≡ true → (o.attempt < o.max_attempts) × (o.lock_key ≡ c.lock_key))
        ops
    → (o : Operation) → Member o ops
    → claimable c.id o ≡ true
    → Move o (f o)
started-Move c f ops moves facts o m h = moves o h (All-Member _ o ops facts m h).0

pub Change-Evolves : {ops ops' : List Operation} → Change ops ops' → Evolves ops ops'
Change-Evolves {ops} (unchanged e) = subst (Evolves ops) (sym e) (Evolves-refl ops)
Change-Evolves {ops} (inserted o fresh new e) =
    subst (Evolves ops) (sym e) (Evolves-append o ops new)
Change-Evolves {ops} (updated p f moves idle e) =
    subst (Evolves ops) (sym e) (Evolves-update_where p f ops (λ o m h. moves o h))
Change-Evolves {ops} (started c f moves facts free e) =
    subst (Evolves ops) (sym e)
      (Evolves-update_where (claimable c.id) f ops (started-Move c f ops moves facts))

pub Change-Distinct : {ops ops' : List Operation} → Change ops ops' → Distinct ops → Distinct ops'
Change-Distinct (unchanged e) d = subst Distinct (sym e) d
Change-Distinct {ops} (inserted o fresh new e) d =
    subst Distinct (sym e) (Distinct-append o ops fresh d)
Change-Distinct {ops} (updated p f moves idle e) d =
    subst Distinct (sym e) (Distinct-update_where p f ops (λ o m h. (Move-Frame (moves o h)).id) d)
Change-Distinct {ops} (started c f moves facts free e) d = subst Distinct (sym e) (
    Distinct-update_where (claimable c.id) f ops
      (λ o m h. (Move-Frame (started-Move c f ops moves facts o m h)).id) d)
