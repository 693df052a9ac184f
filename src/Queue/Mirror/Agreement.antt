-- ===== src/Queue/Mirror/Agreement.antt =====
-- Agreement of an operation with its row of database_operations, kept by updates of both tables.
use mathlib.Core.Path.{subst}
use host_forge.Base.{
  ◌≡◌, refl, sym, ap, ◌∙◌, String, Bool, true, arith, Bool-cases, inl, inr, List, ◌==◌, ◌&&◌,
  eq_iff, eqb, exists_where,
}
use host_forge.Sql.{update_where, count_where}
use host_forge.Sql.Laws.{Member, exists_where-Member, Member-exists_where}
use host_forge.Sql.Updates.{Member-of_update_where, count_where_zero}
use host_forge.Queue.Rows.{Operation, DatabaseOperation}
use host_forge.Queue.Recovery.{is_selected}
use host_forge.Queue.Lifecycle.{Distinct}
use host_forge.Queue.Changes.Claims.{Distinct-Member}

-- The columns that both tables have: the service, and those that the queue writes.
pub record Agrees (o : Operation) (d : DatabaseOperation) : Type 0 where
  pub service_id : d.service_id ≡ o.service_id
  pub status : d.status ≡ o.status
  pub progress_step : d.progress_step ≡ o.progress_step
  pub progress_percent : d.progress_percent ≡ o.progress_percent
  pub attempt : d.attempt_count ≡ o.attempt
  pub error_code : d.error_code ≡ o.error_code
  pub error_message : d.error_message ≡ o.error_message
  pub started_at : d.started_at ≡ o.started_at
  pub completed_at : d.completed_at ≡ o.completed_at

abbrev pub Mirrors : List Operation → List DatabaseOperation → Type 0
Mirrors ops dbs =
    (o : Operation) (d : DatabaseOperation)
    → Member o ops
    → Member d dbs
    → (d.id == o.id) ≡ true
    → Agrees o d

-- Rows of one id are updated together, or neither is.
abbrev pub Coherent : (Operation → Bool) → (DatabaseOperation → Bool) → List Operation → Type 0
Coherent p q ops =
    (o : Operation) (d : DatabaseOperation)
    → Member o ops
    → (d.id == o.id) ≡ true
    → Agrees o d
    → p o ≡ q d

pub Mirrors-update_where :
    (p : Operation → Bool) (f : Operation → Operation) (ops : List Operation)
    (q : DatabaseOperation → Bool) (g : DatabaseOperation → DatabaseOperation)
    (dbs : List DatabaseOperation)
    → ((o : Operation) → (f o).id ≡ o.id)
    → ((d : DatabaseOperation) → (g d).id ≡ d.id)
    → Coherent p q ops
    → ((o : Operation) (d : DatabaseOperation) → p o ≡ true → Agrees o d → Agrees (f o) (g d))
    → Mirrors ops dbs
    → Mirrors (update_where p f ops) (update_where q g dbs)
Mirrors-update_where p f ops q g dbs keep keep' coherent step mirrors o' d' m n h =
    let (o, om, oe) = Member-of_update_where p f o' ops m in
    let (d, dm, de) = Member-of_update_where q g d' dbs n in
    let oid : o'.id ≡ o.id = ground (arith, keep o, oe) in
    let did : d'.id ≡ d.id = ground (arith, keep' d, de) in
    let same : (d.id == o.id) ≡ true = rw (sym oid, sym did) h in
    let agree = mirrors o d om dm same in
    let both = coherent o d om same agree in
    elim (Bool-cases (p o)) [
      | inl e ↦
          subst (λ (x : Operation). Agrees x d') (sym (rw e at oe))
            (subst (λ (y : DatabaseOperation). Agrees (f o) y) (sym (rw (sym both ∙ e) at de))
              (step o d e agree))
      | inr e ↦
          subst (λ (x : Operation). Agrees x d') (sym (rw e at oe))
            (subst (λ (y : DatabaseOperation). Agrees o y) (sym (rw (sym both ∙ e) at de)) agree)
    ]

-- An UPDATE of operations alone that the read model does not show.
pub Mirrors-update_left :
    (p : Operation → Bool) (f : Operation → Operation) (ops : List Operation)
    (dbs : List DatabaseOperation)
    → ((o : Operation) → (f o).id ≡ o.id)
    → ((o : Operation) (d : DatabaseOperation) → Agrees o d → Agrees (f o) d)
    → Mirrors ops dbs
    → Mirrors (update_where p f ops) dbs
Mirrors-update_left p f ops dbs keep step mirrors o' d m n h =
    let (o, om, oe) = Member-of_update_where p f o' ops m in
    let oid : o'.id ≡ o.id = ground (arith, keep o, oe) in
    let agree = mirrors o d om n (rw (sym oid) h) in
    elim (Bool-cases (p o)) [
      | inl e ↦ subst (λ (x : Operation). Agrees x d) (sym (rw e at oe)) (step o d agree)
      | inr e ↦ subst (λ (x : Operation). Agrees x d) (sym (rw e at oe)) agree
    ]

-- A guarded UPDATE by id that affected a row, beside the UPDATE by id alone.
pub Coherent-keyed :
    (id : String) (p : Operation → Bool) (ops : List Operation)
    → ((o : Operation) → p o ≡ true → (o.id == id) ≡ true)
    → Distinct ops
    → eqb (count_where p ops) 1 ≡ true
    → Coherent p (λ d. d.id == id) ops
Coherent-keyed id p ops key distinct one o d m h a = elim (Bool-cases (exists_where p ops)) [
  | inr e ↦ absurd (ground (arith, count_where_zero p ops e))
  | inl e ↦
      let (c, n, pc) = exists_where-Member p ops e in
      elim (Bool-cases (o.id == c.id)) [
        | inl same ↦
            let oc : o ≡ c = Distinct-Member o c ops distinct m n same in
            let po : p o ≡ true = ap p oc ∙ pc in
            ground (arith, key o, eq_iff o.id id, eq_iff d.id id, eq_iff d.id o.id)
        | inr other ↦ ground (
          arith,
          key o,
          key c pc,
          eq_iff o.id id,
          eq_iff c.id id,
          eq_iff d.id id,
          eq_iff d.id o.id,
          eq_iff o.id c.id,
        )
      ]
]

-- An UPDATE over a subquery on operations, beside that on its condition.
pub Coherent-selected :
    (p : Operation → Bool) (ops : List Operation)
    → Distinct ops
    → Coherent p (λ d. is_selected p ops d.id) ops
Coherent-selected p ops distinct o d m h a =
    elim (Bool-cases (exists_where (λ x. p x && (x.id == d.id)) ops)) [
      | inl e ↦
          let (c, n, pc) = exists_where-Member (λ x. p x && (x.id == d.id)) ops e in
          let oc : o ≡ c =
            Distinct-Member o c ops distinct m n
              (ground (arith, eq_iff c.id d.id, eq_iff d.id o.id, eq_iff o.id c.id)) in
          rw e (ap p oc ∙ ground arith)
      | inr e ↦ elim (Bool-cases (p o)) [
        | inl po ↦ cc (
          e,
          Member-exists_where (λ x. p x && (x.id == d.id)) o ops m
              (ground (arith, eq_iff d.id o.id, eq_iff o.id d.id)),
        )
        | inr po ↦ rw (e, po) refl
      ]
    ]
