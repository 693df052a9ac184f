-- ===== src/Queue/Invariants/Locks.antt =====
-- One running row per lock key.
use mathlib.Core.Path.{subst}
use host_forge.Base.{
  ◌≡◌, refl, sym, Bool, true, false, arith, Bool-cases, inl, inr, List, [], ◌∷◌, ◌++◌, All,
  exists_where, eq_iff, String,
}
use host_forge.Sql.{update_where}
use host_forge.Sql.Laws.{exists_where-append, exists_where_mono, All-Member, All-intro}
use host_forge.Sql.Updates.{exists_where-update_where_le, update_where_none}
use host_forge.Queue.Rows.{Operation, is_running}
use host_forge.Queue.Enqueue.{has_id}
use host_forge.Queue.Claim.{claimable, holds_lock}
use host_forge.Queue.Lifecycle.{
  Move, Distinct, Exclusive, Change, unchanged, inserted, updated, started,
}
use host_forge.Queue.Invariants.Distinctness.{Move-Frame, started-Move}

-- An UPDATE that starts no row.
Exclusive-update_where :
    (p : Operation → Bool) (f : Operation → Operation) (ops : List Operation)
    → ((o : Operation) → p o ≡ true → Move o (f o))
    → ((o : Operation) → p o ≡ true → is_running (f o).status ≡ true → is_running o.status ≡ true)
    → Exclusive ops
    → Exclusive (update_where p f ops)
Exclusive-update_where p f [] moves idle x = tt
Exclusive-update_where p f (o ∷ ops) moves idle x =
    let rest = Exclusive-update_where p f ops moves idle x.1 in
    let free = λ (r : is_running o.status ≡ true).
      exists_where-update_where_le p (holds_lock o.lock_key) f ops
        (λ y m h g. ground (arith, idle y h, (Move-Frame (moves y h)).lock_key)) (x.0 r) in
    elim (Bool-cases (p o)) [
      | inl e ↦ rw e ((λ r. rw (Move-Frame (moves o e)).lock_key (free (idle o e r))), rest)
      | inr e ↦ rw e (free, rest)
    ]

Exclusive-append :
    (o : Operation) (ops : List Operation)
    → is_running o.status ≡ false
    → Exclusive ops
    → Exclusive (ops ++ (o ∷ []))
Exclusive-append o [] idle x = ((λ r. refl), tt)
Exclusive-append o (y ∷ ops) idle x = (
  (λ r. ground (arith, x.0 r, exists_where-append (holds_lock y.lock_key) ops (o ∷ []))),
  Exclusive-append o ops idle x.1,
)

-- The started row's lock was free, and no other row has its id.
Exclusive-started :
    (id lock : String) (f : Operation → Operation) (ops : List Operation)
    → All (λ o. claimable id o ≡ true → ((f o).lock_key ≡ o.lock_key) × (o.lock_key ≡ lock)) ops
    → exists_where (holds_lock lock) ops ≡ false
    → Distinct ops
    → Exclusive ops
    → Exclusive (update_where (claimable id) f ops)
Exclusive-started id lock f [] facts free d x = tt
Exclusive-started id lock f (o ∷ ops) facts free d x = elim (Bool-cases (claimable id o)) [
  | inl e ↦
      let others = update_where_none (claimable id) f ops (
        exists_where_mono (claimable id) (has_id o.id) ops
          (λ y h. ground (arith, eq_iff y.id id, eq_iff o.id id, eq_iff y.id o.id)) d.0) in
      rw (e, others) ((λ r. rw ((facts.0 e).0, (facts.0 e).1) (ground arith)), x.1)
  | inr e ↦ rw e (
    (λ r.
        exists_where-update_where_le (claimable id) (holds_lock o.lock_key) f ops
          (λ y m h g.
            let (same, its) = All-Member _ y ops facts.1 m h in
            absurd (ground (arith, eq_iff (f y).lock_key o.lock_key, eq_iff o.lock_key lock)))
          (x.0 r)),
    Exclusive-started id lock f ops facts.1 (ground arith) d.1 x.1,
  )
]

pub Change-Exclusive :
    {ops ops' : List Operation} → Change ops ops' → Distinct ops → Exclusive ops → Exclusive ops'
Change-Exclusive (unchanged e) d x = subst Exclusive (sym e) x
Change-Exclusive {ops} (inserted o fresh new e) d x =
    subst Exclusive (sym e) (Exclusive-append o ops new.idle x)
Change-Exclusive {ops} (updated p f moves idle e) d x =
    subst Exclusive (sym e) (Exclusive-update_where p f ops moves idle x)
Change-Exclusive {ops} (started c f moves facts free e) d x = subst Exclusive (sym e) (
    Exclusive-started c.id c.lock_key f ops
      (All-intro ops (λ o m h. (
        (Move-Frame (started-Move c f ops moves facts o m h)).lock_key,
        (All-Member _ o ops facts m h).1,
      )))
      free d x)
