-- ===== src/Queue/Changes/Claims.antt =====
-- A claim: its candidate, and the change that it makes.
use mathlib.Core.Path.{subst}
use host_forge.Base.{
  ◌+◌, ◌<◌, ◌≡◌, refl, sym, ap, ◌∙◌, some, Bool, true, false, arith, eqb, ltb, Bool-cases,
  Option-cases, inl, inr, ◌⊎◌, List, [], ◌∷◌, ◌==◌, ◌||◌, not, ◌&&◌, eq_iff, ltb→lt, lt→ltb,
  exists_where,
}
use host_forge.Base.Int.{leb_ℤ}
use host_forge.Base.Text.{trim_space}
use host_forge.Sql.{filter_rows, count_where, ok, no_rows, invalid_input}
use host_forge.Sql.Laws.{Member, Member-exists_where, filter_rows_sound, All-intro}
use host_forge.Sql.Order.{first_row-Member}
use host_forge.Clock.{Time, second}
use host_forge.Queue.Rows.{Operation, Db, is_queued}
use host_forge.Queue.Enqueue.{has_id, get_operation}
use host_forge.Queue.Claim.{
  ClaimOptions, holds_lock, is_available, kind_admitted, is_runnable, claims_before, candidate,
  claimable, clock_of, claim_next_operation, mark_claimed,
}
use host_forge.Queue.Lifecycle.{Distinct, Change, started, unchanged}
use host_forge.Queue.Steps.{after}
use host_forge.Queue.Changes.Update.{mark_claimed-Move}
use host_forge.Queue.Changes.Tables.{SameQueue}
use host_forge.Queue.Changes.Outcomes.{IsErr, claimed_db, claim_row_cases}

-- Where ids are distinct, an id names one row.
pub Distinct-Member :
    (o c : Operation) (ops : List Operation)
    → Distinct ops
    → Member o ops
    → Member c ops
    → (o.id == c.id) ≡ true
    → o ≡ c
Distinct-Member o c [] d m n h = absurd m
Distinct-Member o c (x ∷ xs) d (inl p) (inl q) h = p ∙ sym q
Distinct-Member o c (x ∷ xs) d (inl p) (inr n) h =
    let hit =
      Member-exists_where (has_id x.id) c xs n
        (ground (arith, eq_iff o.id c.id, eq_iff c.id x.id, ap (λ (r : Operation). r.id) p)) in
    absurd (cc (d.0, hit))
Distinct-Member o c (x ∷ xs) d (inr m) (inl q) h =
    let hit =
      Member-exists_where (has_id x.id) o xs m
        (ground (arith, eq_iff o.id c.id, eq_iff o.id x.id, ap (λ (r : Operation). r.id) q)) in
    absurd (cc (d.0, hit))
Distinct-Member o c (x ∷ xs) d (inr m) (inr n) h = Distinct-Member o c xs d.1 m n h

-- The conjuncts of the candidate's WHERE clause.
pub record IsRunnable (now : Time) (opts : ClaimOptions) (ops : List Operation) (o : Operation)
    : Type 0 where
  pub waiting : is_queued o.status ≡ true
  pub available : is_available now o.available_at ≡ true
  pub attempts_left : o.attempt < o.max_attempts
  pub priority : leb_ℤ opts.min_priority o.priority ≡ true
  pub lock_free : exists_where (holds_lock o.lock_key) ops ≡ false
  pub kind : kind_admitted opts.kinds o.kind ≡ true

-- Six conjuncts hold together exactly where each does.
conjuncts :
    (a b c d e f : Bool)
    → (a && b && c && d && not e && f) ≡ true
    → (a ≡ true) × (b ≡ true) × (c ≡ true) × (d ≡ true) × (e ≡ false) × (f ≡ true)
conjuncts true true true true false true h = (refl, refl, refl, refl, refl, refl)
conjuncts a b c d e f h = ground arith

is_runnable-IsRunnable :
    (now : Time) (opts : ClaimOptions) (ops : List Operation) (o : Operation)
    → is_runnable now opts ops o ≡ true
    → IsRunnable now opts ops o
unfolding is_runnable
is_runnable-IsRunnable now opts ops o h =
    let (w, a, l, p, f, k) = conjuncts _ _ _ _ _ _ h in
    record {
      waiting = w;
      available = a;
      attempts_left = ltb→lt _ _ l;
      priority = p;
      lock_free = f;
      kind = k;
    }

pub IsRunnable-is_runnable :
    (now : Time) (opts : ClaimOptions) (ops : List Operation) (o : Operation)
    → IsRunnable now opts ops o
    → is_runnable now opts ops o ≡ true
unfolding is_runnable
IsRunnable-is_runnable now opts ops o r =
    rw (r.waiting, r.available, lt→ltb _ _ r.attempts_left, r.priority, r.lock_free, r.kind) refl

pub candidate_sound :
    (now : Time) (opts : ClaimOptions) (c : Operation) (ops : List Operation)
    → candidate now opts ops ≡ some c
    → IsRunnable now opts ops c × Member c ops
unfolding candidate
candidate_sound now opts c ops h =
    let m = first_row-Member claims_before c (filter_rows (is_runnable now opts ops) ops) h in
    let (r, n) = filter_rows_sound (is_runnable now opts ops) c ops m in
    (is_runnable-IsRunnable now opts ops c r, n)

abbrev pub claim_time : ClaimOptions → Time → Time
claim_time opts wall = clock_of opts.now wall

abbrev pub claim_result : Operation → ClaimOptions → Time → Db → Db
claim_result c opts wall =
    claimed_db c.id (trim_space opts.owner) (claim_time opts wall + opts.lease)
      (claim_time opts wall)

-- A claim takes the candidate, or it fails and changes nothing.
pub claim_cases :
    (opts : ClaimOptions) (wall : Time) (db : Db)
    → ((c : Operation) × (db' : Db) × (candidate (claim_time opts wall) opts db.operations ≡ some c)
        × (claim_next_operation opts wall db ≡ ok (get_operation c.id db', db'))
        × SameQueue (claim_result c opts wall db) db'
        × (eqb (count_where (claimable c.id) db.operations) 1 ≡ true))
      ⊎ IsErr (claim_next_operation opts wall db)
unfolding claim_next_operation
claim_cases opts wall db =
    elim (Bool-cases ((trim_space opts.owner == "") || ltb opts.lease second)) [
      | inl e ↦ inr (invalid_input, rw e refl)
      | inr e ↦ elim (Option-cases (candidate (claim_time opts wall) opts db.operations)) [
        | inl empty ↦ inr (no_rows, rw (e, empty) refl)
        | inr (c, found) ↦
            elim (claim_row_cases c.id (trim_space opts.owner) (claim_time opts wall + opts.lease)
              (claim_time opts wall) db) [
                | inr (_, lost) ↦ inr (no_rows, rw (e, found, lost) refl)
                | inl (db', done, same, one) ↦
                    inl (c, db', found, rw (e, found, done) refl, same, one)
              ]
      ]
    ]

pub claim-Change :
    (opts : ClaimOptions) (wall : Time) (db : Db)
    → Distinct db.operations
    → Change db.operations (after db (claim_next_operation opts wall db)).operations
claim-Change opts wall db distinct = elim (claim_cases opts wall db) [
  | inr (e, bad) ↦ rw bad (unchanged refl)
  | inl (c, db', found, done, same, _) ↦
      let (r, m) = candidate_sound _ opts c db.operations found in
      rw done (
        started c
          (mark_claimed (trim_space opts.owner) (claim_time opts wall + opts.lease)
            (claim_time opts wall))
          (λ o h l. mark_claimed-Move c.id _ _ _ o h l)
          (All-intro db.operations (λ o n h.
            let e : o ≡ c = Distinct-Member o c db.operations distinct n m (ground arith) in
            (
              subst (λ (x : Operation). x.attempt < x.max_attempts) (sym e) r.attempts_left,
              ap (λ (x : Operation). x.lock_key) e,
            )))
          r.lock_free same.operations)
]
