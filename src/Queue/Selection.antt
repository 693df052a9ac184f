-- ===== src/Queue/Selection.antt =====
-- Which operation a claim takes: ClaimNextOperation's candidate SELECT.
use host_forge.Base.{
  ◌+◌, ◌≤◌, ◌≡◌, refl, ◌⊎◌, inl, inr, true, false, arith, none, some, List, ltb, Option-cases, ◌==◌,
  ◌||◌, eqb, eq_refl,
}
use host_forge.Base.Int.{ltb_ℤ}
use host_forge.Base.Text.{lex_lt, codes, trim_space}
use host_forge.Sql.{filter_rows, count_where, ok, err, no_rows}
use host_forge.Sql.Laws.{Member, filter_rows_complete, All-Member}
use host_forge.Sql.Order.{first_row-least, first_row-none}
use host_forge.Sql.Updates.{count_where_pos, Member-update_where}
use host_forge.Clock.{Time, stamp_lt, second}
use host_forge.Clock.Texts.{
  lex_lt_irrefl, lex_lt_asym, lex_lt_trans, stamp_lt_irrefl, stamp_lt_asym, stamp_lt_trans,
}
use host_forge.Queue.Rows.{Operation, Db}
use host_forge.Queue.Claim.{
  ClaimOptions, claims_before, is_runnable, candidate, claim_next_operation, claimable,
  mark_claimed,
}
use host_forge.Queue.Enqueue.{get_operation}
use host_forge.Queue.Lifecycle.{Distinct}
use host_forge.Queue.Changes.Outcomes.{claim_row_cases}
use host_forge.Queue.Changes.Commands.{count_where-Distinct}
use host_forge.Queue.Changes.Claims.{
  claim_time, IsRunnable, IsRunnable-is_runnable, candidate_sound,
}

claims_before_irrefl : (o : Operation) → claims_before o o ≡ false
unfolding claims_before
claims_before_irrefl o = ground (arith, stamp_lt_irrefl o.created_at, lex_lt_irrefl (codes o.id))

claims_before_asym : (a b : Operation) → claims_before a b ≡ true → claims_before b a ≡ false
unfolding claims_before
claims_before_asym a b h = ground (
  arith,
  stamp_lt_asym a.created_at b.created_at,
  stamp_lt_asym b.created_at a.created_at,
  lex_lt_asym (codes a.id) (codes b.id),
)

claims_before_trans :
    (a b c : Operation)
    → claims_before a b ≡ false
    → claims_before b c ≡ false
    → claims_before a c ≡ false
unfolding claims_before
claims_before_trans a b c h g = ground (
  arith,
  stamp_lt_asym a.created_at c.created_at,
  stamp_lt_trans a.created_at b.created_at c.created_at,
  stamp_lt_trans b.created_at a.created_at c.created_at,
  stamp_lt_trans a.created_at c.created_at b.created_at,
  stamp_lt_trans c.created_at b.created_at a.created_at,
  stamp_lt_trans b.created_at c.created_at a.created_at,
  stamp_lt_trans c.created_at a.created_at b.created_at,
  lex_lt_trans (codes a.id) (codes b.id) (codes c.id),
)

-- The highest priority goes first; among equals the oldest by the written creation time; among those
-- of one time the smallest id.
pub record GoesFirst (c o : Operation) : Type 0 where
  pub priority : ltb_ℤ c.priority o.priority ≡ false
  pub age : ltb_ℤ o.priority c.priority ≡ false → stamp_lt o.created_at c.created_at ≡ false
  pub id :
      ltb_ℤ o.priority c.priority ≡ false
      → stamp_lt c.created_at o.created_at ≡ false
      → lex_lt (codes o.id) (codes c.id) ≡ false

before-GoesFirst : (c o : Operation) → claims_before o c ≡ false → GoesFirst c o
unfolding claims_before
before-GoesFirst c o h = record { priority = ground arith; age = ground arith; id = ground arith }

-- The candidate may run, is a row of the table, and no row that may run comes before it in the order
-- by priority, age and id.
candidate_first :
    (now : Time) (opts : ClaimOptions) (c : Operation) (ops : List Operation)
    → candidate now opts ops ≡ some c
    → IsRunnable now opts ops c
      × Member c ops
      × ((o : Operation) → Member o ops → IsRunnable now opts ops o → GoesFirst c o)
unfolding candidate
candidate_first now opts c ops h =
    let (r, m) = candidate_sound now opts c ops h in
    (
      r,
      m,
      (λ o n s. before-GoesFirst c o (
          All-Member (λ x. claims_before x c ≡ false) o (filter_rows (is_runnable now opts ops) ops)
            (first_row-least claims_before claims_before_trans claims_before_asym
              claims_before_irrefl c _ h)
            (filter_rows_complete (is_runnable now opts ops) o ops
              (IsRunnable-is_runnable now opts ops o s) n))),
    )

-- There is no candidate exactly where no row may run.
candidate-none :
    (now : Time) (opts : ClaimOptions) (ops : List Operation)
    → candidate now opts ops ≡ none
    → (o : Operation) → Member o ops
    → ¬ IsRunnable now opts ops o
unfolding candidate
candidate-none now opts ops h o m r =
    let kept =
      filter_rows_complete (is_runnable now opts ops) o ops
        (IsRunnable-is_runnable now opts ops o r) m in
    let empty = first_row-none claims_before (filter_rows (is_runnable now opts ops) ops) h in
    (rw empty at kept)

-- What a claim writes on its candidate.
abbrev pub claimed_row : ClaimOptions → Time → Operation → Operation
claimed_row opts wall =
    mark_claimed (trim_space opts.owner) (claim_time opts wall + opts.lease) (claim_time opts wall)

-- No other row that may run comes before `c`.
abbrev pub IsFirst : ClaimOptions → Time → Db → Operation → Type 0
IsFirst opts wall db c =
    IsRunnable (claim_time opts wall) opts db.operations c
    × Member c db.operations
    × ((o : Operation)
        → Member o db.operations
        → IsRunnable (claim_time opts wall) opts db.operations o
        → GoesFirst c o)

claimable-count :
    (c : Operation) (now : Time) (opts : ClaimOptions) (ops : List Operation)
    → Distinct ops
    → Member c ops
    → IsRunnable now opts ops c
    → (claimable c.id c ≡ true) × (eqb (count_where (claimable c.id) ops) 1 ≡ true)
claimable-count c now opts ops d m r =
    let hit : claimable c.id c ≡ true = ground (arith, eq_refl c.id, r.waiting) in
    (
      hit,
      ground (
        arith,
        count_where_pos (claimable c.id) c ops m hit,
        count_where-Distinct c.id (claimable c.id) ops (λ o h. ground arith) d,
      ),
    )

-- With an owner that is not blank, a lease of at least a second and distinct ids, a claim either takes
-- a row that may run and goes first (by priority, age and id) among the rows that may, and that row is
-- then running under the new lease; or it reports no rows, and then no row may run.
pub claim-IsFirst :
    (opts : ClaimOptions) (wall : Time) (db : Db)
    → (trim_space opts.owner == "") ≡ false
    → second ≤ opts.lease
    → Distinct db.operations
    → ((c : Operation) × (db' : Db) × (claim_next_operation opts wall db
          ≡ ok (get_operation c.id db', db'))
        × IsFirst opts wall db c
        × Member (claimed_row opts wall c) db'.operations)
      ⊎ ((claim_next_operation opts wall db ≡ err no_rows)
          × ((o : Operation)
              → Member o db.operations
              → ¬ IsRunnable (claim_time opts wall) opts db.operations o))
unfolding claim_next_operation
claim-IsFirst opts wall db owned leased distinct =
    let accepted : ((trim_space opts.owner == "") || ltb opts.lease second) ≡ false =
      ground arith in
    elim (Option-cases (candidate (claim_time opts wall) opts db.operations)) [
      | inl empty ↦ inr (
        rw (accepted, empty) refl,
        candidate-none (claim_time opts wall) opts db.operations empty,
      )
      | inr (c, found) ↦
          let first = candidate_first (claim_time opts wall) opts c db.operations found in
          let (hit, one) =
            claimable-count c (claim_time opts wall) opts db.operations distinct first.1 first.0 in
          elim (claim_row_cases c.id (trim_space opts.owner) (claim_time opts wall + opts.lease)
            (claim_time opts wall) db) [
              | inr (other, _) ↦ absurd (cc (one, other))
              | inl (db', done, same, _) ↦ inl (
                c,
                db',
                rw (accepted, found, done) refl,
                first,
                rw (same.operations) (
                    rw hit at (
                      Member-update_where (claimable c.id) (claimed_row opts wall) c db.operations
                        first.1)),
              )
            ]
    ]
