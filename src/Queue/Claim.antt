-- ===== src/Queue/Claim.antt =====
-- Claiming: ClaimOptions, ClaimNextOperation and projectOperationClaim of
-- internal/repository/operations.go.
use host_forge.Base.{
  ℕ, ◌+◌, String, Option, none, some, List, [], ◌∷◌, Bool, true, false, not, ◌&&◌, ◌||◌, ◌==◌,
  if◌then◌else◌, ltb, eqb, exists_where,
}
use host_forge.Base.Int.{ℤ, leb_ℤ, ltb_ℤ}
use host_forge.Base.Text.{trim_space, codes, lex_lt}
use host_forge.Sql.{
  update_where, count_where, filter_rows, first_row, Result, ok, err, no_rows, invalid_input, ◌>>=◌,
}
use host_forge.Clock.{Time, Stamp, empty, at, second, stamp_le, stamp_lt}
use host_forge.Queue.Rows.{OpStatus, Operation, DatabaseOperation, Db, is_queued, is_running}
use host_forge.Queue.Deploys.{project_deploy_claim}
use host_forge.Queue.Enqueue.{get_operation}

-- `now` is none where the caller leaves the clock to the store. A lease is in nanoseconds.
pub record ClaimOptions : Type 0 where
  pub owner : String
  pub lease : ℕ
  pub min_priority : ℤ
  pub now : Option Time
  pub kinds : List String

abbrev pub holds_lock : String → Operation → Bool
holds_lock lock_key o = is_running o.status && (o.lock_key == lock_key)

abbrev pub is_available : Time → Stamp → Bool
is_available now empty = true
is_available now (at t) = stamp_le (at t) (at now)

-- An empty list of kinds admits any.
abbrev pub kind_admitted : List String → String → Bool
kind_admitted [] kind = true
kind_admitted (k ∷ ks) kind = exists_where (λ j. kind == j) (k ∷ ks)

-- The WHERE clause of the candidate SELECT.
unfoldable pub is_runnable : Time → ClaimOptions → List Operation → Operation → Bool
is_runnable now opts ops o =
    is_queued o.status
    && is_available now o.available_at
    && ltb o.attempt o.max_attempts
    && leb_ℤ opts.min_priority o.priority
    && not (exists_where (holds_lock o.lock_key) ops)
    && kind_admitted opts.kinds o.kind

-- ORDER BY priority DESC, created_at, id. SQLite orders texts by their bytes, which is the order of
-- their code points.
unfoldable pub claims_before : Operation → Operation → Bool
claims_before a b =
    if ltb_ℤ b.priority a.priority
    then true
    else if ltb_ℤ a.priority b.priority
    then false
    else if stamp_lt a.created_at b.created_at
    then true
    else if stamp_lt b.created_at a.created_at
    then false
    else lex_lt (codes a.id) (codes b.id)

unfoldable pub candidate : Time → ClaimOptions → List Operation → Option Operation
candidate now opts ops = first_row claims_before (filter_rows (is_runnable now opts ops) ops)

-- CASE WHEN started_at='' THEN ? ELSE started_at END
abbrev pub first_start : Time → Stamp → Stamp
first_start now empty = at now
first_start now (at t) = at t

unfoldable pub mark_claimed : String → Time → Time → Operation → Operation
mark_claimed owner lease_expires now o = record o {
  status = OpStatus.running;
  progress_step = "starting";
  progress_percent = 1;
  started_at = first_start now o.started_at;
  lease_owner = owner;
  lease_expires_at = at lease_expires;
  attempt = o.attempt + 1;
  updated_at = at now;
}

unfoldable pub mark_database_claimed : String → Time → Time → DatabaseOperation → DatabaseOperation
mark_database_claimed owner lease_expires now d = record d {
  status = OpStatus.running;
  progress_step = "starting";
  progress_percent = 1;
  started_at = first_start now d.started_at;
  lease_owner = owner;
  lease_expires_at = at lease_expires;
  attempt_count = d.attempt_count + 1;
  updated_at = at now;
}

unfoldable pub project_operation_claim : String → String → Time → Time → Db → Db
project_operation_claim id owner lease_expires now db = record db {
  database_operations =
      update_where (λ d. d.id == id) (mark_database_claimed owner lease_expires now)
        db.database_operations;
}

abbrev pub claimable : String → Operation → Bool
claimable id o = (o.id == id) && is_queued o.status

-- The claiming UPDATE, which checks the status again, and the two projections.
unfoldable pub claim_row : String → String → Time → Time → Db → Result Db
claim_row id owner lease_expires now db =
    if eqb (count_where (claimable id) db.operations) 1
    then ok (
        project_deploy_claim id (at now) (
          project_operation_claim id owner lease_expires now (record db {
            operations =
                update_where (claimable id) (mark_claimed owner lease_expires now) db.operations;
          })))
    else err no_rows

abbrev pub clock_of : Option Time → Time → Time
clock_of none wall = wall
clock_of (some t) wall = t

-- The claimed row is read back after the commit.
abbrev claim_candidate :
    Option Operation → String → Time → Time → Db → Result (Result Operation × Db)
claim_candidate none owner lease_expires now db = err no_rows
claim_candidate (some o) owner lease_expires now db = do
  db' ← claim_row o.id owner lease_expires now db
  ok (get_operation o.id db', db')

-- `wall` is what time.Now() would return.
unfoldable pub claim_next_operation : ClaimOptions → Time → Db → Result (Result Operation × Db)
claim_next_operation opts wall db =
    if (trim_space opts.owner == "") || ltb opts.lease second
    then err invalid_input
    else (let now = clock_of opts.now wall in
        claim_candidate (candidate now opts db.operations) (trim_space opts.owner)
          (now + opts.lease) now db)
