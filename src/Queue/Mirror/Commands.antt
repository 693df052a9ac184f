-- ===== src/Queue/Mirror/Commands.antt =====
-- Every command keeps the read model in step: projectOperationClaim and the UPDATEs of
-- database_operations beside those of operations.
use mathlib.Core.Path.{subst₂}
use host_forge.Base.{ℕ, ◌+◌, refl, sym, String, Bool, arith, Bool-cases, inl, inr, eqb}
use host_forge.Base.Text.{trim_space}
use host_forge.Sql.{update_where, count_where}
use host_forge.Sql.Updates.{update_where_none, count_where_none}
use host_forge.Clock.{Time, at}
use host_forge.Queue.Rows.{Operation, Db}
use host_forge.Queue.Claim.{
  ClaimOptions, claimable, mark_claimed, mark_database_claimed, claim_next_operation,
}
use host_forge.Queue.Lease.{
  CompleteOperationInput, database_has_id, mark_deferred, mark_database_deferred, mark_completed,
  mark_database_completed, complete_operation, defer_operation, renew_operation_lease,
}
use host_forge.Queue.Cancel.{mark_asked, mark_cancelled, mark_database_cancelled, is_unasked}
use host_forge.Queue.Steps.{after, settle}
use host_forge.Queue.Lifecycle.{Distinct}
use host_forge.Queue.Changes.Tables.{SameQueue}
use host_forge.Queue.Changes.Outcomes.{
  complete_cases, completed_db, defer_cases, deferred_db, renew_cases, renewed_row,
  renewed_database_row, cancel_queued_cases, cancelled_db, asked_db,
}
use host_forge.Queue.Mirror.Agreement.{Coherent-keyed}
use host_forge.Queue.Mirror.Rows.{
  InStep, InStep-update_where, InStep-update_left, InStep-held, Agrees-deferred, Agrees-completed,
  Agrees-claimed, Agrees-cancelled, Agrees-asked,
}
use host_forge.Queue.Cancel.{cancel_queued, request_operation_cancellation}
use host_forge.Queue.Changes.Claims.{claim_cases, claim_result}
use host_forge.Queue.Changes.Commands.{count_where-Distinct}
use host_forge.Queue.Invariants.Distinctness.{Distinct-update_where}

abbrev pub DbInStep : Db → Type 0
DbInStep db = InStep db.operations db.database_operations

of_same : (db db' : Db) → SameQueue db db' → DbInStep db → DbInStep db'
of_same db db' same s = subst₂ InStep (sym same.operations) (sym same.database_operations) s

pub InStep-complete :
    (in' : CompleteOperationInput) (now : Time) (db : Db)
    → Distinct db.operations
    → DbInStep db
    → DbInStep (settle db (complete_operation in' now db))
unfolding mark_completed mark_database_completed
InStep-complete in' now db distinct s = elim (complete_cases in' now db) [
  | inr (e, bad) ↦ rw bad s
  | inl (status, db', t, done, same, one) ↦ rw done (
      of_same (completed_db in' status now db) db' same (
        InStep-held _ _ _ _ db (λ o. refl) (λ d. refl)
          (λ o d a. Agrees-completed in' status now o d a) one distinct s))
]

pub InStep-defer :
    (id owner : String) (delay : ℕ) (now : Time) (db : Db)
    → Distinct db.operations
    → DbInStep db
    → DbInStep (settle db (defer_operation id owner delay now db))
unfolding mark_deferred mark_database_deferred
InStep-defer id owner delay now db distinct s = elim (defer_cases id owner delay now db) [
  | inr bad ↦ rw bad s
  | inl (db', done, same, one) ↦ rw done (
      of_same (deferred_db id owner delay now db) db' same (
        InStep-held _ _ _ _ db (λ o. refl) (λ d. refl)
          (λ o d a. Agrees-deferred (now + delay) now o d a) one distinct s))
]

pub InStep-renew :
    (id owner : String) (lease : ℕ) (now : Time) (db : Db)
    → Distinct db.operations
    → DbInStep db
    → DbInStep (after db (renew_operation_lease id owner lease now db))
InStep-renew id owner lease now db distinct s = elim (renew_cases id owner lease now db) [
  | inr bad ↦ rw bad s
  | inl (b, done, one) ↦ rw done (
      InStep-held (trim_space id) (trim_space owner) (renewed_row (at (now + lease)) (at now))
        (renewed_database_row (at (now + lease)) (at now)) db (λ o. refl) (λ d. refl)
        (λ o d a. ground arith) one distinct s)
]

pub InStep-claim :
    (opts : ClaimOptions) (wall : Time) (db : Db)
    → Distinct db.operations
    → DbInStep db
    → DbInStep (after db (claim_next_operation opts wall db))
unfolding mark_claimed mark_database_claimed
InStep-claim opts wall db distinct s = elim (claim_cases opts wall db) [
  | inr (e, bad) ↦ rw bad s
  | inl (c, db', found, done, same, one) ↦ rw done (
      of_same (claim_result c opts wall db) db' same (
        InStep-update_where (claimable c.id) _ db.operations (database_has_id c.id) _
          db.database_operations (λ o. refl) (λ d. refl)
          (Coherent-keyed c.id (claimable c.id) db.operations (λ o h. ground arith) distinct one)
          (λ o d h a. Agrees-claimed _ _ _ o d a) s))
]

pub InStep-asked :
    (p : Operation → Bool) (now : Time) (db : Db)
    → DbInStep db
    → InStep (update_where p (mark_asked now) db.operations) db.database_operations
unfolding mark_asked
InStep-asked p now db s =
    InStep-update_left p (mark_asked now) db.operations db.database_operations (λ o. refl)
      (λ o d a. Agrees-asked now o d a) s

-- A cancellation that affects no queued row leaves the table as it was.
InStep-cancel_queued :
    (id : String) (now : Time) (base db : Db)
    → Distinct db.operations
    → DbInStep db
    → DbInStep (after base (cancel_queued id now db))
unfolding mark_cancelled mark_database_cancelled
InStep-cancel_queued id now base db distinct s = elim (cancel_queued_cases id now db) [
  | inr (other, done) ↦
      rw
        (
          done,
          update_where_none (claimable id) (mark_cancelled now) db.operations (
              count_where_none (claimable id) db.operations (
                ground (
                  arith,
                  count_where-Distinct id (claimable id) db.operations (λ o h. ground arith)
                      distinct,
                ))),
        )
        s
  | inl (db', done, same, one) ↦ rw done (
      of_same (cancelled_db id now db) db' same (
        InStep-update_where (claimable id) _ db.operations (database_has_id id) _
          db.database_operations (λ o. refl) (λ d. refl)
          (Coherent-keyed id (claimable id) db.operations (λ o h. ground arith) distinct one)
          (λ o d h a. Agrees-cancelled now o d a) s))
]

pub InStep-cancel :
    (id : String) (now : Time) (db : Db)
    → Distinct db.operations
    → DbInStep db
    → DbInStep (after db (request_operation_cancellation id now db))
unfolding request_operation_cancellation mark_asked
InStep-cancel id now db distinct s =
    elim (Bool-cases (eqb (count_where (is_unasked (trim_space id)) db.operations) 1)) [
      | inl e ↦ rw e (InStep-asked (is_unasked (trim_space id)) now db s)
      | inr e ↦ rw e (
          InStep-cancel_queued (trim_space id) now db (asked_db (trim_space id) now db)
            (Distinct-update_where (is_unasked (trim_space id)) (mark_asked now) db.operations
              (λ o m h. refl) distinct)
            (InStep-asked (is_unasked (trim_space id)) now db s))
    ]
