-- ===== src/Queue/Changes/Commands.antt =====
-- Each command of the queue, as one change of the table of operations.
use host_forge.Base.{
  ℕ, ◌≤◌, ◌≡◌, ◌≢◌, refl, some, String, Bool, true, false, arith, eqb, Bool-cases, inl, inr,
  if◌then◌else◌, List, [], ◌∷◌, ◌==◌, eq_iff, exists_where, not, ◌&&◌,
}
use host_forge.Base.Text.{trim_space}
use host_forge.Sql.{update_where, count_where, Result, ok, err, ◌>>=◌}
use host_forge.Sql.Laws.{exists_where_mono}
use host_forge.Sql.Updates.{
  update_where_none, count_where_none, update_where_twice, count_where_zero,
}
use host_forge.Clock.{Time}
use host_forge.Queue.Rows.{OpStatus, parse_status, Operation, DatabaseOperation, Db, is_running}
use host_forge.Queue.Deploys.{
  sweep_orphaned_deployments, project_exhausted_deploys, fail_interrupted,
}
use host_forge.Queue.Enqueue.{
  NewOperationInput, has_id, is_blank, insert_operation, get_operation, enqueue_operation,
}
use host_forge.Queue.Claim.{claimable}
use host_forge.Queue.Lease.{
  CompleteOperationInput, is_held, complete_operation, defer_operation, renew_operation_lease,
}
use host_forge.Queue.Cancel.{
  is_unasked, is_unasked_of, mark_asked, mark_cancelled, cancel_queued,
  request_operation_cancellation, request_service_operation_cancellation,
}
use host_forge.Queue.Recovery.{
  is_exhausted, running_now, mark_interrupted, mark_requeued, update_companions,
  update_database_selected, update_operations, fail_exhausted, requeue_running, recover_operations,
}
use host_forge.Queue.Steps.{
  Command, enqueues, enqueues_database, claims, renews, defers, completes, cancels, cancels_service,
  recovers, reports, removes, settle, after, step,
}
use host_forge.Queue.Lifecycle.{Distinct, Change, unchanged, updated}
use host_forge.Queue.Progress.{parse_lowered_status}
use host_forge.Queue.Changes.Reports.{report-Change, removal-Change}
use host_forge.Queue.Changes.Update.{
  mark_deferred-Move, mark_completed-Move, renewed-Move, mark_asked-Move, mark_cancelled-Move,
  recovered, recovered-Move, recovered_idle,
}
use host_forge.Queue.Changes.Outcomes.{
  complete_cases, defer_cases, renew_cases, cancel_queued_cases,
}
use host_forge.Queue.Changes.Inserts.{insert_operation-Change, enqueue_database_operation-Change}
use host_forge.Queue.Changes.Claims.{claim-Change}

-- A row of database_operations as the INSERTs write it: no attempt used, no error, not running, and an
-- id without spaces round it.
pub record IsFreshRow (op : DatabaseOperation) : Type 0 where
  pub trimmed : trim_space op.id ≡ op.id
  pub idle : is_running op.status ≡ false
  pub attempt_count : op.attempt_count ≡ 0
  pub error_code : op.error_code ≡ ""
  pub error_message : op.error_message ≡ ""

-- What the callers keep to: no row is enqueued as already running, a new id has no spaces round it, and
-- a report does not put an operation back into the queue.
abbrev pub IsSound : Command → Type 0
IsSound (enqueues fresh given now) = parse_status given.status ≢ some OpStatus.running
IsSound (enqueues_database op) = IsFreshRow op
IsSound (reports r now) = parse_lowered_status r.status ≢ some OpStatus.queued
IsSound _ = Unit {0}

-- What the statements of UpdateDatabaseOperation do not ask: the operation that a report names is running.
abbrev pub MeetsRunning : Command → Db → Type 0
MeetsRunning (reports r now) db =
    exists_where (λ o. has_id (trim_space r.id) o && not (is_running o.status)) db.operations
    ≡ false
MeetsRunning _ db = Unit {0}

abbrev pub named : String → NewOperationInput → NewOperationInput
named fresh given = record given { id = if is_blank given.id then fresh else given.id }

-- The read after the commit changes nothing.
after_read :
    (get : Db → Result Operation) (db : Db) (r : Result Db)
    → after db (r >>= λ db'. ok (get db', db')) ≡ settle db r
after_read get db (ok db') = refl
after_read get db (err e) = refl

pub enqueue-insert :
    (fresh : String) (given : NewOperationInput) (now : Time) (db : Db)
    → after db (enqueue_operation fresh given now db)
      ≡ settle db (insert_operation (named fresh given) now db)
unfolding enqueue_operation
enqueue-insert fresh given now db =
    after_read (get_operation (named fresh given).id) db
      (insert_operation (named fresh given) now db)

complete-Change :
    (in' : CompleteOperationInput) (now : Time) (db : Db)
    → Change db.operations (settle db (complete_operation in' now db)).operations
complete-Change in' now db = elim (complete_cases in' now db) [
  | inr (e, bad) ↦ rw bad (unchanged refl)
  | inl (status, db', t, done, same, _) ↦ rw done (
      updated (is_held (trim_space in'.id) (trim_space in'.owner)) _
        (λ o h. mark_completed-Move in' status now _ _ o t h) (λ o h r. ground arith)
        same.operations)
]

defer-Change :
    (id owner : String) (delay : ℕ) (now : Time) (db : Db)
    → Change db.operations (settle db (defer_operation id owner delay now db)).operations
defer-Change id owner delay now db = elim (defer_cases id owner delay now db) [
  | inr bad ↦ rw bad (unchanged refl)
  | inl (db', done, same, _) ↦ rw done (
      updated (is_held (trim_space id) (trim_space owner)) _ (λ o h. mark_deferred-Move _ _ _ _ o h)
        (λ o h r. ground arith) same.operations)
]

renew-Change :
    (id owner : String) (lease : ℕ) (now : Time) (db : Db)
    → Change db.operations (after db (renew_operation_lease id owner lease now db)).operations
renew-Change id owner lease now db = elim (renew_cases id owner lease now db) [
  | inr bad ↦ rw bad (unchanged refl)
  | inl (b, done, _) ↦ rw done (
      updated (is_held (trim_space id) (trim_space owner)) _ (λ o h. renewed-Move _ _ _ _ o h)
        (λ o h r. ground arith) refl)
]

-- A key names one row at most.
pub count_where-Distinct :
    (id : String) (p : Operation → Bool) (ops : List Operation)
    → ((o : Operation) → p o ≡ true → (o.id == id) ≡ true)
    → Distinct ops
    → count_where p ops ≤ 1
count_where-Distinct id p [] key d = omega arith
count_where-Distinct id p (o ∷ ops) key d = elim (Bool-cases (p o)) [
  | inl e ↦
      let others =
        exists_where_mono p (has_id o.id) ops
          (λ x h.
            ground (arith, key x h, key o e, eq_iff x.id id, eq_iff o.id id, eq_iff x.id o.id))
          d.0 in
      rw e (omega (arith, count_where_zero p ops others))
  | inr e ↦ rw e (count_where-Distinct id p ops key d.1)
]

cancel_queued-Change :
    (id : String) (now : Time) (db : Db)
    → Change db.operations (after db (cancel_queued id now db)).operations
unfolding mark_cancelled
cancel_queued-Change id now db = elim (cancel_queued_cases id now db) [
  | inr (_, done) ↦ rw done (
      updated (claimable id) (mark_cancelled now) (λ o h. mark_cancelled-Move id now o h)
        (λ o h r. cc) refl)
  | inl (db', done, same, _) ↦ rw done (
      updated (claimable id) (mark_cancelled now) (λ o h. mark_cancelled-Move id now o h)
        (λ o h r. cc) same.operations)
]

cancel-Change :
    (id : String) (now : Time) (db : Db)
    → Distinct db.operations
    → Change db.operations (after db (request_operation_cancellation id now db)).operations
unfolding request_operation_cancellation
cancel-Change id now db distinct =
    elim (Bool-cases (eqb (count_where (is_unasked (trim_space id)) db.operations) 1)) [
      | inl e ↦ rw e (
          updated (is_unasked (trim_space id)) (mark_asked now)
            (λ o h. mark_asked-Move now o (ground arith)) (λ o h r. ground arith) refl)
      | inr e ↦
          let none_asked =
            update_where_none (is_unasked (trim_space id)) (mark_asked now) db.operations (
              count_where_none _ db.operations (
                ground (
                  arith,
                  count_where-Distinct (trim_space id) (is_unasked (trim_space id)) db.operations
                      (λ o h. ground arith) distinct,
                ))) in
          rw (e, none_asked) (cancel_queued-Change (trim_space id) now db)
    ]

cancel_service-Change :
    (id : String) (now : Time) (db : Db)
    → Change db.operations (request_service_operation_cancellation id now db).1.operations
unfolding request_service_operation_cancellation mark_asked
cancel_service-Change id now db =
    updated (is_unasked_of (trim_space id)) (mark_asked now)
      (λ o h. mark_asked-Move now o (ground arith)) (λ o h r. ground arith) refl

-- After recovery each running row has failed or is queued again, and no other has changed.
pub operations-recover :
    (now : Time) (db : Db)
    → (recover_operations now db).2.operations
      ≡ update_where running_now (recovered now) db.operations
unfolding recover_operations fail_exhausted requeue_running sweep_orphaned_deployments
    fail_interrupted update_companions update_database_selected update_operations
    project_exhausted_deploys mark_interrupted
operations-recover now db =
    update_where_twice is_exhausted running_now (mark_interrupted now) (mark_requeued now)
      db.operations (λ o h. (ground arith, refl))

recover-Change :
    (now : Time) (db : Db) → Change db.operations (recover_operations now db).2.operations
recover-Change now db =
    updated running_now (recovered now) (λ o h. recovered-Move now o h)
      (λ o h r. cc (recovered_idle now o)) (operations-recover now db)

-- Every command is one of the changes that the specification allows.
pub step-Change :
    (c : Command) (db : Db)
    → IsSound c
    → MeetsRunning c db
    → Distinct db.operations
    → Change db.operations (step c db).operations
unfolding step
step-Change (enqueues fresh given now) db sound meets d =
    rw (enqueue-insert fresh given now db)
      (insert_operation-Change (named fresh given) now db sound)
step-Change (enqueues_database op) db sound meets d =
    enqueue_database_operation-Change op db sound.trimmed sound.idle
step-Change (claims opts wall) db sound meets d = claim-Change opts wall db d
step-Change (renews id owner lease now) db sound meets d = renew-Change id owner lease now db
step-Change (defers id owner delay now) db sound meets d = defer-Change id owner delay now db
step-Change (completes in' now) db sound meets d = complete-Change in' now db
step-Change (cancels id now) db sound meets d = cancel-Change id now db d
step-Change (cancels_service id now) db sound meets d = cancel_service-Change id now db
step-Change (recovers now) db sound meets d = recover-Change now db
step-Change (reports r now) db sound meets d = report-Change r now db sound meets
step-Change (removes id tables now) db sound meets d = removal-Change id tables now db
