-- ===== src/Queue/Steps.antt =====
-- The queue as a whole: every transaction of the store that writes the table of operations, in
-- internal/repository/operations.go and database_services.go, and a run of them in any order.
-- Workers, HTTP handlers and start-up recovery interleave only between transactions, so a list of
-- commands is any interleaving of theirs. A transaction that fails is rolled back.
use host_forge.Base.{ℕ, String, List, [], ◌∷◌, ◌++◌, exists_where, if◌then◌else◌}
use host_forge.Sql.{Result, ok, err, constraint}
use host_forge.Clock.{Time}
use host_forge.Queue.Rows.{DatabaseOperation, Db}
use host_forge.Queue.Enqueue.{
  NewOperationInput, enqueue_operation, insert_database_operation_queue_row,
}
use host_forge.Queue.Claim.{ClaimOptions, claim_next_operation}
use host_forge.Queue.Lease.{
  CompleteOperationInput, renew_operation_lease, defer_operation, complete_operation,
  database_has_id,
}
use host_forge.Queue.Cancel.{request_operation_cancellation, request_service_operation_cancellation}
use host_forge.Queue.Progress.{ProgressReport, update_database_operation}
use host_forge.Queue.Removal.{ServiceTables, begin_database_service_deletion}
use host_forge.Queue.Recovery.{recover_operations}

-- How the writers of internal/repository/database_services.go and database_backups.go enqueue: the
-- row of database_operations and its queue row in one transaction.
unfoldable pub enqueue_database_operation : DatabaseOperation → Db → Result Db
enqueue_database_operation op db =
    if exists_where (database_has_id op.id) db.database_operations
    then err constraint
    else insert_database_operation_queue_row op.id
        (record db { database_operations = db.database_operations ++ (op ∷ []) })

pub data Command : Type 0 where
  enqueues : String → NewOperationInput → Time → Command
  enqueues_database : DatabaseOperation → Command
  claims : ClaimOptions → Time → Command
  renews : String → String → ℕ → Time → Command
  defers : String → String → ℕ → Time → Command
  completes : CompleteOperationInput → Time → Command
  cancels : String → Time → Command
  cancels_service : String → Time → Command
  recovers : Time → Command
  reports : ProgressReport → Time → Command
  -- What the tables beside the queue hold at that moment comes with the command.
  removes : String → ServiceTables → Time → Command

abbrev pub settle : Db → Result Db → Db
settle db (ok db') = db'
settle db (err e) = db

abbrev pub after {ℓ} : {A : Type ℓ} → Db → Result (A × Db) → Db
after db (ok (a, db')) = db'
after db (err e) = db

abbrev pub queue_after {ℓ κ} : {A : Type ℓ} {B : Type κ} → Db → Result (A × B × Db) → Db
queue_after db (ok (a, b, db')) = db'
queue_after db (err e) = db

unfoldable pub step : Command → Db → Db
step (enqueues fresh given now) db = after db (enqueue_operation fresh given now db)
step (enqueues_database op) db = settle db (enqueue_database_operation op db)
step (claims opts wall) db = after db (claim_next_operation opts wall db)
step (renews id owner lease now) db = after db (renew_operation_lease id owner lease now db)
step (defers id owner delay now) db = settle db (defer_operation id owner delay now db)
step (completes in' now) db = settle db (complete_operation in' now db)
step (cancels id now) db = after db (request_operation_cancellation id now db)
step (cancels_service id now) db = (request_service_operation_cancellation id now db).1
step (recovers now) db = (recover_operations now db).2
step (reports r now) db = after db (update_database_operation r now db)
step (removes id tables now) db = queue_after db (begin_database_service_deletion id now tables db)

unfoldable pub run : List Command → Db → Db
run [] db = db
run (c ∷ cs) db = run cs (step c db)
