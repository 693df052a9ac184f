-- ===== src/Queue/Mirror.antt =====
-- The projection onto database_operations, the read model: internal/repository/operations.go.
pub mod Agreement
pub mod Rows
pub mod Commands
pub mod Reports
pub mod Tables
use host_forge.Base.{List, [], ◌∷◌, All}
use host_forge.Queue.Rows.{Db}
use host_forge.Queue.Cancel.{request_service_operation_cancellation}
use host_forge.Queue.Steps.{
  Command, enqueues, enqueues_database, claims, renews, defers, completes, cancels, cancels_service,
  recovers, reports, removes, step, run,
}
use host_forge.Queue.Lifecycle.{Distinct}
use host_forge.Queue.Changes.Commands.{IsSound, named, enqueue-insert}
use host_forge.Queue.Invariants.{step-Distinct}
use Commands.{
  DbInStep, InStep-complete, InStep-defer, InStep-renew, InStep-claim, InStep-asked, InStep-cancel,
}
use Reports.{InStep-report, InStep-removal}
use Tables.{InStep-insert, InStep-enqueue_database, InStep-recover}

step-InStep :
    (c : Command) (db : Db)
    → IsSound c
    → Distinct db.operations
    → DbInStep db
    → DbInStep (step c db)
unfolding step
step-InStep (enqueues fresh given now) db sound d s =
    rw (enqueue-insert fresh given now db) (InStep-insert (named fresh given) now db s)
step-InStep (enqueues_database op) db sound d s = InStep-enqueue_database op db sound s
step-InStep (claims opts wall) db sound d s = InStep-claim opts wall db d s
step-InStep (renews id owner lease now) db sound d s = InStep-renew id owner lease now db d s
step-InStep (defers id owner delay now) db sound d s = InStep-defer id owner delay now db d s
step-InStep (completes in' now) db sound d s = InStep-complete in' now db d s
step-InStep (cancels id now) db sound d s = InStep-cancel id now db d s
step-InStep (cancels_service id now) db sound d s =
    unfold request_service_operation_cancellation in InStep-asked _ now db s
step-InStep (recovers now) db sound d s = InStep-recover now db d s
step-InStep (reports r now) db sound d s = InStep-report r now db s
step-InStep (removes id tables now) db sound d s = InStep-removal id tables now db s

-- From tables with distinct ids that agree, after any sound commands (nothing is enqueued as already
-- running, a row of the read model is enqueued as one that was not tried yet, and no report puts an
-- operation back into the queue) each row of database_operations has its operation, and the two agree on
-- service, status, progress, attempts, error, start and completion.
pub run-InStep :
    (cs : List Command) (db : Db)
    → All IsSound cs
    → Distinct db.operations
    → DbInStep db
    → DbInStep (run cs db)
unfolding run
run-InStep [] db sound d s = s
run-InStep (c ∷ cs) db sound d s =
    run-InStep cs (step c db) sound.1 (step-Distinct c db sound.0 d) (step-InStep c db sound.0 d s)
