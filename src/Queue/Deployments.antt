-- ===== src/Queue/Deployments.antt =====
-- Deployments under the queue: the projections of internal/repository/operations_deploy.go in every
-- command.
use host_forge.Base.{
  ℕ, ◌≡◌, refl, false, arith, eqb, Bool-cases, inl, inr, List, [], ◌∷◌, All, String, ◌&&◌, ◌==◌,
  exists_where,
}
use host_forge.Base.Text.{trim_space}
use host_forge.Sql.{count_where}
use host_forge.Sql.Laws.{Member}
use host_forge.Clock.{Time, at}
use host_forge.Queue.Rows.{DatabaseOperation, DeployStatus, Deployment, Db, is_pending}
use host_forge.Queue.Deploys.{
  project_exhausted_deploys, fail_interrupted, sweep_orphaned_deployments, finish_as, is_orphaned,
}
use host_forge.Queue.Enqueue.{NewOperationInput, insert_operation}
use host_forge.Queue.Claim.{ClaimOptions, claim_next_operation}
use host_forge.Queue.Lease.{
  CompleteOperationInput, complete_operation, defer_operation, renew_operation_lease,
}
use host_forge.Queue.Cancel.{
  is_unasked, request_operation_cancellation, request_service_operation_cancellation,
}
use host_forge.Queue.Recovery.{
  is_exhausted, update_companions, update_database_selected, update_operations, fail_exhausted,
  requeue_running, recover_operations,
}
use host_forge.Queue.Steps.{
  Command, enqueues, enqueues_database, claims, renews, defers, completes, cancels, cancels_service,
  recovers, reports, removes, settle, after, step, run,
}
use host_forge.Queue.Changes.Tables.{Frozen, Frozen-update_where}
use host_forge.Queue.Changes.Outcomes.{
  complete_cases, defer_cases, renew_cases, cancel_queued_cases, asked_db,
}
use host_forge.Queue.Changes.Inserts.{insert_operation_cases, enqueue_database_operation_cases}
use host_forge.Queue.Changes.Claims.{claim_cases}
use host_forge.Queue.Progress.{write_progress}
use host_forge.Queue.Removal.{cancel_queued_of, ask_running_of}
use host_forge.Queue.Changes.Reports.{report_cases, removal_cases}
use host_forge.Queue.Changes.Commands.{IsSound, named, enqueue-insert}

Frozen-refl : (ds : List Deployment) → Frozen ds ds
Frozen-refl ds d m ended = m

Frozen-insert :
    (in' : NewOperationInput) (now : Time) (db : Db)
    → Frozen db.deployments (settle db (insert_operation in' now db)).deployments
Frozen-insert in' now db = elim (insert_operation_cases in' now db) [
  | inr (e, bad) ↦ rw bad (Frozen-refl db.deployments)
  | inl (status, attempts, parsed, positive, fresh, done) ↦ rw done (Frozen-refl db.deployments)
]

Frozen-enqueue_database :
    (op : DatabaseOperation) (db : Db)
    → trim_space op.id ≡ op.id
    → Frozen db.deployments (step (enqueues_database op) db).deployments
unfolding step
Frozen-enqueue_database op db trimmed = elim (enqueue_database_operation_cases op db trimmed) [
  | inr bad ↦ rw bad (Frozen-refl db.deployments)
  | inl (_, fresh, done) ↦ rw done (Frozen-refl db.deployments)
]

Frozen-complete :
    (in' : CompleteOperationInput) (now : Time) (db : Db)
    → Frozen db.deployments (settle db (complete_operation in' now db)).deployments
Frozen-complete in' now db = elim (complete_cases in' now db) [
  | inr (e, bad) ↦ rw bad (Frozen-refl db.deployments)
  | inl (status, db', t, done, same, _) ↦ rw done same.frozen
]

Frozen-defer :
    (id owner : String) (delay : ℕ) (now : Time) (db : Db)
    → Frozen db.deployments (settle db (defer_operation id owner delay now db)).deployments
Frozen-defer id owner delay now db = elim (defer_cases id owner delay now db) [
  | inr bad ↦ rw bad (Frozen-refl db.deployments)
  | inl (db', done, same, _) ↦ rw done same.frozen
]

Frozen-renew :
    (id owner : String) (lease : ℕ) (now : Time) (db : Db)
    → Frozen db.deployments (after db (renew_operation_lease id owner lease now db)).deployments
Frozen-renew id owner lease now db = elim (renew_cases id owner lease now db) [
  | inr bad ↦ rw bad (Frozen-refl db.deployments)
  | inl (b, done, _) ↦ rw done (Frozen-refl db.deployments)
]

Frozen-claim :
    (opts : ClaimOptions) (wall : Time) (db : Db)
    → Frozen db.deployments (after db (claim_next_operation opts wall db)).deployments
Frozen-claim opts wall db = elim (claim_cases opts wall db) [
  | inr (e, bad) ↦ rw bad (Frozen-refl db.deployments)
  | inl (c, db', found, done, same, _) ↦ rw done same.frozen
]

Frozen-cancel :
    (id : String) (now : Time) (db : Db)
    → Frozen db.deployments (after db (request_operation_cancellation id now db)).deployments
unfolding request_operation_cancellation
Frozen-cancel id now db =
    elim (Bool-cases (eqb (count_where (is_unasked (trim_space id)) db.operations) 1)) [
      | inl e ↦ rw e (Frozen-refl db.deployments)
      | inr e ↦
          rw e (elim (cancel_queued_cases (trim_space id) now (asked_db (trim_space id) now db)) [
            | inr (_, done) ↦ rw done (Frozen-refl db.deployments)
            | inl (db', done, same, _) ↦ rw done same.frozen
          ])
    ]

Frozen-fail_exhausted :
    (now : Time) (db : Db) → Frozen db.deployments (fail_exhausted now db).deployments
unfolding fail_exhausted fail_interrupted update_companions update_database_selected
    update_operations project_exhausted_deploys
Frozen-fail_exhausted now db =
    Frozen-update_where
      (λ d.
        is_pending d.status && exists_where (λ o. is_exhausted o && (o.id == d.id)) db.operations)
      (finish_as DeployStatus.failed "interrupted" (at now)) db.deployments (λ d h. ground arith)

Frozen-sweep :
    (now : Time) (db : Db)
    → Frozen db.deployments (sweep_orphaned_deployments (at now) db).1.deployments
unfolding sweep_orphaned_deployments fail_interrupted
Frozen-sweep now db =
    Frozen-update_where (is_orphaned db.operations)
      (finish_as DeployStatus.failed "interrupted" (at now)) db.deployments (λ d h. ground arith)

deployments-requeue_running :
    (now : Time) (db : Db) → (requeue_running now db).deployments ≡ db.deployments
unfolding requeue_running update_companions update_database_selected update_operations
deployments-requeue_running now db = refl

Frozen-recover :
    (now : Time) (db : Db) → Frozen db.deployments (recover_operations now db).2.deployments
unfolding recover_operations
Frozen-recover now db d m ended =
    let settled = fail_exhausted now db in
    Frozen-sweep now (requeue_running now settled) d
      (rw (deployments-requeue_running now settled) (Frozen-fail_exhausted now db d m ended)) ended

pub Frozen-step :
    (c : Command) (db : Db) → IsSound c → Frozen db.deployments (step c db).deployments
unfolding step
Frozen-step (enqueues fresh given now) db sound =
    rw (enqueue-insert fresh given now db) (Frozen-insert (named fresh given) now db)
Frozen-step (enqueues_database op) db sound = Frozen-enqueue_database op db sound.trimmed
Frozen-step (claims opts wall) db sound = Frozen-claim opts wall db
Frozen-step (renews id owner lease now) db sound = Frozen-renew id owner lease now db
Frozen-step (defers id owner delay now) db sound = Frozen-defer id owner delay now db
Frozen-step (completes in' now) db sound = Frozen-complete in' now db
Frozen-step (cancels id now) db sound = Frozen-cancel id now db
Frozen-step (cancels_service id now) db sound =
    unfold request_service_operation_cancellation in Frozen-refl db.deployments
Frozen-step (recovers now) db sound = Frozen-recover now db
Frozen-step (reports r now) db sound = elim (report_cases r now db) [
  | inl same ↦ rw same (Frozen-refl db.deployments)
  | inr (status, n, parsed, done) ↦ rw done (unfold write_progress in Frozen-refl db.deployments)
]
Frozen-step (removes id tables now) db sound = elim (removal_cases id tables now db) [
  | inl same ↦ rw same (Frozen-refl db.deployments)
  | inr (inl done) ↦ rw done (unfold cancel_queued_of in Frozen-refl db.deployments)
  | inr (inr done) ↦ rw done (unfold ask_running_of in Frozen-refl db.deployments)
]

-- A deployment that succeeded, failed or was cancelled keeps its row through any sound commands of the
-- queue.
pub run-Frozen :
    (cs : List Command) (db : Db) (d : Deployment)
    → All IsSound cs
    → Member d db.deployments
    → is_pending d.status ≡ false
    → Member d (run cs db).deployments
unfolding run
run-Frozen [] db d sound m ended = m
run-Frozen (c ∷ cs) db d sound m ended =
    run-Frozen cs (step c db) d sound.1 (Frozen-step c db sound.0 d m ended) ended
