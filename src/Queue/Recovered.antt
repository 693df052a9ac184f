-- ===== src/Queue/Recovered.antt =====
-- What recovery leaves behind: RecoverOperations of internal/repository/operations.go with the sweeps of
-- operations_deploy.go.
use host_forge.Base.{
  ◌≡◌, refl, Bool, true, false, arith, List, [], ◌∷◌, All, exists_where, ◌&&◌, ◌==◌,
}
use host_forge.Sql.{update_where}
use host_forge.Sql.Laws.{exists_where_sharp}
use host_forge.Sql.Updates.{All-update_where}
use host_forge.Clock.{Time, at}
use host_forge.Queue.Rows.{Operation, Deployment, Db, is_queued, is_live, is_pending}
use host_forge.Queue.Deploys.{sweep_orphaned_deployments, fail_interrupted, is_orphaned, finish_as}
use host_forge.Queue.Recovery.{
  running_now, update_operations, fail_exhausted, requeue_running, recover_operations,
}
use host_forge.Queue.Changes.Update.{recovered, recovered_idle}
use host_forge.Queue.Changes.Commands.{operations-recover}

no_running :
    (now : Time) (ops : List Operation)
    → exists_where running_now (update_where running_now (recovered now) ops) ≡ false
no_running now [] = refl
no_running now (o ∷ ops) = ground (arith, recovered_idle now o, no_running now ops)

-- Nothing is running any more.
recover-idle :
    (now : Time) (db : Db)
    → exists_where running_now (recover_operations now db).2.operations ≡ false
recover-idle now db = rw (operations-recover now db) (no_running now db.operations)

-- A queued operation has the deployment's id.
abbrev pub has_queued : List Operation → Deployment → Bool
has_queued ops d = exists_where (λ o. is_queued o.status && (o.id == d.id)) ops

sweep_keeps_backed :
    (now : Time) (db : Db)
    → exists_where running_now db.operations ≡ false
    → All
        (λ d. is_pending d.status ≡ true → has_queued db.operations d ≡ true)
        (sweep_orphaned_deployments (at now) db).1.deployments
unfolding sweep_orphaned_deployments fail_interrupted finish_as
sweep_keeps_backed now db idle =
    All-update_where _ (is_orphaned db.operations) _ db.deployments (λ d m orphan pending. cc)
      (λ d m backed pending.
        exists_where_sharp (λ o. is_live o.status && (o.id == d.id)) running_now
          (λ o. is_queued o.status && (o.id == d.id)) db.operations (λ o h g. ground arith) idle
          (ground arith))

-- After recovery nothing is running, and every deployment that is still queued or building has a
-- queued operation of its id.
pub recover_settles :
    (now : Time) (db : Db)
    → (exists_where running_now (recover_operations now db).2.operations ≡ false)
      × All
          (λ d.
            is_pending d.status ≡ true
            → has_queued (recover_operations now db).2.operations d ≡ true)
          (recover_operations now db).2.deployments
unfolding recover_operations requeue_running sweep_orphaned_deployments update_operations
    fail_interrupted
recover_settles now db =
    let idle = recover-idle now db in
    (idle, sweep_keeps_backed now (requeue_running now (fail_exhausted now db)) idle)
