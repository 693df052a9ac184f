-- ===== src/Queue/Deploys.antt =====
-- The deploy half of the queue: how an operation's transitions are projected onto the deployment that
-- has its id (internal/repository/operations_deploy.go).
use host_forge.Base.{
  ℕ, String, List, ◌++◌, map, Bool, ◌&&◌, not, ◌==◌, eqb, if◌then◌else◌, exists_where,
}
use host_forge.Sql.{update_where, count_where, filter_rows, Result, ok, err, invalid_input}
use host_forge.Clock.{Stamp}
use host_forge.Queue.Rows.{
  OpStatus, Operation, DeployStatus, Deployment, Service, PlatformEvent, Db, is_live, is_pending,
  is_deploy_queued, is_building,
}
use mathlib.Core.List.{flat_map}

-- 'Deployment ' || lower(status)
abbrev pub deployment_message : DeployStatus → String
deployment_message DeployStatus.queued = "Deployment queued"
deployment_message DeployStatus.building = "Deployment building"
deployment_message DeployStatus.success = "Deployment success"
deployment_message DeployStatus.failed = "Deployment failed"
deployment_message DeployStatus.cancelled = "Deployment cancelled"

status_event : DeployStatus → String → Stamp → Deployment → Service → PlatformEvent
status_event status detail now d svc = record {
  application_id = svc.application_id;
  service_id = d.service_id;
  environment_id = d.environment_id;
  deployment_id = d.id;
  event_type = "deployment";
  status = status;
  actor = d.actor;
  message = deployment_message status;
  detail = detail;
  created_at = now;
}

-- INSERT INTO platform_events SELECT … FROM deployments d JOIN services svc ON svc.id=d.service_id
-- WHERE p
unfoldable pub status_events :
    (Deployment → Bool) → DeployStatus → String → Stamp → Db → List PlatformEvent
unfolding status_event
status_events p status detail now db =
    flat_map
      (λ d.
        map (status_event status detail now d)
          (filter_rows (λ svc. svc.id == d.service_id) db.services))
      (filter_rows p db.deployments)

unfoldable pub record_deployment_status_event : String → DeployStatus → String → Stamp → Db → Db
record_deployment_status_event deployment_id status detail now db = record db {
  events = db.events ++ status_events (λ d. d.id == deployment_id) status detail now db;
}

-- UPDATE deployments SET f WHERE p, and the event of the change if a row was affected.
unfoldable pub project_update :
    (Deployment → Bool)
    → (Deployment → Deployment)
    → String
    → DeployStatus
    → String
    → Stamp
    → Db
    → Db
project_update p f deployment_id status detail now db =
    let updated = record db { deployments = update_where p f db.deployments } in
    if eqb (count_where p db.deployments) 0
    then updated
    else record_deployment_status_event deployment_id status detail now updated

unfoldable pub project_deploy_claim : String → Stamp → Db → Db
project_deploy_claim deployment_id now =
    project_update (λ d. (d.id == deployment_id) && is_deploy_queued d.status)
      (λ d. record d { status = DeployStatus.building; updated_at = now }) deployment_id
      DeployStatus.building "" now

unfoldable pub project_deploy_defer : String → Stamp → Db → Db
project_deploy_defer deployment_id now =
    project_update (λ d. (d.id == deployment_id) && is_building d.status)
      (λ d. record d { status = DeployStatus.queued; updated_at = now }) deployment_id
      DeployStatus.queued "" now

unfoldable pub finish_cancelled : Stamp → Deployment → Deployment
finish_cancelled now d = record d {
  status = DeployStatus.cancelled;
  cancelled_at = now;
  updated_at = now;
}

unfoldable pub finish_as : DeployStatus → String → Stamp → Deployment → Deployment
finish_as status message now d = record d {
  status = status;
  error_message = message;
  updated_at = now;
}

-- Any status but the three terminal ones is refused.
unfoldable pub project_deploy_complete : String → OpStatus → String → Stamp → Db → Result Db
project_deploy_complete deployment_id OpStatus.success message now db = ok (
    project_update (λ d. (d.id == deployment_id) && is_pending d.status)
      (finish_as DeployStatus.success message now) deployment_id DeployStatus.success message now
      db)
project_deploy_complete deployment_id OpStatus.failed message now db = ok (
    project_update (λ d. (d.id == deployment_id) && is_pending d.status)
      (finish_as DeployStatus.failed message now) deployment_id DeployStatus.failed message now db)
project_deploy_complete deployment_id OpStatus.cancelled message now db = ok (
    project_update (λ d. (d.id == deployment_id) && is_pending d.status) (finish_cancelled now)
      deployment_id DeployStatus.cancelled message now db)
project_deploy_complete deployment_id _ message now db = err invalid_input

-- Both sweeps: the events first, then the rows, over the same selection.
unfoldable pub fail_interrupted : (Deployment → Bool) → Stamp → Db → Db
fail_interrupted p now db = record db {
  events = db.events ++ status_events p DeployStatus.failed "interrupted" now db;
  deployments = update_where p (finish_as DeployStatus.failed "interrupted" now) db.deployments;
}

-- The subquery is a test on the rows of operations.
unfoldable pub project_exhausted_deploys : (Operation → Bool) → Stamp → Db → Db
project_exhausted_deploys exhausted now db =
    fail_interrupted
      (λ d. is_pending d.status && exists_where (λ o. exhausted o && (o.id == d.id)) db.operations)
      now db

abbrev pub is_orphaned : List Operation → Deployment → Bool
is_orphaned ops d =
    is_pending d.status && not (exists_where (λ o. is_live o.status && (o.id == d.id)) ops)

-- With the number of deployments that it failed.
unfoldable pub sweep_orphaned_deployments : Stamp → Db → ℕ × Db
sweep_orphaned_deployments now db = (
  count_where (is_orphaned db.operations) db.deployments,
  fail_interrupted (is_orphaned db.operations) now db,
)
