-- ===== src/Deployments/Store.antt =====
-- CreateServiceDeployment and CancelDeployment of internal/repository/deployments_v2.go,
-- UpdateDeploymentStatus of store.go and RecordDeploymentEvent of platform_events.go.
use host_forge.Base.{
  String, List, [], ◌∷◌, ◌++◌, map, Bool, true, false, not, ◌&&◌, ◌||◌, ◌==◌, eqb, if◌then◌else◌,
  exists_where,
}
use host_forge.Base.Text.{trim_space}
use host_forge.Sql.{
  update_where, count_where, filter_rows, Result, ok, err, no_rows, invalid_input, constraint,
}
use host_forge.Clock.{Time, Stamp, empty, whole_second}
use host_forge.Queue.Rows.{
  DeployStatus, Deployment, Service, PlatformEvent, Db, is_deploy_cancelled, is_pending,
}
use host_forge.Queue.Deploys.{
  deployment_message, record_deployment_status_event, finish_as, finish_cancelled,
}
use mathlib.Core.List.{flat_map}

-- A row of service_environments and of environments, as the join reads them.
pub record Binding : Type 0 where
  pub service_id : String
  pub environment_id : String

pub record Environment : Type 0 where
  pub id : String
  pub application_id : String

pub record CreateServiceDeploymentInput : Type 0 where
  pub service_id : String
  pub environment_id : String
  pub commit_hash : String
  pub logs_path : String
  pub image_ref : String
  pub worktree : String
  pub trigger_kind : String
  pub actor : String
  pub rollback_of : String
  pub branch : String

-- COALESCE(svc.application_id,'') over a LEFT JOIN: one row even where no service matches.
abbrev applications_of : List Service → List String
applications_of [] = "" ∷ []
applications_of (svc ∷ rest) = map (λ (s : Service). s.application_id) (svc ∷ rest)

abbrev deployment_event : DeployStatus → String → Stamp → Deployment → String → PlatformEvent
deployment_event status detail now d application_id = record {
  application_id = application_id;
  service_id = d.service_id;
  environment_id = d.environment_id;
  deployment_id = d.id;
  event_type = "deployment";
  status = status;
  actor = d.actor;
  message = deployment_message status;
  detail = detail;
  created_at = now;
}

unfoldable pub record_deployment_event : String → DeployStatus → String → Time → Db → Db
record_deployment_event raw_id status detail now db = record db {
  events =
      db.events
      ++ flat_map
          (λ d.
            map (deployment_event status (trim_space detail) (whole_second now) d)
              (applications_of (filter_rows (λ svc. svc.id == d.service_id) db.services)))
          (filter_rows (λ d. d.id == trim_space raw_id) db.deployments);
}

-- SELECT COUNT(1) FROM service_environments JOIN services JOIN environments … > 0
unfoldable pub is_bound : List Binding → List Environment → String → String → Db → Bool
is_bound bindings environments service_id environment_id db =
    exists_where (λ b. (b.service_id == service_id) && (b.environment_id == environment_id))
      bindings
    && exists_where
        (λ (svc : Service).
          (svc.id == service_id)
          && exists_where
              (λ (env : Environment).
                (env.id == environment_id) && (env.application_id == svc.application_id))
              environments)
        db.services

unfoldable pub new_deployment : String → CreateServiceDeploymentInput → Time → Deployment
new_deployment fresh in' now = record {
  id = fresh;
  service_id = trim_space in'.service_id;
  environment_id = trim_space in'.environment_id;
  trigger_kind =
      if trim_space in'.trigger_kind == "" then "manual" else trim_space in'.trigger_kind;
  actor = trim_space in'.actor;
  cancelled_at = empty;
  rollback_of = trim_space in'.rollback_of;
  branch = trim_space in'.branch;
  status = DeployStatus.queued;
  commit_hash = trim_space in'.commit_hash;
  logs_path = trim_space in'.logs_path;
  image_ref = trim_space in'.image_ref;
  worktree = trim_space in'.worktree;
  error_message = "";
  builder_kind = "";
  stack_kind = "";
  stack_label = "";
  created_at = whole_second now;
  updated_at = whole_second now;
}

-- `fresh` is the id that `newID()` draws. ErrEnvironmentNotFound is no_rows.
unfoldable pub create_service_deployment :
    List Binding
    → List Environment
    → String
    → CreateServiceDeploymentInput
    → Time
    → Db
    → Result (Deployment × Db)
create_service_deployment bindings environments fresh in' now db =
    let item = new_deployment fresh in' now in
    if (item.service_id == "") || (item.environment_id == "")
    then err invalid_input
    else if not (is_bound bindings environments item.service_id item.environment_id db)
    then err no_rows
    else if exists_where (λ (d : Deployment). d.id == fresh) db.deployments
    then err constraint
    else ok (
      item,
      record_deployment_event fresh DeployStatus.queued "" now
          (record db { deployments = db.deployments ++ (item ∷ []) }),
    )

abbrev pub is_open : String → Deployment → Bool
is_open id d = (d.id == id) && not (is_deploy_cancelled d.status)

-- CANCELLED is final.
unfoldable pub update_deployment_status : String → DeployStatus → String → Time → Db → Result Db
update_deployment_status raw_id status raw_message now db =
    let id = trim_space raw_id in
    let message = trim_space raw_message in
    let updated = record db {
      deployments =
          update_where (is_open id) (finish_as status message (whole_second now)) db.deployments;
    } in
    if eqb (count_where (is_open id) db.deployments) 0
    then err no_rows
    else ok (record_deployment_status_event id status message (whole_second now) updated)

abbrev pub is_cancellable : String → Deployment → Bool
is_cancellable id d = (d.id == id) && is_pending d.status

-- The update stands by itself: the event is a second statement.
unfoldable pub cancel_deployment : String → Time → Db → Bool × Db
cancel_deployment id now db =
    let updated = record db {
      deployments =
          update_where (is_cancellable (trim_space id)) (finish_cancelled (whole_second now))
            db.deployments;
    } in
    if eqb (count_where (is_cancellable (trim_space id)) db.deployments) 1
    then (
      true,
      record_deployment_event id DeployStatus.cancelled "cancelled by operator" now updated,
    )
    else (false, updated)
