-- ===== src/Queue/Rows.antt =====
-- The rows that the operations queue reads and writes: internal/repository/operations.go,
-- internal/models/state.go, and the tables of internal/database/migrations that its statements name.
use host_forge.Base.{ℕ, String, Option, none, some, List, ◌==◌, Bool, true, false, if◌then◌else◌}
use host_forge.Base.Int.{ℤ}
use host_forge.Clock.{Stamp}

-- operations.status and database_operations.status, by the table's CHECK.
pub data OpStatus : Type 0 where
  queued running success failed cancelled : OpStatus

-- The texts that the CHECK admits. Any other is refused by the database.
unfoldable pub parse_status : String → Option OpStatus
parse_status s =
    if s == "queued"
    then some OpStatus.queued
    else if s == "running"
    then some OpStatus.running
    else if s == "success"
    then some OpStatus.success
    else if s == "failed"
    then some OpStatus.failed
    else if s == "cancelled"
    then some OpStatus.cancelled
    else none

abbrev pub is_queued : OpStatus → Bool
is_queued OpStatus.queued = true
is_queued _ = false

abbrev pub is_running : OpStatus → Bool
is_running OpStatus.running = true
is_running _ = false

abbrev pub is_success : OpStatus → Bool
is_success OpStatus.success = true
is_success _ = false

-- status = success, failed or cancelled
abbrev pub is_terminal : OpStatus → Bool
is_terminal OpStatus.queued = false
is_terminal OpStatus.running = false
is_terminal _ = true

-- status IN ('queued','running')
abbrev pub is_live : OpStatus → Bool
is_live OpStatus.queued = true
is_live OpStatus.running = true
is_live _ = false

pub record Operation : Type 0 where
  pub id : String
  pub kind : String
  pub lock_key : String
  pub status : OpStatus
  pub priority : ℤ
  pub progress_step : String
  pub progress_percent : ℕ
  pub available_at : Stamp
  pub attempt : ℕ
  pub max_attempts : ℕ
  pub lease_owner : String
  pub lease_expires_at : Stamp
  pub cancel_requested_at : Stamp
  pub application_id : String
  pub service_id : String
  pub environment_id : String
  pub actor : String
  pub error_code : String
  pub error_message : String
  pub started_at : Stamp
  pub completed_at : Stamp
  pub created_at : Stamp
  pub updated_at : Stamp

-- The read model of a database operation: it has its operation's id.
pub record DatabaseOperation : Type 0 where
  pub id : String
  pub service_id : String
  pub database_instance_id : Option String
  pub operation_type : String
  pub status : OpStatus
  pub progress_step : String
  pub progress_percent : ℕ
  pub actor : String
  pub error_code : String
  pub error_message : String
  pub started_at : Stamp
  pub completed_at : Stamp
  pub lease_owner : String
  pub lease_expires_at : Stamp
  pub attempt_count : ℕ
  pub created_at : Stamp
  pub updated_at : Stamp

pub data DeployStatus : Type 0 where
  queued building success failed cancelled : DeployStatus

-- status IN ('QUEUED','BUILDING')
abbrev pub is_pending : DeployStatus → Bool
is_pending DeployStatus.queued = true
is_pending DeployStatus.building = true
is_pending _ = false

abbrev pub is_deploy_queued : DeployStatus → Bool
is_deploy_queued DeployStatus.queued = true
is_deploy_queued _ = false

abbrev pub is_building : DeployStatus → Bool
is_building DeployStatus.building = true
is_building _ = false

abbrev pub is_deploy_cancelled : DeployStatus → Bool
is_deploy_cancelled DeployStatus.cancelled = true
is_deploy_cancelled _ = false

pub record Deployment : Type 0 where
  pub id : String
  pub service_id : String
  pub environment_id : String
  pub trigger_kind : String
  pub actor : String
  pub cancelled_at : Stamp
  pub rollback_of : String
  pub branch : String
  pub status : DeployStatus
  pub commit_hash : String
  pub logs_path : String
  pub image_ref : String
  pub worktree : String
  pub error_message : String
  pub builder_kind : String
  pub stack_kind : String
  pub stack_label : String
  pub created_at : Stamp
  pub updated_at : Stamp

-- A row of database_backups, database_restore_jobs or database_upgrade_jobs: the columns that recovery
-- reads and writes.
pub data CompanionStatus : Type 0 where
  queued running success failed cancelled deleting rolled_back : CompanionStatus

abbrev pub companion_running : CompanionStatus → Bool
companion_running CompanionStatus.running = true
companion_running _ = false

abbrev pub companion_live : CompanionStatus → Bool
companion_live CompanionStatus.queued = true
companion_live CompanionStatus.running = true
companion_live _ = false

pub record Companion : Type 0 where
  pub operation_id : Option String
  pub status : CompanionStatus
  pub updated_at : Stamp

-- The columns of services and database_instances that the statements join.
pub record Service : Type 0 where
  pub id : String
  pub application_id : String

pub record Instance : Type 0 where
  pub id : String
  pub environment_id : String

pub record PlatformEvent : Type 0 where
  pub application_id : String
  pub service_id : String
  pub environment_id : String
  pub deployment_id : String
  pub event_type : String
  pub status : DeployStatus
  pub actor : String
  pub message : String
  pub detail : String
  pub created_at : Stamp

pub record Db : Type 0 where
  pub operations : List Operation
  pub database_operations : List DatabaseOperation
  pub deployments : List Deployment
  pub backups : List Companion
  pub restore_jobs : List Companion
  pub upgrade_jobs : List Companion
  pub services : List Service
  pub instances : List Instance
  pub events : List PlatformEvent
