-- ===== src/Queue/Enqueue.antt =====
-- Inserting rows: NewOperationInput, insertOperationTx, insertDatabaseOperationQueueRow,
-- EnqueueOperation and GetOperation of internal/repository/operations.go, and EnqueueDeployOperation of
-- operations_deploy.go.
use Prim.Native.String.{◌++◌ as concat}
use host_forge.Base.{
  ℕ, zero, suc, String, Option, none, some, [], ◌∷◌, ◌++◌, Bool, ◌||◌, ◌==◌, if◌then◌else◌,
  exists_where,
}
use host_forge.Base.Int.{ℤ, pos, negsuc}
use host_forge.Base.Text.{trim_space}
use host_forge.Sql.{find_where, Result, ok, err, no_rows, invalid_input, constraint, ◌>>=◌}
use host_forge.Clock.{Time, empty, at}
use host_forge.Queue.Rows.{
  OpStatus, parse_status, Operation, DatabaseOperation, Db, is_success, is_terminal,
}

abbrev default_operation_priority : ℤ
default_operation_priority = pos 100

abbrev pub default_operation_max_attempts : ℤ
default_operation_max_attempts = pos 5

pub record NewOperationInput : Type 0 where
  pub id : String
  pub kind : String
  pub lock_key : String
  pub status : String
  pub priority : ℤ
  pub max_attempts : ℤ
  pub progress_step : String
  pub application_id : String
  pub service_id : String
  pub environment_id : String
  pub actor : String

abbrev pub has_id : String → Operation → Bool
has_id id o = o.id == id

-- Zero stands for "not given".
abbrev pub or_default : ℤ → ℤ → ℤ
or_default (pos zero) default = default
or_default n default = n

-- CHECK(max_attempts >= 1)
abbrev pub check_positive : ℤ → Result ℕ
check_positive (pos (suc n)) = ok (suc n)
check_positive (pos zero) = err constraint
check_positive (negsuc n) = err constraint

abbrev pub check_status : Option OpStatus → Result OpStatus
check_status none = err constraint
check_status (some status) = ok status

-- PRIMARY KEY
unfoldable pub insert_unique : Operation → Db → Result Db
insert_unique o db =
    if exists_where (has_id o.id) db.operations
    then err constraint
    else ok (record db { operations = db.operations ++ (o ∷ []) })

-- The inserted row. One that is already terminal is an audit record, completed on the spot.
unfoldable pub new_operation : NewOperationInput → OpStatus → ℕ → Time → Operation
new_operation in' status attempts now = record {
  id = trim_space in'.id;
  kind = trim_space in'.kind;
  lock_key = trim_space in'.lock_key;
  status = status;
  priority = or_default in'.priority default_operation_priority;
  progress_step = in'.progress_step;
  progress_percent = if is_success status then 100 else 0;
  available_at = empty;
  attempt = 0;
  max_attempts = attempts;
  lease_owner = "";
  lease_expires_at = empty;
  cancel_requested_at = empty;
  application_id = trim_space in'.application_id;
  service_id = trim_space in'.service_id;
  environment_id = trim_space in'.environment_id;
  actor = trim_space in'.actor;
  error_code = "";
  error_message = "";
  started_at = empty;
  completed_at = if is_terminal status then at now else empty;
  created_at = at now;
  updated_at = at now;
}

abbrev pub is_blank : String → Bool
is_blank s = trim_space s == ""

unfoldable pub insert_operation : NewOperationInput → Time → Db → Result Db
insert_operation in' now db =
    if is_blank in'.id || is_blank in'.kind || is_blank in'.lock_key then err invalid_input else (do
      status ← check_status (parse_status (if in'.status == "" then "queued" else in'.status))
      attempts ← check_positive (or_default in'.max_attempts default_operation_max_attempts)
      insert_unique (new_operation in' status attempts now) db)

abbrev or_no_rows : Option Operation → Result Operation
or_no_rows none = err no_rows
or_no_rows (some o) = ok o

unfoldable pub get_operation : String → Db → Result Operation
get_operation id db = or_no_rows (find_where (has_id (trim_space id)) db.operations)

-- `fresh` is the id that `newID()` would draw. The row is read back after the commit, so what that
-- read comes to stands beside the database.
unfoldable pub enqueue_operation :
    String → NewOperationInput → Time → Db → Result (Result Operation × Db)
enqueue_operation fresh given now db =
    let in' = record given { id = if is_blank given.id then fresh else given.id } in
    do db' ← insert_operation in' now db; ok (get_operation in'.id db', db')

pub record EnqueueDeployOperationInput : Type 0 where
  pub deployment_id : String
  pub lock_key : String
  pub application_id : String
  pub service_id : String
  pub environment_id : String
  pub actor : String
  pub priority : ℤ

-- One attempt: an interrupted deploy fails and is never resumed.
unfoldable pub deploy_input : EnqueueDeployOperationInput → NewOperationInput
deploy_input in' = record {
  id = in'.deployment_id;
  kind = "deploy";
  lock_key = in'.lock_key;
  status = "";
  priority = in'.priority;
  max_attempts = pos 1;
  progress_step = "";
  application_id = in'.application_id;
  service_id = in'.service_id;
  environment_id = in'.environment_id;
  actor = in'.actor;
}

unfoldable pub enqueue_deploy_operation :
    String → EnqueueDeployOperationInput → Time → Db → Result (Result Operation × Db)
enqueue_deploy_operation fresh in' now db = enqueue_operation fresh (deploy_input in') now db

-- COALESCE over a LEFT JOIN
application_of : String → Db → String
application_of service_id db = elim (find_where (λ svc. svc.id == service_id) db.services) [
  | none ↦ ""
  | some svc ↦ svc.application_id
]

environment_of : Option String → Db → String
environment_of none db = ""
environment_of (some instance_id) db =
    elim (find_where (λ inst. inst.id == instance_id) db.instances) [
      | none ↦ ""
      | some inst ↦ inst.environment_id
    ]

-- Work on an instance is serialised by the instance, all other by the service.
unfoldable pub database_lock_key : Option String → String → String
database_lock_key none service_id = concat "dbsvc:" service_id
database_lock_key (some instance_id) service_id =
    if instance_id == "" then concat "dbsvc:" service_id else concat "dbi:" instance_id

unfoldable pub queue_row : DatabaseOperation → Db → Operation
unfolding application_of environment_of database_lock_key
queue_row op db = record {
  id = op.id;
  kind = concat "db_" op.operation_type;
  lock_key = database_lock_key op.database_instance_id op.service_id;
  status = op.status;
  priority = default_operation_priority;
  progress_step = op.progress_step;
  progress_percent = op.progress_percent;
  available_at = empty;
  attempt = 0;
  max_attempts = 5;
  lease_owner = "";
  lease_expires_at = empty;
  cancel_requested_at = empty;
  application_id = application_of op.service_id db;
  service_id = op.service_id;
  environment_id = environment_of op.database_instance_id db;
  actor = op.actor;
  error_code = "";
  error_message = "";
  started_at = op.started_at;
  completed_at = op.completed_at;
  created_at = op.created_at;
  updated_at = op.updated_at;
}

-- INSERT … SELECT: no row of database_operations, no row inserted.
abbrev insert_selected : Option DatabaseOperation → Db → Result Db
insert_selected none db = ok db
insert_selected (some op) db = insert_unique (queue_row op db) db

unfoldable pub insert_database_operation_queue_row : String → Db → Result Db
insert_database_operation_queue_row operation_id db =
    insert_selected (find_where (λ op. op.id == trim_space operation_id) db.database_operations) db
