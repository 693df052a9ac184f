-- ===== src/Backups/Transfers.antt =====
-- Queueing backups and restores, under an hourly limit: QueueDatabaseBackup, QueueDatabaseRestore and
-- enforceDatabaseTransferRateLimit of internal/repository/database_backups.go.
-- Each reads first, outside a transaction, and then inserts in one. So each is two functions here, and
-- a third that runs them with nothing between.
use host_forge.Base.{
  is_nil, ℕ, suc, ◌+◌, ◌-◌, ◌*◌, String, Option, none, some, List, [], ◌∷◌, ◌++◌, Bool, true, false,
  not, ◌&&◌, ◌||◌, ◌==◌, if◌then◌else◌, ltb, exists_where,
}
use host_forge.Base.Int.{ℤ, pos}
use host_forge.Base.Text.{trim_space}
use host_forge.Sql.{
  count_where, find_where, Result, ok, err, invalid_input, constraint, not_found, unavailable,
  rate_limited, guard, require, ◌>>=◌, ◌>>◌,
}
use host_forge.Sql.Keys.{has_key}
use host_forge.Clock.{Time, Stamp, empty, second, whole_second, stamp_le}
use host_forge.Queue.Rows.{OpStatus, DatabaseOperation}
use host_forge.Queue.Enqueue.{insert_database_operation_queue_row}
use host_forge.Queue.Lease.{database_has_id}
use host_forge.Backups.Rows.{
  DatabaseBackup, DatabaseInstance, DatabaseService, DatabaseCredential, DatabaseRestoreJob,
  BackupStatus, RestoreMode, RestoreStatus, BackupDb, backup_success, backup_id_of,
  destination_id_of, is_empty,
}
use host_forge.Backups.Destinations.{get_backup_destination}
use host_forge.Backups.Records.{get_database_backup, is_job}
use host_forge.Backups.Policies.{get_database_instance, check_retention}

abbrev pub hour : ℕ
hour = 3600 * second

unfoldable pub get_database_service : String → BackupDb → Result DatabaseService
get_database_service id db =
    require not_found (find_where (λ s. s.service_id == trim_space id) db.database_services)

unfoldable pub get_database_credential_sealed : String → BackupDb → Result DatabaseCredential
get_database_credential_sealed id db =
    require not_found (find_where (λ c. c.database_instance_id == trim_space id) db.credentials)

-- operation_type IN ('backup','restore') AND created_at>=?
unfoldable pub is_transfer : DatabaseOperation → Bool
is_transfer op = (op.operation_type == "backup") || (op.operation_type == "restore")

unfoldable pub is_recent_transfer : Stamp → DatabaseOperation → Bool
is_recent_transfer since op = is_transfer op && stamp_le since op.created_at

unfoldable pub enforce_within : ℕ → Time → List DatabaseOperation → Result (Unit {0})
enforce_within max now ops =
    guard (ltb (count_where (is_recent_transfer (whole_second (now - hour))) ops) max) rate_limited

unfoldable pub enforce_database_transfer_rate_limit :
    Time → ℤ → List DatabaseOperation → Result (Unit {0})
enforce_database_transfer_rate_limit now (pos (suc n)) ops = enforce_within (suc n) now ops
enforce_database_transfer_rate_limit now n ops = err invalid_input

-- The row that both INSERTs write: `now` as a whole second.
unfoldable pub transfer_operation :
    String → String → String → String → String → String → Time → DatabaseOperation
transfer_operation id service_id instance_id operation_type progress_step actor now = record {
  id = id;
  service_id = service_id;
  database_instance_id = some instance_id;
  operation_type = operation_type;
  status = OpStatus.queued;
  progress_step = progress_step;
  progress_percent = 0;
  actor = trim_space actor;
  error_code = "";
  error_message = "";
  started_at = empty;
  completed_at = empty;
  lease_owner = "";
  lease_expires_at = empty;
  attempt_count = 0;
  created_at = whole_second now;
  updated_at = whole_second now;
}

unfoldable pub insert_database_operation : DatabaseOperation → BackupDb → Result BackupDb
insert_database_operation op db =
    if exists_where (database_has_id op.id) db.queue.database_operations
    then err constraint
    else ok (record db {
      queue = record db.queue { database_operations = db.queue.database_operations ++ (op ∷ []) };
    })

-- UNIQUE(operation_id), which two NULLs do not break.
unfoldable pub same_operation : Option String → DatabaseBackup → Bool
same_operation none b = false
same_operation (some id) b = elim b.operation_id [ none ↦ false | some k ↦ k == id ]

-- The primary key, UNIQUE(operation_id), and the foreign keys to an instance and a destination.
unfoldable pub insert_backup : DatabaseBackup → BackupDb → Result BackupDb
insert_backup b db =
    if exists_where (has_key backup_id_of b.id) db.backups
      || exists_where (same_operation b.operation_id) db.backups
    then err constraint
    else (do
      guard
          (elim b.destination_id [
            | none ↦ true
            | some d ↦ exists_where (has_key destination_id_of d) db.destinations
          ])
          constraint
      guard
          (elim b.database_instance_id [
            | none ↦ true
            | some i ↦ exists_where (λ inst. inst.id == i) db.instances
          ])
          constraint
      ok (record db { backups = db.backups ++ (b ∷ []) }))

unfoldable pub enqueue_transfer : String → BackupDb → Result BackupDb
enqueue_transfer id db = do
  queue' ← insert_database_operation_queue_row id db.queue
  ok (record db { queue = queue' })

-- What newID() draws twice, and time.Now().
pub record Draw : Type 0 where
  pub operation_id : String
  pub row_id : String
  pub now : Time

pub record BackupRequest : Type 0 where
  pub instance_id : String
  pub destination_id : String
  pub trigger_kind : String
  pub actor : String
  pub retention_days : ℤ
  pub max_transfers_per_hour : ℤ

unfoldable pub is_running_instance : DatabaseInstance → Bool
is_running_instance i =
    (i.status == "healthy") && (i.desired_state == "running") && is_empty i.deleted_at

unfoldable pub is_trigger : String → Bool
is_trigger s = (s == "manual") || (s == "scheduled") || (s == "safety")

unfoldable pub new_backup :
    Draw
    → BackupRequest
    → DatabaseInstance
    → DatabaseService
    → DatabaseCredential
    → ℕ
    → DatabaseBackup
new_backup draw r i svc credential days = record {
  id = draw.row_id;
  operation_id = some draw.operation_id;
  database_instance_id = some i.id;
  destination_id = some r.destination_id;
  status = BackupStatus.queued;
  trigger_kind = r.trigger_kind;
  object_key = "";
  archive_format = "";
  checksum = "";
  compressed_size = 0;
  engine = svc.engine;
  database_name = credential.database_name;
  engine_version = i.engine_version;
  encryption_algorithm = "";
  encrypted_data_key = [];
  error_code = "";
  error_message = "";
  started_at = empty;
  completed_at = empty;
  expires_at = whole_second (draw.now + days * (24 * hour));
  created_at = whole_second draw.now;
  updated_at = whole_second draw.now;
}

-- What is decided before the transaction.
unfoldable pub plan_backup :
    Draw → BackupRequest → BackupDb → Result (DatabaseOperation × DatabaseBackup)
plan_backup draw r db = do
  i ← get_database_instance r.instance_id db
  guard (is_running_instance i) unavailable
  destination ← get_backup_destination r.destination_id db
  svc ← get_database_service i.service_id db
  credential ← get_database_credential_sealed i.id db
  guard (is_trigger r.trigger_kind) invalid_input
  days ← check_retention r.retention_days
  ok (
    transfer_operation draw.operation_id i.service_id i.id "backup" "queued" r.actor draw.now,
    new_backup draw r i svc credential days,
  )

-- The transaction.
unfoldable pub commit_backup :
    Time → ℤ → DatabaseOperation → DatabaseBackup → BackupDb → Result BackupDb
commit_backup now max op b db = do
  enforce_database_transfer_rate_limit now max db.queue.database_operations
  with_operation ← insert_database_operation op db
  with_backup ← insert_backup b with_operation
  enqueue_transfer op.id with_backup

unfoldable pub queue_database_backup : Draw → BackupRequest → BackupDb → Result BackupDb
queue_database_backup draw r db = do
  plan ← plan_backup draw r db
  commit_backup draw.now r.max_transfers_per_hour plan.0 plan.1 db

pub record RestoreRequest : Type 0 where
  pub backup_id : String
  pub target_instance_id : String
  pub safety_backup_id : String
  pub mode : String
  pub actor : String
  pub max_transfers_per_hour : ℤ

unfoldable pub is_restorable : DatabaseBackup → Bool
is_restorable b =
    backup_success b.status && not (is_nil b.encrypted_data_key) && not (b.object_key == "")

-- Any error of the lookup becomes the caller's own.
unfoldable pub find_restorable : String → BackupDb → Result DatabaseBackup
find_restorable id db = elim (get_database_backup id db) [
  | ok b ↦ if is_restorable b then ok b else err unavailable
  | err e ↦ err unavailable
]

unfoldable pub may_replace : DatabaseInstance → Bool
may_replace i = (i.status == "healthy") && not (trim_space i.docker_container_id == "")

unfoldable pub may_receive : DatabaseInstance → Bool
may_receive i = (i.status == "provisioning") || (i.status == "starting") || (i.status == "healthy")

unfoldable pub is_compatible : DatabaseBackup → DatabaseInstance → Result DatabaseService → Bool
is_compatible b target (err e) = false
is_compatible b target (ok svc) =
    (svc.engine == b.engine) && (target.engine_version == b.engine_version)

unfoldable pub parse_mode : String → Option RestoreMode
parse_mode s =
    if s == "new_service"
    then some RestoreMode.new_service
    else if s == "replace_current"
    then some RestoreMode.replace_current
    else none

unfoldable pub is_safety_of : DatabaseInstance → DatabaseBackup → Bool
is_safety_of target b =
    elim b.database_instance_id [ none ↦ target.id == "" | some i ↦ i == target.id ]
    && (b.trigger_kind == "safety")

unfoldable pub safety_of :
    RestoreMode → String → DatabaseInstance → BackupDb → Result (Option String)
safety_of RestoreMode.new_service id target db = ok none
safety_of RestoreMode.replace_current id target db = elim (get_database_backup id db) [
  | ok b ↦ if is_safety_of target b then ok (some b.id) else err unavailable
  | err e ↦ err unavailable
]

unfoldable pub new_restore_job :
    Draw → DatabaseBackup → DatabaseInstance → Option String → RestoreMode → DatabaseRestoreJob
new_restore_job draw b target safety mode = record {
  operation_id = draw.operation_id;
  backup_id = b.id;
  target_instance_id = target.id;
  safety_backup_id = safety;
  mode = mode;
  status = RestoreStatus.queued;
  created_at = whole_second draw.now;
  updated_at = whole_second draw.now;
}

unfoldable pub plan_restore :
    Draw → RestoreRequest → BackupDb → Result (DatabaseOperation × DatabaseRestoreJob)
plan_restore draw r db = do
  b ← find_restorable r.backup_id db
  target ← get_database_instance r.target_instance_id db
  guard (is_empty target.deleted_at && (target.desired_state == "running")) unavailable
  guard (not (r.mode == "replace_current") || may_replace target) unavailable
  guard (not (r.mode == "new_service") || may_receive target) unavailable
  guard (is_compatible b target (get_database_service target.service_id db)) unavailable
  mode ← require invalid_input (parse_mode r.mode)
  safety ← safety_of mode r.safety_backup_id target db
  ok (
    transfer_operation draw.operation_id target.service_id target.id "restore" "waiting_for_target"
        r.actor draw.now,
    new_restore_job draw b target safety mode,
  )

unfoldable pub has_backup : String → BackupDb → Bool
has_backup id db = exists_where (has_key backup_id_of id) db.backups

-- The keys of database_restore_jobs.
unfoldable pub insert_job : DatabaseRestoreJob → BackupDb → Result BackupDb
insert_job j db =
    if exists_where (is_job j.operation_id) db.restore_jobs then err constraint else (do
      guard (has_backup j.backup_id db) constraint
      guard (elim j.safety_backup_id [ none ↦ true | some s ↦ has_backup s db ]) constraint
      guard (exists_where (λ i. i.id == j.target_instance_id) db.instances) constraint
      ok (record db { restore_jobs = db.restore_jobs ++ (j ∷ []) }))

unfoldable pub commit_restore :
    Time → ℤ → DatabaseOperation → DatabaseRestoreJob → BackupDb → Result BackupDb
commit_restore now max op j db = do
  enforce_database_transfer_rate_limit now max db.queue.database_operations
  with_operation ← insert_database_operation op db
  with_job ← insert_job j with_operation
  enqueue_transfer op.id with_job

unfoldable pub queue_database_restore : Draw → RestoreRequest → BackupDb → Result BackupDb
queue_database_restore draw r db = do
  plan ← plan_restore draw r db
  commit_restore draw.now r.max_transfers_per_hour plan.0 plan.1 db
