-- ===== src/Examples/Tables.antt =====
-- Backup tables with a stored backup that has expired, one that a restore has used, and a policy that
-- is due.
use host_forge.Base.{◌*◌, String, none, some, List, [], ◌∷◌, true, false}
use host_forge.Base.Int.{pos}
use host_forge.Clock.{Time, empty, second, whole_second}
use host_forge.Examples.Fixtures.{queue}
use host_forge.Backups.Rows.{
  Provider, BackupDestinationSealed, DatabaseBackup, DatabaseBackupPolicy, DatabaseRestoreJob,
  BackupStatus, RestoreMode, RestoreStatus, BackupDb,
}
use host_forge.Backups.Transfers.{Draw, BackupRequest, RestoreRequest}
use host_forge.Backups.Steps.{
  Command, queues_backup, queues_restore, deletes_record, deletes_destination, starts_backup,
}

abbrev pub now : Time
now = 1000000 * second

abbrev pub store : String → BackupDestinationSealed
store id = record {
  shown = record {
    id = id;
    name = id;
    provider = Provider.s3;
    endpoint = "https://s3.example";
    region = "eu";
    bucket = "dumps";
    object_prefix = "";
    path_style = false;
    server_side_encryption = "";
    sse_kms_key_id = "";
    last_test_status = "";
    last_test_message = "";
    last_tested_at = empty;
    created_at = whole_second 0;
    updated_at = whole_second 0;
  };
  access_key_ct = 1 ∷ [];
  secret_key_ct = 2 ∷ [];
}

abbrev pub backup : String → BackupStatus → Time → DatabaseBackup
backup id status expires = record {
  id = id;
  operation_id = none;
  database_instance_id = some "db1";
  destination_id = some "s1";
  status = status;
  trigger_kind = "manual";
  object_key = "dumps/1";
  archive_format = "custom";
  checksum = "";
  compressed_size = 7;
  engine = "postgresql";
  database_name = "app";
  engine_version = "16";
  encryption_algorithm = "AES-256-GCM-CHUNKED";
  encrypted_data_key = 9 ∷ [];
  error_code = "";
  error_message = "";
  started_at = whole_second 0;
  completed_at = whole_second 0;
  expires_at = whole_second expires;
  created_at = whole_second 0;
  updated_at = whole_second 0;
}

abbrev pub old_backup : DatabaseBackup
old_backup = backup "b1" BackupStatus.success (5 * second)

abbrev pub used_backup : DatabaseBackup
used_backup = backup "b2" BackupStatus.success (5 * second)

abbrev pub nightly : DatabaseBackupPolicy
nightly = record {
  database_instance_id = "db1";
  destination_id = "s1";
  enabled = true;
  schedule = "0 2 * * *";
  timezone = "UTC";
  retention_days = 30;
  last_scheduled_at = empty;
  next_scheduled_at = whole_second (7 * second);
  created_at = whole_second 0;
  updated_at = whole_second 0;
}

abbrev pub past_restore : DatabaseRestoreJob
past_restore = record {
  operation_id = "op0";
  backup_id = "b2";
  target_instance_id = "db1";
  safety_backup_id = none;
  mode = RestoreMode.new_service;
  status = RestoreStatus.success;
  created_at = whole_second 0;
  updated_at = whole_second 0;
}

abbrev pub tables : BackupDb
tables = record {
  queue = queue;
  destinations = store "s1" ∷ store "s2" ∷ [];
  policies = nightly ∷ [];
  backups = old_backup ∷ used_backup ∷ [];
  restore_jobs = past_restore ∷ [];
  instances =
      record {
        id = "db1";
        service_id = "svc";
        engine_version = "16";
        docker_container_id = "c1";
        desired_state = "running";
        status = "healthy";
        deleted_at = empty;
      }
      ∷ [];
  database_services = record { service_id = "svc"; engine = "postgresql" } ∷ [];
  credentials = record { database_instance_id = "db1"; database_name = "app" } ∷ [];
}

abbrev pub draw : Draw
draw = record { operation_id = "n1"; row_id = "n2"; now = now }

abbrev pub request : BackupRequest
request = record {
  instance_id = "db1";
  destination_id = "s2";
  trigger_kind = "manual";
  actor = "admin";
  retention_days = pos 30;
  max_transfers_per_hour = pos 2;
}

abbrev pub restore : RestoreRequest
restore = record {
  backup_id = "b1";
  target_instance_id = "db1";
  safety_backup_id = "";
  mode = "new_service";
  actor = "admin";
  max_transfers_per_hour = pos 2;
}

abbrev pub commands : List Command
commands =
    queues_backup draw request tables
    ∷ queues_restore (record draw { operation_id = "n3" }) restore tables
    ∷ deletes_destination "s2" tables
    ∷ deletes_record "b1"
    ∷ starts_backup "n2" now
    ∷ []
