-- ===== src/Queue/Leases/Columns.antt =====
-- The rows that CompleteOperation and DeferOperation of internal/repository/operations.go leave, column by
-- column.
use host_forge.Base.{◌-◌, ◌==◌, if◌then◌else◌}
use host_forge.Base.Text.{trim_space}
use host_forge.Clock.{Time, at, empty}
use host_forge.Queue.Rows.{OpStatus, Operation, is_success}
use host_forge.Queue.Lease.{CompleteOperationInput}

abbrev pub completed_columns : CompleteOperationInput → OpStatus → Time → Operation → Operation
completed_columns in' status now o = record {
  id = o.id;
  kind = o.kind;
  lock_key = o.lock_key;
  status = status;
  priority = o.priority;
  progress_step = if in'.progress_step == "" then o.progress_step else in'.progress_step;
  progress_percent = if is_success status then 100 else o.progress_percent;
  available_at = o.available_at;
  attempt = o.attempt;
  max_attempts = o.max_attempts;
  lease_owner = "";
  lease_expires_at = empty;
  cancel_requested_at = o.cancel_requested_at;
  application_id = o.application_id;
  service_id = o.service_id;
  environment_id = o.environment_id;
  actor = o.actor;
  error_code = trim_space in'.error_code;
  error_message = trim_space in'.error_message;
  started_at = o.started_at;
  completed_at = at now;
  created_at = o.created_at;
  updated_at = at now;
}

abbrev pub deferred_columns : Time → Time → Operation → Operation
deferred_columns available now o = record {
  id = o.id;
  kind = o.kind;
  lock_key = o.lock_key;
  status = OpStatus.queued;
  priority = o.priority;
  progress_step = "waiting";
  progress_percent = 0;
  available_at = at available;
  attempt = o.attempt - 1;
  max_attempts = o.max_attempts;
  lease_owner = "";
  lease_expires_at = empty;
  cancel_requested_at = o.cancel_requested_at;
  application_id = o.application_id;
  service_id = o.service_id;
  environment_id = o.environment_id;
  actor = o.actor;
  error_code = o.error_code;
  error_message = o.error_message;
  started_at = o.started_at;
  completed_at = o.completed_at;
  created_at = o.created_at;
  updated_at = at now;
}
