-- ===== src/Queue/Recovery.antt =====
-- RecoverOperations of internal/repository/operations.go, statement by statement.
use host_forge.Base.{
  ℕ, ◌+◌, String, Option, none, some, List, Bool, false, ◌&&◌, ◌==◌, leb, exists_where,
}
use host_forge.Sql.{update_where, count_where}
use host_forge.Clock.{Time, empty, at}
use host_forge.Queue.Rows.{
  OpStatus, Operation, DatabaseOperation, CompanionStatus, Companion, Db, is_running,
  companion_running, companion_live,
}
use host_forge.Queue.Deploys.{project_exhausted_deploys, sweep_orphaned_deployments}

-- WHERE status='running' AND attempt>=max_attempts
abbrev pub is_exhausted : Operation → Bool
is_exhausted o = is_running o.status && leb o.max_attempts o.attempt

-- id IN (SELECT id FROM operations WHERE p)
abbrev pub is_selected : (Operation → Bool) → List Operation → String → Bool
is_selected p ops id = exists_where (λ o. p o && (o.id == id)) ops

-- NULL is in no set.
abbrev is_companion_of : (Operation → Bool) → List Operation → Option String → Bool
is_companion_of p ops none = false
is_companion_of p ops (some id) = is_selected p ops id

-- One UPDATE for each of the three companion tables.
unfoldable pub update_companions :
    (CompanionStatus → Bool) → (Operation → Bool) → CompanionStatus → Time → Db → Db
update_companions live p status now db =
    let change =
      update_where (λ c. live c.status && is_companion_of p db.operations c.operation_id)
        (λ (c : Companion). record c { status = status; updated_at = at now }) in
    record db {
      backups = change db.backups;
      restore_jobs = change db.restore_jobs;
      upgrade_jobs = change db.upgrade_jobs;
    }

abbrev pub interrupted : String
interrupted = "interrupted"

abbrev retry_limit : String
retry_limit = "operation exceeded the retry limit"

unfoldable pub mark_interrupted : Time → Operation → Operation
mark_interrupted now o = record o {
  status = OpStatus.failed;
  progress_step = interrupted;
  error_code = interrupted;
  error_message = retry_limit;
  completed_at = at now;
  lease_owner = "";
  lease_expires_at = empty;
  updated_at = at now;
}

unfoldable pub mark_database_interrupted : Time → DatabaseOperation → DatabaseOperation
mark_database_interrupted now d = record d {
  status = OpStatus.failed;
  progress_step = interrupted;
  error_code = interrupted;
  error_message = retry_limit;
  completed_at = at now;
  lease_owner = "";
  lease_expires_at = empty;
  updated_at = at now;
}

unfoldable pub mark_requeued : Time → Operation → Operation
mark_requeued now o = record o {
  status = OpStatus.queued;
  progress_step = "recovery";
  progress_percent = 0;
  available_at = empty;
  lease_owner = "";
  lease_expires_at = empty;
  updated_at = at now;
}

unfoldable pub mark_database_requeued : Time → DatabaseOperation → DatabaseOperation
mark_database_requeued now d = record d {
  status = OpStatus.queued;
  progress_step = "recovery";
  progress_percent = 0;
  lease_owner = "";
  lease_expires_at = empty;
  updated_at = at now;
}

-- UPDATE database_operations SET g WHERE id IN (SELECT id FROM operations WHERE p)
unfoldable pub update_database_selected :
    (Operation → Bool) → (DatabaseOperation → DatabaseOperation) → Db → Db
update_database_selected p g db = record db {
  database_operations =
      update_where (λ d. is_selected p db.operations d.id) g db.database_operations;
}

-- UPDATE operations SET f WHERE p
unfoldable pub update_operations : (Operation → Bool) → (Operation → Operation) → Db → Db
update_operations p f db = record db { operations = update_where p f db.operations }

abbrev pub running_now : Operation → Bool
running_now o = is_running o.status

-- First those with no attempt left fail, with their companions and deployments.
unfoldable pub fail_exhausted : Time → Db → Db
fail_exhausted now db =
    let companions = update_companions companion_live is_exhausted CompanionStatus.failed now db in
    let projected =
      update_database_selected is_exhausted (mark_database_interrupted now) companions in
    update_operations is_exhausted (mark_interrupted now)
      (project_exhausted_deploys is_exhausted (at now) projected)

-- Whatever is still running goes back to the queue.
unfoldable pub requeue_running : Time → Db → Db
requeue_running now db =
    let companions =
      update_companions companion_running running_now CompanionStatus.queued now db in
    let projected = update_database_selected running_now (mark_database_requeued now) companions in
    update_operations running_now (mark_requeued now) projected

-- With the numbers requeued and failed.
unfoldable pub recover_operations : Time → Db → ℕ × ℕ × Db
recover_operations now db =
    let failed_db = fail_exhausted now db in
    let (orphaned, swept) = sweep_orphaned_deployments (at now) (requeue_running now failed_db) in
    (
      count_where running_now failed_db.operations,
      count_where is_exhausted db.operations + orphaned,
      swept,
    )
