-- ===== src/Queue/Removal.antt =====
-- Deleting a database service: BeginDatabaseServiceDeletion of
-- internal/repository/database_services.go, which cancels the service's queued operations.
use host_forge.Base.{
  String, List, Bool, true, false, not, ◌&&◌, ◌==◌, if◌then◌else◌, eqb, exists_where,
}
use host_forge.Base.Text.{trim_space, codes, lex_lt}
use host_forge.Sql.{
  update_where, count_where, delete_where, order_by, filter_rows, Result, ok, err, not_found,
  in_use, guard, ◌>>◌,
}
use host_forge.Clock.{Time, Stamp, empty, at, stamp_lt}
use host_forge.Queue.Rows.{OpStatus, Operation, DatabaseOperation, Db, is_queued, is_running}
use host_forge.Queue.Cancel.{is_unasked_of, mark_asked}
use host_forge.Queue.Lease.{is_set}

-- The columns of database_instances and database_bindings that the transaction reads and writes.
pub record ServiceInstance : Type 0 where
  pub id : String
  pub service_id : String
  pub desired_state : String
  pub status : String
  pub deleted_at : Stamp
  pub created_at : Stamp
  pub updated_at : Stamp

pub record ServiceBinding : Type 0 where
  pub database_instance_id : String

-- The tables beside the queue; `services` has the service_id of each row of database_services.
pub record ServiceTables : Type 0 where
  pub services : List String
  pub instances : List ServiceInstance
  pub bindings : List ServiceBinding

abbrev pub is_running_of : String → Operation → Bool
is_running_of service_id o = (o.service_id == service_id) && is_running o.status

abbrev pub is_queued_of : String → Operation → Bool
is_queued_of service_id o = (o.service_id == service_id) && is_queued o.status

abbrev pub is_database_queued_of : String → DatabaseOperation → Bool
is_database_queued_of service_id d = (d.service_id == service_id) && is_queued d.status

unfoldable pub mark_removed : Time → Operation → Operation
mark_removed now o = record o {
  status = OpStatus.cancelled;
  progress_step = "cancelled_by_delete";
  completed_at = at now;
  lease_owner = "";
  lease_expires_at = empty;
  updated_at = at now;
}

unfoldable pub mark_database_removed : Time → DatabaseOperation → DatabaseOperation
mark_database_removed now d = record d {
  status = OpStatus.cancelled;
  progress_step = "cancelled_by_delete";
  completed_at = at now;
  lease_owner = "";
  lease_expires_at = empty;
  updated_at = at now;
}

unfoldable pub cancel_queued_of : String → Time → Db → Db
cancel_queued_of id now db = record db {
  database_operations =
      update_where (is_database_queued_of id) (mark_database_removed now) db.database_operations;
  operations = update_where (is_queued_of id) (mark_removed now) db.operations;
}

unfoldable pub ask_running_of : String → Time → Db → Db
ask_running_of id now db = record db {
  operations = update_where (is_unasked_of id) (mark_asked now) db.operations;
}

abbrev pub is_kept_of : String → ServiceInstance → Bool
is_kept_of id i = (i.service_id == id) && not (is_set i.deleted_at)

unfoldable pub mark_stopping : Time → ServiceInstance → ServiceInstance
mark_stopping now i = record i {
  desired_state = "deleted";
  status = "stopping";
  updated_at = at now;
}

unfoldable pub stop_service : String → Time → ServiceTables → ServiceTables
stop_service id now tables = record tables {
  bindings =
      delete_where
        (λ b.
          exists_where (λ i. (i.service_id == id) && (i.id == b.database_instance_id))
            tables.instances)
        tables.bindings;
  instances = update_where (is_kept_of id) (mark_stopping now) tables.instances;
}

-- ORDER BY created_at, id
unfoldable pub instance_before : ServiceInstance → ServiceInstance → Bool
instance_before a b =
    if stamp_lt a.created_at b.created_at
    then true
    else if stamp_lt b.created_at a.created_at
    then false
    else lex_lt (codes a.id) (codes b.id)

unfoldable pub delete_idle_service :
    String → Time → ServiceTables → Db → Result (Result (List ServiceInstance) × ServiceTables × Db)
delete_idle_service id now tables db = do
  guard (not (eqb (count_where (is_kept_of id) tables.instances) 0)) not_found
  let tables' = stop_service id now tables
  ok (
    ok (order_by instance_before (filter_rows (λ i. i.service_id == id) tables'.instances)),
    tables',
    cancel_queued_of id now db,
  )

-- While an operation runs, the request for its cancellation is committed and the call fails. The inner
-- result is what is reported with the commit: the instances, or in_use.
unfoldable pub begin_database_service_deletion :
    String → Time → ServiceTables → Db → Result (Result (List ServiceInstance) × ServiceTables × Db)
begin_database_service_deletion raw_id now tables db =
    let id = trim_space raw_id in
    if not (exists_where (λ s. s == id) tables.services)
    then err not_found
    else if eqb (count_where (is_running_of id) db.operations) 0
    then delete_idle_service id now tables db
    else ok (err in_use, tables, ask_running_of id now db)
