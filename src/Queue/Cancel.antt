-- ===== src/Queue/Cancel.antt =====
-- Cancellation: RequestOperationCancellation, RequestServiceOperationCancellation and
-- OperationCancellationRequested of internal/repository/operations.go.
use host_forge.Base.{
  ℕ, String, Option, none, some, Bool, true, false, not, ◌&&◌, ◌==◌, if◌then◌else◌, eqb,
}
use host_forge.Base.Text.{trim_space}
use host_forge.Sql.{update_where, count_where, find_where, Result, ok, ◌>>=◌}
use host_forge.Clock.{Time, empty, at}
use host_forge.Queue.Rows.{OpStatus, Operation, DatabaseOperation, Db, is_running}
use host_forge.Queue.Deploys.{project_deploy_complete}
use host_forge.Queue.Claim.{claimable}
use host_forge.Queue.Lease.{is_set, database_has_id}

-- WHERE id=? AND status='running' AND cancel_requested_at=''
abbrev pub is_unasked : String → Operation → Bool
is_unasked id o = (o.id == id) && is_running o.status && not (is_set o.cancel_requested_at)

unfoldable pub mark_asked : Time → Operation → Operation
mark_asked now o = record o { cancel_requested_at = at now; updated_at = at now }

unfoldable pub mark_cancelled : Time → Operation → Operation
mark_cancelled now o = record o {
  status = OpStatus.cancelled;
  progress_step = "cancelled";
  progress_percent = 0;
  completed_at = at now;
  cancel_requested_at = at now;
  updated_at = at now;
}

unfoldable pub mark_database_cancelled : Time → DatabaseOperation → DatabaseOperation
mark_database_cancelled now d = record d {
  status = OpStatus.cancelled;
  progress_step = "cancelled";
  progress_percent = 0;
  completed_at = at now;
  lease_owner = "";
  lease_expires_at = empty;
  updated_at = at now;
}

-- A queued operation is cancelled outright, with its projections. The result tells whether anything
-- changed.
unfoldable pub cancel_queued : String → Time → Db → Result (Bool × Db)
cancel_queued id now db =
    let db' = record db {
      operations = update_where (claimable id) (mark_cancelled now) db.operations;
    } in
    if eqb (count_where (claimable id) db.operations) 1
    then (do
      done ← project_deploy_complete id OpStatus.cancelled "" (at now) (record db' {
        database_operations =
            update_where (database_has_id id) (mark_database_cancelled now) db'.database_operations;
      })
      ok (true, done))
    else ok (false, db')

unfoldable pub request_operation_cancellation : String → Time → Db → Result (Bool × Db)
request_operation_cancellation raw_id now db =
    let id = trim_space raw_id in
    let db' = record db {
      operations = update_where (is_unasked id) (mark_asked now) db.operations;
    } in
    if eqb (count_where (is_unasked id) db.operations) 1
    then ok (true, db')
    else cancel_queued id now db'

abbrev pub is_unasked_of : String → Operation → Bool
is_unasked_of service_id o =
    (o.service_id == service_id) && is_running o.status && not (is_set o.cancel_requested_at)

-- With the number of operations marked.
unfoldable pub request_service_operation_cancellation : String → Time → Db → ℕ × Db
request_service_operation_cancellation raw_id now db = (
  count_where (is_unasked_of (trim_space raw_id)) db.operations,
  record db {
    operations = update_where (is_unasked_of (trim_space raw_id)) (mark_asked now) db.operations;
  },
)

abbrev flag_of : Option Operation → Bool
flag_of none = false
flag_of (some o) = is_set o.cancel_requested_at

-- A missing operation, or one that is not running, has no request.
unfoldable pub operation_cancellation_requested : String → Db → Bool
operation_cancellation_requested raw_id db =
    flag_of (find_where (λ o. (o.id == trim_space raw_id) && is_running o.status) db.operations)
