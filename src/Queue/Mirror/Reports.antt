-- ===== src/Queue/Mirror/Reports.antt =====
-- A handler's report and the deletion of a service keep the read model in step.
use host_forge.Base.{refl, ap, String, arith, inl, inr, eq_iff}
use host_forge.Base.Text.{trim_space}
use host_forge.Clock.{Time}
use host_forge.Queue.Rows.{Operation, DatabaseOperation, Db}
use host_forge.Queue.Enqueue.{has_id}
use host_forge.Queue.Lease.{database_has_id}
use host_forge.Queue.Progress.{
  ProgressReport, ProgressUpdate, started_by, completed_by, mark_progress, mark_database_progress,
  progress_update, write_progress, update_database_operation,
}
use host_forge.Queue.Removal.{
  ServiceTables, is_queued_of, is_database_queued_of, mark_removed, mark_database_removed,
  cancel_queued_of, ask_running_of, begin_database_service_deletion,
}
use host_forge.Queue.Cancel.{is_unasked_of}
use host_forge.Queue.Steps.{after, queue_after}
use host_forge.Queue.Changes.Reports.{report_cases, removal_cases}
use host_forge.Queue.Mirror.Agreement.{Agrees}
use host_forge.Queue.Mirror.Rows.{InStep-update_where}
use host_forge.Queue.Mirror.Commands.{DbInStep, InStep-asked}

Agrees-progress :
    (u : ProgressUpdate) (o : Operation) (d : DatabaseOperation)
    → Agrees o d
    → Agrees (mark_progress u o) (mark_database_progress u d)
unfolding mark_progress mark_database_progress
Agrees-progress u o d a = record {
  service_id = a.service_id;
  status = refl;
  progress_step = refl;
  progress_percent = refl;
  attempt = a.attempt;
  error_code = refl;
  error_message = refl;
  started_at = ap (started_by u) a.started_at;
  completed_at = ap (completed_by u) a.completed_at;
}

pub InStep-report :
    (r : ProgressReport) (now : Time) (db : Db)
    → DbInStep db
    → DbInStep (after db (update_database_operation r now db))
unfolding write_progress mark_progress mark_database_progress
InStep-report r now db s = elim (report_cases r now db) [
  | inl same ↦ rw same s
  | inr (status, n, parsed, done) ↦ rw done (
      InStep-update_where (has_id (trim_space r.id))
        (mark_progress (progress_update r status n now)) db.operations
        (database_has_id (trim_space r.id))
        (mark_database_progress (progress_update r status n now)) db.database_operations (λ o. refl)
        (λ d. refl)
        (λ o d m h a.
          ground
            (arith, eq_iff d.id o.id, eq_iff o.id (trim_space r.id), eq_iff d.id (trim_space r.id)))
        (λ o d h a. Agrees-progress (progress_update r status n now) o d a) s)
]

Agrees-removed :
    (now : Time) (o : Operation) (d : DatabaseOperation)
    → Agrees o d
    → Agrees (mark_removed now o) (mark_database_removed now d)
unfolding mark_removed mark_database_removed
Agrees-removed now o d a = ground arith

pub InStep-removal :
    (id : String) (tables : ServiceTables) (now : Time) (db : Db)
    → DbInStep db
    → DbInStep (queue_after db (begin_database_service_deletion id now tables db))
unfolding cancel_queued_of ask_running_of mark_removed mark_database_removed
InStep-removal id tables now db s = elim (removal_cases id tables now db) [
  | inl same ↦ rw same s
  | inr (inl done) ↦ rw done (
      InStep-update_where (is_queued_of (trim_space id)) (mark_removed now) db.operations
        (is_database_queued_of (trim_space id)) (mark_database_removed now) db.database_operations
        (λ o. refl) (λ d. refl) (λ o d m h a. ground (arith, a))
        (λ o d h a. Agrees-removed now o d a) s)
  | inr (inr done) ↦ rw done (InStep-asked (is_unasked_of (trim_space id)) now db s)
]
