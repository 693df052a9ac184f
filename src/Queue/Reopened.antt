-- ===== src/Queue/Reopened.antt =====
-- What a handler's report does to a row that is not running: UpdateDatabaseOperation of
-- internal/repository/database_services.go has no condition on the status.
use host_forge.Base.{ℕ, ◌≡◌, refl, arith, some, true, eq_iff, exists_where}
use host_forge.Base.Text.{trim_space}
use host_forge.Sql.{ok}
use host_forge.Sql.Laws.{Member}
use host_forge.Sql.Updates.{Member-update_where}
use host_forge.Clock.{Time}
use host_forge.Queue.Rows.{OpStatus, Operation, Db, is_running}
use host_forge.Queue.Enqueue.{has_id}
use host_forge.Queue.Lease.{database_has_id}
use host_forge.Queue.Progress.{
  ProgressReport, percent, parse_lowered_status, mark_progress, progress_update, write_progress,
  get_database_operation, update_database_operation,
}

-- What `o` has become: a running row that nobody claimed.
abbrev pub IsReopened : Operation → Db → Type 0
IsReopened o db =
    (p : Operation) × Member p db.operations
    × (p.id ≡ o.id)
    × (is_running p.status ≡ true)
    × (p.attempt ≡ o.attempt)
    × (p.lease_owner ≡ o.lease_owner)

-- A report of "running" with a percentage, on an operation that is in both tables, is accepted whatever
-- the operation's status, and its row then runs with the attempts and the owner that it had.
pub report-IsReopened :
    (r : ProgressReport) (n : ℕ) (now : Time) (db : Db) (o : Operation)
    → percent r.progress ≡ some n
    → parse_lowered_status r.status ≡ some OpStatus.running
    → exists_where (database_has_id (trim_space r.id)) db.database_operations ≡ true
    → Member o db.operations
    → o.id ≡ trim_space r.id
    → (db' : Db) × (update_database_operation r now db ≡ ok (get_database_operation r.id db', db'))
      × IsReopened o db'
unfolding update_database_operation write_progress mark_progress progress_update
report-IsReopened r n now db o good running there m named =
    let u = progress_update r OpStatus.running n now in
    let picked : has_id (trim_space r.id) o ≡ true =
      ground (arith, eq_iff o.id (trim_space r.id)) in
    let written =
      Member-update_where (has_id (trim_space r.id)) (mark_progress u) o db.operations m in
    (
      write_progress (trim_space r.id) u db,
      rw (good, there, running) refl,
      (mark_progress u o, rw picked at written, refl, refl, refl, refl),
    )
