-- ===== src/Backups/Effects/Records.antt =====
-- The effects of the commands on backups, transfers and jobs.
use mathlib.Core.Path.{subst}
use host_forge.Base.{
  String, some, ◌≡◌, refl, sym, Option-cases, arith, exists_where, Bool-cases, inl, inr, eq_iff,
}
use host_forge.Base.Int.{ℤ, pos, negsuc}
use host_forge.Base.Text.{trim_space}
use host_forge.Sql.{Result, ok}
use host_forge.Sql.Keys.{has_key}
use host_forge.Sql.Results.{Result-cases}
use host_forge.Clock.{Time}
use host_forge.Backups.Rows.{
  BackupDb, DatabaseBackup, backup_id_of, parse_restore_status, backup_success,
}
use host_forge.Backups.Records.{
  CompleteDatabaseBackupInput, complete_database_backup, mark_database_backup_running,
  mark_database_backup_deleting, prepare_database_backup_deletion, delete_database_backup_record,
  update_database_restore_job_status, parse_completion, mark_backup_completed, is_waiting,
  mark_backup_running, is_stored, mark_deleting, get_database_backup, prepare_stored, is_removable,
  is_job, mark_job,
}
use host_forge.Backups.Effects.{Effect, stays, edits_backups, drops_backup, edits_jobs, job_known}

pub complete-Effect :
    {max : ℤ} (id : String) (in' : CompleteDatabaseBackupInput) (now : Time) (db db' : BackupDb)
    (r : Result DatabaseBackup)
    → complete_database_backup id in' now db ≡ ok (r, db')
    → Effect max db db'
unfolding complete_database_backup mark_backup_completed
complete-Effect {max = max} id in' now db db' r h =
    elim (Option-cases (parse_completion in'.status)) [
      | inl e ↦ absurd (ground arith)
      | inr (status, e) ↦ sized in'.compressed_size status refl e
    ]
  where
    sized :
        (size : ℤ) (status : _)
        → in'.compressed_size ≡ size
        → parse_completion in'.status ≡ some status
        → Effect max db db'
    sized (pos n) status q e =
        edits_backups (has_key backup_id_of (trim_space id))
          (mark_backup_completed in' status n now) (λ b. refl) (λ b. refl) (ground arith)
    sized (negsuc n) status q e = absurd (ground arith)

pub start-Effect :
    {max : ℤ} (id : String) (now : Time) (db db' : BackupDb)
    → mark_database_backup_running id now db ≡ ok db'
    → Effect max db db'
unfolding mark_database_backup_running mark_backup_running
start-Effect id now db db' h =
    edits_backups (is_waiting (trim_space id)) (mark_backup_running now) (λ b. refl) (λ b. refl)
      (ground arith)

pub mark_deleting-Effect :
    {max : ℤ} (id : String) (now : Time) (db : BackupDb)
    → Effect max db (mark_database_backup_deleting id now db)
unfolding mark_database_backup_deleting mark_deleting
mark_deleting-Effect id now db =
    edits_backups (is_stored (trim_space id)) (mark_deleting now) (λ b. refl) (λ b. refl) refl

pub prepare-Effect :
    {max : ℤ} (id : String) (now : Time) (seen counted db db' : BackupDb) (r : DatabaseBackup)
    → prepare_database_backup_deletion id now seen counted db ≡ ok (r, db')
    → Effect max db db'
unfolding prepare_database_backup_deletion prepare_stored
prepare-Effect {max = max} id now seen counted db db' r h =
    elim (Result-cases (get_database_backup id seen)) [
      | inr (e, q) ↦ absurd (ground arith)
      | inl (b, q) ↦ prepared b (ground arith)
    ]
  where
    prepared : (b : DatabaseBackup) → (prepare_stored b now db).1 ≡ db' → Effect max db db'
    prepared b e = elim (Bool-cases (backup_success b.status)) [
      | inl t ↦ subst (Effect max db) (rw t at e) (mark_deleting-Effect b.id now db)
      | inr t ↦ stays (sym (rw t at e))
    ]

pub delete-Effect :
    {max : ℤ} (id : String) (db db' : BackupDb)
    → delete_database_backup_record id db ≡ ok db'
    → Effect max db db'
unfolding delete_database_backup_record
delete-Effect id db db' h =
    drops_backup (trim_space id) (is_removable (trim_space id))
      (λ b t. ground (arith, eq_iff b.id (trim_space id))) (ground arith) (ground arith)

pub job-Effect :
    {max : ℤ} (id status : String) (now : Time) (db db' : BackupDb)
    → update_database_restore_job_status id status now db ≡ ok db'
    → Effect max db db'
unfolding update_database_restore_job_status mark_job job_known
job-Effect id status now db db' h = elim (Option-cases (parse_restore_status (trim_space status))) [
  | inl e ↦ stays (ground arith)
  | inr (s, e) ↦ elim (Bool-cases (exists_where (is_job (trim_space id)) db.restore_jobs)) [
    | inl t ↦ edits_jobs (is_job (trim_space id)) (mark_job s now) (λ bs j. refl) (ground arith)
    | inr t ↦ stays (ground arith)
  ]
]
