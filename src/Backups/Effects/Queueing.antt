-- ===== src/Backups/Effects/Queueing.antt =====
-- The effects of queueing a backup or a restore.
use host_forge.Base.{
  ℕ, suc, zero, ◌-◌, ◌<◌, String, List, [], ◌∷◌, ◌++◌, ◌≡◌, refl, ◌==◌, Option-cases, arith, inl,
  inr,
}
use host_forge.Base.Int.{ℤ, pos, negsuc}
use host_forge.Base.Text.{trim_space}
use host_forge.Sql.{count_where, find_where, require, invalid_input, ok}
use host_forge.Sql.Results.{Result-cases}
use host_forge.Clock.{Time, whole_second}
use host_forge.Queue.Rows.{DatabaseOperation, Db}
use host_forge.Queue.Enqueue.{insert_database_operation_queue_row, insert_unique}
use host_forge.Backups.Rows.{BackupDb, DatabaseBackup, DatabaseRestoreJob}
use host_forge.Backups.Transfers.{
  hour, get_database_service, get_database_credential_sealed, find_restorable, parse_mode,
  safety_of, Draw, BackupRequest, RestoreRequest, plan_backup, plan_restore, commit_backup,
  commit_restore, insert_database_operation, insert_backup, insert_job, enqueue_transfer,
  enforce_within, enforce_database_transfer_rate_limit, is_recent_transfer, transfer_operation,
  has_backup,
}
use host_forge.Backups.Policies.{get_database_instance, check_retention}
use host_forge.Backups.Destinations.{get_backup_destination}
use host_forge.Backups.Steps.{commit_planned_backup, commit_planned_restore}
use host_forge.Backups.Effects.{Effect, adds_backup, adds_job, optional, job_known, backup_known}

queue_row-operations :
    (id : String) (q q' : Db)
    → insert_database_operation_queue_row id q ≡ ok q'
    → q'.database_operations ≡ q.database_operations
unfolding insert_database_operation_queue_row insert_unique
queue_row-operations id q q' h =
    elim (Option-cases (find_where (λ op. op.id == trim_space id) q.database_operations)) [
      | inl e ↦ ground arith
      | inr (op, e) ↦ ground arith
    ]

enforce-allowed :
    (now : Time) (max : ℤ) (ops : List DatabaseOperation)
    → enforce_database_transfer_rate_limit now max ops ≡ ok tt
    → (n : ℕ) × (max ≡ pos n)
      × (count_where (is_recent_transfer (whole_second (now - hour))) ops < n)
unfolding enforce_database_transfer_rate_limit enforce_within
enforce-allowed now (pos zero) ops h = absurd (ground arith)
enforce-allowed now (pos (suc n)) ops h = (suc n, refl, ground arith)
enforce-allowed now (negsuc n) ops h = absurd (ground arith)

commit_backup-Effect :
    (now : Time) (max : ℤ) (op : DatabaseOperation) (b : DatabaseBackup) (db db' : BackupDb)
    → op.created_at ≡ whole_second now
    → commit_backup now max op b db ≡ ok db'
    → Effect max db db'
unfolding commit_backup insert_database_operation insert_backup enqueue_transfer backup_known
    optional
commit_backup-Effect now max op b db db' c h =
    elim (Result-cases
      (enforce_database_transfer_rate_limit now max db.queue.database_operations)) [
        | inr (e, q) ↦ absurd (ground arith)
        | inl (u, q) ↦
            elim (Result-cases (
              insert_database_operation_queue_row op.id (record db.queue {
                database_operations = db.queue.database_operations ++ (op ∷ []);
              }))) [
                | inr (e, q') ↦ absurd (ground arith)
                | inl (queue', q') ↦
                    adds_backup now op b queue'
                      (record {
                        operations = queue_row-operations op.id _ queue' q';
                        created = c;
                        allowed = enforce-allowed now max db.queue.database_operations q;
                      })
                      (ground arith) (ground arith) (ground arith)
              ]
      ]

commit_restore-Effect :
    (now : Time) (max : ℤ) (op : DatabaseOperation) (j : DatabaseRestoreJob) (db db' : BackupDb)
    → op.created_at ≡ whole_second now
    → commit_restore now max op j db ≡ ok db'
    → Effect max db db'
unfolding commit_restore insert_database_operation insert_job enqueue_transfer job_known optional
    has_backup
commit_restore-Effect now max op j db db' c h =
    elim (Result-cases
      (enforce_database_transfer_rate_limit now max db.queue.database_operations)) [
        | inr (e, q) ↦ absurd (ground arith)
        | inl (u, q) ↦
            elim (Result-cases (
              insert_database_operation_queue_row op.id (record db.queue {
                database_operations = db.queue.database_operations ++ (op ∷ []);
              }))) [
                | inr (e, q') ↦ absurd (ground arith)
                | inl (queue', q') ↦
                    adds_job now op j queue'
                      (record {
                        operations = queue_row-operations op.id _ queue' q';
                        created = c;
                        allowed = enforce-allowed now max db.queue.database_operations q;
                      })
                      (ground arith) (ground arith)
              ]
      ]

plan_backup-created :
    (draw : Draw) (r : BackupRequest) (seen : BackupDb) (op : DatabaseOperation)
    (b : DatabaseBackup)
    → plan_backup draw r seen ≡ ok (op, b)
    → op.created_at ≡ whole_second draw.now
unfolding plan_backup transfer_operation
plan_backup-created draw r seen op b h =
    elim (Result-cases (get_database_instance r.instance_id seen)) [
      | inr (e, qi) ↦ absurd (ground arith)
      | inl (i, qi) ↦ elim (Result-cases (get_backup_destination r.destination_id seen)) [
        | inr (e, qd) ↦ absurd (ground arith)
        | inl (d, qd) ↦ elim (Result-cases (get_database_service i.service_id seen)) [
          | inr (e, qsvc) ↦ absurd (ground arith)
          | inl (svc, qsvc) ↦ elim (Result-cases (get_database_credential_sealed i.id seen)) [
            | inr (e, qc) ↦ absurd (ground arith)
            | inl (c, qc) ↦ elim (Result-cases (check_retention r.retention_days)) [
              | inr (e, qn) ↦ absurd (ground arith)
              | inl (n, qn) ↦ ground arith
            ]
          ]
        ]
      ]
    ]

pub queue_backup-Effect :
    (draw : Draw) (r : BackupRequest) (seen db db' : BackupDb)
    → commit_planned_backup draw r (plan_backup draw r seen) db ≡ ok db'
    → Effect r.max_transfers_per_hour db db'
unfolding commit_planned_backup
queue_backup-Effect draw r seen db db' h = elim (Result-cases (plan_backup draw r seen)) [
  | inr (e, q) ↦ absurd (ground arith)
  | inl ((op, b), q) ↦
      commit_backup-Effect draw.now r.max_transfers_per_hour op b db db'
        (plan_backup-created draw r seen op b q) (ground arith)
]

plan_restore-created :
    (draw : Draw) (r : RestoreRequest) (seen : BackupDb) (op : DatabaseOperation)
    (j : DatabaseRestoreJob)
    → plan_restore draw r seen ≡ ok (op, j)
    → op.created_at ≡ whole_second draw.now
unfolding plan_restore transfer_operation
plan_restore-created draw r seen op j h = elim (Result-cases (find_restorable r.backup_id seen)) [
  | inr (e, qb) ↦ absurd (ground arith)
  | inl (b, qb) ↦ elim (Result-cases (get_database_instance r.target_instance_id seen)) [
    | inr (e, qi) ↦ absurd (ground arith)
    | inl (i, qi) ↦ elim (Result-cases (require invalid_input (parse_mode r.mode))) [
      | inr (e, qmode) ↦ absurd (ground arith)
      | inl (mode, qmode) ↦ elim (Result-cases (safety_of mode r.safety_backup_id i seen)) [
        | inr (e, qsafety) ↦ absurd (ground arith)
        | inl (safety, qsafety) ↦ ground arith
      ]
    ]
  ]
]

pub queue_restore-Effect :
    (draw : Draw) (r : RestoreRequest) (seen db db' : BackupDb)
    → commit_planned_restore draw r (plan_restore draw r seen) db ≡ ok db'
    → Effect r.max_transfers_per_hour db db'
unfolding commit_planned_restore
queue_restore-Effect draw r seen db db' h = elim (Result-cases (plan_restore draw r seen)) [
  | inr (e, q) ↦ absurd (ground arith)
  | inl ((op, j), q) ↦
      commit_restore-Effect draw.now r.max_transfers_per_hour op j db db'
        (plan_restore-created draw r seen op j q) (ground arith)
]
