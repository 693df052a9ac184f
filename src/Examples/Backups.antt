-- ===== src/Examples/Backups.antt =====
-- The theorems on backups at a small set of tables.
use mathlib.Core.Path.{subst}
use host_forge.Base.Text.{trim_space, lex_lt}
use host_forge.Base.{
  sym, ℕ, ◌+◌, ◌*◌, ◌/◌, ◌≤◌, ◌<◌, ◌≡◌, refl, arith, String, Option, some, [], ◌∷◌, true, false,
  length, exists_where, inl, inr,
}
use host_forge.Base.Int.{pos}
use host_forge.Sql.{count_where, ok, err, no_rows}
use host_forge.Sql.Laws.{Member}
use host_forge.Backups.Steps.{commit_planned_restore}
use host_forge.Backups.Transfers.{
  get_database_service, get_database_credential_sealed, is_transfer, is_recent_transfer,
  enforce_within, enforce_database_transfer_rate_limit, transfer_operation,
  insert_database_operation, same_operation, insert_backup, enqueue_transfer, is_running_instance,
  is_trigger, new_backup, plan_backup, commit_backup, queue_database_backup, is_restorable,
  find_restorable, may_receive, is_compatible, parse_mode, safety_of, new_restore_job, plan_restore,
  has_backup, insert_job, commit_restore,
}
use host_forge.Backups.Records.{
  clamp_limit, mark_deleting, mark_database_backup_deleting, prepare_stored,
}
use host_forge.Backups.Policies.{
  get_database_instance, get_database_backup_policy, check_retention, format_optional_time,
  due_before, get_policies, due_ids, list_due_database_backup_policies, mark_advanced,
  advance_database_backup_policy_schedule,
}
use host_forge.Backups.Loops.{
  scheduled_request, after_queueing, queue_due_at, queue_each, queue_listed,
}
use host_forge.Queue.Enqueue.{
  insert_unique, database_lock_key, queue_row, insert_database_operation_queue_row,
}
use host_forge.Sql.{insert_row, order_by}
use host_forge.Clock.{digits, trim_zeros, fraction, text, stamp_lt}
use host_forge.Clock.{Time, second, stamp_le}
use host_forge.Examples.Tables.{
  now, store, old_backup, used_backup, tables, draw, restore, commands,
}
use host_forge.Backups.Rows.{DatabaseBackup, BackupDb}
use host_forge.Backups.Destinations.{get_backup_destination_sealed, get_backup_destination}
use host_forge.Backups.Records.{
  prepare_database_backup_deletion, delete_database_backup_record, get_database_backup, refers_to,
}
use host_forge.Backups.Policies.{is_due, is_expired, is_reached}
use host_forge.Backups.Transfers.{hour}
use host_forge.Backups.Loops.{purge_expired_database_backups, queue_due_database_backups}
use host_forge.Backups.Steps.{run, step, queues_restore, prepares_deletion}
use host_forge.Backups.Window.{HoldsAtMost, LimitedBy, run-HoldsAtMost}
use host_forge.Backups.Purged.{IsTable, purge-keeps}
use host_forge.Backups.Cleared.{IsReachable, purge-clears}
use host_forge.Backups.Scheduled.{IsPolicyTable, queue_due-balance}
use host_forge.Backups.Deletion.{prepare-delete}

commands-LimitedBy : LimitedBy 2 commands
commands-LimitedBy = (small, (small, (none', (none', (none', tt)))))
  where
    small : (k : ℕ) → pos 2 ≡ pos k → k ≤ 2
    small k e = ground arith

    none' : (k : ℕ) → pos 0 ≡ pos k → k ≤ 2
    none' k e = ground arith

tables-HoldsAtMost : HoldsAtMost 2 tables.queue.database_operations
tables-HoldsAtMost t = ground arith

run-HoldsAtMost_example : HoldsAtMost 2 (run commands tables).queue.database_operations
run-HoldsAtMost_example = run-HoldsAtMost 2 commands tables commands-LimitedBy tables-HoldsAtMost

tables-IsTable : IsTable tables.backups
unfolding trim_space
tables-IsTable = record { distinct = (refl, (refl, tt)); trimmed = (refl, (refl, tt)) }

used_backup-kept : is_expired now tables.restore_jobs used_backup ≡ false
unfolding is_expired is_reached refers_to stamp_le lex_lt
used_backup-kept = refl

purge-keeps_example :
    Member used_backup
      (purge_expired_database_backups (λ d. true) (λ d key. true) now tables).backups
purge-keeps_example =
    purge-keeps (λ d. true) (λ d key. true) now tables used_backup tables-IsTable (inr (inl refl))
      used_backup-kept

tables-IsReachable :
    (b : DatabaseBackup)
    → Member b tables.backups
    → is_expired now tables.restore_jobs b ≡ true
    → IsReachable tables b
tables-IsReachable b (inl e) t =
    subst (IsReachable tables) (sym e)
      (store "s1", unfold get_backup_destination_sealed trim_space in refl)
tables-IsReachable b (inr (inl e)) t =
    subst (IsReachable tables) (sym e)
      (store "s1", unfold get_backup_destination_sealed trim_space in refl)
tables-IsReachable b (inr (inr m)) t = absurd m

tables-few : count_where (is_expired now tables.restore_jobs) tables.backups ≤ 100
unfolding is_expired is_reached refers_to stamp_le lex_lt
tables-few = omega arith

purge-clears_example :
    exists_where
      (is_expired now tables.restore_jobs)
      (purge_expired_database_backups (λ d. true) (λ d key. true) now tables).backups
    ≡ false
purge-clears_example =
    purge-clears (λ d. true) (λ d key. true) now (λ d. refl) (λ d key. refl) tables tables-IsTable
      tables-IsReachable tables-few

-- The next day.
abbrev tomorrow : String → String → Time → Option Time
tomorrow schedule timezone t = some (t + 24 * hour)

tomorrow-later :
    (schedule timezone : String) (t : Time)
    → tomorrow schedule timezone now ≡ some t
    → now / second < t / second
tomorrow-later schedule timezone t e =
    let q : now + 24 * hour ≡ t = ground arith in omega (arith, q)

tables-IsPolicyTable : IsPolicyTable tables.policies
unfolding trim_space
tables-IsPolicyTable = record { distinct = (refl, tt); trimmed = (refl, tt) }

queue_due-balance_example :
    length (queue_due_database_backups tomorrow (λ id. draw) now (pos 2) tables).backups
      + count_where
          (is_due now)
          (queue_due_database_backups tomorrow (λ id. draw) now (pos 2) tables).policies
    ≡ length tables.backups + count_where (is_due now) tables.policies
queue_due-balance_example =
    queue_due-balance tomorrow (λ id. draw) now (pos 2) tables tomorrow-later tables-IsPolicyTable

-- The policy was due, and its backup is the third.
queue_due_runs :
    length (queue_due_database_backups tomorrow (λ id. draw) now (pos 2) tables).backups ≡ 3
unfolding queue_due_database_backups queue_listed list_due_database_backup_policies get_policies
    due_ids clamp_limit order_by is_due is_reached stamp_le lex_lt insert_row
    get_database_backup_policy trim_space queue_each queue_due_at after_queueing
    queue_database_backup get_backup_destination get_backup_destination_sealed scheduled_request
    advance_database_backup_policy_schedule check_retention due_before format_optional_time
    get_database_instance mark_advanced commit_backup enforce_database_transfer_rate_limit
    enforce_within enqueue_transfer get_database_credential_sealed get_database_service
    insert_backup same_operation insert_database_operation is_recent_transfer is_running_instance
    is_transfer is_trigger new_backup plan_backup transfer_operation digits fraction stamp_lt text
    trim_zeros database_lock_key insert_database_operation_queue_row insert_unique queue_row
queue_due_runs = refl

-- A restore that was checked before the deletion of its backup was prepared is queued after it.
restore_of_deleted :
    length
      (run
        (prepares_deletion "b1" now tables tables ∷ queues_restore draw restore tables ∷ [])
        tables).restore_jobs
    ≡ 2
unfolding run step commit_planned_restore plan_restore find_restorable get_database_backup
    trim_space is_restorable get_database_instance may_receive is_compatible get_database_service
    parse_mode safety_of commit_restore enforce_database_transfer_rate_limit enforce_within
    prepare_database_backup_deletion refers_to prepare_stored mark_database_backup_deleting
    mark_deleting transfer_operation new_restore_job insert_database_operation insert_job has_backup
    enqueue_transfer is_recent_transfer is_transfer stamp_le lex_lt digits fraction stamp_lt text
    trim_zeros insert_database_operation_queue_row insert_unique queue_row database_lock_key
restore_of_deleted = refl

abbrev without_s2 : BackupDb
without_s2 = record tables { destinations = store "s1" ∷ [] }

prepare-delete_example :
    (given : DatabaseBackup) × (db' : BackupDb) × (db'' : BackupDb)
    × (prepare_database_backup_deletion "b1" now tables tables tables ≡ ok (given, db'))
    × (delete_database_backup_record "b1" db' ≡ ok db'')
    × (get_database_backup "b1" db'' ≡ err no_rows)
prepare-delete_example =
    prepare-delete now tables old_backup tables-IsTable (inl refl) refl (unfold refers_to in refl)
