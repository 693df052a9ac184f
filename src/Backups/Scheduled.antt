-- ===== src/Backups/Scheduled.antt =====
-- What a pass of queueDueDatabaseBackups (internal/services/database_backup_schedule.go) does to
-- backups and policies.
use host_forge.Base.{
  ◌+◌, ◌/◌, ◌<◌, String, Option, some, List, [], ◌∷◌, map, true, ◌≡◌, refl, ◌∙◌, All, length, take,
}
use host_forge.Base.Int.{ℤ, pos}
use host_forge.Base.Text.{trim_space}
use host_forge.Sql.{count_where, filter_rows, order_by, ok}
use host_forge.Sql.Keys.{DistinctBy, find_where-DistinctBy}
use host_forge.Sql.Laws.{Member, All-Member, All-intro, filter_rows_sound, not_Member_of_none}
use host_forge.Sql.Sorted.{
  Member-order_by, Member-take, DistinctBy-take, DistinctBy-filter_rows, DistinctBy-order_by,
}
use host_forge.Clock.{Time, second}
use host_forge.Backups.Rows.{DatabaseBackupPolicy, BackupDb, policy_id_of}
use host_forge.Backups.Policies.{
  is_due, get_database_backup_policy, get_policies, due_ids, due_before,
  list_due_database_backup_policies,
}
use host_forge.Backups.Records.{clamp_limit}
use host_forge.Backups.Transfers.{Draw}
use host_forge.Backups.Loops.{queue_each, queue_listed, queue_due_database_backups}
use host_forge.Backups.Handled.{
  balance, queue_due_at-Handled, Handled-balance, Handled-Member, Handled-DistinctBy,
}

module _ (next_schedule : String → String → Time → Option Time) (draw : String → Draw) (now : Time)
    (max_transfers_per_hour : ℤ)
    (later : (schedule timezone : String) (t : Time)
      → next_schedule schedule timezone now ≡ some t
      → now / second < t / second) where
  queue_each-balance :
      (items : List DatabaseBackupPolicy) (db : BackupDb)
      → DistinctBy policy_id_of items
      → All
          (λ p.
            (trim_space p.database_instance_id ≡ p.database_instance_id)
            × (is_due now p ≡ true)
            × Member p db.policies)
          items
      → DistinctBy policy_id_of db.policies
      → balance next_schedule draw now max_transfers_per_hour later
          (queue_each next_schedule draw now max_transfers_per_hour items db)
        ≡ balance next_schedule draw now max_transfers_per_hour later db
  unfolding queue_each
  queue_each-balance [] db di h d = refl
  queue_each-balance (p ∷ items) db di h d =
      let ((trimmed, due, m), rest) = h in
      let handled =
        queue_due_at-Handled next_schedule draw now max_transfers_per_hour later p db trimmed m in
      queue_each-balance items _ di.1
        (All-intro items (λ q n.
          let (trimmed', due', m') = All-Member _ q items rest n in
          (
            trimmed',
            due',
            Handled-Member next_schedule draw now max_transfers_per_hour later p q db _ handled
                (not_Member_of_none _ q items di.0 n) m',
          )))
        (Handled-DistinctBy next_schedule draw now max_transfers_per_hour later p db _ handled d)
      ∙ Handled-balance next_schedule draw now max_transfers_per_hour later p db _ handled d m due

-- Policies by instance: distinct ids, with no space around.
pub record IsPolicyTable (ps : List DatabaseBackupPolicy) : Type 0 where
  pub distinct : DistinctBy policy_id_of ps
  pub trimmed : All (λ p. trim_space p.database_instance_id ≡ p.database_instance_id) ps

-- What is read again by its id is what was selected.
get_policies-same :
    (items : List DatabaseBackupPolicy) (db : BackupDb)
    → IsPolicyTable db.policies
    → All (λ p. Member p db.policies) items
    → get_policies (map policy_id_of items) db ≡ ok items
unfolding get_policies get_database_backup_policy
get_policies-same [] db t h = refl
get_policies-same (p ∷ items) db t h =
    rw
      (
        All-Member _ p db.policies t.trimmed h.0,
        find_where-DistinctBy policy_id_of p db.policies t.distinct h.0,
        get_policies-same items db t h.1,
      )
      refl

abbrev due_items : Time → BackupDb → List DatabaseBackupPolicy
due_items now db = take 100 (order_by due_before (filter_rows (is_due now) db.policies))

due_items_sound :
    (now : Time) (db : BackupDb) (p : DatabaseBackupPolicy)
    → Member p (due_items now db)
    → (is_due now p ≡ true) × Member p db.policies
due_items_sound now db p m =
    filter_rows_sound (is_due now) p db.policies
      (Member-order_by due_before p _ (Member-take 100 p _ m))

list_due-items :
    (now : Time) (db : BackupDb)
    → IsPolicyTable db.policies
    → list_due_database_backup_policies now (pos 100) db ≡ ok (due_items now db)
unfolding list_due_database_backup_policies due_ids clamp_limit
list_due-items now db t =
    get_policies-same (due_items now db) db t (All-intro _ (λ p m. (due_items_sound now db p m).1))

-- A pass of the schedule loop leaves the number of backups and of due policies, taken together, as it
-- was: it makes exactly as many backups as it takes policies off the due ones. This is for schedules
-- whose next time lies in a later second, and for a table of policies whose ids are distinct and carry
-- no spaces.
pub queue_due-balance :
    (next_schedule : String → String → Time → Option Time) (draw : String → Draw) (now : Time)
    (max_transfers_per_hour : ℤ) (db : BackupDb)
    → ((schedule timezone : String) (t : Time)
        → next_schedule schedule timezone now ≡ some t
        → now / second < t / second)
    → IsPolicyTable db.policies
    → length (queue_due_database_backups next_schedule draw now max_transfers_per_hour db).backups
        + count_where
            (is_due now)
            (queue_due_database_backups next_schedule draw now max_transfers_per_hour db).policies
      ≡ length db.backups + count_where (is_due now) db.policies
unfolding queue_due_database_backups queue_listed
queue_due-balance next_schedule draw now max_transfers_per_hour db later t =
    rw (list_due-items now db t) (
      queue_each-balance next_schedule draw now max_transfers_per_hour later (due_items now db) db
        (DistinctBy-take policy_id_of 100 _ (
          DistinctBy-order_by policy_id_of due_before _
            (DistinctBy-filter_rows policy_id_of (is_due now) db.policies t.distinct)))
        (All-intro _ (λ p m.
          let (due, there) = due_items_sound now db p m in
          (All-Member _ p db.policies t.trimmed there, due, there)))
        t.distinct)
