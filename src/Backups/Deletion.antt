-- ===== src/Backups/Deletion.antt =====
-- Deleting backups and destinations: PrepareDatabaseBackupDeletion, DeleteDatabaseBackupRecord and
-- DeleteBackupDestination of internal/repository/database_backups.go.
use mathlib.Core.Path.{subst}
use host_forge.Base.{
  String, none, List, [], ◌∷◌, Bool, true, false, ◌≡◌, refl, sym, ap, arith, All, eqb, exists_where,
  Bool-cases, inl, inr, eq_iff, eq_refl,
}
use host_forge.Base.Text.{trim_space}
use host_forge.Sql.{update_where, delete_where, count_where, find_where, ok, err, no_rows}
use host_forge.Sql.Keys.{
  DistinctBy, has_key, count_where-DistinctBy, DistinctBy-update_where, find_where-DistinctBy,
  DistinctBy-same,
}
use host_forge.Sql.Laws.{Member, All-Member, All-intro}
use host_forge.Sql.Updates.{Member-update_where, count_where_none, count_where_pos}
use host_forge.Clock.{Time}
use host_forge.Backups.Rows.{
  DatabaseBackup, BackupStatus, BackupDb, backup_id_of, backup_active, backup_success,
  backup_removable,
}
use host_forge.Backups.Records.{
  get_database_backup, prepare_database_backup_deletion, prepare_stored,
  mark_database_backup_deleting, mark_deleting, delete_database_backup_record, is_stored,
  is_removable, refers_to,
}
use host_forge.Backups.Purged.{IsTable}

module _ {A : Type 0} (key : A → String) where
  -- Where every row of a key is deleted, the key finds nothing.
  find_where-delete_where :
      (k : String) (p : A → Bool) (xs : List A)
      → All (λ x. has_key key k x ≡ true → p x ≡ true) xs
      → find_where (has_key key k) (delete_where p xs) ≡ none
  unfolding delete_where
  find_where-delete_where k p [] h = refl
  find_where-delete_where k p (x ∷ xs) h = ground (arith, find_where-delete_where k p xs h.1, h.0)

-- Where one row of an id may go, its record is deleted and found no more.
delete-found :
    (b : DatabaseBackup) (db : BackupDb)
    → trim_space b.id ≡ b.id
    → DistinctBy backup_id_of db.backups
    → Member b db.backups
    → backup_removable b.status ≡ true
    → exists_where (refers_to b.id) db.restore_jobs ≡ false
    → (db' : BackupDb) × (delete_database_backup_record b.id db ≡ ok db')
      × (get_database_backup b.id db' ≡ err no_rows)
unfolding delete_database_backup_record get_database_backup
delete-found b db e d m r free =
    let most =
      count_where-DistinctBy backup_id_of (is_removable b.id) b.id db.backups
        (λ x t. ground (arith, eq_iff x.id b.id)) d in
    let least = count_where_pos (is_removable b.id) b db.backups m (ground (arith, eq_refl b.id)) in
    let one : eqb (count_where (is_removable b.id) db.backups) 1 ≡ true =
      ground (arith, most, least) in
    (
      record db { backups = delete_where (is_removable b.id) db.backups },
      rw (e, one, free) refl,
      rw
          (
            e,
            find_where-delete_where backup_id_of b.id (is_removable b.id) db.backups (
                All-intro db.backups (λ x n k.
                  subst (λ y. is_removable b.id y ≡ true)
                    (sym (
                      DistinctBy-same backup_id_of b x db.backups d m n
                        (ground (arith, eq_iff x.id b.id))))
                    (ground (arith, eq_refl b.id)))),
          )
          refl,
    )

-- A backup that is not queued or running, and that no restore refers to, can be deleted: the
-- preparation succeeds, then the record is deleted, and then the backup is found no more. This is for
-- tables whose ids are distinct and carry no spaces, and with nothing between the statements of the two
-- calls.
pub prepare-delete :
    (now : Time) (db : BackupDb) (b : DatabaseBackup)
    → IsTable db.backups
    → Member b db.backups
    → backup_active b.status ≡ false
    → count_where (refers_to b.id) db.restore_jobs ≡ 0
    → (given : DatabaseBackup) × (db' : BackupDb) × (db'' : BackupDb)
      × (prepare_database_backup_deletion b.id now db db db ≡ ok (given, db'))
      × (delete_database_backup_record b.id db' ≡ ok db'')
      × (get_database_backup b.id db'' ≡ err no_rows)
unfolding prepare_database_backup_deletion prepare_stored get_database_backup
    mark_database_backup_deleting mark_deleting
prepare-delete now db b table m idle free =
    let trimmed = All-Member _ b db.backups table.trimmed m in
    let found = find_where-DistinctBy backup_id_of b db.backups table.distinct m in
    let unreferred = count_where_none (refers_to b.id) db.restore_jobs free in
    elim (Bool-cases (backup_success b.status)) [
      | inl stored ↦
          let (db'', deleted, gone) =
            delete-found (mark_deleting now b) (mark_database_backup_deleting b.id now db) trimmed
              (DistinctBy-update_where backup_id_of (is_stored (trim_space b.id))
                (mark_deleting now) db.backups (λ x. refl) table.distinct)
              (marked_there trimmed stored) refl unreferred in
          (
            record b { status = BackupStatus.deleting },
            mark_database_backup_deleting b.id now db,
            db'',
            rw (trimmed, found, idle, free, stored)
                (ap
                  (λ k. ok (
                    record b { status = BackupStatus.deleting },
                    record db {
                      backups = update_where (is_stored k) (mark_deleting now) db.backups;
                    },
                  ))
                  trimmed),
            deleted,
            gone,
          )
      | inr ended ↦
          let may : backup_removable b.status ≡ true = ground arith in
          let (db'', deleted, gone) = delete-found b db trimmed table.distinct m may unreferred in
          (b, db, db'', rw (trimmed, found, idle, free, ended, may) refl, deleted, gone)
    ]
  where
    marked_there :
        trim_space b.id ≡ b.id
        → backup_success b.status ≡ true
        → Member (mark_deleting now b) (mark_database_backup_deleting b.id now db).backups
    marked_there e t =
        let n =
          Member-update_where (is_stored (trim_space b.id)) (mark_deleting now) b db.backups m in
        let s : is_stored (trim_space b.id) b ≡ true =
          ground (arith, eq_iff b.id (trim_space b.id), e) in
        rw s at n
