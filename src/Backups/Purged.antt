-- ===== src/Backups/Purged.antt =====
-- What a pass of purgeExpiredDatabaseBackups (internal/services/database_backup_schedule.go) does to
-- the rows of backups.
use mathlib.Core.Path.{subst}
use host_forge.Base.{
  String, List, [], ◌∷◌, Bool, true, false, ◌≡◌, ◌==◌, refl, sym, ap, arith, All, eqb, exists_where,
  Bool-cases, inl, inr, eq_iff,
}
use host_forge.Base.Int.{pos}
use host_forge.Base.Text.{trim_space}
use host_forge.Sql.{update_where, delete_where, count_where}
use host_forge.Sql.Keys.{DistinctBy, Member-delete_where, DistinctBy-same}
use host_forge.Sql.Laws.{Member, All-Member, All-intro, filter_rows_sound}
use host_forge.Sql.Sorted.{Member-order_by, Member-take}
use host_forge.Sql.Updates.{Member-update_where_other}
use host_forge.Sql.Results.{Result-cases}
use host_forge.Clock.{Time}
use host_forge.Backups.Rows.{
  BackupDestinationSealed, DatabaseBackup, BackupDb, backup_id_of, null_string,
}
use host_forge.Backups.Destinations.{get_backup_destination_sealed}
use host_forge.Backups.Records.{
  is_stored, is_removable, mark_deleting, mark_database_backup_deleting,
  delete_database_backup_record, refers_to,
}
use host_forge.Backups.Policies.{is_expired, list_expired_database_backups, expires_before}
use host_forge.Backups.Loops.{
  purge_from, purge_one, purge_each, purge_expired_database_backups, or_same,
}

-- Ids as newID() makes them: distinct, with no space around.
pub record IsTable (bs : List DatabaseBackup) : Type 0 where
  pub distinct : DistinctBy backup_id_of bs
  pub trimmed : All (λ b. trim_space b.id ≡ b.id) bs

abbrev pub marked_rows : String → Time → List DatabaseBackup → List DatabaseBackup
marked_rows id now bs = update_where (is_stored id) (mark_deleting now) bs

-- The rows after one expired backup: as they were, marked, or marked and deleted.
pub data Purged (id : String) (now : Time) (bs bs' : List DatabaseBackup) : Type 0 where
  left : bs' ≡ bs → Purged id now bs bs'
  marked : bs' ≡ marked_rows id now bs → Purged id now bs bs'
  deleted : bs' ≡ delete_where (is_removable id) (marked_rows id now bs) → Purged id now bs bs'

module _ (opens : BackupDestinationSealed → Bool)
    (deletes : BackupDestinationSealed → String → Bool) (now : Time) where
  deleted-Purged :
      (b : DatabaseBackup) (db : BackupDb)
      → trim_space b.id ≡ b.id
      → Purged b.id now db.backups
          (or_same (mark_database_backup_deleting b.id now db) (
            delete_database_backup_record b.id (mark_database_backup_deleting b.id now db))).backups
  unfolding delete_database_backup_record mark_database_backup_deleting
  deleted-Purged b db e =
      elim (Bool-cases (
        eqb
          (count_where (is_removable (trim_space b.id))
            (marked_rows (trim_space b.id) now db.backups))
          1)) [
            | inr c ↦ rw (c, e) (marked refl)
            | inl c ↦
                elim (Bool-cases (exists_where (refers_to (trim_space b.id)) db.restore_jobs)) [
                  | inl r ↦ rw (c, r, e) (marked refl)
                  | inr r ↦ rw (c, r, e) (deleted refl)
                ]
          ]

  -- The jobs and the destinations are not touched.
  pub purge_one-others :
      (b : DatabaseBackup) (db : BackupDb)
      → ((purge_one opens deletes now b db).restore_jobs ≡ db.restore_jobs)
        × ((purge_one opens deletes now b db).destinations ≡ db.destinations)
  unfolding purge_one purge_from mark_database_backup_deleting delete_database_backup_record
  purge_one-others b db =
      elim (Result-cases (get_backup_destination_sealed (null_string b.destination_id) db)) [
        | inr (e, q) ↦ rw q (refl, refl)
        | inl (d, q) ↦ rw q (ground arith)
      ]

  pub purge_one-Purged :
      (b : DatabaseBackup) (db : BackupDb)
      → trim_space b.id ≡ b.id
      → Purged b.id now db.backups (purge_one opens deletes now b db).backups
  unfolding purge_one purge_from mark_database_backup_deleting
  purge_one-Purged b db e =
      elim (Result-cases (get_backup_destination_sealed (null_string b.destination_id) db)) [
        | inr (_, q) ↦ rw q (left refl)
        | inl (d, q) ↦ elim (Bool-cases (opens d)) [
          | inr o ↦ rw (q, o) (left refl)
          | inl o ↦ elim (Bool-cases (deletes d b.object_key)) [
            | inr k ↦ rw (q, o, k) (marked (ap (λ k. marked_rows k now db.backups) e))
            | inl k ↦ rw (q, o, k) (deleted-Purged b db e)
          ]
        ]
      ]

  Purged-keeps :
      (id : String) (b : DatabaseBackup) (bs bs' : List DatabaseBackup)
      → Purged id now bs bs'
      → (b.id == id) ≡ false
      → Member b bs
      → Member b bs'
  Purged-keeps id b bs bs' (left e) other m = subst (Member b) (sym e) m
  Purged-keeps id b bs bs' (marked e) other m =
      subst (Member b) (sym e)
        (Member-update_where_other (is_stored id) (mark_deleting now) b bs (ground arith) m)
  Purged-keeps id b bs bs' (deleted e) other m = subst (Member b) (sym e) (
      Member-delete_where (is_removable id) b (marked_rows id now bs) (ground arith)
        (Member-update_where_other (is_stored id) (mark_deleting now) b bs (ground arith) m))

  purge_each-keeps :
      (b : DatabaseBackup) (items : List DatabaseBackup) (db : BackupDb)
      → All (λ x. (trim_space x.id ≡ x.id) × ((b.id == x.id) ≡ false)) items
      → Member b db.backups
      → Member b (purge_each opens deletes now items db).backups
  unfolding purge_each
  purge_each-keeps b [] db h m = m
  purge_each-keeps b (x ∷ items) db h m =
      purge_each-keeps b items (purge_one opens deletes now x db) h.1
        (Purged-keeps x.id b db.backups _ (purge_one-Purged x db h.0.0) h.0.1 m)

  -- What is listed is an expired row of the table.
  pub listed :
      (db : BackupDb) (x : DatabaseBackup)
      → Member x (list_expired_database_backups now (pos 100) db)
      → (is_expired now db.restore_jobs x ≡ true) × Member x db.backups
  unfolding list_expired_database_backups
  listed db x m =
      filter_rows_sound (is_expired now db.restore_jobs) x db.backups
        (Member-order_by expires_before x _ (Member-take _ x _ m))

  -- A pass of the retention loop does not touch a backup that has not expired, or that is still being
  -- made, or that a restore refers to, whatever the object store does: the row is in the table as it
  -- was. This is for tables whose ids are distinct and carry no spaces.
  pub purge-keeps :
      (db : BackupDb) (b : DatabaseBackup)
      → IsTable db.backups
      → Member b db.backups
      → is_expired now db.restore_jobs b ≡ false
      → Member b (purge_expired_database_backups opens deletes now db).backups
  unfolding purge_expired_database_backups
  purge-keeps db b table m live =
      purge_each-keeps b (list_expired_database_backups now (pos 100) db) db
        (All-intro _ (λ x n.
          let (gone, mx) = listed db x n in
          (
            All-Member _ x db.backups table.trimmed mx,
            (elim (Bool-cases (b.id == x.id)) [
              | inr other ↦ other
              | inl same ↦
                  let q =
                    DistinctBy-same backup_id_of b x db.backups table.distinct m mx
                      (ground (arith, eq_iff b.id x.id)) in
                  cc (q, gone, live)
            ]),
          )))
        m
