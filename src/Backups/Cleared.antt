-- ===== src/Backups/Cleared.antt =====
-- That purgeExpiredDatabaseBackups (internal/services/database_backup_schedule.go) gets rid of what
-- has expired, once the object store answers.
use mathlib.Core.Path.{subst}
use host_forge.Base.{
  String, List, [], ◌∷◌, Bool, true, false, ◌≡◌, ◌≤◌, refl, sym, ap, ◌∙◌, arith, All, eqb, length,
  exists_where, Bool-cases, inl, inr, eq_iff, eq_refl,
}
use host_forge.Base.Int.{pos}
use host_forge.Base.Text.{trim_space}
use host_forge.Sql.{count_where, filter_rows, order_by, ok, find_where, require, no_rows}
use host_forge.Sql.Keys.{DistinctBy, has_key, count_where-DistinctBy, DistinctBy-update_where}
use host_forge.Sql.Laws.{
  Member, All-Member, All-intro, filter_rows_complete, exists_where-Member, not_Member_of_none,
}
use host_forge.Sql.Sorted.{order_by-Member, take_all, length-order_by}
use host_forge.Clock.{Time}
use host_forge.Backups.Rows.{
  BackupDestinationSealed, DatabaseBackup, DatabaseRestoreJob, BackupDb, backup_id_of, null_string,
  destination_id_of,
}
use host_forge.Backups.Destinations.{get_backup_destination_sealed}
use host_forge.Backups.Records.{
  is_stored, is_removable, mark_deleting, mark_database_backup_deleting,
  delete_database_backup_record, refers_to, clamp_limit,
}
use host_forge.Backups.Policies.{is_expired, list_expired_database_backups, expires_before}
use host_forge.Backups.Loops.{
  purge_from, purge_one, purge_each, purge_expired_database_backups, or_same,
}
use host_forge.Backups.Purged.{IsTable, marked_rows, purge_one-others, purge_one-Purged, listed}
use host_forge.Backups.Absent.{
  is_expired_id, Purged-absent, marked_removable, delete-absent, none-absent, referred-absent,
  Purged-DistinctBy,
}

-- The destination that a backup names can be looked up.
abbrev pub IsReachable : BackupDb → DatabaseBackup → Type 0
IsReachable db b =
    (d : BackupDestinationSealed) × (get_backup_destination_sealed (null_string b.destination_id) db
      ≡ ok d)

IsReachable-same :
    (db db' : BackupDb) (b : DatabaseBackup)
    → db'.destinations ≡ db.destinations
    → IsReachable db b
    → IsReachable db' b
unfolding get_backup_destination_sealed
IsReachable-same db db' b e (d, q) = (
  d,
  ap
        (λ ds.
          require no_rows
            (find_where (has_key destination_id_of (trim_space (null_string b.destination_id))) ds))
        e
      ∙ q,
)

module _ (opens : BackupDestinationSealed → Bool)
    (deletes : BackupDestinationSealed → String → Bool) (now : Time)
    (opened : (d : BackupDestinationSealed) → opens d ≡ true)
    (removed : (d : BackupDestinationSealed) (key : String) → deletes d key ≡ true) where
  deleted-absent :
      (b : DatabaseBackup) (db : BackupDb)
      → trim_space b.id ≡ b.id
      → DistinctBy backup_id_of db.backups
      → exists_where
          (is_expired_id now db.restore_jobs b.id)
          (or_same (mark_database_backup_deleting b.id now db) (
            delete_database_backup_record b.id (mark_database_backup_deleting b.id now db))).backups
        ≡ false
  unfolding delete_database_backup_record mark_database_backup_deleting mark_deleting
  deleted-absent b db e distinct =
      let rows = marked_rows b.id now db.backups in
      let ready = marked_removable now db.restore_jobs b.id db.backups in
      let one =
        count_where-DistinctBy backup_id_of (is_removable b.id) b.id rows
          (λ x t. ground (arith, eq_iff x.id b.id))
          (DistinctBy-update_where backup_id_of (is_stored b.id) (mark_deleting now) db.backups
            (λ x. refl) distinct) in
      elim (Bool-cases (eqb (count_where (is_removable b.id) rows) 1)) [
        | inr c ↦ rw (e, c) (none-absent now db.restore_jobs b.id rows ready (ground arith))
        | inl c ↦ elim (Bool-cases (exists_where (refers_to b.id) db.restore_jobs)) [
          | inl r ↦ rw (e, c, r) (referred-absent now db.restore_jobs b.id rows r)
          | inr r ↦ rw (e, c, r) (delete-absent now db.restore_jobs b.id rows ready)
        ]
      ]

  purge_one-absent :
      (b : DatabaseBackup) (db : BackupDb)
      → trim_space b.id ≡ b.id
      → DistinctBy backup_id_of db.backups
      → IsReachable db b
      → exists_where
          (is_expired_id now db.restore_jobs b.id)
          (purge_one opens deletes now b db).backups
        ≡ false
  unfolding purge_one purge_from
  purge_one-absent b db e distinct (d, q) =
      rw (q, opened d, removed d b.object_key) (deleted-absent b db e distinct)

  purge_each-absent :
      (jobs : List DatabaseRestoreJob) (k : String) (items : List DatabaseBackup) (db : BackupDb)
      → All (λ x. trim_space x.id ≡ x.id) items
      → exists_where (is_expired_id now jobs k) db.backups ≡ false
      → exists_where (is_expired_id now jobs k) (purge_each opens deletes now items db).backups
        ≡ false
  unfolding purge_each
  purge_each-absent jobs k [] db h a = a
  purge_each-absent jobs k (x ∷ items) db h a =
      purge_each-absent jobs k items (purge_one opens deletes now x db) h.1
        (Purged-absent now jobs x.id k db.backups _ (purge_one-Purged opens deletes now x db h.0) a)

  purge_each-clears :
      (jobs : List DatabaseRestoreJob) (x : DatabaseBackup) (items : List DatabaseBackup)
      (db : BackupDb)
      → db.restore_jobs ≡ jobs
      → All (λ y. trim_space y.id ≡ y.id) items
      → All (IsReachable db) items
      → DistinctBy backup_id_of db.backups
      → Member x items
      → exists_where (is_expired_id now jobs x.id) (purge_each opens deletes now items db).backups
        ≡ false
  unfolding purge_each
  purge_each-clears jobs x [] db j h r distinct m = absurd m
  purge_each-clears jobs x (y ∷ items) db j h r distinct (inl e) =
      purge_each-absent jobs x.id items (purge_one opens deletes now y db) h.1 (
        subst
          (λ z.
            exists_where (is_expired_id now jobs z.id) (purge_one opens deletes now y db).backups
            ≡ false)
          (sym e)
          (subst
            (λ js.
              exists_where (is_expired_id now js y.id) (purge_one opens deletes now y db).backups
              ≡ false)
            j (purge_one-absent y db h.0 distinct r.0)))
  purge_each-clears jobs x (y ∷ items) db j h r distinct (inr m) =
      let (jobs_same, destinations_same) = purge_one-others opens deletes now y db in
      purge_each-clears jobs x items (purge_one opens deletes now y db) (jobs_same ∙ j) h.1
        (All-intro items (λ z n.
          IsReachable-same db (purge_one opens deletes now y db) z destinations_same
            (All-Member _ z items r.1 n)))
        (Purged-DistinctBy y.id now db.backups _ (purge_one-Purged opens deletes now y db h.0)
          distinct)
        m

  length-filter_rows :
      (p : DatabaseBackup → Bool) (bs : List DatabaseBackup)
      → length (filter_rows p bs) ≡ count_where p bs
  length-filter_rows p [] = refl
  length-filter_rows p (b ∷ bs) = ground (arith, length-filter_rows p bs)

  every_listed :
      (db : BackupDb) (y : DatabaseBackup)
      → count_where (is_expired now db.restore_jobs) db.backups ≤ 100
      → Member y db.backups
      → is_expired now db.restore_jobs y ≡ true
      → Member y (list_expired_database_backups now (pos 100) db)
  unfolding list_expired_database_backups clamp_limit
  every_listed db y few m t =
      let rows = filter_rows (is_expired now db.restore_jobs) db.backups in
      subst (Member y)
        (sym (
          take_all 100 (order_by expires_before rows) (
            omega (
              arith,
              length-order_by expires_before rows,
              length-filter_rows (is_expired now db.restore_jobs) db.backups,
              few,
            ))))
        (order_by-Member expires_before y rows
          (filter_rows_complete (is_expired now db.restore_jobs) y db.backups t m))

  -- When every sealed key opens and the object store deletes what it is asked to, one pass of the
  -- retention loop leaves no expired backup that no restore refers to: for at most 100 such backups,
  -- whose destinations can be looked up, in a table whose ids are distinct and carry no spaces.
  pub purge-clears :
      (db : BackupDb)
      → IsTable db.backups
      → ((b : DatabaseBackup)
          → Member b db.backups
          → is_expired now db.restore_jobs b ≡ true
          → IsReachable db b)
      → count_where (is_expired now db.restore_jobs) db.backups ≤ 100
      → exists_where
          (is_expired now db.restore_jobs)
          (purge_expired_database_backups opens deletes now db).backups
        ≡ false
  unfolding purge_expired_database_backups
  purge-clears db table reach few =
      let items = list_expired_database_backups now (pos 100) db in
      let after = (purge_each opens deletes now items db).backups in
      let trimmed =
        All-intro items
          (λ x n. All-Member _ x db.backups table.trimmed (listed opens deletes now db x n).1) in
      let reachable =
        All-intro items (λ x n. let (t, m) = listed opens deletes now db x n in reach x m t) in
      let gone : (k : String) → exists_where (is_expired_id now db.restore_jobs k) after ≡ false =
        (λ k. elim (Bool-cases (exists_where (is_expired_id now db.restore_jobs k) db.backups)) [
          | inr a ↦ purge_each-absent db.restore_jobs k items db trimmed a
          | inl there ↦
              let (y, m, t) = exists_where-Member _ db.backups there in
              let due : is_expired now db.restore_jobs y ≡ true = ground arith in
              let same : y.id ≡ k = ground (arith, eq_iff y.id k) in
              subst (λ i. exists_where (is_expired_id now db.restore_jobs i) after ≡ false) same
                (purge_each-clears db.restore_jobs y items db refl trimmed reachable table.distinct
                  (every_listed db y few m due))
        ]) in
      elim (Bool-cases (exists_where (is_expired now db.restore_jobs) after)) [
        | inr clear ↦ clear
        | inl left_over ↦
            let (x, m, t) = exists_where-Member _ after left_over in
            absurd (ground (arith, not_Member_of_none _ x after (gone x.id) m, eq_refl x.id))
      ]
