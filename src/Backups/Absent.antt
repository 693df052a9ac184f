-- ===== src/Backups/Absent.antt =====
-- Expired rows of one id, and what marks and deletions of purgeExpiredDatabaseBackups do to them
-- (internal/services/database_backup_schedule.go).
use mathlib.Core.Path.{subst}
use host_forge.Base.{
  String, List, [], ◌∷◌, Bool, true, false, ◌&&◌, ◌≡◌, ◌==◌, refl, sym, ap, ◌∙◌, arith, All,
  exists_where, eq_iff,
}
use host_forge.Sql.{delete_where, count_where}
use host_forge.Sql.Keys.{
  DistinctBy, DistinctBy-update_where, exists_where-delete_where, DistinctBy-delete_where,
}
use host_forge.Sql.Updates.{exists_where-update_where_le, All-update_where}
use host_forge.Clock.{Time}
use host_forge.Backups.Rows.{DatabaseBackup, DatabaseRestoreJob, backup_id_of}
use host_forge.Backups.Records.{is_stored, is_removable, mark_deleting, refers_to}
use host_forge.Backups.Policies.{is_expired}
use host_forge.Backups.Purged.{marked_rows, Purged, left, marked, deleted}

module _ (now : Time) (jobs : List DatabaseRestoreJob) where
  -- An expired row of one id.
  abbrev pub is_expired_id : String → DatabaseBackup → Bool
  is_expired_id k b = is_expired now jobs b && (b.id == k)

  pub mark-is_expired :
      (id : String) (b : DatabaseBackup)
      → is_stored id b ≡ true
      → is_expired now jobs (mark_deleting now b) ≡ true
      → is_expired now jobs b ≡ true
  unfolding is_expired mark_deleting
  mark-is_expired id b s h = ground arith

  pub mark-absent :
      (id k : String) (bs : List DatabaseBackup)
      → exists_where (is_expired_id k) bs ≡ false
      → exists_where (is_expired_id k) (marked_rows id now bs) ≡ false
  unfolding mark_deleting
  mark-absent id k bs h =
      exists_where-update_where_le (is_stored id) (is_expired_id k) (mark_deleting now) bs
        (λ b m s e. ground (arith, mark-is_expired id b s)) h

  pub Purged-absent :
      (id k : String) (bs bs' : List DatabaseBackup)
      → Purged id now bs bs'
      → exists_where (is_expired_id k) bs ≡ false
      → exists_where (is_expired_id k) bs' ≡ false
  Purged-absent id k bs bs' (left e) h = ap (exists_where (is_expired_id k)) e ∙ h
  Purged-absent id k bs bs' (marked e) h =
      ap (exists_where (is_expired_id k)) e ∙ mark-absent id k bs h
  Purged-absent id k bs bs' (deleted e) h =
      ap (exists_where (is_expired_id k)) e
      ∙ exists_where-delete_where (is_expired_id k) (is_removable id) (marked_rows id now bs)
          (mark-absent id k bs h)

  -- Once marked, an expired row of the id may be removed.
  pub marked_removable :
      (k : String) (bs : List DatabaseBackup)
      → All (λ b. is_expired_id k b ≡ true → is_removable k b ≡ true) (marked_rows k now bs)
  unfolding is_expired mark_deleting
  marked_removable k bs =
      All-update_where _ (is_stored k) (mark_deleting now) bs (λ b m s e. ground arith)
        (λ b m s e. absurd (ground arith))

  pub delete-absent :
      (k : String) (bs : List DatabaseBackup)
      → All (λ b. is_expired_id k b ≡ true → is_removable k b ≡ true) bs
      → exists_where (is_expired_id k) (delete_where (is_removable k) bs) ≡ false
  unfolding delete_where
  delete-absent k [] h = refl
  delete-absent k (b ∷ bs) h = ground (arith, delete-absent k bs h.1, h.0)

  pub none-absent :
      (k : String) (bs : List DatabaseBackup)
      → All (λ b. is_expired_id k b ≡ true → is_removable k b ≡ true) bs
      → count_where (is_removable k) bs ≡ 0
      → exists_where (is_expired_id k) bs ≡ false
  none-absent k [] h e = refl
  none-absent k (b ∷ bs) h e = ground (arith, none-absent k bs h.1, h.0)

  pub referred-absent :
      (k : String) (bs : List DatabaseBackup)
      → exists_where (refers_to k) jobs ≡ true
      → exists_where (is_expired_id k) bs ≡ false
  unfolding is_expired
  referred-absent k [] h = refl
  referred-absent k (b ∷ bs) h =
      ground
        (arith, referred-absent k bs h, eq_iff b.id k, ap (λ i. exists_where (refers_to i) jobs))

pub Purged-DistinctBy :
    (id : String) (now : Time) (bs bs' : List DatabaseBackup)
    → Purged id now bs bs'
    → DistinctBy backup_id_of bs
    → DistinctBy backup_id_of bs'
unfolding mark_deleting
Purged-DistinctBy id now bs bs' (left e) d = subst (DistinctBy backup_id_of) (sym e) d
Purged-DistinctBy id now bs bs' (marked e) d =
    subst (DistinctBy backup_id_of) (sym e)
      (DistinctBy-update_where backup_id_of (is_stored id) (mark_deleting now) bs (λ b. refl) d)
Purged-DistinctBy id now bs bs' (deleted e) d = subst (DistinctBy backup_id_of) (sym e) (
    DistinctBy-delete_where backup_id_of (is_removable id) (marked_rows id now bs)
      (DistinctBy-update_where backup_id_of (is_stored id) (mark_deleting now) bs (λ b. refl) d))
