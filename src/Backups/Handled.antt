-- ===== src/Backups/Handled.antt =====
-- What queueDueDatabaseBackups (internal/services/database_backup_schedule.go) does for one policy.
use mathlib.Core.Path.{subst}
use host_forge.Base.{
  ℕ, suc, ◌+◌, ◌/◌, ◌<◌, String, Option, some, List, [], ◌∷◌, ◌++◌, Bool, true, false, ◌≡◌, ◌==◌,
  refl, sym, ap, ◌∙◌, arith, length, exists_where, Option-cases, inl, inr, eq_iff, eq_refl,
  length-append,
}
use host_forge.Base.Int.{ℤ}
use host_forge.Base.Text.{trim_space}
use host_forge.Sql.{update_where, count_where, Result, ok}
use host_forge.Sql.Keys.{DistinctBy, has_key, DistinctBy-update_where}
use host_forge.Sql.Laws.{Member, Member-exists_where, not_Member_of_none}
use host_forge.Sql.Updates.{Member-update_where_other, update_where_none}
use host_forge.Sql.Results.{Result-cases}
use host_forge.Clock.{Time, second}
use host_forge.Clock.Texts.{stamp_le-whole_second}
use host_forge.Queue.Rows.{DatabaseOperation}
use host_forge.Queue.Enqueue.{insert_database_operation_queue_row}
use host_forge.Backups.Rows.{DatabaseBackup, DatabaseBackupPolicy, BackupDb, policy_id_of}
use host_forge.Backups.Policies.{
  is_due, is_reached, mark_advanced, format_optional_time, advance_database_backup_policy_schedule,
}
use host_forge.Backups.Transfers.{
  Draw, BackupRequest, queue_database_backup, plan_backup, commit_backup, insert_database_operation,
  insert_backup, enqueue_transfer, enforce_database_transfer_rate_limit,
}
use host_forge.Backups.Loops.{scheduled_request, after_queueing, queue_due_at, or_same}

commit_backup-rows :
    (now : Time) (max : ℤ) (op : DatabaseOperation) (b : DatabaseBackup) (db db' : BackupDb)
    → commit_backup now max op b db ≡ ok db'
    → (db'.backups ≡ db.backups ++ (b ∷ [])) × (db'.policies ≡ db.policies)
unfolding commit_backup insert_database_operation insert_backup enqueue_transfer
commit_backup-rows now max op b db db' h =
    elim (Result-cases
      (enforce_database_transfer_rate_limit now max db.queue.database_operations)) [
        | inr (e, q) ↦ absurd (ground arith)
        | inl (u, q) ↦
            elim (Result-cases (
              insert_database_operation_queue_row op.id (record db.queue {
                database_operations = db.queue.database_operations ++ (op ∷ []);
              }))) [ inr (e, q') ↦ absurd (ground arith) | inl (queue', q') ↦ ground arith ]
      ]

-- One more backup, and the same policies.
queue_database_backup-rows :
    (draw : Draw) (r : BackupRequest) (db db' : BackupDb)
    → queue_database_backup draw r db ≡ ok db'
    → (length db'.backups ≡ suc (length db.backups)) × (db'.policies ≡ db.policies)
unfolding queue_database_backup
queue_database_backup-rows draw r db db' h = elim (Result-cases (plan_backup draw r db)) [
  | inr (e, q) ↦ absurd (ground arith)
  | inl ((op, b), q) ↦
      let (rows, same) =
        commit_backup-rows draw.now r.max_transfers_per_hour op b db db' (ground arith) in
      (omega (arith, ap length rows, length-append db.backups (b ∷ [])), same)
]

-- A row that is the only one of its key stops passing a test.
count_where-update_one :
    (p : DatabaseBackupPolicy → Bool) (f : DatabaseBackupPolicy → DatabaseBackupPolicy)
    (a : DatabaseBackupPolicy) (ps : List DatabaseBackupPolicy)
    → DistinctBy policy_id_of ps
    → Member a ps
    → p a ≡ true
    → p (f a) ≡ false
    → suc (count_where p (update_where (has_key policy_id_of a.database_instance_id) f ps))
      ≡ count_where p ps
count_where-update_one p f a [] d m h g = absurd m
count_where-update_one p f a (x ∷ ps) d (inl e) h g =
    subst
      (λ y.
        suc (count_where p (update_where (has_key policy_id_of a.database_instance_id) f (y ∷ ps)))
        ≡ count_where p (y ∷ ps))
      e
      (rw
        (
          eq_refl a.database_instance_id,
          h,
          g,
          update_where_none (has_key policy_id_of a.database_instance_id) f ps (
              subst (λ y. exists_where (has_key policy_id_of y.database_instance_id) ps ≡ false)
                (sym e) d.0),
        )
        refl)
count_where-update_one p f a (x ∷ ps) d (inr m) h g =
    let other = not_Member_of_none (has_key policy_id_of x.database_instance_id) a ps d.0 m in
    ground (
      arith,
      count_where-update_one p f a ps d.1 m h g,
      eq_iff x.database_instance_id a.database_instance_id,
      eq_iff a.database_instance_id x.database_instance_id,
    )

module _ (next_schedule : String → String → Time → Option Time) (draw : String → Draw) (now : Time)
    (max_transfers_per_hour : ℤ)
    (later : (schedule timezone : String) (t : Time)
      → next_schedule schedule timezone now ≡ some t
      → now / second < t / second) where
  -- Backups made and policies that still wait for theirs.
  abbrev pub balance : BackupDb → ℕ
  balance db = length db.backups + count_where (is_due now) db.policies

  pub advanced-not_due :
      (p : DatabaseBackupPolicy) (next wall : Time)
      → now / second < next / second
      → is_due now (mark_advanced (some now) (some next) wall p) ≡ false
  unfolding is_due is_reached mark_advanced format_optional_time
  advanced-not_due p next wall lt = ground (arith, stamp_le-whole_second next now, lt)

  abbrev advanced : DatabaseBackupPolicy → Time → BackupDb → Result BackupDb
  advanced p next db =
      advance_database_backup_policy_schedule p.database_instance_id (some now) (some next)
        (draw p.database_instance_id).now db

  -- What one due policy does: nothing, or one backup and an advance of its own row.
  pub data Handled (p : DatabaseBackupPolicy) (db db' : BackupDb) : Type 0 where
    waits : db' ≡ db → Handled p db db'
    queued :
        (next wall : Time)
        → now / second < next / second
        → length db'.backups ≡ suc (length db.backups)
        → db'.policies
          ≡ update_where
              (has_key policy_id_of p.database_instance_id)
              (mark_advanced (some now) (some next) wall)
              db.policies
        → Handled p db db'

  advance-rows :
      (p : DatabaseBackupPolicy) (next : Time) (db db' : BackupDb)
      → trim_space p.database_instance_id ≡ p.database_instance_id
      → Member p db.policies
      → db'.policies ≡ db.policies
      → ((or_same db' (advanced p next db')).backups ≡ db'.backups)
        × ((or_same db' (advanced p next db')).policies
            ≡ update_where
                (has_key policy_id_of p.database_instance_id)
                (mark_advanced (some now) (some next) (draw p.database_instance_id).now)
                db.policies)
  unfolding advance_database_backup_policy_schedule
  advance-rows p next db db' e m same =
      let there : exists_where (has_key policy_id_of p.database_instance_id) db'.policies ≡ true =
        ap (exists_where (has_key policy_id_of p.database_instance_id)) same
        ∙ Member-exists_where _ p db.policies m (eq_refl p.database_instance_id) in
      rw (e, there)
        (
          refl,
          ap
              (update_where (has_key policy_id_of p.database_instance_id)
                (mark_advanced (some now) (some next) (draw p.database_instance_id).now))
              same,
        )

  pub queue_due_at-Handled :
      (p : DatabaseBackupPolicy) (db : BackupDb)
      → trim_space p.database_instance_id ≡ p.database_instance_id
      → Member p db.policies
      → Handled p db (
          queue_due_at next_schedule draw now max_transfers_per_hour p
            (next_schedule p.schedule p.timezone now)
            db)
  unfolding queue_due_at after_queueing
  queue_due_at-Handled p db e m = elim (Option-cases (next_schedule p.schedule p.timezone now)) [
    | inl q ↦ rw q (waits refl)
    | inr (next, q) ↦
        elim (Result-cases (
          queue_database_backup (draw p.database_instance_id)
            (scheduled_request next_schedule draw now max_transfers_per_hour p) db)) [
              | inr (_, q') ↦ rw (q, q') (waits refl)
              | inl (db', q') ↦
                  let (one, same) =
                    queue_database_backup-rows (draw p.database_instance_id)
                      (scheduled_request next_schedule draw now max_transfers_per_hour p) db db'
                      q' in
                  let (kept, moved) = advance-rows p next db db' e m same in
                  rw (q, q')
                    (queued next (draw p.database_instance_id).now
                      (later p.schedule p.timezone next q) (ap length kept ∙ one) moved)
            ]
  ]

  pub Handled-balance :
      (p : DatabaseBackupPolicy) (db db' : BackupDb)
      → Handled p db db'
      → DistinctBy policy_id_of db.policies
      → Member p db.policies
      → is_due now p ≡ true
      → balance db' ≡ balance db
  Handled-balance p db db' (waits e) d m due = ap balance e
  Handled-balance p db db' (queued next wall lt one moved) d m due = omega (
    arith,
    one,
    ap (count_where (is_due now)) moved,
    count_where-update_one (is_due now) (mark_advanced (some now) (some next) wall) p db.policies d
        m due (advanced-not_due p next wall lt),
  )

  pub Handled-Member :
      (p q : DatabaseBackupPolicy) (db db' : BackupDb)
      → Handled p db db'
      → (q.database_instance_id == p.database_instance_id) ≡ false
      → Member q db.policies
      → Member q db'.policies
  Handled-Member p q db db' (waits e) other m =
      subst (λ (d : BackupDb). Member q d.policies) (sym e) m
  Handled-Member p q db db' (queued next wall lt one moved) other m = subst (Member q) (sym moved) (
      Member-update_where_other (has_key policy_id_of p.database_instance_id)
        (mark_advanced (some now) (some next) wall) q db.policies other m)

  pub Handled-DistinctBy :
      (p : DatabaseBackupPolicy) (db db' : BackupDb)
      → Handled p db db'
      → DistinctBy policy_id_of db.policies
      → DistinctBy policy_id_of db'.policies
  unfolding mark_advanced
  Handled-DistinctBy p db db' (waits e) d =
      subst (λ (x : BackupDb). DistinctBy policy_id_of x.policies) (sym e) d
  Handled-DistinctBy p db db' (queued next wall lt one moved) d =
      subst (DistinctBy policy_id_of) (sym moved)
        (DistinctBy-update_where policy_id_of _ _ db.policies (λ x. refl) d)
