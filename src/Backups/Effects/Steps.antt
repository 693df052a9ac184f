-- ===== src/Backups/Effects/Steps.antt =====
-- Every command has one of the effects.
use host_forge.Base.{refl, ◌≡◌}
use host_forge.Base.Int.{ℤ, pos}
use host_forge.Sql.{Result, ok, err}
use host_forge.Backups.Rows.{BackupDb}
use host_forge.Backups.Loops.{or_same}
use host_forge.Backups.Effects.{Effect, stays}
use host_forge.Backups.Effects.Destinations
use host_forge.Backups.Effects.Destinations.{
  create-Effect, update-Effect, test-Effect, upsert-Effect, advance-Effect,
}
use host_forge.Backups.Effects.Records
use host_forge.Backups.Effects.Records.{
  complete-Effect, start-Effect, mark_deleting-Effect, prepare-Effect, job-Effect,
}
use host_forge.Backups.Effects.Queueing.{queue_backup-Effect, queue_restore-Effect}
use host_forge.Backups.Steps.{
  Command, creates_destination, updates_destination, tests_destination, deletes_destination,
  upserts_policy, advances_policy, queues_backup, queues_restore, completes_backup, starts_backup,
  marks_deleting, prepares_deletion, deletes_record, updates_job, step, snd_or,
}

or_same-Effect :
    {max : ℤ} (db : BackupDb) (m : Result BackupDb)
    → ((db' : BackupDb) → m ≡ ok db' → Effect max db db')
    → Effect max db (or_same db m)
or_same-Effect db (ok db') h = h db' refl
or_same-Effect db (err e) h = stays refl

snd_or-Effect :
    {A : Type 0} {max : ℤ} (db : BackupDb) (m : Result (A × BackupDb))
    → ((r : A) (db' : BackupDb) → m ≡ ok (r, db') → Effect max db db')
    → Effect max db (snd_or db m)
snd_or-Effect db (ok (r, db')) h = h r db' refl
snd_or-Effect db (err e) h = stays refl

abbrev pub limit_of : Command → ℤ
limit_of (queues_backup draw r seen) = r.max_transfers_per_hour
limit_of (queues_restore draw r seen) = r.max_transfers_per_hour
limit_of _ = pos 0

pub step-Effect : (c : Command) (db : BackupDb) → Effect (limit_of c) db (step c db)
unfolding step
step-Effect (creates_destination fresh given now) db =
    snd_or-Effect db _ (λ r db' q. create-Effect fresh given now db db' r q)
step-Effect (updates_destination id given now) db =
    snd_or-Effect db _ (λ r db' q. update-Effect id given now db db' r q)
step-Effect (tests_destination id status message now) db =
    snd_or-Effect db _ (λ r db' q. test-Effect id status message now db db' r q)
step-Effect (deletes_destination id seen) db =
    or_same-Effect db _ (λ db' q. Destinations.delete-Effect id seen db db' q)
step-Effect (upserts_policy i d enabled schedule timezone days next now) db =
    snd_or-Effect db _
      (λ r db' q. upsert-Effect i d enabled schedule timezone days next now db db' r q)
step-Effect (advances_policy i last next now) db =
    or_same-Effect db _ (λ db' q. advance-Effect i last next now db db' q)
step-Effect (queues_backup draw r seen) db =
    or_same-Effect db _ (λ db' q. queue_backup-Effect draw r seen db db' q)
step-Effect (queues_restore draw r seen) db =
    or_same-Effect db _ (λ db' q. queue_restore-Effect draw r seen db db' q)
step-Effect (completes_backup id given now) db =
    snd_or-Effect db _ (λ r db' q. complete-Effect id given now db db' r q)
step-Effect (starts_backup id now) db = or_same-Effect db _ (λ db' q. start-Effect id now db db' q)
step-Effect (prepares_deletion id now seen counted) db =
    snd_or-Effect db _ (λ r db' q. prepare-Effect id now seen counted db db' r q)
step-Effect (deletes_record id) db =
    or_same-Effect db _ (λ db' q. Records.delete-Effect id db db' q)
step-Effect (updates_job id status now) db =
    or_same-Effect db _ (λ db' q. job-Effect id status now db db' q)
step-Effect (marks_deleting id now) db = mark_deleting-Effect id now db
