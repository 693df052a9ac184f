-- ===== src/Backups/Effects/Destinations.antt =====
-- The effects of the commands on destinations and policies.
use host_forge.Base.{
  String, Option, Bool, true, ◌≡◌, refl, Option-cases, arith, exists_where, Bool-cases, inl, inr,
}
use host_forge.Base.Int.{ℤ}
use host_forge.Base.Text.{trim_space}
use host_forge.Sql.{find_where, Result, ok}
use host_forge.Sql.Keys.{has_key}
use host_forge.Sql.Laws.{Member-exists_where, find_where_sound}
use host_forge.Sql.Results.{Result-cases}
use host_forge.Clock.{Time}
use host_forge.Backups.Rows.{
  BackupDb, BackupDestination, BackupDestinationSealed, DatabaseBackupPolicy, destination_id_of,
  policy_id_of,
}
use host_forge.Backups.Destinations.{
  CreateBackupDestinationInput, create_backup_destination, update_backup_destination,
  update_backup_destination_test, delete_backup_destination, insert_destination, new_destination,
  write_destination, mark_tested, get_backup_destination, get_backup_destination_sealed,
  clean_destination_input, parse_provider, parse_test_status,
}
use host_forge.Backups.Policies.{
  upsert_database_backup_policy, advance_database_backup_policy_schedule, upsert_policy, new_policy,
  mark_advanced, get_database_instance, check_retention,
}
use host_forge.Backups.Effects.{
  Effect, adds_destination, edits_destinations, drops_destination, adds_policy, edits_policies,
  policy_known, has_destination,
}

insert_destination-Effect :
    {max : ℤ} (d : BackupDestinationSealed) (db db' : BackupDb)
    → insert_destination d db ≡ ok db'
    → Effect max db db'
unfolding insert_destination
insert_destination-Effect d db db' h = adds_destination d (ground arith)

pub create-Effect :
    {max : ℤ} (fresh : String) (given : CreateBackupDestinationInput) (now : Time)
    (db db' : BackupDb) (r : Result BackupDestination)
    → create_backup_destination fresh given now db ≡ ok (r, db')
    → Effect max db db'
unfolding create_backup_destination clean_destination_input insert_destination
create-Effect fresh given now db db' r h = elim (Option-cases (parse_provider given.provider)) [
  | inl e ↦ absurd (ground arith)
  | inr (provider, e) ↦
      adds_destination (new_destination fresh (clean_destination_input given) provider now)
        (ground arith)
]

pub update-Effect :
    {max : ℤ} (id : String) (given : CreateBackupDestinationInput) (now : Time) (db db' : BackupDb)
    (r : Result BackupDestination)
    → update_backup_destination id given now db ≡ ok (r, db')
    → Effect max db db'
unfolding update_backup_destination clean_destination_input write_destination
update-Effect id given now db db' r h = elim (Option-cases (parse_provider given.provider)) [
  | inl e ↦ absurd (ground arith)
  | inr (provider, e) ↦
      edits_destinations (has_key destination_id_of (trim_space id))
        (write_destination (clean_destination_input given) provider now) (λ d. refl) (ground arith)
]

pub test-Effect :
    {max : ℤ} (id status message : String) (now : Time) (db db' : BackupDb)
    (r : Result BackupDestination)
    → update_backup_destination_test id status message now db ≡ ok (r, db')
    → Effect max db db'
unfolding update_backup_destination_test mark_tested
test-Effect id status message now db db' r h = elim (Option-cases (parse_test_status status)) [
  | inl e ↦ absurd (ground arith)
  | inr (status', e) ↦
      edits_destinations (has_key destination_id_of (trim_space id))
        (mark_tested status' message now) (λ d. refl) (ground arith)
]

pub delete-Effect :
    {max : ℤ} (id : String) (seen db db' : BackupDb)
    → delete_backup_destination id seen db ≡ ok db'
    → Effect max db db'
unfolding delete_backup_destination
delete-Effect id seen db db' h = drops_destination (trim_space id) (ground arith) (ground arith)

get_destination-known :
    (id : String) (db : BackupDb) (d : BackupDestination)
    → get_backup_destination id db ≡ ok d
    → has_destination db.destinations (trim_space id) ≡ true
unfolding get_backup_destination get_backup_destination_sealed
get_destination-known id db d h =
    elim (Option-cases (find_where (has_key destination_id_of (trim_space id)) db.destinations)) [
      | inl e ↦ absurd (ground arith)
      | inr (x, e) ↦
          let (named, m) = find_where_sound _ x db.destinations e in
          Member-exists_where _ x db.destinations m named
    ]

upsert_policy-Effect :
    {max : ℤ} (p : DatabaseBackupPolicy) (db db' : BackupDb)
    → policy_known db.destinations p ≡ true
    → db' ≡ record db { policies = upsert_policy p db.policies }
    → Effect max db db'
unfolding upsert_policy policy_known
upsert_policy-Effect p db db' known e =
    elim (Bool-cases (exists_where (has_key policy_id_of p.database_instance_id) db.policies)) [
      | inl t ↦
          edits_policies (has_key policy_id_of p.database_instance_id) _ (λ q k. known) (rw t at e)
      | inr t ↦ adds_policy p known (rw t at e)
    ]

pub upsert-Effect :
    {max : ℤ} (i d : String) (enabled : Bool) (schedule timezone : String) (days : ℤ)
    (next : Option Time) (now : Time) (db db' : BackupDb) (r : Result DatabaseBackupPolicy)
    → upsert_database_backup_policy i d enabled schedule timezone days next now db ≡ ok (r, db')
    → Effect max db db'
unfolding upsert_database_backup_policy policy_known new_policy
upsert-Effect i d enabled schedule timezone days next now db db' r h =
    elim (Result-cases (get_database_instance i db)) [
      | inr (e, q) ↦ absurd (ground arith)
      | inl (inst, q) ↦ elim (Result-cases (get_backup_destination d db)) [
        | inr (e, q') ↦ absurd (ground arith)
        | inl (dest, q') ↦ elim (Result-cases (check_retention days)) [
          | inr (e, q'') ↦ absurd (ground arith)
          | inl (n, q'') ↦
              upsert_policy-Effect (new_policy i d enabled schedule timezone n next now) db db'
                (get_destination-known d db dest q') (ground arith)
        ]
      ]
    ]

pub advance-Effect :
    {max : ℤ} (i : String) (last next : Option Time) (now : Time) (db db' : BackupDb)
    → advance_database_backup_policy_schedule i last next now db ≡ ok db'
    → Effect max db db'
unfolding advance_database_backup_policy_schedule policy_known mark_advanced
advance-Effect i last next now db db' h =
    edits_policies (has_key policy_id_of (trim_space i)) (mark_advanced last next now) (λ q k. k)
      (ground arith)
