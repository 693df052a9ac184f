-- ===== src/Backups/Destinations.antt =====
-- Backup destinations: the first part of internal/repository/database_backups.go.
use host_forge.Base.{
  is_nil, ℕ, String, Option, none, some, List, [], ◌∷◌, ◌++◌, map, Bool, false, not, ◌&&◌, ◌||◌,
  ◌==◌, if◌then◌else◌, eqb, exists_where,
}
use host_forge.Base.Text.{trim_space, trim_of, lowers_to, lex_lt, codes}
use host_forge.Sql.{
  update_where, count_where, find_where, delete_where, order_by, Result, ok, err, no_rows,
  invalid_input, constraint, in_use, guard, require, ◌>>=◌, ◌>>◌,
}
use host_forge.Sql.Keys.{has_key}
use host_forge.Clock.{Time, empty, at, whole_second}
use host_forge.Backups.Rows.{
  Provider, BackupDestination, BackupDestinationSealed, DatabaseBackup, BackupDb, backup_retained,
  destination_id_of,
}

unfoldable pub valid_backup_server_side_encryption : String → String → Bool
valid_backup_server_side_encryption algorithm kms_key_id =
    if algorithm == ""
    then kms_key_id == ""
    else if algorithm == "AES256"
    then kms_key_id == ""
    else if algorithm == "aws:kms"
    then not (kms_key_id == "")
    else false

pub record CreateBackupDestinationInput : Type 0 where
  pub name : String
  pub provider : String
  pub endpoint : String
  pub region : String
  pub bucket : String
  pub object_prefix : String
  pub server_side_encryption : String
  pub sse_kms_key_id : String
  pub path_style : Bool
  pub access_key_ct : List ℕ
  pub secret_key_ct : List ℕ

-- `strings.ToLower(strings.TrimSpace(in.Provider))`, where it is one of the two.
unfoldable pub parse_provider : String → Option Provider
parse_provider s =
    if lowers_to (trim_space s) "r2"
    then some Provider.r2
    else if lowers_to (trim_space s) "s3"
    then some Provider.s3
    else none

unfoldable pub clean_destination_input : CreateBackupDestinationInput → CreateBackupDestinationInput
clean_destination_input in' = record in' {
  name = trim_space in'.name;
  endpoint = trim_space in'.endpoint;
  region = trim_space in'.region;
  bucket = trim_space in'.bucket;
  object_prefix = trim_of b'/' (trim_space in'.object_prefix);
  server_side_encryption = trim_space in'.server_side_encryption;
  sse_kms_key_id = trim_space in'.sse_kms_key_id;
}

unfoldable pub is_complete : CreateBackupDestinationInput → Bool
is_complete in' = not (
    (in'.name == "")
    || (in'.endpoint == "")
    || (in'.region == "")
    || (in'.bucket == "")
    || is_nil in'.access_key_ct
    || is_nil in'.secret_key_ct
    || not (valid_backup_server_side_encryption in'.server_side_encryption in'.sse_kms_key_id))

-- The columns that an UPDATE and an INSERT both write.
unfoldable pub write_destination :
    CreateBackupDestinationInput
    → Provider
    → Time
    → BackupDestinationSealed
    → BackupDestinationSealed
write_destination in' provider now d = record {
  shown = record d.shown {
    name = in'.name;
    provider = provider;
    endpoint = in'.endpoint;
    region = in'.region;
    bucket = in'.bucket;
    object_prefix = in'.object_prefix;
    path_style = in'.path_style;
    server_side_encryption = in'.server_side_encryption;
    sse_kms_key_id = in'.sse_kms_key_id;
    last_test_status = "";
    last_test_message = "";
    last_tested_at = empty;
    updated_at = at now;
  };
  access_key_ct = in'.access_key_ct;
  secret_key_ct = in'.secret_key_ct;
}

unfoldable pub new_destination :
    String → CreateBackupDestinationInput → Provider → Time → BackupDestinationSealed
new_destination id in' provider now = record {
  shown = record {
    id = id;
    name = in'.name;
    provider = provider;
    endpoint = in'.endpoint;
    region = in'.region;
    bucket = in'.bucket;
    object_prefix = in'.object_prefix;
    path_style = in'.path_style;
    server_side_encryption = in'.server_side_encryption;
    sse_kms_key_id = in'.sse_kms_key_id;
    last_test_status = "";
    last_test_message = "";
    last_tested_at = empty;
    created_at = whole_second now;
    updated_at = whole_second now;
  };
  access_key_ct = in'.access_key_ct;
  secret_key_ct = in'.secret_key_ct;
}

unfoldable pub get_backup_destination_sealed : String → BackupDb → Result BackupDestinationSealed
get_backup_destination_sealed id db =
    require no_rows (find_where (has_key destination_id_of (trim_space id)) db.destinations)

unfoldable pub get_backup_destination : String → BackupDb → Result BackupDestination
get_backup_destination id db = do d ← get_backup_destination_sealed id db; ok d.shown

-- PRIMARY KEY and UNIQUE(name)
unfoldable pub insert_destination : BackupDestinationSealed → BackupDb → Result BackupDb
insert_destination d db =
    if exists_where (has_key destination_id_of d.shown.id) db.destinations
      || exists_where (λ e. e.shown.name == d.shown.name) db.destinations
    then err constraint
    else ok (record db { destinations = db.destinations ++ (d ∷ []) })

-- `fresh` is what newID() draws. The row is read back after the INSERT.
unfoldable pub create_backup_destination :
    String
    → CreateBackupDestinationInput
    → Time
    → BackupDb
    → Result (Result BackupDestination × BackupDb)
create_backup_destination fresh given now db = do
  let in' = clean_destination_input given
  provider ← require invalid_input (parse_provider in'.provider)
  guard (is_complete in') invalid_input
  db' ← insert_destination (new_destination fresh in' provider now) db
  ok (get_backup_destination fresh db', db')

-- UNIQUE(name) against the rows of other ids.
unfoldable pub name_taken : String → String → BackupDb → Bool
name_taken id name db =
    exists_where (λ d. (d.shown.name == name) && not (d.shown.id == id)) db.destinations

unfoldable pub update_backup_destination :
    String
    → CreateBackupDestinationInput
    → Time
    → BackupDb
    → Result (Result BackupDestination × BackupDb)
update_backup_destination raw_id given now db = do
  let in' = clean_destination_input given
  let id = trim_space raw_id
  provider ← require invalid_input (parse_provider in'.provider)
  guard (is_complete in') invalid_input
  guard (eqb (count_where (has_key destination_id_of id) db.destinations) 1) no_rows
  guard (not (name_taken id in'.name db)) constraint
  let db' = record db {
    destinations =
        update_where (has_key destination_id_of id) (write_destination in' provider now)
          db.destinations;
  }
  ok (get_backup_destination raw_id db', db')

unfoldable pub destination_before : BackupDestinationSealed → BackupDestinationSealed → Bool
destination_before a b =
    lex_lt (codes a.shown.name) (codes b.shown.name)
    || (a.shown.name == b.shown.name) && lex_lt (codes a.shown.id) (codes b.shown.id)

unfoldable pub list_backup_destinations : BackupDb → List BackupDestination
list_backup_destinations db = map (λ d. d.shown) (order_by destination_before db.destinations)

unfoldable pub parse_test_status : String → Option String
parse_test_status s =
    if lowers_to (trim_space s) "success"
    then some "success"
    else if lowers_to (trim_space s) "failed"
    then some "failed"
    else none

unfoldable pub mark_tested :
    String → String → Time → BackupDestinationSealed → BackupDestinationSealed
mark_tested status message now d = record d {
  shown = record d.shown {
    last_test_status = status;
    last_test_message = trim_space message;
    last_tested_at = whole_second now;
    updated_at = whole_second now;
  };
}

unfoldable pub update_backup_destination_test :
    String → String → String → Time → BackupDb → Result (Result BackupDestination × BackupDb)
update_backup_destination_test raw_id raw_status message now db = do
  status ← require invalid_input (parse_test_status raw_status)
  let id = trim_space raw_id
  guard (exists_where (has_key destination_id_of id) db.destinations) no_rows
  let db' = record db {
    destinations =
        update_where (has_key destination_id_of id) (mark_tested status message now)
          db.destinations;
  }
  ok (get_backup_destination raw_id db', db')

-- WHERE destination_id=? AND status IN ('queued','running','success','deleting'), which no NULL
-- passes.
unfoldable pub is_retained_at : String → DatabaseBackup → Bool
is_retained_at id b = elim b.destination_id [
  | none ↦ false
  | some d ↦ (d == id) && backup_retained b.status
]

abbrev pub is_stored_at : String → DatabaseBackup → Bool
is_stored_at id b = elim b.destination_id [ none ↦ false | some d ↦ d == id ]

-- ON DELETE SET NULL
unfoldable pub forget_destination : DatabaseBackup → DatabaseBackup
forget_destination b = record b { destination_id = none }

-- The policies' foreign key restricts, the backups' one forgets. `seen` is what the count reads: the
-- SELECT and the DELETE are no transaction.
unfoldable pub delete_backup_destination : String → BackupDb → BackupDb → Result BackupDb
delete_backup_destination raw_id seen db = do
  let id = trim_space raw_id
  guard (eqb (count_where (is_retained_at id) seen.backups) 0) in_use
  guard (exists_where (has_key destination_id_of id) db.destinations) no_rows
  guard (not (exists_where (λ p. p.destination_id == id) db.policies)) constraint
  ok (record db {
    destinations = delete_where (has_key destination_id_of id) db.destinations;
    backups = update_where (is_stored_at id) forget_destination db.backups;
  })
