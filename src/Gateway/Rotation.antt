-- ===== src/Gateway/Rotation.antt =====
-- Ending a rotation, a connection, and marking use: internal/repository/database_gateways.go.
use host_forge.Base.{
  ℕ, suc, String, List, [], ◌∷◌, length, Bool, not, ◌&&◌, ◌||◌, ◌==◌, if◌then◌else◌, eqb, ltb, leb,
  is_nil, exists_where,
}
use host_forge.Base.Int.{ℤ, pos}
use host_forge.Base.Text.{trim_space, codes}
use host_forge.Sql.{
  update_where, count_where, Result, ok, err, no_rows, invalid_input, constraint, not_found,
  unavailable, guard, require, ◌>>=◌, ◌>>◌,
}
use host_forge.Sql.Keys.{has_key}
use host_forge.Clock.{Time, at}
use host_forge.Gateway.Credentials.{
  ConnectionStatus, parse_connection_status, awaits_credential, DatabaseExternalConnection,
  is_revoked, DatabaseExternalCredential, GatewayDb, connection_id_of, erase_once, put_in_grace,
  equal_codes_of, is_current,
}

-- WHERE id=? AND connection_id=?
abbrev pub is_of : String → String → DatabaseExternalCredential → Bool
is_of id connection_id c = (c.id == id) && (c.connection_id == connection_id)

-- WHERE id=? AND current_generation>?
abbrev pub is_beyond : String → ℕ → DatabaseExternalConnection → Bool
is_beyond id generation c = (c.id == id) && ltb generation c.current_generation

unfoldable pub restore_generation :
    ℕ → Time → DatabaseExternalConnection → DatabaseExternalConnection
restore_generation generation now c = record c {
  current_generation = generation;
  status = ConnectionStatus.active;
  last_error_code = "";
  last_error_message = "";
  updated_at = at now;
}

unfoldable pub rollback_to : String → String → ℕ → Time → GatewayDb → Result GatewayDb
rollback_to connection_id failed_id previous now db = do
  guard (eqb (count_where (is_of failed_id connection_id) db.credentials) 1) no_rows
  let db' = record db {
    credentials = update_where (is_of failed_id connection_id) (erase_once now) db.credentials;
  }
  guard (eqb (count_where (is_beyond connection_id previous) db'.connections) 1) unavailable
  ok (record db' {
    connections =
        update_where (is_beyond connection_id previous) (restore_generation previous now)
          db'.connections;
  })

unfoldable pub rollback_database_external_credential_rotation :
    String → String → ℤ → Time → GatewayDb → Result GatewayDb
rollback_database_external_credential_rotation connection_id failed_id (pos (suc previous)) now db =
    if (trim_space connection_id == "") || (trim_space failed_id == "")
    then err invalid_input
    else rollback_to (trim_space connection_id) (trim_space failed_id) (suc previous) now db
rollback_database_external_credential_rotation connection_id failed_id n now db = err invalid_input

unfoldable pub mark_status :
    ConnectionStatus
    → String
    → String
    → Time
    → DatabaseExternalConnection
    → DatabaseExternalConnection
mark_status status code message now c = record c {
  status = status;
  last_error_code = trim_space code;
  last_error_message = trim_space message;
  updated_at = at now;
}

-- The CHECK is met on a row that is written.
unfoldable pub set_database_external_connection_status :
    String → String → String → String → Time → GatewayDb → Result GatewayDb
set_database_external_connection_status raw_id status code message now db = do
  let id = trim_space raw_id
  guard (exists_where (has_key connection_id_of id) db.connections) not_found
  status' ← require constraint (parse_connection_status status)
  ok (record db {
    connections =
        update_where (has_key connection_id_of id) (mark_status status' code message now)
          db.connections;
  })

abbrev pub is_current_of : String → String → DatabaseExternalCredential → Bool
is_current_of id connection_id c = is_of id connection_id c && is_current c.state

abbrev pub is_awaiting : String → DatabaseExternalConnection → Bool
is_awaiting id c = (c.id == id) && awaits_credential c.status

unfoldable pub retire_previous : String → String → Time → Time → GatewayDb → GatewayDb
retire_previous previous_id connection_id deadline now db =
    if previous_id == "" then db else record db {
      credentials =
          update_where (is_current_of previous_id connection_id) (put_in_grace deadline now)
            db.credentials;
    }

unfoldable pub complete_database_external_credential_rotation :
    String → String → Time → Time → GatewayDb → Result GatewayDb
complete_database_external_credential_rotation raw_id raw_previous deadline now db = do
  let id = trim_space raw_id
  let db' = retire_previous (trim_space raw_previous) id deadline now db
  guard (eqb (count_where (is_awaiting id) db'.connections) 1) unavailable
  ok (record db' {
    connections =
        update_where (is_awaiting id) (mark_status ConnectionStatus.active "" "" now)
          db'.connections;
  })

abbrev pub belongs_to : String → DatabaseExternalCredential → Bool
belongs_to connection_id c = c.connection_id == connection_id

unfoldable pub finalize_database_external_connection_revocation :
    String → Time → GatewayDb → Result GatewayDb
finalize_database_external_connection_revocation raw_id now db = do
  let id = trim_space raw_id
  guard (eqb (count_where (has_key connection_id_of id) db.connections) 1) not_found
  ok (record {
    credentials = update_where (belongs_to id) (erase_once now) db.credentials;
    connections =
        update_where (has_key connection_id_of id) (mark_status ConnectionStatus.revoked "" "" now)
          db.connections;
  })

-- The names that are left once trimmed, each once.
unfoldable pub unique_roles : List String → List String
unique_roles [] = []
unique_roles (name ∷ names) =
    let rest = unique_roles names in
    if (trim_space name == "") || exists_where (λ other. other == trim_space name) rest
    then rest
    else trim_space name ∷ rest

-- state IN ('active','grace') AND role_name IN (…)
unfoldable pub is_used : List String → DatabaseExternalCredential → Bool
is_used roles c =
    not (is_revoked c.state) && exists_where (λ role. equal_codes_of (codes role) c.role_name) roles

unfoldable pub touch_credential : Time → DatabaseExternalCredential → DatabaseExternalCredential
touch_credential now c = record c { last_used_at = at now }

unfoldable pub touch_connection : Time → DatabaseExternalConnection → DatabaseExternalConnection
touch_connection now c = record c { last_used_at = at now }

-- At most DefaultGatewayClientLimit roles. The second statement reads the credentials as the first
-- leaves them.
unfoldable pub touch_roles : List String → Time → GatewayDb → Result GatewayDb
touch_roles roles now db =
    if is_nil roles
    then ok db
    else if not (leb (length roles) 200)
    then err invalid_input
    else (let touched = update_where (is_used roles) (touch_credential now) db.credentials in
        ok (record {
          credentials = touched;
          connections =
              update_where
                (λ c. exists_where (λ d. is_used roles d && (d.connection_id == c.id)) touched)
                (touch_connection now) db.connections;
        }))

unfoldable pub touch_database_external_credential_usage :
    List String → Time → GatewayDb → Result GatewayDb
touch_database_external_credential_usage names now db = touch_roles (unique_roles names) now db
