-- ===== src/Gateway/Credentials.antt =====
-- External connections and their credentials, generation by generation:
-- internal/repository/database_gateways.go, with the CHECKs and keys of
-- internal/database/migrations/0022_database_gateway_foundation.sql.
use host_forge.Base.{
  ℕ, ◌+◌, String, Option, none, some, List, [], ◌∷◌, ◌++◌, map, Bool, true, false, not, ◌&&◌, ◌||◌,
  ◌==◌, if◌then◌else◌, eqb, ltb, is_nil, exists_where,
}
use host_forge.Base.Text.{trim_space, lowers_to}
use host_forge.Sql.{
  update_where, count_where, find_where, filter_rows, order_by, Result, ok, err, no_rows,
  invalid_input, constraint, not_found, unavailable, guard, require, ◌>>=◌, ◌>>◌,
}
use host_forge.Sql.Keys.{has_key}
use host_forge.Clock.{Time, Stamp, empty, at}
use host_forge.Backups.Rows.{is_empty}
use host_forge.Gateway.Names.{gateway_credential_role}

pub data ConnectionStatus : Type 0 where
  pending active disabled expired rotating revoking revoked failed : ConnectionStatus

-- The CHECK, on `strings.ToLower(strings.TrimSpace(status))`.
unfoldable pub parse_connection_status : String → Option ConnectionStatus
parse_connection_status raw =
    let s = trim_space raw in
    if lowers_to s "pending"
    then some ConnectionStatus.pending
    else if lowers_to s "active"
    then some ConnectionStatus.active
    else if lowers_to s "disabled"
    then some ConnectionStatus.disabled
    else if lowers_to s "expired"
    then some ConnectionStatus.expired
    else if lowers_to s "rotating"
    then some ConnectionStatus.rotating
    else if lowers_to s "revoking"
    then some ConnectionStatus.revoking
    else if lowers_to s "revoked"
    then some ConnectionStatus.revoked
    else if lowers_to s "failed"
    then some ConnectionStatus.failed
    else none

-- status IN ('pending','rotating','failed')
abbrev pub awaits_credential : ConnectionStatus → Bool
awaits_credential ConnectionStatus.pending = true
awaits_credential ConnectionStatus.rotating = true
awaits_credential ConnectionStatus.failed = true
awaits_credential _ = false

-- The columns of database_external_connections that credentials read and write.
pub record DatabaseExternalConnection : Type 0 where
  pub id : String
  pub status : ConnectionStatus
  pub current_generation : ℕ
  pub last_used_at : Stamp
  pub last_error_code : String
  pub last_error_message : String
  pub updated_at : Stamp

pub data CredentialState : Type 0 where
  active grace revoked : CredentialState

abbrev pub is_revoked : CredentialState → Bool
is_revoked CredentialState.revoked = true
is_revoked _ = false

abbrev pub is_current : CredentialState → Bool
is_current CredentialState.active = true
is_current _ = false

pub record DatabaseExternalCredential : Type 0 where
  pub id : String
  pub connection_id : String
  pub role_name : List ℕ
  pub password_ct : List ℕ
  pub scram_verifier_ct : List ℕ
  pub generation : ℕ
  pub state : CredentialState
  pub grace_deadline : Stamp
  pub last_used_at : Stamp
  pub revoked_at : Stamp
  pub created_at : Stamp
  pub updated_at : Stamp

pub record GatewayDb : Type 0 where
  pub connections : List DatabaseExternalConnection
  pub credentials : List DatabaseExternalCredential

abbrev pub connection_id_of : DatabaseExternalConnection → String
connection_id_of c = c.id

abbrev pub credential_id_of : DatabaseExternalCredential → String
credential_id_of c = c.id

-- ErrExternalConnectionNotFound is not_found.
unfoldable pub get_database_external_connection :
    String → GatewayDb → Result DatabaseExternalConnection
get_database_external_connection id db =
    require not_found (find_where (has_key connection_id_of (trim_space id)) db.connections)

unfoldable pub get_database_external_credential_sealed :
    String → GatewayDb → Result DatabaseExternalCredential
get_database_external_credential_sealed id db =
    require no_rows (find_where (has_key credential_id_of (trim_space id)) db.credentials)

unfoldable pub without_ciphertext : DatabaseExternalCredential → DatabaseExternalCredential
without_ciphertext c = record c { password_ct = []; scram_verifier_ct = [] }

unfoldable pub list_database_external_credentials :
    String → Bool → GatewayDb → List DatabaseExternalCredential
list_database_external_credentials connection_id include_ciphertext db =
    let rows =
      order_by (λ a b. ltb b.generation a.generation)
        (filter_rows (λ c. c.connection_id == trim_space connection_id) db.credentials) in
    if include_ciphertext then rows else map without_ciphertext rows

-- What NewDatabaseExternalCredentialIdentity fixes before the role is made in the database.
pub record Identity : Type 0 where
  pub id : String
  pub connection_id : String
  pub role_name : List ℕ
  pub generation : ℕ

-- `fresh` is what newID() draws.
unfoldable pub new_database_external_credential_identity :
    String → String → GatewayDb → Result Identity
new_database_external_credential_identity fresh connection_id db = do
  c ← get_database_external_connection connection_id db
  role ← require invalid_input (gateway_credential_role fresh)
  ok (record {
    id = fresh;
    connection_id = c.id;
    role_name = role;
    generation = c.current_generation + 1;
  })

unfoldable pub equal_codes_of : List ℕ → List ℕ → Bool
equal_codes_of [] [] = true
equal_codes_of [] (y ∷ ys) = false
equal_codes_of (x ∷ xs) [] = false
equal_codes_of (x ∷ xs) (y ∷ ys) = eqb x y && equal_codes_of xs ys

unfoldable pub is_identity : Identity → DatabaseExternalConnection → Bool
is_identity identity c =
    elim (gateway_credential_role identity.id) [
      | none ↦ false
      | some role ↦ equal_codes_of role identity.role_name
    ]
    && eqb identity.generation (c.current_generation + 1)

unfoldable pub new_credential :
    Identity → DatabaseExternalConnection → List ℕ → List ℕ → Time → DatabaseExternalCredential
new_credential identity c password_ct verifier_ct now = record {
  id = identity.id;
  connection_id = c.id;
  role_name = identity.role_name;
  password_ct = password_ct;
  scram_verifier_ct = verifier_ct;
  generation = identity.generation;
  state = CredentialState.active;
  grace_deadline = empty;
  last_used_at = empty;
  revoked_at = empty;
  created_at = at now;
  updated_at = at now;
}

-- UNIQUE(connection_id, generation)
unfoldable pub same_generation : String → ℕ → DatabaseExternalCredential → Bool
same_generation connection_id generation c =
    (c.connection_id == connection_id) && eqb c.generation generation

-- PRIMARY KEY, UNIQUE(role_name) and UNIQUE(connection_id, generation). The generation is positive.
unfoldable pub insert_credential : DatabaseExternalCredential → GatewayDb → Result GatewayDb
insert_credential c db =
    if exists_where (has_key credential_id_of c.id) db.credentials
      || exists_where (λ d. equal_codes_of d.role_name c.role_name) db.credentials
      || exists_where (same_generation c.connection_id c.generation) db.credentials
    then err constraint
    else ok (record db { credentials = db.credentials ++ (c ∷ []) })

-- WHERE id=? AND current_generation=?
abbrev pub is_at : String → ℕ → DatabaseExternalConnection → Bool
is_at id generation c = (c.id == id) && eqb c.current_generation generation

unfoldable pub advance_generation :
    ℕ → Time → DatabaseExternalConnection → DatabaseExternalConnection
advance_generation generation now c = record c {
  current_generation = generation;
  updated_at = at now;
}

-- `seen` is the connection as it was read before the transaction.
unfoldable pub commit_credential :
    Identity → DatabaseExternalConnection → List ℕ → List ℕ → Time → GatewayDb → Result GatewayDb
commit_credential identity seen password_ct verifier_ct now db = do
  db' ← insert_credential (new_credential identity seen password_ct verifier_ct now) db
  guard (eqb (count_where (is_at seen.id seen.current_generation) db'.connections) 1) unavailable
  ok (record db' {
    connections =
        update_where (is_at seen.id seen.current_generation)
          (advance_generation identity.generation now) db'.connections;
  })

unfoldable pub create_database_external_credential_with_identity :
    Identity → List ℕ → List ℕ → Time → GatewayDb → Result GatewayDb
create_database_external_credential_with_identity identity password_ct verifier_ct now db = do
  seen ← get_database_external_connection identity.connection_id db
  guard (is_identity identity seen) invalid_input
  guard (not (is_nil password_ct || is_nil verifier_ct)) invalid_input
  commit_credential identity seen password_ct verifier_ct now db

unfoldable pub create_database_external_credential :
    String → String → List ℕ → List ℕ → Time → GatewayDb → Result GatewayDb
create_database_external_credential fresh connection_id password_ct verifier_ct now db = do
  guard (not (is_nil password_ct || is_nil verifier_ct)) invalid_input
  c ← get_database_external_connection connection_id db
  identity ← new_database_external_credential_identity fresh c.id db
  create_database_external_credential_with_identity identity password_ct verifier_ct now db

abbrev pub is_current_id : String → DatabaseExternalCredential → Bool
is_current_id id c = (c.id == id) && is_current c.state

unfoldable pub put_in_grace : Time → Time → DatabaseExternalCredential → DatabaseExternalCredential
put_in_grace deadline now c = record c {
  state = CredentialState.grace;
  grace_deadline = at deadline;
  updated_at = at now;
}

unfoldable pub set_database_external_credential_grace :
    String → Time → Time → GatewayDb → Result GatewayDb
set_database_external_credential_grace raw_id deadline now db = do
  let id = trim_space raw_id
  guard (eqb (count_where (is_current_id id) db.credentials) 1) no_rows
  ok (record db {
    credentials = update_where (is_current_id id) (put_in_grace deadline now) db.credentials;
  })

-- The secrets go, the row stays.
unfoldable pub erase : Stamp → Time → DatabaseExternalCredential → DatabaseExternalCredential
erase revoked_at now c = record c {
  state = CredentialState.revoked;
  password_ct = [];
  scram_verifier_ct = [];
  grace_deadline = empty;
  revoked_at = revoked_at;
  updated_at = at now;
}

-- revoked_at=CASE WHEN revoked_at='' THEN ? ELSE revoked_at END
unfoldable pub erase_once : Time → DatabaseExternalCredential → DatabaseExternalCredential
erase_once now c = erase (if is_empty c.revoked_at then at now else c.revoked_at) now c

abbrev pub is_unrevoked_id : String → DatabaseExternalCredential → Bool
is_unrevoked_id id c = (c.id == id) && not (is_revoked c.state)

unfoldable pub revoke_database_external_credential : String → Time → GatewayDb → Result GatewayDb
revoke_database_external_credential raw_id now db = do
  let id = trim_space raw_id
  guard (eqb (count_where (is_unrevoked_id id) db.credentials) 1) no_rows
  ok (record db {
    credentials = update_where (is_unrevoked_id id) (erase (at now) now) db.credentials;
  })
