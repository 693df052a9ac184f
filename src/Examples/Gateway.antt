-- ===== src/Examples/Gateway.antt =====
-- The theorems on gateway names and credentials at a connection with two generations.
use host_forge.Base.{ℕ, ◌+◌, ◌*◌, ◌≤◌, ◌≡◌, ◌≢◌, refl, String, List, [], ◌∷◌, All, length, inl, inr}
use host_forge.Base.Int.{pos}
use host_forge.Base.Text.{codes, trim_space, lower_code}
use host_forge.Sql.{ok, err, constraint}
use host_forge.Clock.{Time, empty, at, second}
use host_forge.Gateway.Names.{
  is_plain, plain_codes, gateway_safe_id, gateway_credential_role, is_safe_code, IsSafe,
  gateway_safe_id-IsSafe,
}
use host_forge.Gateway.Credentials.{
  ConnectionStatus, CredentialState, DatabaseExternalConnection, DatabaseExternalCredential,
  GatewayDb, Identity, create_database_external_credential_with_identity, commit_credential,
  insert_credential, new_credential, is_identity, get_database_external_connection, same_generation,
  equal_codes_of, erase, erase_once,
}
use host_forge.Gateway.Rotation.{
  rollback_database_external_credential_rotation, rollback_to, restore_generation,
}
use host_forge.Gateway.Steps.{Command, puts_in_grace, revokes, rolls_back, finalizes, run, IsSealed}
use host_forge.Gateway.Sealed.{IsGone, run-IsSealed}
use host_forge.Gateway.Access.{
  collect_prefixes, collect_one, prefix_before, normalize_external_access_cidrs, IsNormal,
  normalize-IsNormal,
}
use host_forge.Sql.{insert_row, order_by}
use host_forge.Base.Text.{lex_lt}
use host_forge.Base.{some, none, true, Option, ◌==◌, if◌then◌else◌}
use host_forge.Gateway.Blocked.{rolled_back_blocks}

abbrev now : Time
now = 100 * second

abbrev connection : DatabaseExternalConnection
connection = record {
  id = "web";
  status = ConnectionStatus.rotating;
  current_generation = 2;
  last_used_at = empty;
  last_error_code = "";
  last_error_message = "";
  updated_at = empty;
}

abbrev credential : String → ℕ → DatabaseExternalCredential
credential id generation = record {
  id = id;
  connection_id = "web";
  role_name = codes id;
  password_ct = 7 ∷ [];
  scram_verifier_ct = 8 ∷ [];
  generation = generation;
  state = CredentialState.active;
  grace_deadline = empty;
  last_used_at = empty;
  revoked_at = empty;
  created_at = empty;
  updated_at = empty;
}

abbrev before : GatewayDb
before = record {
  connections = connection ∷ [];
  credentials = credential "k1" 1 ∷ credential "k2" 2 ∷ [];
}

-- What the rollback leaves.
abbrev after : GatewayDb
after = record {
  connections =
      record connection {
        current_generation = 1;
        status = ConnectionStatus.active;
        updated_at = at now;
      }
      ∷ [];
  credentials =
      credential "k1" 1
      ∷ record (credential "k2" 2) {
        state = CredentialState.revoked;
        password_ct = [];
        scram_verifier_ct = [];
        revoked_at = at now;
        updated_at = at now;
      }
      ∷ [];
}

-- The next rotation's identity.
abbrev next : Identity
next = record { id = "k3"; connection_id = "web"; role_name = codes "hfc_k3"; generation = 2 }

rolls_to_after :
    rollback_database_external_credential_rotation "web" "k2" (pos 1) now before ≡ ok after
unfolding rollback_database_external_credential_rotation rollback_to restore_generation erase_once
    erase trim_space
rolls_to_after = refl

-- The identity is the one that the connection asks for, and its generation is taken.
next_is_refused :
    create_database_external_credential_with_identity next (1 ∷ []) (2 ∷ []) now after
    ≡ err constraint
unfolding create_database_external_credential_with_identity get_database_external_connection
    trim_space is_identity gateway_credential_role gateway_safe_id plain_codes is_plain lower_code
    equal_codes_of commit_credential insert_credential new_credential same_generation
    restore_generation erase_once erase
next_is_refused = refl

rolled_back_blocks_example :
    create_database_external_credential_with_identity next (1 ∷ []) (2 ∷ []) now after ≢ ok after
unfolding trim_space
rolled_back_blocks_example =
    rolled_back_blocks "web" "k2" 0 now before after connection (credential "k2" 2) next (1 ∷ [])
      (2 ∷ []) now after refl refl (inr (inl refl)) refl refl rolls_to_after refl

gateway_safe_id-IsSafe_example :
    IsSafe (codes "hf_route7")
    × (length (codes "hf_route7") ≤ 63)
    × (length (codes "hf_") + 1 ≤ length (codes "hf_route7"))
unfolding gateway_safe_id plain_codes is_plain lower_code is_safe_code trim_space
gateway_safe_id-IsSafe_example =
    gateway_safe_id-IsSafe (codes "hf_") " Route-7" (codes "hf_route7") (refl, (refl, (refl, tt)))
      refl

abbrev commands : List Command
commands =
    puts_in_grace "k1" (200 * second) now
    ∷ revokes "k1" now
    ∷ rolls_back "web" "k2" (pos 1) now
    ∷ finalizes "web" now
    ∷ []

run-IsSealed_example :
    All IsSealed (run commands before).credentials
    × ((id : String) → IsGone id before.credentials → IsGone id (run commands before).credentials)
run-IsSealed_example = run-IsSealed commands before ((refl, refl), ((refl, refl), tt))

-- Two values of one network, and the network of every IPv6 address.
abbrev network_of : String → Option String
network_of s =
    if s == "10.1.2.3/8" then some "10.0.0.0/8" else if s == "::/0" then some "::/0" else none

abbrev width_of : String → ℕ
width_of s = if s == "::/0" then 128 else 32

normalize-IsNormal_example :
    IsNormal network_of width_of
      ("::/0" ∷ " 10.1.2.3/8" ∷ "10.1.2.3/8" ∷ [])
      true
      ("10.0.0.0/8" ∷ "::/0" ∷ [])
unfolding normalize_external_access_cidrs collect_prefixes collect_one prefix_before trim_space
    lex_lt order_by insert_row
normalize-IsNormal_example =
    normalize-IsNormal network_of width_of ("::/0" ∷ " 10.1.2.3/8" ∷ "10.1.2.3/8" ∷ []) true
      ("10.0.0.0/8" ∷ "::/0" ∷ []) refl
