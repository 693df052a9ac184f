-- ===== src/Gateway/Steps.antt =====
-- The calls that write external credentials, and runs of them in any order: the handlers and the worker
-- of internal/services/database_gateway_worker.go interleave between the store's transactions.
use host_forge.Base.{ℕ, String, List, [], ◌∷◌, ◌++◌, Bool, true, ◌≡◌, is_nil}
use host_forge.Base.Int.{ℤ}
use host_forge.Sql.{update_where, Result, ok, err}
use host_forge.Clock.{Time}
use host_forge.Gateway.Credentials.{
  DatabaseExternalCredential, GatewayDb, Identity, is_revoked,
  create_database_external_credential_with_identity, set_database_external_credential_grace,
  revoke_database_external_credential,
}
use host_forge.Gateway.Rotation.{
  rollback_database_external_credential_rotation, complete_database_external_credential_rotation,
  finalize_database_external_connection_revocation, set_database_external_connection_status,
  touch_database_external_credential_usage,
}

pub data Command : Type 0 where
  creates : Identity → List ℕ → List ℕ → Time → Command
  puts_in_grace : String → Time → Time → Command
  revokes : String → Time → Command
  rolls_back : String → String → ℤ → Time → Command
  completes : String → String → Time → Time → Command
  finalizes : String → Time → Command
  sets_status : String → String → String → String → Time → Command
  touches : List String → Time → Command

abbrev pub or_as_before : GatewayDb → Result GatewayDb → GatewayDb
or_as_before db (ok db') = db'
or_as_before db (err e) = db

unfoldable pub step : Command → GatewayDb → GatewayDb
step (creates identity password verifier now) db =
    or_as_before db
      (create_database_external_credential_with_identity identity password verifier now db)
step (puts_in_grace id deadline now) db =
    or_as_before db (set_database_external_credential_grace id deadline now db)
step (revokes id now) db = or_as_before db (revoke_database_external_credential id now db)
step (rolls_back connection failed previous now) db =
    or_as_before db
      (rollback_database_external_credential_rotation connection failed previous now db)
step (completes connection previous deadline now) db =
    or_as_before db
      (complete_database_external_credential_rotation connection previous deadline now db)
step (finalizes connection now) db =
    or_as_before db (finalize_database_external_connection_revocation connection now db)
step (sets_status connection status code message now) db =
    or_as_before db (set_database_external_connection_status connection status code message now db)
step (touches roles now) db =
    or_as_before db (touch_database_external_credential_usage roles now db)

unfoldable pub run : List Command → GatewayDb → GatewayDb
run [] db = db
run (c ∷ cs) db = run cs (step c db)

-- Revoked exactly when both secrets are gone.
abbrev pub IsSealed : DatabaseExternalCredential → Type 0
IsSealed c =
    (is_nil c.password_ct ≡ is_revoked c.state) × (is_nil c.scram_verifier_ct ≡ is_revoked c.state)

-- What a statement does to the credentials: nothing, an UPDATE that keeps the rows sealed and brings
-- none back, or a new row with secrets.
pub data Change (cs cs' : List DatabaseExternalCredential) : Type 0 where
  same : cs' ≡ cs → Change cs cs'
  edits :
      (p : DatabaseExternalCredential → Bool)
      (f : DatabaseExternalCredential → DatabaseExternalCredential)
      → ((c : DatabaseExternalCredential) → p c ≡ true → IsSealed c → IsSealed (f c))
      → ((c : DatabaseExternalCredential)
          → p c ≡ true
          → is_revoked c.state ≡ true
          → is_revoked (f c).state ≡ true)
      → ((c : DatabaseExternalCredential) → (f c).id ≡ c.id)
      → cs' ≡ update_where p f cs
      → Change cs cs'
  adds : (c : DatabaseExternalCredential) → IsSealed c → cs' ≡ cs ++ (c ∷ []) → Change cs cs'
