-- ===== src/Gateway/Changes.antt =====
-- What each call of internal/repository/database_gateways.go does to the table of credentials.
use host_forge.Base.{
  ℕ, zero, suc, String, List, Bool, true, false, ◌≡◌, refl, arith, is_nil, Bool-cases, Option-cases,
  inl, inr, ◌==◌,
}
use host_forge.Base.Int.{ℤ, pos, negsuc}
use host_forge.Base.Text.{trim_space}
use host_forge.Sql.{update_where, Result, ok, err}
use host_forge.Sql.Results.{Result-cases}
use host_forge.Clock.{Time, at}
use host_forge.Gateway.Credentials.{
  DatabaseExternalConnection, DatabaseExternalCredential, GatewayDb, Identity, is_current,
  create_database_external_credential_with_identity, commit_credential, insert_credential,
  new_credential, get_database_external_connection, set_database_external_credential_grace,
  put_in_grace, revoke_database_external_credential, erase, erase_once, is_current_id,
  is_unrevoked_id, parse_connection_status,
}
use host_forge.Gateway.Rotation.{
  rollback_database_external_credential_rotation, rollback_to,
  complete_database_external_credential_rotation, retire_previous,
  finalize_database_external_connection_revocation, set_database_external_connection_status,
  touch_database_external_credential_usage, touch_roles, touch_credential, is_used, unique_roles,
  is_of, is_current_of, belongs_to,
}
use host_forge.Gateway.Steps.{
  Command, creates, puts_in_grace, revokes, rolls_back, completes, finalizes, sets_status, touches,
  or_as_before, step, Change, same, edits, adds,
}

-- An UPDATE that erases.
erases :
    (p : DatabaseExternalCredential → Bool) (now : Time) (cs cs' : List DatabaseExternalCredential)
    → cs' ≡ update_where p (erase_once now) cs
    → Change cs cs'
unfolding erase_once erase
erases p now cs cs' e =
    edits p (erase_once now) (λ c t k. (refl, refl)) (λ c t r. refl) (λ c. refl) e

-- An UPDATE that puts active credentials into their grace period.
retires :
    (p : DatabaseExternalCredential → Bool) (deadline now : Time)
    (cs cs' : List DatabaseExternalCredential)
    → ((c : DatabaseExternalCredential) → p c ≡ true → is_current c.state ≡ true)
    → cs' ≡ update_where p (put_in_grace deadline now) cs
    → Change cs cs'
unfolding put_in_grace
retires p deadline now cs cs' h e =
    edits p (put_in_grace deadline now) (λ c t k. let a = h c t in ground (arith, k))
      (λ c t r. let a = h c t in absurd (ground arith)) (λ c. refl) e

commit-Change :
    (identity : Identity) (seen : DatabaseExternalConnection) (password verifier : List ℕ)
    (now : Time) (db db' : GatewayDb)
    → is_nil password ≡ false
    → is_nil verifier ≡ false
    → commit_credential identity seen password verifier now db ≡ ok db'
    → Change db.credentials db'.credentials
unfolding commit_credential insert_credential new_credential
commit-Change identity seen password verifier now db db' p v h =
    adds (new_credential identity seen password verifier now) (p, v) (ground arith)

create-Change :
    (identity : Identity) (password verifier : List ℕ) (now : Time) (db db' : GatewayDb)
    → create_database_external_credential_with_identity identity password verifier now db ≡ ok db'
    → Change db.credentials db'.credentials
unfolding create_database_external_credential_with_identity
create-Change identity password verifier now db db' h =
    elim (Result-cases (get_database_external_connection identity.connection_id db)) [
      | inr (e, q) ↦ absurd (ground arith)
      | inl (seen, q) ↦
          commit-Change identity seen password verifier now db db' (ground arith) (ground arith)
            (ground arith)
    ]

rollback-Change :
    (connection failed : String) (previous : ℤ) (now : Time) (db db' : GatewayDb)
    → rollback_database_external_credential_rotation connection failed previous now db ≡ ok db'
    → Change db.credentials db'.credentials
unfolding rollback_database_external_credential_rotation rollback_to
rollback-Change connection failed (pos zero) now db db' h = absurd (ground arith)
rollback-Change connection failed (negsuc n) now db db' h = absurd (ground arith)
rollback-Change connection failed (pos (suc previous)) now db db' h =
    erases (is_of (trim_space failed) (trim_space connection)) now db.credentials db'.credentials
      (ground arith)

complete-Change :
    (connection previous : String) (deadline now : Time) (db db' : GatewayDb)
    → complete_database_external_credential_rotation connection previous deadline now db ≡ ok db'
    → Change db.credentials db'.credentials
unfolding complete_database_external_credential_rotation retire_previous
complete-Change connection previous deadline now db db' h =
    elim (Bool-cases (trim_space previous == "")) [
      | inl e ↦ same (ground arith)
      | inr e ↦
          retires (is_current_of (trim_space previous) (trim_space connection)) deadline now
            db.credentials db'.credentials (λ c t. ground arith) (ground arith)
    ]

status-Change :
    (connection status code message : String) (now : Time) (db db' : GatewayDb)
    → set_database_external_connection_status connection status code message now db ≡ ok db'
    → Change db.credentials db'.credentials
unfolding set_database_external_connection_status
status-Change connection status code message now db db' h =
    elim (Option-cases (parse_connection_status status)) [
      | inl e ↦ absurd (ground arith)
      | inr (s, e) ↦ same (ground arith)
    ]

touch-Change :
    (roles : List String) (now : Time) (db db' : GatewayDb)
    → touch_roles roles now db ≡ ok db'
    → Change db.credentials db'.credentials
unfolding touch_roles touch_credential
touch-Change roles now db db' h = elim (Bool-cases (is_nil roles)) [
  | inl e ↦ same (ground arith)
  | inr e ↦
      edits (is_used roles) (touch_credential now) (λ c t k. k) (λ c t r. r) (λ c. refl)
        (ground arith)
]

grace-Change :
    (id : String) (deadline now : Time) (db db' : GatewayDb)
    → set_database_external_credential_grace id deadline now db ≡ ok db'
    → Change db.credentials db'.credentials
unfolding set_database_external_credential_grace
grace-Change id deadline now db db' h =
    retires (is_current_id (trim_space id)) deadline now db.credentials db'.credentials
      (λ c t. ground arith) (ground arith)

revoke-Change :
    (id : String) (now : Time) (db db' : GatewayDb)
    → revoke_database_external_credential id now db ≡ ok db'
    → Change db.credentials db'.credentials
unfolding revoke_database_external_credential erase
revoke-Change id now db db' h =
    edits (is_unrevoked_id (trim_space id)) (erase (at now) now) (λ c t k. (refl, refl))
      (λ c t r. refl) (λ c. refl) (ground arith)

finalize-Change :
    (connection : String) (now : Time) (db db' : GatewayDb)
    → finalize_database_external_connection_revocation connection now db ≡ ok db'
    → Change db.credentials db'.credentials
unfolding finalize_database_external_connection_revocation
finalize-Change connection now db db' h =
    erases (belongs_to (trim_space connection)) now db.credentials db'.credentials (ground arith)

or_as_before-Change :
    (db : GatewayDb) (m : Result GatewayDb)
    → ((db' : GatewayDb) → m ≡ ok db' → Change db.credentials db'.credentials)
    → Change db.credentials (or_as_before db m).credentials
or_as_before-Change db (ok db') h = h db' refl
or_as_before-Change db (err e) h = same refl

pub step-Change : (c : Command) (db : GatewayDb) → Change db.credentials (step c db).credentials
unfolding step touch_database_external_credential_usage
step-Change (creates identity password verifier now) db =
    or_as_before-Change db _ (λ db' q. create-Change identity password verifier now db db' q)
step-Change (puts_in_grace id deadline now) db =
    or_as_before-Change db _ (λ db' q. grace-Change id deadline now db db' q)
step-Change (revokes id now) db = or_as_before-Change db _ (λ db' q. revoke-Change id now db db' q)
step-Change (rolls_back connection failed previous now) db =
    or_as_before-Change db _ (λ db' q. rollback-Change connection failed previous now db db' q)
step-Change (completes connection previous deadline now) db =
    or_as_before-Change db _ (λ db' q. complete-Change connection previous deadline now db db' q)
step-Change (finalizes connection now) db =
    or_as_before-Change db _ (λ db' q. finalize-Change connection now db db' q)
step-Change (sets_status connection status code message now) db =
    or_as_before-Change db _ (λ db' q. status-Change connection status code message now db db' q)
step-Change (touches roles now) db =
    or_as_before-Change db _ (λ db' q. touch-Change (unique_roles roles) now db db' q)
