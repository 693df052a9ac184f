-- ===== src/Gateway/Blocked.antt =====
-- What a rolled-back rotation leaves: RollbackDatabaseExternalCredentialRotation against the unique
-- generations of internal/database/migrations/0022_database_gateway_foundation.sql.
use mathlib.Core.Path.{subst}
use host_forge.Base.{
  ℕ, suc, ◌+◌, String, some, List, [], ◌∷◌, Bool, true, ◌≡◌, ◌≢◌, refl, sym, ◌∙◌, arith,
  exists_where, Bool-cases, inl, inr, if◌then◌else◌, eq_iff,
}
use host_forge.Base.Int.{pos}
use host_forge.Base.Text.{trim_space}
use host_forge.Sql.{update_where, find_where, ok, err, constraint}
use host_forge.Sql.Laws.{Member, Member-exists_where, find_where_sound}
use host_forge.Clock.{Time}
use host_forge.Gateway.Rotation.{
  rollback_database_external_credential_rotation, rollback_to, restore_generation, is_of, is_beyond,
}
use host_forge.Sql.Updates.{Member-update_where}
use host_forge.Sql.Keys.{has_key}
use host_forge.Gateway.Credentials.{
  DatabaseExternalConnection, DatabaseExternalCredential, GatewayDb, Identity,
  create_database_external_credential_with_identity, commit_credential, insert_credential,
  new_credential, is_identity, erase_once, erase, get_database_external_connection, same_generation,
  connection_id_of,
}

-- The connection has, as an older row, the generation that its next credential would take.
abbrev pub IsSpent : String → GatewayDb → Type 0
IsSpent id db =
    (c : DatabaseExternalConnection) × (find_where (has_key connection_id_of id) db.connections
      ≡ some c)
    × (exists_where (same_generation c.id (c.current_generation + 1)) db.credentials ≡ true)

insert_spent :
    (d : DatabaseExternalCredential) (db : GatewayDb)
    → exists_where (same_generation d.connection_id d.generation) db.credentials ≡ true
    → insert_credential d db ≡ err constraint
unfolding insert_credential
insert_spent d db taken = ground arith

commit_spent :
    (identity : Identity) (c : DatabaseExternalConnection) (password verifier : List ℕ) (now : Time)
    (db : GatewayDb)
    → is_identity identity c ≡ true
    → exists_where (same_generation c.id (c.current_generation + 1)) db.credentials ≡ true
    → commit_credential identity c password verifier now db ≡ err constraint
unfolding commit_credential new_credential is_identity
commit_spent identity c password verifier now db same taken =
    let generation : identity.generation ≡ c.current_generation + 1 = ground arith in
    let row = new_credential identity c password verifier now in
    let refused = insert_spent row db (
      subst (λ g. exists_where (same_generation c.id g) db.credentials ≡ true) (sym generation)
        taken) in
    rw refused refl

spent_blocks :
    (identity : Identity) (password verifier : List ℕ) (now : Time) (db db' : GatewayDb)
    → IsSpent (trim_space identity.connection_id) db
    → create_database_external_credential_with_identity identity password verifier now db ≢ ok db'
unfolding create_database_external_credential_with_identity get_database_external_connection
spent_blocks identity password verifier now db db' (c, found, taken) h =
    elim (Bool-cases (is_identity identity c)) [
      | inl e ↦ let k = commit_spent identity c password verifier now db e taken in ground arith
      | inr e ↦ ground arith
    ]

find_updated :
    {A : Type 0} (p q : A → Bool) (f : A → A) (a : A) (xs : List A)
    → ((x : A) → p (f x) ≡ p x)
    → find_where p xs ≡ some a
    → find_where p (update_where q f xs) ≡ some (if q a then f a else a)
find_updated p q f a [] h e = cc
find_updated p q f a (x ∷ xs) h e = elim (Bool-cases (p x)) [
  | inl t ↦
      let same : x ≡ a = ground arith in
      subst (λ y. find_where p (update_where q f (x ∷ xs)) ≡ some (if q y then f y else y)) same
        (rw (passes t) refl)
  | inr t ↦ rw (passes t) (find_updated p q f a xs h (rw t at e))
]
  where
    passes : {b : Bool} → p x ≡ b → p (if q x then f x else x) ≡ b
    passes t = elim (Bool-cases (q x)) [ inl u ↦ rw u (h x ∙ t) | inr u ↦ rw u t ]

rollback_spends :
    (connection failed : String) (previous : ℕ) (now : Time) (db db' : GatewayDb)
    (c : DatabaseExternalConnection) (r : DatabaseExternalCredential)
    → find_where (has_key connection_id_of connection) db.connections ≡ some c
    → c.current_generation ≡ previous + 1
    → Member r db.credentials
    → r.connection_id ≡ connection
    → r.generation ≡ previous + 1
    → rollback_to connection failed previous now db ≡ ok db'
    → IsSpent connection db'
unfolding rollback_to restore_generation erase_once erase same_generation
rollback_spends connection failed previous now db db' c r found current m at_connection generation
      h =
    let (key, n) = find_where_sound (has_key connection_id_of connection) c db.connections found in
    let beyond : is_beyond connection previous c ≡ true = ground arith in
    let fix = is_of failed connection in
    let connections : db'.connections
        ≡ update_where (is_beyond connection previous) (restore_generation previous now)
            db.connections =
      ground arith in
    let credentials : db'.credentials ≡ update_where fix (erase_once now) db.credentials =
      ground arith in
    let found' =
      find_updated (has_key connection_id_of connection) (is_beyond connection previous)
        (restore_generation previous now) c db.connections (λ x. refl) found in
    let c_id : c.id ≡ connection = ground (arith, key, eq_iff c.id connection) in
    let spent : same_generation c.id (previous + 1) r ≡ true =
      ground (arith, c_id, at_connection, generation, eq_iff r.connection_id c.id) in
    let kept : same_generation c.id (previous + 1) (if fix r then erase_once now r else r) ≡ true =
      elim (Bool-cases (fix r)) [ inl e ↦ rw e spent | inr e ↦ rw e spent ] in
    (
      restore_generation previous now c,
      rw connections (rw beyond at found'),
      rw credentials (
          Member-exists_where (same_generation c.id (previous + 1))
            (if fix r then erase_once now r else r) _
            (Member-update_where fix (erase_once now) r db.credentials m) kept),
    )

-- After a rotation was rolled back, where the connection was at the generation after the previous
-- one and a credential of it has that generation, no further credential of the connection can be
-- created: the generation that it would take is that of the row that the rollback keeps.
pub rolled_back_blocks :
    (connection failed : String) (previous : ℕ) (now : Time) (db db' : GatewayDb)
    (c : DatabaseExternalConnection) (r : DatabaseExternalCredential) (identity : Identity)
    (password verifier : List ℕ) (later : Time) (db'' : GatewayDb)
    → find_where (has_key connection_id_of (trim_space connection)) db.connections ≡ some c
    → c.current_generation ≡ suc previous + 1
    → Member r db.credentials
    → r.connection_id ≡ trim_space connection
    → r.generation ≡ suc previous + 1
    → rollback_database_external_credential_rotation connection failed (pos (suc previous)) now db
      ≡ ok db'
    → trim_space identity.connection_id ≡ trim_space connection
    → create_database_external_credential_with_identity identity password verifier later db'
      ≢ ok db''
unfolding rollback_database_external_credential_rotation
rolled_back_blocks connection failed previous now db db' c r identity password verifier later db''
      found current m own generation h named =
    let spent =
      rollback_spends (trim_space connection) (trim_space failed) (suc previous) now db db' c r
        found current m own generation (ground arith) in
    spent_blocks identity password verifier later db' db''
      (subst (λ i. IsSpent i db') (sym named) spent)
