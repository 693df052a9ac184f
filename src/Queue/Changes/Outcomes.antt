-- ===== src/Queue/Changes/Outcomes.antt =====
-- What each writer of one operation comes back with: an error, or a database whose queue tables are
-- those of the guarded updates.
use host_forge.Base.{
  ℕ, ◌+◌, ◌≡◌, refl, String, Option, none, some, Bool, true, false, eqb, Bool-cases, inl, inr, ◌⊎◌,
}
use host_forge.Base.Text.{trim_space}
use host_forge.Sql.{
  update_where, count_where, find_where, Error, Result, ok, err, no_rows, invalid_input,
}
use host_forge.Clock.{Time, Stamp, at}
use host_forge.Queue.Rows.{OpStatus, parse_status, Operation, DatabaseOperation, Db, is_terminal}
use host_forge.Queue.Deploys.{project_deploy_defer, project_deploy_claim}
use host_forge.Queue.Enqueue.{has_id}
use host_forge.Queue.Claim.{
  claimable, mark_claimed, mark_database_claimed, project_operation_claim, claim_row,
}
use host_forge.Queue.Lease.{
  CompleteOperationInput, is_held, database_has_id, mark_deferred, mark_database_deferred,
  mark_completed, mark_database_completed, terminal_only, complete_operation, defer_operation,
  renew_operation_lease, cancel_flag,
}
use host_forge.Queue.Cancel.{
  is_unasked, mark_asked, mark_cancelled, mark_database_cancelled, cancel_queued,
}
use host_forge.Queue.Changes.Tables.{
  SameQueue, SameQueue-claim, SameQueue-defer, project_deploy_complete_ok, held_db,
  update_held_cases,
}

abbrev pub IsErr {ℓ} : {A : Type ℓ} → Result A → Type ℓ
IsErr r = (e : Error) × (r ≡ err e)

terminal_only_cases :
    (o : Option OpStatus)
    → ((s : OpStatus) × (is_terminal s ≡ true) × (terminal_only o ≡ ok s))
      ⊎ (terminal_only o ≡ err invalid_input)
terminal_only_cases none = inr refl
terminal_only_cases (some OpStatus.queued) = inr refl
terminal_only_cases (some OpStatus.running) = inr refl
terminal_only_cases (some OpStatus.success) = inl (OpStatus.success, refl, refl)
terminal_only_cases (some OpStatus.failed) = inl (OpStatus.failed, refl, refl)
terminal_only_cases (some OpStatus.cancelled) = inl (OpStatus.cancelled, refl, refl)

abbrev pub completed_db : CompleteOperationInput → OpStatus → Time → Db → Db
completed_db in' status now =
    held_db (trim_space in'.id) (trim_space in'.owner) (mark_completed in' status now)
      (mark_database_completed in' status now)

pub complete_cases :
    (in' : CompleteOperationInput) (now : Time) (db : Db)
    → ((status : OpStatus) × (db' : Db) × (is_terminal status ≡ true)
        × (complete_operation in' now db ≡ ok db')
        × SameQueue (completed_db in' status now db) db'
        × (eqb (count_where (is_held (trim_space in'.id) (trim_space in'.owner)) db.operations) 1
            ≡ true))
      ⊎ IsErr (complete_operation in' now db)
unfolding complete_operation
complete_cases in' now db = elim (terminal_only_cases (parse_status in'.status)) [
  | inr bad ↦ inr (invalid_input, rw bad refl)
  | inl (status, t, good) ↦
      elim (update_held_cases (trim_space in'.id) (trim_space in'.owner)
        (mark_completed in' status now) (mark_database_completed in' status now) db) [
          | inr (_, lost) ↦ inr (no_rows, rw (good, lost) refl)
          | inl (one, held) ↦
              let (db', done, same) =
                project_deploy_complete_ok (trim_space in'.id) status (trim_space in'.error_message)
                  (at now) (completed_db in' status now db) t in
              inl (status, db', t, rw (good, held) done, same, one)
        ]
]

abbrev pub deferred_db : String → String → ℕ → Time → Db → Db
deferred_db id owner delay now =
    held_db (trim_space id) (trim_space owner) (mark_deferred (now + delay) now)
      (mark_database_deferred now)

pub defer_cases :
    (id owner : String) (delay : ℕ) (now : Time) (db : Db)
    → ((db' : Db) × (defer_operation id owner delay now db ≡ ok db')
        × SameQueue (deferred_db id owner delay now db) db'
        × (eqb (count_where (is_held (trim_space id) (trim_space owner)) db.operations) 1 ≡ true))
      ⊎ (defer_operation id owner delay now db ≡ err no_rows)
unfolding defer_operation
defer_cases id owner delay now db =
    elim (update_held_cases (trim_space id) (trim_space owner) (mark_deferred (now + delay) now)
      (mark_database_deferred now) db) [
        | inr (_, lost) ↦ inr (rw lost refl)
        | inl (one, held) ↦ inl (
          project_deploy_defer (trim_space id) (at now) (deferred_db id owner delay now db),
          rw held refl,
          SameQueue-defer (trim_space id) (at now) (deferred_db id owner delay now db),
          one,
        )
      ]

abbrev pub renewed_row : Stamp → Stamp → Operation → Operation
renewed_row expires now o = record o { lease_expires_at = expires; updated_at = now }

abbrev pub renewed_database_row : Stamp → Stamp → DatabaseOperation → DatabaseOperation
renewed_database_row expires now d = record d { lease_expires_at = expires; updated_at = now }

abbrev pub renewed_db : String → String → ℕ → Time → Db → Db
renewed_db id owner lease now =
    held_db (trim_space id) (trim_space owner) (renewed_row (at (now + lease)) (at now))
      (renewed_database_row (at (now + lease)) (at now))

cancel_flag_cases :
    (o : Option Operation) → ((b : Bool) × (cancel_flag o ≡ ok b)) ⊎ (cancel_flag o ≡ err no_rows)
cancel_flag_cases none = inr refl
cancel_flag_cases (some o) = inl (_, refl)

pub renew_cases :
    (id owner : String) (lease : ℕ) (now : Time) (db : Db)
    → ((b : Bool) × (renew_operation_lease id owner lease now db
          ≡ ok (b, renewed_db id owner lease now db))
        × (eqb (count_where (is_held (trim_space id) (trim_space owner)) db.operations) 1 ≡ true))
      ⊎ (renew_operation_lease id owner lease now db ≡ err no_rows)
unfolding renew_operation_lease
renew_cases id owner lease now db =
    elim (update_held_cases (trim_space id) (trim_space owner)
      (renewed_row (at (now + lease)) (at now)) (renewed_database_row (at (now + lease)) (at now))
      db) [
        | inr (_, lost) ↦ inr (rw lost refl)
        | inl (one, held) ↦
            elim (cancel_flag_cases
              (find_where (has_id (trim_space id)) (renewed_db id owner lease now db).operations)) [
                | inl (b, e) ↦ inl (b, rw (held, e) refl, one)
                | inr e ↦ inr (rw (held, e) refl)
              ]
      ]

abbrev pub cancelled_db : String → Time → Db → Db
cancelled_db id now db = record db {
  operations = update_where (claimable id) (mark_cancelled now) db.operations;
  database_operations =
      update_where (database_has_id id) (mark_database_cancelled now) db.database_operations;
}

abbrev untouched_db : String → Time → Db → Db
untouched_db id now db = record db {
  operations = update_where (claimable id) (mark_cancelled now) db.operations;
}

pub cancel_queued_cases :
    (id : String) (now : Time) (db : Db)
    → ((db' : Db) × (cancel_queued id now db ≡ ok (true, db'))
        × SameQueue (cancelled_db id now db) db'
        × (eqb (count_where (claimable id) db.operations) 1 ≡ true))
      ⊎ ((eqb (count_where (claimable id) db.operations) 1 ≡ false)
          × (cancel_queued id now db ≡ ok (false, untouched_db id now db)))
unfolding cancel_queued
cancel_queued_cases id now db =
    elim (Bool-cases (eqb (count_where (claimable id) db.operations) 1)) [
      | inr e ↦ inr (e, rw e refl)
      | inl e ↦
          let (db', done, same) =
            project_deploy_complete_ok id OpStatus.cancelled "" (at now) (cancelled_db id now db)
              refl in
          inl (db', rw (e, done) refl, same, e)
    ]

abbrev pub asked_db : String → Time → Db → Db
asked_db id now db = record db {
  operations = update_where (is_unasked id) (mark_asked now) db.operations;
}

abbrev pub claimed_db : String → String → Time → Time → Db → Db
claimed_db id owner expires now db = record db {
  operations = update_where (claimable id) (mark_claimed owner expires now) db.operations;
  database_operations =
      update_where (database_has_id id) (mark_database_claimed owner expires now)
        db.database_operations;
}

pub claim_row_cases :
    (id owner : String) (expires now : Time) (db : Db)
    → ((db' : Db) × (claim_row id owner expires now db ≡ ok db')
        × SameQueue (claimed_db id owner expires now db) db'
        × (eqb (count_where (claimable id) db.operations) 1 ≡ true))
      ⊎ ((eqb (count_where (claimable id) db.operations) 1 ≡ false)
          × (claim_row id owner expires now db ≡ err no_rows))
unfolding claim_row project_operation_claim
claim_row_cases id owner expires now db =
    elim (Bool-cases (eqb (count_where (claimable id) db.operations) 1)) [
      | inr e ↦ inr (e, rw e refl)
      | inl e ↦ inl (
        project_deploy_claim id (at now) (claimed_db id owner expires now db),
        rw e refl,
        SameQueue-claim id (at now) (claimed_db id owner expires now db),
        e,
      )
    ]
