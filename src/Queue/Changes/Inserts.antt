-- ===== src/Queue/Changes/Inserts.antt =====
-- The rows that the enqueueing transactions add.
use host_forge.Base.{
  ℕ, zero, suc, ◌≤◌, ◌≡◌, ◌≢◌, refl, String, Option, none, some, true, false, arith, Bool-cases,
  eq_refl, inl, inr, if◌then◌else◌, ◌⊎◌, [], ◌∷◌, ◌++◌, ◌==◌, ◌||◌, exists_where,
}
use host_forge.Base.Int.{ℤ, pos, negsuc}
use host_forge.Base.Text.{trim_space}
use host_forge.Sql.Laws.{find_where-append_new}
use host_forge.Sql.{ok, err, constraint, invalid_input}
use host_forge.Clock.{Time}
use host_forge.Queue.Rows.{OpStatus, parse_status, Operation, DatabaseOperation, Db, is_running}
use host_forge.Queue.Enqueue.{
  NewOperationInput, has_id, or_default, check_positive, check_status, insert_unique, new_operation,
  is_blank, insert_operation, queue_row, insert_database_operation_queue_row,
  default_operation_max_attempts,
}
use host_forge.Queue.Steps.{settle, enqueue_database_operation}
use host_forge.Queue.Lease.{database_has_id}
use host_forge.Queue.Lifecycle.{IsNew, Change, unchanged, inserted}
use host_forge.Queue.Changes.Outcomes.{IsErr}

abbrev pub with_row : Operation → Db → Db
with_row o db = record db { operations = db.operations ++ (o ∷ []) }

insert_unique_cases :
    (o : Operation) (db : Db)
    → ((exists_where (has_id o.id) db.operations ≡ false)
        × (insert_unique o db ≡ ok (with_row o db)))
      ⊎ ((exists_where (has_id o.id) db.operations ≡ true) × (insert_unique o db ≡ err constraint))
unfolding insert_unique
insert_unique_cases o db = elim (Bool-cases (exists_where (has_id o.id) db.operations)) [
  | inl e ↦ inr (e, rw e refl)
  | inr e ↦ inl (e, rw e refl)
]

check_positive_cases :
    (n : ℤ) → ((m : ℕ) × (1 ≤ m) × (check_positive n ≡ ok m)) ⊎ (check_positive n ≡ err constraint)
check_positive_cases (pos zero) = inr refl
check_positive_cases (pos (suc n)) = inl (suc n, omega arith, refl)
check_positive_cases (negsuc n) = inr refl

check_status_cases :
    (o : Option OpStatus)
    → ((s : OpStatus) × (o ≡ some s) × (check_status o ≡ ok s)) ⊎ (check_status o ≡ err constraint)
check_status_cases none = inr refl
check_status_cases (some s) = inl (s, refl, refl)

abbrev given_status : NewOperationInput → String
given_status in' = if in'.status == "" then "queued" else in'.status

-- An accepted input is the one new row of its status and its attempts.
pub insert_operation_cases :
    (in' : NewOperationInput) (now : Time) (db : Db)
    → ((status : OpStatus) × (attempts : ℕ) × (parse_status (given_status in') ≡ some status)
        × (1 ≤ attempts)
        × (exists_where (has_id (trim_space in'.id)) db.operations ≡ false)
        × (insert_operation in' now db ≡ ok (with_row (new_operation in' status attempts now) db)))
      ⊎ IsErr (insert_operation in' now db)
unfolding insert_operation new_operation
insert_operation_cases in' now db =
    elim (Bool-cases (is_blank in'.id || is_blank in'.kind || is_blank in'.lock_key)) [
      | inl e ↦ inr (invalid_input, rw e refl)
      | inr e ↦ elim (check_status_cases (parse_status (given_status in'))) [
        | inr bad ↦ inr (constraint, rw (e, bad) refl)
        | inl (status, parsed, good) ↦
            elim (check_positive_cases
              (or_default in'.max_attempts default_operation_max_attempts)) [
                | inr none_left ↦ inr (constraint, rw (e, good, none_left) refl)
                | inl (attempts, positive, counted) ↦
                    elim (insert_unique_cases (new_operation in' status attempts now) db) [
                      | inr (_, taken) ↦ inr (constraint, rw (e, good, counted) taken)
                      | inl (fresh, done) ↦
                          inl
                            (status, attempts, parsed, positive, fresh, rw (e, good, counted) done)
                    ]
              ]
      ]
    ]

-- The inserted row has no attempt used, at least one to use, and does not run unless it was asked to.
new_operation-IsNew :
    (in' : NewOperationInput) (status : OpStatus) (attempts : ℕ) (now : Time)
    → 1 ≤ attempts
    → is_running status ≡ false
    → IsNew (new_operation in' status attempts now)
unfolding new_operation
new_operation-IsNew in' status attempts now positive idle = record {
  attempt = refl;
  max_attempts = positive;
  idle = idle;
}

new_operation_fresh :
    (in' : NewOperationInput) (status : OpStatus) (attempts : ℕ) (now : Time) (db : Db)
    → exists_where (has_id (trim_space in'.id)) db.operations ≡ false
    → exists_where (has_id (new_operation in' status attempts now).id) db.operations ≡ false
unfolding new_operation
new_operation_fresh in' status attempts now db h = h

idle_of :
    (o : Option OpStatus) (status : OpStatus)
    → o ≢ some OpStatus.running
    → o ≡ some status
    → is_running status ≡ false
idle_of o OpStatus.running sound e = absurd (sound e)
idle_of o OpStatus.queued sound e = refl
idle_of o OpStatus.success sound e = refl
idle_of o OpStatus.failed sound e = refl
idle_of o OpStatus.cancelled sound e = refl

-- A blank status is "queued", and the text that is given is not "running".
idle_of_sound :
    (in' : NewOperationInput) (status : OpStatus)
    → parse_status in'.status ≢ some OpStatus.running
    → parse_status (given_status in') ≡ some status
    → is_running status ≡ false
unfolding parse_status
idle_of_sound in' status sound parsed = elim (Bool-cases (in'.status == "")) [
  | inl e ↦
      let q : some OpStatus.queued ≡ some status = rw e at parsed in
      idle_of (some OpStatus.queued) status (λ p. cc) q
  | inr e ↦ idle_of (parse_status in'.status) status sound (rw e at parsed)
]

pub insert_operation-Change :
    (in' : NewOperationInput) (now : Time) (db : Db)
    → parse_status in'.status ≢ some OpStatus.running
    → Change db.operations (settle db (insert_operation in' now db)).operations
insert_operation-Change in' now db sound = elim (insert_operation_cases in' now db) [
  | inr (e, bad) ↦ rw bad (unchanged refl)
  | inl (status, attempts, parsed, positive, fresh, done) ↦ rw done (
      inserted (new_operation in' status attempts now)
        (new_operation_fresh in' status attempts now db fresh)
        (new_operation-IsNew in' status attempts now positive
          (idle_of_sound in' status sound parsed))
        refl)
]

queue_row-IsNew :
    (op : DatabaseOperation) (db : Db) → is_running op.status ≡ false → IsNew (queue_row op db)
unfolding queue_row
queue_row-IsNew op db idle = record { attempt = refl; max_attempts = omega arith; idle = idle }

abbrev pub with_database_row : DatabaseOperation → Db → Db
with_database_row op db = record db { database_operations = db.database_operations ++ (op ∷ []) }

queue_row-id : (op : DatabaseOperation) (db : Db) → (queue_row op db).id ≡ op.id
unfolding queue_row
queue_row-id op db = refl

-- Both rows, or neither.
pub enqueue_database_operation_cases :
    (op : DatabaseOperation) (db : Db)
    → trim_space op.id ≡ op.id
    → ((exists_where (database_has_id op.id) db.database_operations ≡ false)
        × (exists_where (has_id op.id) db.operations ≡ false)
        × (enqueue_database_operation op db
            ≡ ok (with_row (queue_row op (with_database_row op db)) (with_database_row op db))))
      ⊎ (enqueue_database_operation op db ≡ err constraint)
unfolding enqueue_database_operation insert_database_operation_queue_row
enqueue_database_operation_cases op db trimmed =
    elim (Bool-cases (exists_where (database_has_id op.id) db.database_operations)) [
      | inl e ↦ inr (rw e refl)
      | inr e ↦
          let found =
            find_where-append_new (database_has_id op.id) op db.database_operations e
              (eq_refl op.id) in
          elim (insert_unique_cases (queue_row op (with_database_row op db))
            (with_database_row op db)) [
              | inr (_, taken) ↦ inr (rw (e, trimmed, found) taken)
              | inl (fresh, done) ↦ inl (
                e,
                rw (queue_row-id op (with_database_row op db)) at fresh,
                rw (e, trimmed, found) done,
              )
            ]
    ]

pub enqueue_database_operation-Change :
    (op : DatabaseOperation) (db : Db)
    → trim_space op.id ≡ op.id
    → is_running op.status ≡ false
    → Change db.operations (settle db (enqueue_database_operation op db)).operations
enqueue_database_operation-Change op db trimmed idle =
    elim (enqueue_database_operation_cases op db trimmed) [
      | inr bad ↦ rw bad (unchanged refl)
      | inl (_, fresh, done) ↦ rw done (
          inserted (queue_row op (with_database_row op db))
            (rw (queue_row-id op (with_database_row op db)) fresh)
            (queue_row-IsNew op (with_database_row op db) idle) refl)
    ]
