-- ===== src/Queue/Leases.antt =====
-- What a lease decides: RenewOperationLease, DeferOperation and CompleteOperation of
-- internal/repository/operations.go against the row that they name.
pub mod Columns
use host_forge.Base.{
  ℕ, ◌+◌, ◌-◌, if◌then◌else◌, ◌≡◌, refl, arith, String, some, List, Bool, true, false, ◌==◌, ◌⊎◌,
  inl, inr, Bool-cases, Option-cases, eqb, exists_where,
}
use host_forge.Base.Text.{trim_space}
use host_forge.Sql.{count_where, find_where, ok, err, no_rows}
use host_forge.Sql.Laws.{Member, exists_where-Member, not_Member_of_none, find_where-none}
use host_forge.Sql.Updates.{Member-update_where, count_where_pos, count_where_zero}
use host_forge.Clock.{Time, at, empty}
use host_forge.Queue.Rows.{
  OpStatus, Operation, DatabaseOperation, Db, parse_status, is_terminal, is_success,
}
use host_forge.Queue.Deploys.{project_deploy_defer}
use host_forge.Queue.Enqueue.{has_id}
use host_forge.Queue.Lease.{
  is_held, CompleteOperationInput, mark_completed, mark_database_completed, mark_deferred,
  mark_database_deferred, complete_operation, defer_operation, renew_operation_lease, update_held,
  cancel_flag, is_set,
}
use host_forge.Queue.Lifecycle.{Distinct}
use host_forge.Queue.Changes.Tables.{
  update_held_cases, held_db, project_deploy_complete_ok, SameQueue-defer,
}
use host_forge.Queue.Changes.Outcomes.{
  completed_db, deferred_db, renewed_db, renewed_row, renewed_database_row,
}
use host_forge.Queue.Changes.Commands.{count_where-Distinct}
use Columns.{completed_columns, deferred_columns}

abbrev pub Holds : String → String → Operation → Db → Type 0
Holds id owner o db = Member o db.operations × (is_held (trim_space id) (trim_space owner) o ≡ true)

held-count :
    (id owner : String) (o : Operation) (ops : List Operation)
    → Distinct ops
    → Member o ops
    → is_held id owner o ≡ true
    → eqb (count_where (is_held id owner) ops) 1 ≡ true
held-count id owner o ops d m h = ground (
  arith,
  count_where_pos (is_held id owner) o ops m h,
  count_where-Distinct id (is_held id owner) ops (λ p q. ground arith) d,
)

pub held_row :
    (id owner : String) (f : Operation → Operation) (g : DatabaseOperation → DatabaseOperation)
    (db : Db) (o : Operation)
    → Distinct db.operations
    → Holds id owner o db
    → (update_held (trim_space id) (trim_space owner) f g db
        ≡ ok (held_db (trim_space id) (trim_space owner) f g db))
      × Member (f o) (held_db (trim_space id) (trim_space owner) f g db).operations
held_row id owner f g db o d (m, h) =
    let written =
      Member-update_where (is_held (trim_space id) (trim_space owner)) f o db.operations m in
    elim (update_held_cases (trim_space id) (trim_space owner) f g db) [
      | inl (_, held) ↦ (held, rw h at written)
      | inr (none_held, _) ↦
          absurd
            (cc (held-count (trim_space id) (trim_space owner) o db.operations d m h, none_held))
    ]

pub lost_row :
    (id owner : String) (f : Operation → Operation) (g : DatabaseOperation → DatabaseOperation)
    (db : Db)
    → exists_where (is_held (trim_space id) (trim_space owner)) db.operations ≡ false
    → update_held (trim_space id) (trim_space owner) f g db ≡ err no_rows
lost_row id owner f g db none_held =
    elim (update_held_cases (trim_space id) (trim_space owner) f g db) [
      | inl (one, _) ↦ absurd (
          ground (
            arith,
            count_where_zero (is_held (trim_space id) (trim_space owner)) db.operations none_held,
          ))
      | inr (_, lost) ↦ lost
    ]

-- What the holder of `o` gets: all three operations succeed, and write the row `o` as stated.
abbrev pub IsServed : CompleteOperationInput → OpStatus → ℕ → ℕ → Time → Db → Operation → Type 0
IsServed in' status delay lease now db o =
    ((db' : Db) × (complete_operation in' now db ≡ ok db')
      × Member (completed_columns in' status now o) db'.operations)
    × ((db' : Db) × (defer_operation in'.id in'.owner delay now db ≡ ok db')
        × Member (deferred_columns (now + delay) now o) db'.operations)
    × ((asked : Bool) × (db' : Db) × (renew_operation_lease in'.id in'.owner lease now db
          ≡ ok (asked, db'))
        × Member (record o { lease_expires_at = at (now + lease); updated_at = at now })
            db'.operations)

-- What anyone else gets: all three operations fail, and so write nothing.
abbrev pub IsTurnedAway : CompleteOperationInput → ℕ → ℕ → Time → Db → Type 0
IsTurnedAway in' delay lease now db =
    (complete_operation in' now db ≡ err no_rows)
    × (defer_operation in'.id in'.owner delay now db ≡ err no_rows)
    × (renew_operation_lease in'.id in'.owner lease now db ≡ err no_rows)

found_flag :
    (id : String) (o : Operation) (ops : List Operation)
    → Member o ops
    → (o.id == id) ≡ true
    → (asked : Bool) × (cancel_flag (find_where (has_id id) ops) ≡ ok asked)
found_flag id o ops m named = elim (Option-cases (find_where (has_id id) ops)) [
  | inl missing ↦
      absurd (
        cc
          (named, not_Member_of_none (has_id id) o ops (find_where-none (has_id id) ops missing) m))
  | inr (p, found) ↦ (is_set p.cancel_requested_at, rw found refl)
]

pub renew-held :
    (id owner : String) (lease : ℕ) (now : Time) (db : Db) (o : Operation)
    → Distinct db.operations
    → Holds id owner o db
    → (asked : Bool) × (renew_operation_lease id owner lease now db
        ≡ ok (asked, renewed_db id owner lease now db))
      × Member
          (renewed_row (at (now + lease)) (at now) o)
          (renewed_db id owner lease now db).operations
unfolding renew_operation_lease
renew-held id owner lease now db o d held =
    let (renewed, new_row) =
      held_row id owner (renewed_row (at (now + lease)) (at now))
        (renewed_database_row (at (now + lease)) (at now)) db o d held in
    let (asked, flag) =
      found_flag (trim_space id) (renewed_row (at (now + lease)) (at now) o)
        (renewed_db id owner lease now db).operations new_row (ground (arith, held.1)) in
    (asked, rw (renewed, flag) refl, new_row)

pub serve :
    (in' : CompleteOperationInput) (status : OpStatus) (delay lease : ℕ) (now : Time) (db : Db)
    (o : Operation)
    → parse_status in'.status ≡ some status
    → is_terminal status ≡ true
    → Distinct db.operations
    → Holds in'.id in'.owner o db
    → IsServed in' status delay lease now db o
unfolding complete_operation defer_operation renew_operation_lease mark_completed mark_deferred
serve in' status delay lease now db o parsed terminal d held =
    let (completed, completed_row) =
      held_row in'.id in'.owner (mark_completed in' status now)
        (mark_database_completed in' status now) db o d held in
    let (db', done, same) =
      project_deploy_complete_ok (trim_space in'.id) status (trim_space in'.error_message) (at now)
        (completed_db in' status now db) terminal in
    let (deferred, deferred_row) =
      held_row in'.id in'.owner (mark_deferred (now + delay) now) (mark_database_deferred now) db o
        d held in
    let (asked, renewed, new_row) = renew-held in'.id in'.owner lease now db o d held in
    (
      (db', rw (parsed, terminal, completed) done, rw (same.operations) completed_row),
      (
        project_deploy_defer (trim_space in'.id) (at now)
            (deferred_db in'.id in'.owner delay now db),
        rw deferred refl,
        rw
            ((SameQueue-defer (trim_space in'.id) (at now)
              (deferred_db in'.id in'.owner delay now db)).operations)
            deferred_row,
      ),
      (asked, renewed_db in'.id in'.owner lease now db, renewed, new_row),
    )

-- With a terminal status and distinct ids, either some row is running under the named id and owner, and
-- then all three operations succeed, and the row has afterwards the columns listed above (a deferral
-- gives the attempt back, a completion is terminal and dated, and both give up the lease), or no row is,
-- and then all three report no rows.
pub lease_decides :
    (in' : CompleteOperationInput) (status : OpStatus) (delay lease : ℕ) (now : Time) (db : Db)
    → parse_status in'.status ≡ some status
    → is_terminal status ≡ true
    → Distinct db.operations
    → ((o : Operation) × Holds in'.id in'.owner o db × IsServed in' status delay lease now db o)
      ⊎ ((exists_where (is_held (trim_space in'.id) (trim_space in'.owner)) db.operations ≡ false)
          × IsTurnedAway in' delay lease now db)
unfolding complete_operation defer_operation renew_operation_lease
lease_decides in' status delay lease now db parsed terminal d =
    elim (Bool-cases
      (exists_where (is_held (trim_space in'.id) (trim_space in'.owner)) db.operations)) [
        | inl someone ↦
            let (o, m, h) = exists_where-Member _ db.operations someone in
            inl (o, (m, h), serve in' status delay lease now db o parsed terminal d (m, h))
        | inr no_one ↦ inr (
          no_one,
          (
            rw (parsed, terminal, lost_row in'.id in'.owner _ _ db no_one) refl,
            rw (lost_row in'.id in'.owner _ _ db no_one) refl,
            rw (lost_row in'.id in'.owner _ _ db no_one) refl,
          ),
        )
      ]
