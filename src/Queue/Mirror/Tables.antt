-- ===== src/Queue/Mirror/Tables.antt =====
-- The transactions that write whole tables, enqueueing and recovery, keep the read model in step.
use mathlib.Core.Path.{subst}
use host_forge.Base.{
  ℕ, ◌≡◌, refl, sym, ap, true, false, arith, inl, inr, List, [], ◌∷◌, ◌++◌, eq_iff, exists_where,
}
use host_forge.Base.Text.{trim_space}
use host_forge.Sql.Laws.{Member-append, exists_where-append, not_Member_of_none}
use host_forge.Clock.{Time, at}
use host_forge.Queue.Rows.{OpStatus, Operation, DatabaseOperation, Db}
use host_forge.Queue.Deploys.{
  project_exhausted_deploys, fail_interrupted, sweep_orphaned_deployments,
}
use host_forge.Queue.Enqueue.{NewOperationInput, has_id, insert_operation, new_operation, queue_row}
use host_forge.Queue.Lease.{database_has_id}
use host_forge.Queue.Recovery.{
  is_exhausted, running_now, is_selected, mark_interrupted, mark_requeued,
  mark_database_interrupted, mark_database_requeued, update_companions, update_database_selected,
  update_operations, fail_exhausted, requeue_running, recover_operations,
}
use host_forge.Queue.Steps.{settle, enqueue_database_operation}
use host_forge.Queue.Lifecycle.{Distinct}
use host_forge.Queue.Changes.Inserts.{
  insert_operation_cases, enqueue_database_operation_cases, with_database_row,
}
use host_forge.Queue.Changes.Commands.{IsFreshRow}
use host_forge.Queue.Invariants.Distinctness.{Distinct-update_where}
use host_forge.Queue.Mirror.Agreement.{Agrees, Coherent-selected}
use host_forge.Queue.Mirror.Rows.{InStep, InStep-update_where, Agrees-interrupted, Agrees-requeued}
use host_forge.Queue.Mirror.Commands.{DbInStep}

-- A new operation under an id that the read model does not have.
InStep-insert_row :
    (o : Operation) (ops : List Operation) (dbs : List DatabaseOperation)
    → exists_where (has_id o.id) ops ≡ false
    → InStep ops dbs
    → InStep (ops ++ (o ∷ [])) dbs
InStep-insert_row o ops dbs fresh s = record {
  paired = λ d n. ground (arith, exists_where-append (has_id d.id) ops (o ∷ []), s.paired d n);
  mirrors = λ x d m n h. elim (Member-append x ops (o ∷ []) m) [
    | inl old ↦ s.mirrors x d old n h
    | inr (inl e) ↦
        let same : d.id ≡ o.id = ground (arith, eq_iff d.id x.id, ap (λ (y : Operation). y.id) e) in
        let known : exists_where (has_id o.id) ops ≡ true =
          subst (λ i. exists_where (has_id i) ops ≡ true) same (s.paired d n) in
        absurd (cc (fresh, known))
    | inr (inr none_left) ↦ absurd none_left
  ];
}

new_operation-id :
    (in' : NewOperationInput) (status : OpStatus) (attempts : ℕ) (now : Time)
    → (new_operation in' status attempts now).id ≡ trim_space in'.id
unfolding new_operation
new_operation-id in' status attempts now = refl

pub InStep-insert :
    (in' : NewOperationInput) (now : Time) (db : Db)
    → DbInStep db
    → DbInStep (settle db (insert_operation in' now db))
InStep-insert in' now db s = elim (insert_operation_cases in' now db) [
  | inr (e, bad) ↦ rw bad s
  | inl (status, attempts, parsed, positive, fresh, done) ↦ rw done (
      InStep-insert_row (new_operation in' status attempts now) db.operations db.database_operations
        (rw (new_operation-id in' status attempts now) fresh) s)
]

-- The row and its queue row, as the INSERTs write them.
Agrees-queue_row : (op : DatabaseOperation) (db : Db) → IsFreshRow op → Agrees (queue_row op db) op
unfolding queue_row
Agrees-queue_row op db new = record {
  service_id = refl;
  status = refl;
  progress_step = refl;
  progress_percent = refl;
  attempt = new.attempt_count;
  error_code = new.error_code;
  error_message = new.error_message;
  started_at = refl;
  completed_at = refl;
}

-- A pair of rows under an id that neither table has.
InStep-insert_pair :
    (o : Operation) (op : DatabaseOperation) (ops : List Operation) (dbs : List DatabaseOperation)
    → o.id ≡ op.id
    → exists_where (has_id op.id) ops ≡ false
    → exists_where (database_has_id op.id) dbs ≡ false
    → Agrees o op
    → InStep ops dbs
    → InStep (ops ++ (o ∷ [])) (dbs ++ (op ∷ []))
InStep-insert_pair o op ops dbs same fresh fresh' agrees s = record {
  paired = λ d n. elim (Member-append d dbs (op ∷ []) n) [
    | inl old ↦ ground (arith, exists_where-append (has_id d.id) ops (o ∷ []), s.paired d old)
    | inr (inl e) ↦ ground (
      arith,
      exists_where-append (has_id d.id) ops (o ∷ []),
      eq_iff o.id d.id,
      ap (λ (y : DatabaseOperation). y.id) e,
    )
    | inr (inr none_left) ↦ absurd none_left
  ];
  mirrors = λ x d m n h. elim (Member-append x ops (o ∷ []) m) [
    | inl old ↦ elim (Member-append d dbs (op ∷ []) n) [
      | inl old' ↦ s.mirrors x d old old' h
      | inr (inl e) ↦
          let other = not_Member_of_none (has_id op.id) x ops fresh old in
          absurd (
            ground
              (arith, eq_iff x.id op.id, eq_iff d.id x.id, ap (λ (y : DatabaseOperation). y.id) e))
      | inr (inr none_left) ↦ absurd none_left
    ]
    | inr (inl e) ↦ elim (Member-append d dbs (op ∷ []) n) [
      | inl old' ↦
          let other = not_Member_of_none (database_has_id op.id) d dbs fresh' old' in
          absurd
            (ground (arith, eq_iff d.id op.id, eq_iff d.id x.id, ap (λ (y : Operation). y.id) e))
      | inr (inl e') ↦
          subst (λ (y : Operation). Agrees y d) (sym e)
            (subst (λ (y : DatabaseOperation). Agrees o y) (sym e') agrees)
      | inr (inr none_left) ↦ absurd none_left
    ]
    | inr (inr none_left) ↦ absurd none_left
  ];
}

queue_row-id : (op : DatabaseOperation) (db : Db) → (queue_row op db).id ≡ op.id
unfolding queue_row
queue_row-id op db = refl

pub InStep-enqueue_database :
    (op : DatabaseOperation) (db : Db)
    → IsFreshRow op
    → DbInStep db
    → DbInStep (settle db (enqueue_database_operation op db))
InStep-enqueue_database op db new s = elim (enqueue_database_operation_cases op db new.trimmed) [
  | inr bad ↦ rw bad s
  | inl (fresh', fresh, done) ↦ rw done (
      InStep-insert_pair (queue_row op (with_database_row op db)) op db.operations
        db.database_operations (queue_row-id op (with_database_row op db)) fresh fresh'
        (Agrees-queue_row op (with_database_row op db) new) s)
]

InStep-fail_exhausted :
    (now : Time) (db : Db) → Distinct db.operations → DbInStep db → DbInStep (fail_exhausted now db)
unfolding fail_exhausted project_exhausted_deploys fail_interrupted update_companions
    update_database_selected update_operations mark_interrupted mark_database_interrupted
InStep-fail_exhausted now db distinct s =
    InStep-update_where is_exhausted (mark_interrupted now) db.operations
      (λ d. is_selected is_exhausted db.operations d.id) (mark_database_interrupted now)
      db.database_operations (λ o. refl) (λ d. refl)
      (Coherent-selected is_exhausted db.operations distinct)
      (λ o d h a. Agrees-interrupted now o d a) s

Distinct-fail_exhausted :
    (now : Time) (db : Db) → Distinct db.operations → Distinct (fail_exhausted now db).operations
unfolding fail_exhausted project_exhausted_deploys fail_interrupted update_companions
    update_database_selected update_operations mark_interrupted
Distinct-fail_exhausted now db distinct =
    Distinct-update_where is_exhausted (mark_interrupted now) db.operations (λ o m h. refl) distinct

InStep-requeue_running :
    (now : Time) (db : Db)
    → Distinct db.operations
    → DbInStep db
    → DbInStep (requeue_running now db)
unfolding requeue_running update_companions update_database_selected update_operations mark_requeued
    mark_database_requeued
InStep-requeue_running now db distinct s =
    InStep-update_where running_now (mark_requeued now) db.operations
      (λ d. is_selected running_now db.operations d.id) (mark_database_requeued now)
      db.database_operations (λ o. refl) (λ d. refl)
      (Coherent-selected running_now db.operations distinct) (λ o d h a. Agrees-requeued now o d a)
      s

InStep-sweep :
    (now : Time) (db : Db) → DbInStep db → DbInStep (sweep_orphaned_deployments (at now) db).1
unfolding sweep_orphaned_deployments fail_interrupted
InStep-sweep now db s = s

pub InStep-recover :
    (now : Time) (db : Db)
    → Distinct db.operations
    → DbInStep db
    → DbInStep (recover_operations now db).2
unfolding recover_operations
InStep-recover now db distinct s = InStep-sweep now (requeue_running now (fail_exhausted now db)) (
    InStep-requeue_running now (fail_exhausted now db) (Distinct-fail_exhausted now db distinct)
      (InStep-fail_exhausted now db distinct s))
