-- ===== src/Queue/Mirror/Rows.antt =====
-- The rows that the two UPDATEs of a transition write agree, and updates keep the tables in step.
use host_forge.Base.{
  ◌+◌, ◌≡◌, refl, ap, ◌∙◌, String, Bool, true, arith, List, ◌==◌, eqb, exists_where,
}
use host_forge.Sql.{update_where, count_where}
use host_forge.Sql.Laws.{Member}
use host_forge.Sql.Updates.{Member-of_update_where, exists_where-update_where}
use host_forge.Clock.{Time}
use host_forge.Queue.Rows.{OpStatus, Operation, DatabaseOperation, Db}
use host_forge.Queue.Enqueue.{has_id}
use host_forge.Queue.Claim.{mark_claimed, mark_database_claimed, first_start}
use host_forge.Queue.Lease.{
  CompleteOperationInput, is_held, database_has_id, mark_deferred, mark_database_deferred,
  mark_completed, mark_database_completed,
}
use host_forge.Queue.Cancel.{mark_asked, mark_cancelled, mark_database_cancelled}
use host_forge.Queue.Recovery.{
  mark_interrupted, mark_requeued, mark_database_interrupted, mark_database_requeued,
}
use host_forge.Queue.Lifecycle.{Distinct}
use host_forge.Queue.Changes.Tables.{held_db}
use host_forge.Queue.Mirror.Agreement.{
  Agrees, Mirrors, Coherent, Mirrors-update_where, Mirrors-update_left, Coherent-keyed,
}

-- Each row of the read model has its operation, and agrees with it.
pub record InStep (ops : List Operation) (dbs : List DatabaseOperation) : Type 0 where
  pub paired : (d : DatabaseOperation) → Member d dbs → exists_where (has_id d.id) ops ≡ true
  pub mirrors : Mirrors ops dbs

pub InStep-update_where :
    (p : Operation → Bool) (f : Operation → Operation) (ops : List Operation)
    (q : DatabaseOperation → Bool) (g : DatabaseOperation → DatabaseOperation)
    (dbs : List DatabaseOperation)
    → ((o : Operation) → (f o).id ≡ o.id)
    → ((d : DatabaseOperation) → (g d).id ≡ d.id)
    → Coherent p q ops
    → ((o : Operation) (d : DatabaseOperation) → p o ≡ true → Agrees o d → Agrees (f o) (g d))
    → InStep ops dbs
    → InStep (update_where p f ops) (update_where q g dbs)
InStep-update_where p f ops q g dbs keep keep' coherent step s = record {
  paired = λ d' n.
      let (d, dm, de) = Member-of_update_where q g d' dbs n in
      let did : d'.id ≡ d.id = ground (arith, keep' d, de) in
      exists_where-update_where p (has_id d'.id) f ops (λ o m h. ap (λ i. i == d'.id) (keep o))
      ∙ rw did (s.paired d dm);
  mirrors = Mirrors-update_where p f ops q g dbs keep keep' coherent step s.mirrors;
}

pub InStep-update_left :
    (p : Operation → Bool) (f : Operation → Operation) (ops : List Operation)
    (dbs : List DatabaseOperation)
    → ((o : Operation) → (f o).id ≡ o.id)
    → ((o : Operation) (d : DatabaseOperation) → Agrees o d → Agrees (f o) d)
    → InStep ops dbs
    → InStep (update_where p f ops) dbs
InStep-update_left p f ops dbs keep step s = record {
  paired = λ d n.
      exists_where-update_where p (has_id d.id) f ops (λ o m h. ap (λ i. i == d.id) (keep o))
      ∙ s.paired d n;
  mirrors = Mirrors-update_left p f ops dbs keep step s.mirrors;
}

-- The guarded update of a lease holder.
pub InStep-held :
    (id owner : String) (f : Operation → Operation) (g : DatabaseOperation → DatabaseOperation)
    (db : Db)
    → ((o : Operation) → (f o).id ≡ o.id)
    → ((d : DatabaseOperation) → (g d).id ≡ d.id)
    → ((o : Operation) (d : DatabaseOperation) → Agrees o d → Agrees (f o) (g d))
    → eqb (count_where (is_held id owner) db.operations) 1 ≡ true
    → Distinct db.operations
    → InStep db.operations db.database_operations
    → InStep (held_db id owner f g db).operations (held_db id owner f g db).database_operations
InStep-held id owner f g db keep keep' step one distinct s =
    InStep-update_where (is_held id owner) f db.operations (database_has_id id) g
      db.database_operations keep keep'
      (Coherent-keyed id (is_held id owner) db.operations (λ o h. ground arith) distinct one)
      (λ o d h a. step o d a) s

-- The pairs of rows that the writers leave behind.
pub Agrees-deferred :
    (available now : Time) (o : Operation) (d : DatabaseOperation)
    → Agrees o d
    → Agrees (mark_deferred available now o) (mark_database_deferred now d)
unfolding mark_deferred mark_database_deferred
Agrees-deferred available now o d a = ground arith

pub Agrees-completed :
    (in' : CompleteOperationInput) (status : OpStatus) (now : Time) (o : Operation)
    (d : DatabaseOperation)
    → Agrees o d
    → Agrees (mark_completed in' status now o) (mark_database_completed in' status now d)
unfolding mark_completed mark_database_completed
Agrees-completed in' status now o d a = ground arith

pub Agrees-claimed :
    (owner : String) (expires now : Time) (o : Operation) (d : DatabaseOperation)
    → Agrees o d
    → Agrees (mark_claimed owner expires now o) (mark_database_claimed owner expires now d)
unfolding mark_claimed mark_database_claimed
Agrees-claimed owner expires now o d a = record {
  service_id = a.service_id;
  status = refl;
  progress_step = refl;
  progress_percent = refl;
  attempt = ap (λ n. n + 1) a.attempt;
  error_code = a.error_code;
  error_message = a.error_message;
  started_at = ap (first_start now) a.started_at;
  completed_at = a.completed_at;
}

pub Agrees-cancelled :
    (now : Time) (o : Operation) (d : DatabaseOperation)
    → Agrees o d
    → Agrees (mark_cancelled now o) (mark_database_cancelled now d)
unfolding mark_cancelled mark_database_cancelled
Agrees-cancelled now o d a = ground arith

pub Agrees-asked :
    (now : Time) (o : Operation) (d : DatabaseOperation) → Agrees o d → Agrees (mark_asked now o) d
unfolding mark_asked
Agrees-asked now o d a = ground arith

pub Agrees-interrupted :
    (now : Time) (o : Operation) (d : DatabaseOperation)
    → Agrees o d
    → Agrees (mark_interrupted now o) (mark_database_interrupted now d)
unfolding mark_interrupted mark_database_interrupted
Agrees-interrupted now o d a = ground arith

pub Agrees-requeued :
    (now : Time) (o : Operation) (d : DatabaseOperation)
    → Agrees o d
    → Agrees (mark_requeued now o) (mark_database_requeued now d)
unfolding mark_requeued mark_database_requeued
Agrees-requeued now o d a = ground arith
