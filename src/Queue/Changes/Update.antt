-- ===== src/Queue/Changes/Update.antt =====
-- The rows that the updates write, against the moves of the specification, and the parts of the
-- database that the projections leave alone.
use host_forge.Base.{
  ◌<◌, Bool-cases, inl, inr, ◌≡◌, refl, String, true, false, arith, if◌then◌else◌,
}
use host_forge.Clock.{Time, Stamp}
use host_forge.Queue.Rows.{OpStatus, Operation, is_terminal, is_running}
use host_forge.Queue.Lifecycle.{
  Move, touched, deferred, finished, cancelled, interrupted, requeued, claimed,
}
use host_forge.Queue.Claim.{mark_claimed, claimable}
use host_forge.Queue.Lease.{is_held, CompleteOperationInput, mark_deferred, mark_completed}
use host_forge.Queue.Cancel.{mark_asked, mark_cancelled}
use host_forge.Queue.Recovery.{mark_interrupted, mark_requeued, is_exhausted, running_now}

pub mark_deferred-Move :
    (id owner : String) (available now : Time) (o : Operation)
    → is_held id owner o ≡ true
    → Move o (mark_deferred available now o)
unfolding mark_deferred
mark_deferred-Move id owner available now o h = deferred (ground arith) refl refl (ground arith)

pub mark_completed-Move :
    (in' : CompleteOperationInput) (status : OpStatus) (now : Time) (id owner : String)
    (o : Operation)
    → is_terminal status ≡ true
    → is_held id owner o ≡ true
    → Move o (mark_completed in' status now o)
unfolding mark_completed
mark_completed-Move in' status now id owner o t h = finished (ground arith) t refl (ground arith)

-- The row that RenewOperationLease writes.
pub renewed-Move :
    (id owner : String) (expires now : Stamp) (o : Operation)
    → is_held id owner o ≡ true
    → Move o (record o { lease_expires_at = expires; updated_at = now })
renewed-Move id owner expires now o h = touched (ground arith) refl refl (ground arith)

pub mark_asked-Move :
    (now : Time) (o : Operation) → is_running o.status ≡ true → Move o (mark_asked now o)
unfolding mark_asked
mark_asked-Move now o h = touched h refl refl (ground arith)

pub mark_cancelled-Move :
    (id : String) (now : Time) (o : Operation)
    → claimable id o ≡ true
    → Move o (mark_cancelled now o)
unfolding mark_cancelled
mark_cancelled-Move id now o h = cancelled (ground arith) refl refl (ground arith)

pub mark_claimed-Move :
    (id owner : String) (expires now : Time) (o : Operation)
    → claimable id o ≡ true
    → o.attempt < o.max_attempts
    → Move o (mark_claimed owner expires now o)
unfolding mark_claimed
mark_claimed-Move id owner expires now o h l = claimed (ground arith) refl l refl (ground arith)

-- What recovery makes of a running row, in its two passes.
abbrev pub recovered : Time → Operation → Operation
recovered now o = if is_exhausted o then mark_interrupted now o else mark_requeued now o

pub recovered-Move : (now : Time) (o : Operation) → running_now o ≡ true → Move o (recovered now o)
unfolding mark_interrupted mark_requeued
recovered-Move now o h = elim (Bool-cases (is_exhausted o)) [
  | inl e ↦ rw e (interrupted h (ground arith) refl refl (ground arith))
  | inr e ↦ rw e (requeued h (ground arith) refl refl (ground arith))
]

pub recovered_idle : (now : Time) (o : Operation) → is_running (recovered now o).status ≡ false
unfolding mark_interrupted mark_requeued
recovered_idle now o = ground arith
