-- ===== src/Workers/Outcomes.antt =====
-- How a worker leaves the operation that it claimed, and what a drain that timed out does with it:
-- execute and complete of internal/workers/claim.go, releaseHeldLeases of runtime.go.
use host_forge.Base.{
  ℕ, ◌+◌, ◌≡◌, refl, String, false, inl, inr, Bool-cases, exists_where, leb, if◌then◌else◌,
}
use host_forge.Base.Text.{trim_space}
use host_forge.Sql.Laws.{Member}
use host_forge.Clock.{Time}
use host_forge.Queue.Rows.{OpStatus, parse_status, Operation, Db}
use host_forge.Queue.Lease.{is_held, mark_completed, mark_deferred}
use host_forge.Queue.Lifecycle.{Distinct}
use host_forge.Queue.Leases.{Holds, serve}
use host_forge.Workers.Registry.{Handler, failed, Registry}
use host_forge.Workers.Runtime.{HeldLease, shutdown_input, release_held}

-- No row is running under this id and owner.
abbrev pub IsReleased : String → String → Db → Type 0
IsReleased id owner db =
    exists_where (is_held (trim_space id) (trim_space owner)) db.operations ≡ false

-- A handler that leaves the ids of the queue's rows distinct.
abbrev pub IsOrderly : Handler → Type 0
IsOrderly h =
    (o : Operation) (db : Db) → Distinct db.operations → Distinct (h.handle o db).1.operations

-- What a drain that timed out makes of a row.
abbrev pub interrupted_status : ℕ → OpStatus
interrupted_status max_attempts = if leb max_attempts 1 then OpStatus.failed else OpStatus.queued

-- With distinct ids, a drain that timed out fails the held row of an operation that may run only once,
-- and any other held row is queued again.
pub release_held-status :
    (now : Time) (db : Db) (l : HeldLease) (o : Operation)
    → Distinct db.operations
    → Holds l.id l.owner o db
    → (p : Operation) × Member p (release_held now db l).operations
      × (p.id ≡ o.id)
      × (p.status ≡ interrupted_status l.max_attempts)
unfolding release_held mark_completed mark_deferred parse_status
release_held-status now db l o d held =
    let (completed, deferred, _) =
      serve (shutdown_input l) OpStatus.failed 0 0 now db o refl refl d held in
    elim (Bool-cases (leb l.max_attempts 1)) [
      | inl once ↦
          (let (db', done, m) = completed in
            (
              mark_completed (shutdown_input l) OpStatus.failed now o,
              rw (once, done) m,
              refl,
              rw once refl,
            ))
      | inr again ↦
          (let (db', done, m) = deferred in
            (mark_deferred (now + 0) now o, rw (again, done) m, refl, rw again refl))
    ]
