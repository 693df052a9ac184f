-- ===== src/Queue/Invariants.antt =====
-- The invariant of the table of operations, over internal/repository/operations.go: distinct ids, running
-- rows and lock keys, attempts.
pub mod Distinctness
pub mod Locks
pub mod Attempts
use mathlib.Core.Path.{subst}
use host_forge.Clock.{Time}
use host_forge.Sql.Updates.{Member-update_where_other}
use host_forge.Base.{sym, String, Bool, false}
use host_forge.Queue.Progress.{ProgressReport}
use host_forge.Base.{
  List, [], ◌∷◌, ◌++◌, ◌≡◌, ◌≤◌, ◌<◌, All, arith, true, false, ◌⊎◌, inl, inr, exists_where, ◌&&◌,
  ◌==◌,
}
use host_forge.Sql.Laws.{Member}
use host_forge.Queue.Rows.{Operation, Db, is_running, is_terminal}
use host_forge.Queue.Lifecycle.{Distinct, Exclusive, Change, Evolves, Move}
use host_forge.Queue.Steps.{
  Command, enqueues, enqueues_database, claims, renews, defers, completes, cancels, cancels_service,
  recovers, reports, removes, step, run,
}
use host_forge.Base.{refl}
use host_forge.Base.Text.{trim_space}
use host_forge.Queue.Enqueue.{has_id}
use host_forge.Queue.Progress.{mark_progress, write_progress}
use host_forge.Queue.Changes.Reports.{report_cases}
use host_forge.Queue.Changes.Commands.{IsSound, MeetsRunning, step-Change}
use Distinctness.{Change-Evolves, Change-Distinct, Distinct-update_where}
use Locks.{Change-Exclusive}
use Attempts.{WithinLimit, Evolves-WithinLimit, Move-terminal}

pub record IsValid (db : Db) : Type 0 where
  pub distinct : Distinct db.operations
  pub exclusive : Exclusive db.operations
  pub limited : All WithinLimit db.operations

-- A run in which each report meets an operation that is running.
abbrev pub ReportsRunning : List Command → Db → Type 0
ReportsRunning [] db = Unit {0}
ReportsRunning (c ∷ cs) db = MeetsRunning c db × ReportsRunning cs (step c db)

-- With distinct ids, a sound command (nothing is enqueued as already running, a row of the read model is
-- enqueued as one that was not tried yet, and a handler's report meets a running operation and does not
-- put it back into the queue) moves each old row by one move of the specification, in place, and adds
-- only new rows.
pub step-Evolves :
    (c : Command) (db : Db)
    → IsSound c
    → MeetsRunning c db
    → Distinct db.operations
    → Evolves db.operations (step c db).operations
step-Evolves c db sound meets d = Change-Evolves (step-Change c db sound meets d)

-- A command keeps ids distinct, running lock keys distinct, and attempts within their limits.
pub step-IsValid :
    (c : Command) (db : Db) → IsSound c → MeetsRunning c db → IsValid db → IsValid (step c db)
step-IsValid c db sound meets v =
    let change = step-Change c db sound meets v.distinct in
    record {
      distinct = Change-Distinct change v.distinct;
      exclusive = Change-Exclusive change v.distinct v.exclusive;
      limited = Evolves-WithinLimit _ _ (Change-Evolves change) v.limited;
    }

-- From a valid table, any sequence of commands, in any order, leaves ids distinct, at most one running
-- row per lock key, and every row within its attempts, if nothing is enqueued as already running, a row
-- of the read model is enqueued as one that was not tried yet, and each handler's report meets, at its
-- turn, a running operation and does not put it back into the queue.
pub run-IsValid :
    (cs : List Command) (db : Db)
    → All IsSound cs
    → ReportsRunning cs db
    → IsValid db
    → IsValid (run cs db)
unfolding run
run-IsValid [] db sound meets v = v
run-IsValid (c ∷ cs) db sound meets v =
    run-IsValid cs (step c db) sound.1 meets.1 (step-IsValid c db sound.0 meets.0 v)

-- Only a report meets something that matters.
command_cases :
    (c : Command) (db : Db)
    → MeetsRunning c db ⊎ ((r : ProgressReport) × (now : Time) × (c ≡ reports r now))
command_cases (reports r now) db = inr (r, now, refl)
command_cases (enqueues fresh given now) db = inl tt
command_cases (enqueues_database op) db = inl tt
command_cases (claims opts wall) db = inl tt
command_cases (renews id owner lease now) db = inl tt
command_cases (defers id owner delay now) db = inl tt
command_cases (completes in' now) db = inl tt
command_cases (cancels id now) db = inl tt
command_cases (cancels_service id now) db = inl tt
command_cases (recovers now) db = inl tt
command_cases (removes id tables now) db = inl tt

report-Distinct :
    (r : ProgressReport) (now : Time) (db : Db)
    → Distinct db.operations
    → Distinct (step (reports r now) db).operations
unfolding step write_progress mark_progress
report-Distinct r now db d = elim (report_cases r now db) [
  | inl same ↦ rw same d
  | inr (status, n, parsed, done) ↦
      rw done (Distinct-update_where (has_id (trim_space r.id)) _ db.operations (λ o m h. refl) d)
]

-- Ids stay distinct whatever a report meets.
pub step-Distinct :
    (c : Command) (db : Db) → IsSound c → Distinct db.operations → Distinct (step c db).operations
step-Distinct c db sound d = elim (command_cases c db) [
  | inl meets ↦ Change-Distinct (step-Change c db sound meets d) d
  | inr (r, now, q) ↦
      subst (λ k. Distinct (step k db).operations) (sym q) (report-Distinct r now db d)
]

pub run-Distinct :
    (cs : List Command) (db : Db)
    → All IsSound cs
    → Distinct db.operations
    → Distinct (run cs db).operations
unfolding run
run-Distinct [] db sound d = d
run-Distinct (c ∷ cs) db sound d =
    run-Distinct cs (step c db) sound.1 (step-Distinct c db sound.0 d)

Evolves-terminal :
    (o : Operation) (ops ops' : List Operation)
    → Evolves ops ops'
    → Member o ops
    → is_terminal o.status ≡ true
    → Member o ops'
Evolves-terminal o [] ops' e m t = absurd m
Evolves-terminal o (x ∷ ops) [] e m t = absurd e
Evolves-terminal o (x ∷ ops) (y ∷ ops') e (inl q) t = inl (ground (arith, q, Move-terminal e.0))
Evolves-terminal o (x ∷ ops) (y ∷ ops') e (inr m) t = inr (Evolves-terminal o ops ops' e.1 m t)

-- No report names this id.
abbrev pub Spares : String → Command → Type 0
Spares id (reports r now) = (id == trim_space r.id) ≡ false
Spares id _ = Unit {0}

report-spares :
    (r : ProgressReport) (now : Time) (db : Db) (o : Operation)
    → (o.id == trim_space r.id) ≡ false
    → Member o db.operations
    → Member o (step (reports r now) db).operations
unfolding step write_progress
report-spares r now db o other m = elim (report_cases r now db) [
  | inl same ↦ rw same m
  | inr (status, n, parsed, done) ↦
      rw done (Member-update_where_other (has_id (trim_space r.id)) _ o db.operations other m)
]

step-terminal :
    (c : Command) (db : Db) (o : Operation)
    → IsSound c
    → Spares o.id c
    → Distinct db.operations
    → Member o db.operations
    → is_terminal o.status ≡ true
    → Member o (step c db).operations
step-terminal c db o sound spares d m t = elim (command_cases c db) [
  | inl meets ↦ Evolves-terminal o _ _ (step-Evolves c db sound meets d) m t
  | inr (r, now, q) ↦
      let other = subst (Spares o.id) q spares in
      subst (λ k. Member o (step k db).operations) (sym q) (report-spares r now db o other m)
]

-- Where ids are distinct, an operation that has ended is never written again, but by a report that names
-- it: after any commands without one, in any order, its row is there unchanged. The commands enqueue
-- nothing as already running, enqueue a row of the read model as one that was not tried yet, and report
-- no operation back into the queue; what the other reports meet does not matter.
pub run-terminal :
    (cs : List Command) (db : Db) (o : Operation)
    → All IsSound cs
    → All (Spares o.id) cs
    → Distinct db.operations
    → Member o db.operations
    → is_terminal o.status ≡ true
    → Member o (run cs db).operations
unfolding run
run-terminal [] db o sound spares d m t = m
run-terminal (c ∷ cs) db o sound spares d m t =
    run-terminal cs (step c db) o sound.1 spares.1 (step-Distinct c db sound.0 d)
      (step-terminal c db o sound.0 spares.0 d m t) t
