-- ===== src/Workers/Runtime.antt =====
-- One worker: internal/workers/claim.go and runtime.go. Time and the handlers' work come from outside.
use Prim.Native.String.{◌++◌ as concat}
use host_forge.Base.{
  ℕ, zero, suc, String, Option, none, some, List, [], ◌∷◌, Bool, true, false, ◌==◌, leb,
  if◌then◌else◌,
}
use host_forge.Base.Int.{ℤ, pos, negsuc, leb_ℤ}
use host_forge.Sql.{Result, ok, err, invalid_input}
use host_forge.Clock.{Time}
use host_forge.Queue.Rows.{Operation, Db}
use host_forge.Queue.Claim.{ClaimOptions, claim_next_operation}
use host_forge.Queue.Lease.{CompleteOperationInput, complete_operation, defer_operation}
use host_forge.Queue.Recovery.{recover_operations}
use host_forge.Queue.Steps.{settle}
use host_forge.Workers.Registry.{
  HandlerFailure, Readiness, obsolete, unready, retry_after, Outcome, handled, cancelled, failed,
  Handler, Registry, lookup, kinds,
}

-- The fields of Config that decide what a runtime does; durations in nanoseconds.
pub record Config : Type 0 where
  pub concurrency : ℤ
  pub lease : ℤ
  pub lease_refresh : ℤ
  pub cancel_poll : ℤ
  pub poll_interval : ℤ
  pub min_priority : ℤ
  pub skip_recovery : Bool

abbrev default_lease : ℤ
default_lease = pos 120000000000

abbrev default_lease_refresh : ℤ
default_lease_refresh = pos 30000000000

abbrev default_cancel_poll : ℤ
default_cancel_poll = pos 1000000000

abbrev default_poll_interval : ℤ
default_poll_interval = pos 2000000000

-- if d <= 0 { d = default }
abbrev positive_or : ℤ → ℤ → ℤ
positive_or d default = if leb_ℤ d (pos 0) then default else d

unfoldable pub new_config : Config → Result Config
new_config cfg =
    if leb_ℤ cfg.concurrency (pos 0)
    then err invalid_input
    else ok (record cfg {
      lease = positive_or cfg.lease default_lease;
      lease_refresh = positive_or cfg.lease_refresh default_lease_refresh;
      cancel_poll = positive_or cfg.cancel_poll default_cancel_poll;
      poll_interval = positive_or cfg.poll_interval default_poll_interval;
    })

-- An error code that is given and not blank, or "operation_failed".
abbrev code_or_default : Option String → String
code_or_default none = "operation_failed"
code_or_default (some code) = if code == "" then "operation_failed" else code

unfoldable pub error_code : HandlerFailure → String
error_code e = code_or_default e.code

-- Every error of the store is logged and dropped.
unfoldable pub complete : String → Operation → String → String → String → String → Time → Db → Db
complete owner operation status progress_step code message now db = settle db (
    complete_operation
      (record {
        id = operation.id;
        owner = owner;
        status = status;
        progress_step = progress_step;
        error_code = code;
        error_message = message;
      })
      now db)

-- The handler's run and its outcome.
unfoldable pub finish : String → Operation → Outcome → Time → Db → Db
finish owner operation handled now db = complete owner operation "success" "" "" "" now db
finish owner operation cancelled now db = complete owner operation "cancelled" "" "" "" now db
finish owner operation (failed e) now db =
    complete owner operation "failed" "" (error_code e) e.message now db

unfoldable pub run_handler : Handler → String → Operation → Time → Db → Db
run_handler h owner operation now db =
    let (outcome, db') = h.handle operation db in finish owner operation outcome now db'

unfoldable pub if_ready : Readiness → Handler → String → Operation → Time → Db → Db
if_ready obsolete h owner operation now db =
    complete owner operation "cancelled" "obsolete" "" "" now db
if_ready (unready e) h owner operation now db =
    complete owner operation "failed" "" (error_code e) e.message now db
if_ready (retry_after (suc delay)) h owner operation now db =
    settle db (defer_operation operation.id owner (suc delay) now db)
if_ready (retry_after zero) h owner operation now db = run_handler h owner operation now db

abbrev pub readiness : Option (Operation → Db → Readiness) → Operation → Db → Readiness
readiness none operation db = retry_after zero
readiness (some check) operation db = check operation db

unfoldable pub execute_with : Option Handler → String → Operation → Time → Db → Db
execute_with none owner operation now db =
    complete owner operation "failed" "" "operation_kind_not_registered"
      (concat "no handler is registered for kind " operation.kind) now db
execute_with (some h) owner operation now db =
    if_ready (readiness h.ready operation db) h owner operation now db

unfoldable pub execute : Registry → String → Operation → Time → Db → Db
execute registry owner operation now db =
    execute_with (lookup registry operation.kind) owner operation now db

-- One round of the inner loop of `run`: whether the queue may have more.
abbrev after_claim : Registry → String → Time → Db → Result (Result Operation × Db) → Bool × Db
after_claim registry owner now db (err e) = (false, db)
after_claim registry owner now db (ok (err e, db')) = (false, db')
after_claim registry owner now db (ok (ok operation, db')) =
    (true, execute registry owner operation now db')

abbrev lease_of : ℤ → ℕ
lease_of (pos n) = n
lease_of (negsuc n) = 0

unfoldable pub claim_options : Config → Registry → String → ClaimOptions
claim_options cfg registry owner = record {
  owner = owner;
  lease = lease_of cfg.lease;
  min_priority = cfg.min_priority;
  now = none;
  kinds = kinds registry;
}

unfoldable pub work_once : Config → Registry → String → Time → Db → Bool × Db
work_once cfg registry owner now db =
    after_claim registry owner now db
      (claim_next_operation (claim_options cfg registry owner) now db)

-- The inner loop: a round for each reading of the clock, until the queue has nothing to give or the
-- stop signal is seen.
unfoldable pub drain : Config → Registry → String → List (Bool × Time) → Db → Db
drain cfg registry owner [] db = db
drain cfg registry owner ((true, now) ∷ rounds) db = db
drain cfg registry owner ((false, now) ∷ rounds) db =
    let (more, db') = work_once cfg registry owner now db in
    elim more [ true ↦ drain cfg registry owner rounds db' | false ↦ db' ]

-- Start: recovery before any worker, unless another runtime has done it.
unfoldable pub start_recovery : Config → Time → Db → Db
start_recovery cfg now db = if cfg.skip_recovery then db else (recover_operations now db).2

pub record HeldLease : Type 0 where
  pub id : String
  pub owner : String
  pub max_attempts : ℕ

-- delete(r.leases, id)
unfoldable pub release_lease : String → List HeldLease → List HeldLease
release_lease id [] = []
release_lease id (l ∷ ls) = let rest = release_lease id ls in if l.id == id then rest else l ∷ rest

-- r.leases[operation.ID] = heldLease{…}
unfoldable pub track_lease : Operation → String → List HeldLease → List HeldLease
track_lease operation owner leases =
    record { id = operation.id; owner = owner; max_attempts = operation.max_attempts }
    ∷ release_lease operation.id leases

abbrev pub shutdown_input : HeldLease → CompleteOperationInput
shutdown_input l = record {
  id = l.id;
  owner = l.owner;
  status = "failed";
  progress_step = "";
  error_code = "interrupted";
  error_message = "operation interrupted by shutdown";
}

-- What a drain that timed out does with one operation: fail it if it may not run again.
unfoldable pub release_held : Time → Db → HeldLease → Db
release_held now db l =
    if leb l.max_attempts 1
    then settle db (complete_operation (shutdown_input l) now db)
    else settle db (defer_operation l.id l.owner 0 now db)

unfoldable pub release_held_leases : Time → List HeldLease → Db → Db
release_held_leases now [] db = db
release_held_leases now (l ∷ ls) db = release_held_leases now ls (release_held now db l)
