-- ===== src/Examples/Fixtures.antt =====
-- A database with a deploy that waits, a backup that runs, and a backup that has ended.
use host_forge.Base.{List, [], ◌∷◌, String, none, some, ℕ, suc}
use host_forge.Base.Int.{pos}
use host_forge.Clock.{empty, at, second}
use host_forge.Queue.Rows.{
  OpStatus, Operation, DatabaseOperation, DeployStatus, Deployment, CompanionStatus, Db,
}
use host_forge.Queue.Enqueue.{NewOperationInput}
use host_forge.Queue.Claim.{ClaimOptions}
use host_forge.Queue.Lease.{CompleteOperationInput}
use host_forge.Queue.Progress.{ProgressReport}
use host_forge.Queue.Steps.{
  reports, removes, Command, enqueues, enqueues_database, claims, renews, defers, completes,
  cancels, cancels_service, recovers,
}

abbrev waiting : String → String → String → ℕ → Operation
waiting id kind lock_key attempts = record {
  id = id;
  kind = kind;
  lock_key = lock_key;
  status = OpStatus.queued;
  priority = pos 100;
  progress_step = "";
  progress_percent = 0;
  available_at = empty;
  attempt = 0;
  max_attempts = suc attempts;
  lease_owner = "";
  lease_expires_at = empty;
  cancel_requested_at = empty;
  application_id = "app";
  service_id = "svc";
  environment_id = "prod";
  actor = "admin";
  error_code = "";
  error_message = "";
  started_at = empty;
  completed_at = empty;
  created_at = at 5;
  updated_at = at 5;
}

abbrev deploying : Operation
deploying = waiting "dep1" "deploy" "svc:svc" 0

abbrev pub backing_up : Operation
backing_up = record (waiting "op1" "db_backup" "dbi:db1" 4) {
  status = OpStatus.running;
  attempt = 1;
  lease_owner = "w1";
  lease_expires_at = at 90;
  started_at = at 6;
}

abbrev pub old_success : Operation
old_success = record (waiting "op0" "db_backup" "dbi:db1" 4) {
  status = OpStatus.success;
  attempt = 1;
  progress_percent = 100;
  started_at = at 1;
  completed_at = at 2;
}

abbrev pub mirror : Operation → String → DatabaseOperation
mirror o operation_type = record {
  id = o.id;
  service_id = o.service_id;
  database_instance_id = some "db1";
  operation_type = operation_type;
  status = o.status;
  progress_step = o.progress_step;
  progress_percent = o.progress_percent;
  actor = o.actor;
  error_code = o.error_code;
  error_message = o.error_message;
  started_at = o.started_at;
  completed_at = o.completed_at;
  lease_owner = o.lease_owner;
  lease_expires_at = o.lease_expires_at;
  attempt_count = o.attempt;
  created_at = o.created_at;
  updated_at = o.updated_at;
}

abbrev deployment : String → DeployStatus → Deployment
deployment id status = record {
  id = id;
  service_id = "svc";
  environment_id = "prod";
  trigger_kind = "manual";
  actor = "admin";
  cancelled_at = empty;
  rollback_of = "";
  branch = "main";
  status = status;
  commit_hash = "c0ffee";
  logs_path = "";
  image_ref = "";
  worktree = "";
  error_message = "";
  builder_kind = "";
  stack_kind = "";
  stack_label = "";
  created_at = at 3;
  updated_at = at 3;
}

abbrev pub shipped : Deployment
shipped = deployment "dep0" DeployStatus.success

abbrev pub dropped : Deployment
dropped = record (deployment "depx" DeployStatus.cancelled) { cancelled_at = at 4 }

abbrev pub queue : Db
queue = record {
  operations = deploying ∷ backing_up ∷ old_success ∷ [];
  database_operations = mirror backing_up "backup" ∷ mirror old_success "backup" ∷ [];
  deployments = deployment "dep1" DeployStatus.queued ∷ shipped ∷ dropped ∷ [];
  backups =
      record { operation_id = some "op1"; status = CompanionStatus.running; updated_at = at 6 }
      ∷ [];
  restore_jobs = [];
  upgrade_jobs = [];
  services = record { id = "svc"; application_id = "app" } ∷ [];
  instances = record { id = "db1"; environment_id = "prod" } ∷ [];
  events = [];
}

abbrev pub new_claim : ClaimOptions
new_claim = record { owner = "w2"; lease = second; min_priority = pos 0; now = none; kinds = [] }

abbrev pub claim_command : Command
claim_command = claims new_claim 10

abbrev pub given : NewOperationInput
given = record {
  id = "";
  kind = "cert_poll";
  lock_key = "domain:a";
  status = "";
  priority = pos 0;
  max_attempts = pos 0;
  progress_step = "";
  application_id = "";
  service_id = "";
  environment_id = "";
  actor = "";
}

abbrev pub succeeded : CompleteOperationInput
succeeded = record {
  id = "op1";
  owner = "w1";
  status = "success";
  progress_step = "";
  error_code = "";
  error_message = "";
}

abbrev fresh_row : DatabaseOperation
fresh_row = mirror (waiting "op2" "db_restore" "dbi:db1" 4) "restore"

abbrev pub halfway : ProgressReport
halfway = record {
  id = "op1";
  status = "Running";
  progress_step = "dump_stream";
  progress = pos 25;
  error_code = "";
  error_message = "";
}

-- One command of each kind, and a second claim.
abbrev pub all_commands : List Command
all_commands =
    reports halfway 8
    ∷ enqueues "op3" given 9
    ∷ enqueues_database fresh_row
    ∷ claim_command
    ∷ renews "op1" "w1" second 11
    ∷ defers "dep1" "w2" second 12
    ∷ completes succeeded 13
    ∷ claims new_claim 14
    ∷ cancels_service "svc" 15
    ∷ cancels "op3" 16
    ∷ removes "svc" (record { services = "svc" ∷ []; instances = []; bindings = [] }) 17
    ∷ recovers 17
    ∷ []
