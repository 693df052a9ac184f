-- ===== src/Examples/GatewayQueue.antt =====
-- The theorem on claims of gateway operations, at a queue whose oldest operation waits for an instance.
use host_forge.Base.{◌*◌, String, some, [], ◌∷◌}
use host_forge.Clock.{Time, empty, at, second}
use host_forge.Queue.Rows.{OpStatus}
use host_forge.Gateway.Queue.{DatabaseGatewayOperation, GatewayQueueDb}

abbrev now : Time
now = 100 * second

abbrev queued : String → String → Time → DatabaseGatewayOperation
queued id operation_type created = record {
  id = id;
  operation_type = operation_type;
  connection_id = some "web";
  status = OpStatus.queued;
  progress_step = "queued";
  progress_percent = 0;
  started_at = empty;
  lease_owner = "";
  lease_expires_at = empty;
  attempt_count = 0;
  created_at = at created;
  updated_at = at created;
}

abbrev taken : DatabaseGatewayOperation
taken = record (queued "o2" "rotate_connection" (20 * second)) {
  status = OpStatus.running;
  progress_step = "starting";
  progress_percent = 1;
  started_at = at now;
  lease_owner = "w";
  lease_expires_at = at (130 * second);
  attempt_count = 1;
  updated_at = at now;
}

abbrev queue_of : DatabaseGatewayOperation → GatewayQueueDb
queue_of o = record {
  operations = queued "o1" "create_connection" (10 * second) ∷ o ∷ [];
  connections = record { id = "web"; route_id = "r" } ∷ [];
  routes = record { id = "r"; database_instance_id = "i" } ∷ [];
  instances =
      record { id = "i"; desired_state = "running"; status = "provisioning"; deleted_at = empty }
      ∷ [];
}
