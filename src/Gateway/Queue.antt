-- ===== src/Gateway/Queue.antt =====
-- The queue of gateway operations: the claim of internal/repository/database_gateways.go, with the tables
-- that it joins.
use host_forge.Base.{
  ℕ, ◌+◌, String, Option, none, some, List, Bool, true, false, not, ◌&&◌, ◌||◌, ◌==◌, if◌then◌else◌,
  ltb, eqb, exists_where,
}
use host_forge.Base.Text.{trim_space, codes, lex_lt}
use host_forge.Sql.{
  update_where, count_where, find_where, filter_rows, first_row, Result, ok, no_rows, invalid_input,
  guard, require, ◌>>=◌, ◌>>◌,
}
use host_forge.Sql.Keys.{has_key}
use host_forge.Clock.{Time, Stamp, at, second, stamp_le, stamp_lt}
use host_forge.Backups.Rows.{is_empty}
use host_forge.Queue.Rows.{OpStatus, is_queued, is_running}
use host_forge.Queue.Claim.{first_start}

-- The columns that the queue reads and writes.
pub record DatabaseGatewayOperation : Type 0 where
  pub id : String
  pub operation_type : String
  pub connection_id : Option String
  pub status : OpStatus
  pub progress_step : String
  pub progress_percent : ℕ
  pub started_at : Stamp
  pub lease_owner : String
  pub lease_expires_at : Stamp
  pub attempt_count : ℕ
  pub created_at : Stamp
  pub updated_at : Stamp

-- The columns of the joined tables: a connection, its route, and the instance of the route.
pub record ConnectionScope : Type 0 where
  pub id : String
  pub route_id : String

pub record RouteScope : Type 0 where
  pub id : String
  pub database_instance_id : String

pub record InstanceScope : Type 0 where
  pub id : String
  pub desired_state : String
  pub status : String
  pub deleted_at : Stamp

pub record GatewayQueueDb : Type 0 where
  pub operations : List DatabaseGatewayOperation
  pub connections : List ConnectionScope
  pub routes : List RouteScope
  pub instances : List InstanceScope

abbrev pub operation_id_of : DatabaseGatewayOperation → String
operation_id_of o = o.id

-- lease_expires_at='' OR lease_expires_at<=?
unfoldable pub is_lapsed : Time → DatabaseGatewayOperation → Bool
is_lapsed now o =
    is_running o.status && (is_empty o.lease_expires_at || stamp_le o.lease_expires_at (at now))

unfoldable pub is_takeable : Time → DatabaseGatewayOperation → Bool
is_takeable now o = is_queued o.status || is_lapsed now o

unfoldable pub is_serving : InstanceScope → Bool
is_serving i = (i.desired_state == "running") && (i.status == "healthy") && is_empty i.deleted_at

-- A NULL connection_id joins nothing.
unfoldable pub has_instance : GatewayQueueDb → Option String → Bool
has_instance db none = false
has_instance db (some id) =
    exists_where
      (λ c.
        (c.id == id)
        && exists_where
            (λ r.
              (r.id == c.route_id)
              && exists_where (λ i. (i.id == r.database_instance_id) && is_serving i) db.instances)
            db.routes)
      db.connections

unfoldable pub is_claimable : Time → GatewayQueueDb → DatabaseGatewayOperation → Bool
is_claimable now db o =
    is_takeable now o
    && (not (o.operation_type == "create_connection") || has_instance db o.connection_id)

unfoldable pub created_before : DatabaseGatewayOperation → DatabaseGatewayOperation → Bool
created_before a b =
    if stamp_lt a.created_at b.created_at
    then true
    else if stamp_lt b.created_at a.created_at
    then false
    else lex_lt (codes a.id) (codes b.id)

unfoldable pub mark_taken :
    String → Time → Time → DatabaseGatewayOperation → DatabaseGatewayOperation
mark_taken owner expires now o = record o {
  status = OpStatus.running;
  progress_step = "starting";
  progress_percent = 1;
  started_at = first_start now o.started_at;
  lease_owner = owner;
  lease_expires_at = at expires;
  attempt_count = o.attempt_count + 1;
  updated_at = at now;
}

abbrev pub is_still_takeable : String → Time → DatabaseGatewayOperation → Bool
is_still_takeable id now o = (o.id == id) && is_takeable now o

unfoldable pub take_operation :
    String → String → Time → Time → GatewayQueueDb → Result GatewayQueueDb
take_operation id owner expires now db = do
  guard (eqb (count_where (is_still_takeable id now) db.operations) 1) no_rows
  ok (record db {
    operations =
        update_where (is_still_takeable id now) (mark_taken owner expires now) db.operations;
  })

unfoldable pub get_database_gateway_operation :
    String → GatewayQueueDb → Result DatabaseGatewayOperation
get_database_gateway_operation id db =
    require no_rows (find_where (has_key operation_id_of (trim_space id)) db.operations)

-- The row is read back after the commit, so what that read comes to stands beside the database. A
-- lease is in nanoseconds.
unfoldable pub claim_next_database_gateway_operation :
    String → ℕ → Time → GatewayQueueDb → Result (Result DatabaseGatewayOperation × GatewayQueueDb)
claim_next_database_gateway_operation raw_owner lease now db = do
  let owner = trim_space raw_owner
  guard (not ((owner == "") || ltb lease second)) invalid_input
  o ← require no_rows (first_row created_before (filter_rows (is_claimable now db) db.operations))
  db' ← take_operation o.id owner (now + lease) now db
  ok (get_database_gateway_operation o.id db', db')
