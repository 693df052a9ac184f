-- ===== src/Gateway/Taken.antt =====
-- What a claimed gateway operation is to a later claim.
use host_forge.Base.{◌+◌, String, List, true, ◌≡◌}
use host_forge.Base.Text.{trim_space}
use host_forge.Sql.Laws.{Member}
use host_forge.Sql.Keys.{DistinctBy}
use host_forge.Clock.{Time}
use host_forge.Base.{◌<◌, All}
use host_forge.Clock.{second}
use host_forge.Gateway.Queue.{
  DatabaseGatewayOperation, GatewayQueueDb, operation_id_of, is_claimable,
}

-- The rows of its id after a claim of `a`, whose lease ends at `expires`. The end is compared as a text,
-- which may be reached up to a second early.
abbrev pub IsHeldBy : String → Time → DatabaseGatewayOperation → GatewayQueueDb → Type 0
IsHeldBy owner expires a db =
    (b : DatabaseGatewayOperation)
    → Member b db.operations
    → b.id ≡ a.id
    → (b.lease_owner ≡ owner)
      × (b.attempt_count ≡ a.attempt_count + 1)
      × ((later : Time) → is_claimable later db b ≡ true → expires < later + second)

-- A table whose ids are distinct and carry no spaces.
pub record IsQueueTable (os : List DatabaseGatewayOperation) : Type 0 where
  pub distinct : DistinctBy operation_id_of os
  pub trimmed : All (λ o. trim_space o.id ≡ o.id) os
