-- ===== src/Queue/Lifecycle.antt =====
-- The specification of the queue: the moves that one operation may make, and what a transaction may do
-- to the table of operations (the comments of internal/repository/operations.go, ADR-0002).
use host_forge.Base.{
  ◌+◌, ◌-◌, ◌≤◌, ◌<◌, List, [], ◌∷◌, ◌++◌, Bool, true, false, ◌≡◌, All, exists_where,
}
use host_forge.Sql.{update_where}
use host_forge.Queue.Rows.{OpStatus, Operation, is_queued, is_running, is_terminal}
use host_forge.Queue.Enqueue.{has_id}
use host_forge.Queue.Claim.{holds_lock, claimable}

-- What no move changes.
pub record Frame (o p : Operation) : Type 0 where
  pub id : p.id ≡ o.id
  pub kind : p.kind ≡ o.kind
  pub lock_key : p.lock_key ≡ o.lock_key
  pub priority : p.priority ≡ o.priority
  pub max_attempts : p.max_attempts ≡ o.max_attempts
  pub service_id : p.service_id ≡ o.service_id
  pub created_at : p.created_at ≡ o.created_at

-- `o` becomes `p`. A move that takes a lease away, or ends the operation, starts from `running` or
-- `queued`; no move starts from a terminal status.
pub data Move (o p : Operation) : Type 0 where
  stays : p ≡ o → Move o p
  touched :
      is_running o.status ≡ true
      → p.status ≡ o.status
      → p.attempt ≡ o.attempt
      → Frame o p
      → Move o p
  claimed :
      is_queued o.status ≡ true
      → is_running p.status ≡ true
      → o.attempt < o.max_attempts
      → p.attempt ≡ o.attempt + 1
      → Frame o p
      → Move o p
  deferred :
      is_running o.status ≡ true
      → is_queued p.status ≡ true
      → p.attempt ≡ o.attempt - 1
      → Frame o p
      → Move o p
  finished :
      is_running o.status ≡ true
      → is_terminal p.status ≡ true
      → p.attempt ≡ o.attempt
      → Frame o p
      → Move o p
  cancelled :
      is_queued o.status ≡ true
      → p.status ≡ OpStatus.cancelled
      → p.attempt ≡ o.attempt
      → Frame o p
      → Move o p
  interrupted :
      is_running o.status ≡ true
      → o.max_attempts ≤ o.attempt
      → p.status ≡ OpStatus.failed
      → p.attempt ≡ o.attempt
      → Frame o p
      → Move o p
  requeued :
      is_running o.status ≡ true
      → o.attempt < o.max_attempts
      → is_queued p.status ≡ true
      → p.attempt ≡ o.attempt
      → Frame o p
      → Move o p

-- A row that enters the table.
pub record IsNew (o : Operation) : Type 0 where
  pub attempt : o.attempt ≡ 0
  pub max_attempts : 1 ≤ o.max_attempts
  pub idle : is_running o.status ≡ false

-- Row by row: each old row makes one move, in place, and the rows behind them are new.
abbrev pub Evolves : List Operation → List Operation → Type 0
Evolves [] ps = All IsNew ps
Evolves (o ∷ os) [] = ⊥
Evolves (o ∷ os) (p ∷ ps) = Move o p × Evolves os ps

-- No two rows share an id.
abbrev pub Distinct : List Operation → Type 0
Distinct [] = Unit {0}
Distinct (o ∷ os) = (exists_where (has_id o.id) os ≡ false) × Distinct os

-- No two running rows share a lock key.
abbrev pub Exclusive : List Operation → Type 0
Exclusive [] = Unit {0}
Exclusive (o ∷ os) =
    (is_running o.status ≡ true → exists_where (holds_lock o.lock_key) os ≡ false) × Exclusive os

-- The same by table: what a transaction does to all rows at once. Only a claim starts a row, and it
-- starts the one row of its id, whose lock is free.
pub data Change (ops ops' : List Operation) : Type 0 where
  unchanged : ops' ≡ ops → Change ops ops'
  inserted :
      (o : Operation)
      → exists_where (has_id o.id) ops ≡ false
      → IsNew o
      → ops' ≡ ops ++ (o ∷ [])
      → Change ops ops'
  updated :
      (p : Operation → Bool) (f : Operation → Operation)
      → ((o : Operation) → p o ≡ true → Move o (f o))
      → ((o : Operation) → p o ≡ true → is_running (f o).status ≡ true → is_running o.status ≡ true)
      → ops' ≡ update_where p f ops
      → Change ops ops'
  started :
      (c : Operation) (f : Operation → Operation)
      → ((o : Operation) → claimable c.id o ≡ true → o.attempt < o.max_attempts → Move o (f o))
      → All
          (λ o. claimable c.id o ≡ true → (o.attempt < o.max_attempts) × (o.lock_key ≡ c.lock_key))
          ops
      → exists_where (holds_lock c.lock_key) ops ≡ false
      → ops' ≡ update_where (claimable c.id) f ops
      → Change ops ops'
