-- ===== src/Workers/HoldLease.antt =====
-- Keeping a claim alive: holdLease of internal/workers/claim.go. The select loop is a list of beats: what
-- other transactions did since the last one, and which ticker fired. The list ends when the operation's
-- context is done.
use host_forge.Base.{ℕ, String, List, [], ◌∷◌, Bool, true, false}
use host_forge.Sql.{Result, ok, err, Error, unavailable}
use host_forge.Clock.{Time}
use host_forge.Queue.Rows.{Db}
use host_forge.Queue.Lease.{renew_operation_lease}
use host_forge.Queue.Cancel.{operation_cancellation_requested}
use host_forge.Queue.Steps.{Command, run}

pub data Tick : Type 0 where
  watches : Tick
  renews_at : Time → Tick
  -- The store does not answer, and the operation's context is not done.
  watch_fails : Tick
  renewal_fails : Tick

pub record Beat : Type 0 where
  pub between : List Command
  pub tick : Tick

-- Why the loop ends: the work is over, cancellation was requested, or the renewal reported an error,
-- which is logged as a lost lease. The last two cancel the handler's context. `unavailable` is what a
-- store that does not answer reports.
pub data Stop : Type 0 where
  over asked : Stop
  lost : Error → Stop

-- The loop goes on where neither ticker found a reason to stop.
abbrev after_watch : Bool → Db → Stop × Db → Stop × Db
after_watch true db rest = (asked, db)
after_watch false db rest = rest

abbrev after_renewal : Result (Bool × Db) → Db → (Db → Stop × Db) → Stop × Db
after_renewal (err e) db rest = (lost e, db)
after_renewal (ok (true, db')) db rest = (asked, db')
after_renewal (ok (false, db')) db rest = rest db'

unfoldable pub on_tick : Tick → String → String → ℕ → Db → (Db → Stop × Db) → Stop × Db
on_tick watches owner id lease db rest =
    after_watch (operation_cancellation_requested id db) db (rest db)
on_tick (renews_at now) owner id lease db rest =
    after_renewal (renew_operation_lease id owner lease now db) db rest
on_tick watch_fails owner id lease db rest = rest db
on_tick renewal_fails owner id lease db rest = after_renewal (err unavailable) db rest

unfoldable pub hold_lease : List Beat → String → String → ℕ → Db → Stop × Db
hold_lease [] owner id lease db = (over, db)
hold_lease (b ∷ bs) owner id lease db =
    on_tick b.tick owner id lease (run b.between db) (λ db'. hold_lease bs owner id lease db')
