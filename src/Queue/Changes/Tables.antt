-- ===== src/Queue/Changes/Tables.antt =====
-- Which tables the projections leave alone, and what the guarded updates do to the others.
use host_forge.Base.{
  ◌≡◌, refl, String, Bool, true, false, arith, eqb, Bool-cases, inl, inr, List, ◌⊎◌,
}
use host_forge.Sql.{update_where, count_where, ok, err, no_rows}
use host_forge.Sql.Laws.{Member}
use host_forge.Sql.Updates.{Member-update_where_other}
use host_forge.Clock.{Stamp}
use host_forge.Queue.Rows.{
  OpStatus, Operation, DatabaseOperation, DeployStatus, Deployment, Db, is_terminal, is_pending,
}
use host_forge.Queue.Deploys.{
  project_update, record_deployment_status_event, project_deploy_claim, project_deploy_defer,
  project_deploy_complete,
}
use host_forge.Queue.Lease.{is_held, database_has_id, update_held}

-- A deployment that has ended keeps its row.
abbrev pub Frozen : List Deployment → List Deployment → Type 0
Frozen ds ds' = (d : Deployment) → Member d ds → is_pending d.status ≡ false → Member d ds'

-- A projection onto deployments: the queue's tables are the same, and ended deployments stay.
pub record SameQueue (db db' : Db) : Type 0 where
  pub operations : db'.operations ≡ db.operations
  pub database_operations : db'.database_operations ≡ db.database_operations
  pub frozen : Frozen db.deployments db'.deployments

-- An UPDATE of pending rows only.
pub Frozen-update_where :
    (p : Deployment → Bool) (f : Deployment → Deployment) (ds : List Deployment)
    → ((d : Deployment) → p d ≡ true → is_pending d.status ≡ true)
    → Frozen ds (update_where p f ds)
Frozen-update_where p f ds pending d m ended =
    Member-update_where_other p f d ds (ground (arith, pending d)) m

SameQueue-project_update :
    (p : Deployment → Bool) (f : Deployment → Deployment) (id : String) (status : DeployStatus)
    (detail : String) (now : Stamp) (db : Db)
    → ((d : Deployment) → p d ≡ true → is_pending d.status ≡ true)
    → SameQueue db (project_update p f id status detail now db)
unfolding project_update record_deployment_status_event
SameQueue-project_update p f id status detail now db pending =
    let frozen = Frozen-update_where p f db.deployments pending in
    elim (Bool-cases (eqb (count_where p db.deployments) 0)) [
      | inl e ↦ rw e (record { operations = refl; database_operations = refl; frozen = frozen })
      | inr e ↦ rw e (record { operations = refl; database_operations = refl; frozen = frozen })
    ]

pub SameQueue-claim :
    (id : String) (now : Stamp) (db : Db) → SameQueue db (project_deploy_claim id now db)
unfolding project_deploy_claim
SameQueue-claim id now db = SameQueue-project_update _ _ id _ _ now db (λ d h. ground arith)

pub SameQueue-defer :
    (id : String) (now : Stamp) (db : Db) → SameQueue db (project_deploy_defer id now db)
unfolding project_deploy_defer
SameQueue-defer id now db = SameQueue-project_update _ _ id _ _ now db (λ d h. ground arith)

-- A terminal status is projected, and the queue keeps its rows.
pub project_deploy_complete_ok :
    (id : String) (status : OpStatus) (message : String) (now : Stamp) (db : Db)
    → is_terminal status ≡ true
    → (db' : Db) × (project_deploy_complete id status message now db ≡ ok db') × SameQueue db db'
unfolding project_deploy_complete
project_deploy_complete_ok id OpStatus.success message now db t =
    (_, refl, SameQueue-project_update _ _ id _ _ now db (λ d h. ground arith))
project_deploy_complete_ok id OpStatus.failed message now db t =
    (_, refl, SameQueue-project_update _ _ id _ _ now db (λ d h. ground arith))
project_deploy_complete_ok id OpStatus.cancelled message now db t =
    (_, refl, SameQueue-project_update _ _ id _ _ now db (λ d h. ground arith))
project_deploy_complete_ok id OpStatus.queued message now db t = cc
project_deploy_complete_ok id OpStatus.running message now db t = cc

abbrev pub held_db :
    String → String → (Operation → Operation) → (DatabaseOperation → DatabaseOperation) → Db → Db
held_db id owner f g db = record db {
  operations = update_where (is_held id owner) f db.operations;
  database_operations = update_where (database_has_id id) g db.database_operations;
}

-- Held: both tables are written. Not held: no rows.
pub update_held_cases :
    (id owner : String) (f : Operation → Operation) (g : DatabaseOperation → DatabaseOperation)
    (db : Db)
    → ((eqb (count_where (is_held id owner) db.operations) 1 ≡ true)
        × (update_held id owner f g db ≡ ok (held_db id owner f g db)))
      ⊎ ((eqb (count_where (is_held id owner) db.operations) 1 ≡ false)
          × (update_held id owner f g db ≡ err no_rows))
unfolding update_held
update_held_cases id owner f g db =
    elim (Bool-cases (eqb (count_where (is_held id owner) db.operations) 1)) [
      | inl e ↦ inl (e, rw e refl)
      | inr e ↦ inr (e, rw e refl)
    ]
