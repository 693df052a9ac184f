-- ===== src/Deployments/Cancelled.antt =====
-- Cancelled deployments under everything else that writes deployments: internal/repository/store.go,
-- deployments_v2.go and the queue.
use host_forge.Base.{
  ◌≡◌, arith, String, List, [], ◌∷◌, ◌++◌, true, false, eqb, Bool-cases, inl, inr, All,
}
use host_forge.Base.Text.{trim_space}
use host_forge.Sql.{count_where}
use host_forge.Sql.Laws.{Member}
use host_forge.Sql.Updates.{Member-update_where_other}
use host_forge.Clock.{Time, whole_second}
use host_forge.Queue.Rows.{DeployStatus, Deployment, Db, is_deploy_cancelled, is_pending}
use host_forge.Queue.Deploys.{record_deployment_status_event, finish_cancelled}
use host_forge.Queue.Steps.{Command, step, settle, after}
use host_forge.Queue.Changes.Commands.{IsSound}
use host_forge.Queue.Deployments.{Frozen-step}
use host_forge.Deployments.Store.{
  Binding, Environment, CreateServiceDeploymentInput, create_service_deployment,
  update_deployment_status, cancel_deployment, is_open, is_cancellable, new_deployment,
  record_deployment_event,
}

-- What may happen to deployments, in any order: a transaction of the queue, a status that a deploy in
-- flight reports, an operator's cancellation, and a new deployment.
pub data Action : Type 0 where
  commands : Command → Action
  reports : String → DeployStatus → String → Time → Action
  cancels : String → Time → Action
  creates : List Binding → List Environment → String → CreateServiceDeploymentInput → Time → Action

unfoldable pub act : Action → Db → Db
act (commands c) db = step c db
act (reports id status message now) db =
    settle db (update_deployment_status id status message now db)
act (cancels id now) db = (cancel_deployment id now db).1
act (creates bindings environments fresh in' now) db =
    after db (create_service_deployment bindings environments fresh in' now db)

unfoldable pub act_all : List Action → Db → Db
act_all [] db = db
act_all (a ∷ rest) db = act_all rest (act a db)

abbrev IsSoundAction : Action → Type 0
IsSoundAction (commands c) = IsSound c
IsSoundAction _ = Unit {0}

ended : (d : Deployment) → is_deploy_cancelled d.status ≡ true → is_pending d.status ≡ false
ended d cancelled = ground arith

Member-left : (d : Deployment) (ds es : List Deployment) → Member d ds → Member d (ds ++ es)
Member-left d [] es m = absurd m
Member-left d (x ∷ ds) es (inl e) = inl e
Member-left d (x ∷ ds) es (inr m) = inr (Member-left d ds es m)

report-keeps :
    (id : String) (status : DeployStatus) (message : String) (now : Time) (db : Db) (d : Deployment)
    → Member d db.deployments
    → is_deploy_cancelled d.status ≡ true
    → Member d (settle db (update_deployment_status id status message now db)).deployments
unfolding update_deployment_status record_deployment_status_event
report-keeps id status message now db d m cancelled =
    elim (Bool-cases (eqb (count_where (is_open (trim_space id)) db.deployments) 0)) [
      | inl nothing ↦ rw nothing m
      | inr something ↦
          rw something (
            Member-update_where_other (is_open (trim_space id)) _ d db.deployments (ground arith) m)
    ]

cancel-keeps :
    (id : String) (now : Time) (db : Db) (d : Deployment)
    → Member d db.deployments
    → is_deploy_cancelled d.status ≡ true
    → Member d (cancel_deployment id now db).1.deployments
unfolding cancel_deployment record_deployment_event
cancel-keeps id now db d m cancelled =
    let kept =
      Member-update_where_other (is_cancellable (trim_space id))
        (finish_cancelled (whole_second now)) d db.deployments (ground (arith, ended d cancelled))
        m in
    elim (Bool-cases (eqb (count_where (is_cancellable (trim_space id)) db.deployments) 1)) [
      | inl one ↦ rw one kept
      | inr other ↦ rw other kept
    ]

create-keeps :
    (bindings : List Binding) (environments : List Environment) (fresh : String)
    (in' : CreateServiceDeploymentInput) (now : Time) (db : Db) (d : Deployment)
    → Member d db.deployments
    → Member d
        (after db (create_service_deployment bindings environments fresh in' now db)).deployments
unfolding create_service_deployment record_deployment_event
create-keeps bindings environments fresh in' now db d m =
    ground (arith, Member-left d db.deployments (new_deployment fresh in' now ∷ []) m, m)

act-keeps :
    (a : Action) (db : Db) (d : Deployment)
    → IsSoundAction a
    → Member d db.deployments
    → is_deploy_cancelled d.status ≡ true
    → Member d (act a db).deployments
unfolding act
act-keeps (commands c) db d sound m cancelled = Frozen-step c db sound d m (ended d cancelled)
act-keeps (reports id status message now) db d sound m cancelled =
    report-keeps id status message now db d m cancelled
act-keeps (cancels id now) db d sound m cancelled = cancel-keeps id now db d m cancelled
act-keeps (creates bindings environments fresh in' now) db d sound m cancelled =
    create-keeps bindings environments fresh in' now db d m

-- A cancelled deployment keeps its row, cancellation time included, through any order of sound queue
-- commands, of statuses that deploys in flight report, of cancellations and of new deployments.
pub act_all-cancelled :
    (actions : List Action) (db : Db) (d : Deployment)
    → All IsSoundAction actions
    → Member d db.deployments
    → is_deploy_cancelled d.status ≡ true
    → Member d (act_all actions db).deployments
unfolding act_all
act_all-cancelled [] db d sound m cancelled = m
act_all-cancelled (a ∷ rest) db d sound m cancelled =
    act_all-cancelled rest (act a db) d sound.1 (act-keeps a db d sound.0 m cancelled) cancelled
