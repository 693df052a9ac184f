-- ===== src/Examples/Runs.antt =====
-- Concrete runs of the queue: internal/repository/operations.go.
use host_forge.Base.{◌≡◌, refl, true, false, arith, inl, inr, All, ◌⊎◌, ◌==◌}
use host_forge.Base.Text.{trim_space, lowers_to, lower_code}
use host_forge.Queue.Progress.{
  ProgressReport, parse_lowered_status, update_database_operation, get_database_operation,
}
use host_forge.Queue.Reopened.{IsReopened, report-IsReopened}
use host_forge.Sql.{ok, err, no_rows}
use host_forge.Sql.Laws.{Member, All-Member}
use host_forge.Queue.Rows.{Operation, DatabaseOperation, Db, parse_status}
use host_forge.Queue.Enqueue.{get_operation}
use host_forge.Queue.Claim.{claim_next_operation}
use host_forge.Queue.Lifecycle.{Evolves}
use host_forge.Queue.Steps.{step, run}
use host_forge.Queue.Changes.Commands.{IsSound}
use host_forge.Queue.Changes.Claims.{IsRunnable, claim_time}
use host_forge.Queue.Invariants.{
  Spares, ReportsRunning, IsValid, step-Evolves, run-IsValid, run-terminal,
}
use host_forge.Queue.Selection.{claim-IsFirst, IsFirst, claimed_row}
use host_forge.Queue.Recovered.{recover_settles, has_queued}
use host_forge.Queue.Deployments.{run-Frozen}
use host_forge.Queue.Mirror.{run-InStep}
use host_forge.Queue.Mirror.Commands.{DbInStep}
use host_forge.Base.{exists_where}
use host_forge.Queue.Rows.{is_pending}
use host_forge.Queue.Enqueue.{has_id}
use host_forge.Queue.Recovery.{running_now, recover_operations}
use host_forge.Queue.Mirror.Agreement.{Agrees}
use host_forge.Base.{String}
use host_forge.Examples.Fixtures.{
  queue, mirror, backing_up, old_success, new_claim, all_commands, shipped, claim_command, halfway,
}

pub queue-IsValid : IsValid queue
queue-IsValid = record {
  distinct = (refl, (refl, (refl, tt)));
  exclusive = ((λ e. refl), ((λ e. refl), ((λ e. refl), tt)));
  limited = (omega arith, (omega arith, (omega arith, tt)));
}

all_commands-IsSound : All IsSound all_commands
unfolding parse_status trim_space parse_lowered_status lowers_to lower_code
all_commands-IsSound = (
  (λ e. cc),
  (
    (λ e. cc),
    (
      record {
        trimmed = refl;
        idle = refl;
        attempt_count = refl;
        error_code = refl;
        error_message = refl;
      },
      (tt, (tt, (tt, (tt, (tt, (tt, (tt, (tt, (tt, tt))))))))),
    ),
  ),
)

all_commands-ReportsRunning : ReportsRunning all_commands queue
unfolding trim_space
all_commands-ReportsRunning =
    (refl, (tt, (tt, (tt, (tt, (tt, (tt, (tt, (tt, (tt, (tt, (tt, tt))))))))))))

all_commands-Spares : All (Spares old_success.id) all_commands
unfolding trim_space
all_commands-Spares = (refl, (tt, (tt, (tt, (tt, (tt, (tt, (tt, (tt, (tt, (tt, (tt, tt))))))))))))

abbrev SameFields : Operation → DatabaseOperation → Type 0
SameFields o d = (d.id == o.id) ≡ true → Agrees o d

abbrev AllSame : Operation → Type 0
AllSame o = All (SameFields o) queue.database_operations

mirror-Agrees : (o : Operation) (operation_type : String) → Agrees o (mirror o operation_type)
mirror-Agrees o operation_type = record {
  service_id = refl;
  status = refl;
  progress_step = refl;
  progress_percent = refl;
  attempt = refl;
  error_code = refl;
  error_message = refl;
  started_at = refl;
  completed_at = refl;
}

queue-same : All AllSame queue.operations
queue-same = (
  ((λ e. cc), ((λ e. cc), tt)),
  (
    ((λ e. mirror-Agrees backing_up "backup"), ((λ e. cc), tt)),
    (((λ e. cc), ((λ e. mirror-Agrees old_success "backup"), tt)), tt),
  ),
)

queue-InStep : DbInStep queue
queue-InStep = record {
  paired = λ d m.
      All-Member (λ r. exists_where (has_id r.id) queue.operations ≡ true) d
        queue.database_operations (refl, (refl, tt)) m;
  mirrors = λ o d m n.
      All-Member (SameFields o) d queue.database_operations
        (All-Member AllSame o queue.operations queue-same m) n;
}

run-IsValid_example : IsValid (run all_commands queue)
run-IsValid_example =
    run-IsValid all_commands queue all_commands-IsSound all_commands-ReportsRunning queue-IsValid

run-InStep_example : DbInStep (run all_commands queue)
run-InStep_example =
    run-InStep all_commands queue all_commands-IsSound queue-IsValid.distinct queue-InStep

step-Evolves_example : Evolves queue.operations (step claim_command queue).operations
step-Evolves_example = step-Evolves claim_command queue tt tt queue-IsValid.distinct

run-terminal_example : Member old_success (run all_commands queue).operations
run-terminal_example =
    run-terminal all_commands queue old_success all_commands-IsSound all_commands-Spares
      queue-IsValid.distinct (inr (inr (inl refl))) refl

run-Frozen_example : Member shipped (run all_commands queue).deployments
run-Frozen_example =
    run-Frozen all_commands queue shipped all_commands-IsSound (inr (inl refl)) refl

recover_settles_example :
    (exists_where running_now (recover_operations 20 queue).2.operations ≡ false)
    × All
        (λ d.
          is_pending d.status ≡ true
          → has_queued (recover_operations 20 queue).2.operations d ≡ true)
        (recover_operations 20 queue).2.deployments
recover_settles_example = recover_settles 20 queue

claim-IsFirst_example :
    ((c : Operation) × (db' : Db) × (claim_next_operation new_claim 10 queue
        ≡ ok (get_operation c.id db', db'))
      × IsFirst new_claim 10 queue c
      × Member (claimed_row new_claim 10 c) db'.operations)
    ⊎ ((claim_next_operation new_claim 10 queue ≡ err no_rows)
        × ((o : Operation)
            → Member o queue.operations
            → ¬ IsRunnable (claim_time new_claim 10) new_claim queue.operations o))
claim-IsFirst_example =
    claim-IsFirst new_claim 10 queue (unfold trim_space in refl) (omega arith)
      queue-IsValid.distinct

-- The backup that has ended runs again.
abbrev again : ProgressReport
again = record halfway { id = "op0" }

report-IsReopened_example :
    (db' : Db) × (update_database_operation again 9 queue
      ≡ ok (get_database_operation again.id db', db'))
    × IsReopened old_success db'
report-IsReopened_example =
    report-IsReopened again 25 9 queue old_success refl
      (unfold parse_lowered_status trim_space lowers_to lower_code in refl)
      (unfold trim_space in refl) (inr (inr (inl refl))) (unfold trim_space in refl)
