-- ===== src/Examples/Parts.antt =====
-- Concrete runs of the clock, leases, workers, deployments, metrics, ports and logs.
use host_forge.Base.{
  ℕ, List, [], ◌∷◌, ◌≡◌, ◌≢◌, refl, true, false, not, arith, inl, inr, ◌⊎◌, ◌==◌, none, some,
  Option, Bool, ◌≤◌, ◌<◌, ◌+◌, ◌-◌, ◌*◌, if◌then◌else◌, exists_where, length, drop, get_elem?, eqb,
}
use host_forge.Base.Int.{pos, negsuc}
use host_forge.Base.Text.{trim_space}
use host_forge.Sql.{ok}
use host_forge.Sql.Laws.{Member}
use host_forge.Clock.{second, at, stamp_le}
use host_forge.Clock.Order.{stamp_le-within_second, fraction_sorts_first}
use host_forge.Queue.Rows.{OpStatus, parse_status, Operation, DeployStatus}
use host_forge.Queue.Lease.{is_held}
use host_forge.Queue.Leases.{Holds, IsServed, IsTurnedAway, lease_decides}
use host_forge.Workers.Registry.{
  Handler, handled, Registry, lookup, lookup_kind, register, is_registered, lookup-register,
}
use host_forge.Queue.Claim.{kind_admitted, is_runnable}
use host_forge.Base.{is_nil, ◌||◌}
use host_forge.Workers.Admission.{claim-IsAdmitted}
use host_forge.Workers.Runtime.{Config, claim_options, HeldLease, release_held}
use host_forge.Workers.Outcomes.{IsOrderly, interrupted_status, release_held-status}
use host_forge.Deployments.Cancelled.{
  Action, commands, reports, cancels, act_all, act_all-cancelled,
}
use host_forge.Metrics.Ring.{history, new_sampler, push_all, ordered, latest, at_least_two}
use host_forge.Metrics.Window.{last, ordered_is_window}
use host_forge.Ports.{
  FirstFree, IsUsable, pick_host_port_avoiding, pick_range_first, picked-IsUsable,
}
use host_forge.Logs.Tail.{tail_file, trim_newlines, clamp, max_tail_bytes}
use host_forge.Logs.Lines.{AreLastLines, tail_file-AreLastLines}
use host_forge.Workers.HoldLease.{Beat, renews_at, watches, watch_fails, hold_lease}
use host_forge.Workers.Heartbeat.{IsJustified, hold_lease-IsJustified}
use host_forge.Metrics.Memory.{Meminfo, mem_sample_from_meminfo, available_kb, mem_sample-IsSmall}
use host_forge.Queue.Enqueue.{
  new_operation, enqueue_operation, insert_operation, insert_unique, get_operation,
}
use host_forge.Queue.Changes.Inserts.{with_row}
use host_forge.Queue.Enqueued.{IsAppended, enqueue-IsAppended}
use host_forge.Queue.Steps.{cancels_service}
use host_forge.Examples.Fixtures.{given, queue, backing_up, succeeded, dropped, claim_command}
use host_forge.Examples.Runs.{queue-IsValid}

stamp_le-within_second_example :
    (stamp_le (at 5) (at 7) ≡ true → 5 < 7 + second)
    × (5 + second ≤ 7 → stamp_le (at 5) (at 7) ≡ true)
stamp_le-within_second_example = stamp_le-within_second 5 7

fraction_sorts_first_example : stamp_le (at (3 * second + 500000000)) (at (3 * second)) ≡ true
fraction_sorts_first_example = fraction_sorts_first 3 500000000 (omega arith) (omega arith)

lease_decides_example :
    ((o : Operation) × Holds "op1" "w1" o queue
      × IsServed succeeded OpStatus.success 7 second 20 queue o)
    ⊎ ((exists_where (is_held (trim_space "op1") (trim_space "w1")) queue.operations ≡ false)
        × IsTurnedAway succeeded 7 second 20 queue)
lease_decides_example =
    lease_decides succeeded OpStatus.success 7 second 20 queue (unfold parse_status in refl) refl
      queue-IsValid.distinct

abbrev backup_handler : Handler
backup_handler = record { kind = "db_backup"; ready = none; handle = λ o db. (handled, db) }

abbrev config : Config
config = record {
  concurrency = pos 1;
  lease = pos second;
  lease_refresh = pos second;
  cancel_poll = pos second;
  poll_interval = pos second;
  min_priority = pos 0;
  skip_recovery = false;
}

abbrev registry : Registry
registry = ("db_backup", backup_handler) ∷ []

abbrev OrderlyOption : Option Handler → Type 0
OrderlyOption none = Unit {0}
OrderlyOption (some h) = IsOrderly h

lookup-register_example :
    (lookup registry " db_backup " ≡ (
      if trim_space "db_backup" == trim_space " db_backup "
      then some backup_handler
      else lookup [] " db_backup "))
    × (lookup_kind (trim_space "db_backup") [] ≡ none)
    × (trim_space "db_backup" ≢ "")
lookup-register_example =
    lookup-register [] registry backup_handler " db_backup "
      (unfold register lookup_kind trim_space in refl)

claim-IsAdmitted_example :
    (kind_admitted (claim_options config registry "w1").kinds backing_up.kind
      ≡ (is_nil registry || is_registered (lookup_kind backing_up.kind registry)))
    × (is_runnable 20 (claim_options config registry "w1") queue.operations backing_up ≡ true
        → (is_nil registry || is_registered (lookup_kind backing_up.kind registry)) ≡ true)
claim-IsAdmitted_example = claim-IsAdmitted config registry "w1" 20 queue.operations backing_up

abbrev held : HeldLease
held = record { id = "op1"; owner = "w1"; max_attempts = 5 }

release_held-status_example :
    (p : Operation) × Member p (release_held 20 queue held).operations
    × (p.id ≡ backing_up.id)
    × (p.status ≡ interrupted_status 5)
release_held-status_example =
    release_held-status 20 queue held backing_up queue-IsValid.distinct
      (inr (inl refl), unfold trim_space in refl)

abbrev after_cancel : List Action
after_cancel =
    commands claim_command ∷ reports "depx" DeployStatus.failed "late" 30 ∷ cancels "dep1" 31 ∷ []

act_all-cancelled_example : Member dropped (act_all after_cancel queue).deployments
act_all-cancelled_example =
    act_all-cancelled after_cancel queue dropped (tt, (tt, (tt, tt))) (inr (inr (inl refl))) refl

abbrev samples : List ℕ
samples = 5 ∷ 6 ∷ 7 ∷ []

ordered_is_window_example :
    (ordered (push_all (new_sampler (pos 2)) samples) ≡ last (at_least_two (pos 2)) samples)
    × (latest (push_all (new_sampler (pos 2)) samples) ≡ get_elem? samples 2)
    × (history (push_all (new_sampler (pos 2)) samples) (pos 1)
        ≡ last 1 (last (at_least_two (pos 2)) samples))
ordered_is_window_example = ordered_is_window (pos 2) samples 0

abbrev not_in_use : ℕ → Bool
not_in_use p = not (eqb p 8001)

abbrev given_port : ℕ → Option ℕ
given_port attempt = some 40000

pick_range_first_example :
    FirstFree not_in_use given_port
      (8000 ∷ [])
      8000
      11
      (pick_host_port_avoiding not_in_use given_port (negsuc 0) (pos 8000) (pos 8010) (8000 ∷ []))
pick_range_first_example =
    pick_range_first not_in_use given_port 8000 8010 (8000 ∷ []) 0 (omega arith) (omega arith)

picked-IsUsable_example :
    IsUsable not_in_use given_port
      (pos 0)
      (8000 ∷ [])
      (pick_host_port_avoiding not_in_use given_port (pos 0) (pos 8000) (pos 8010) (8000 ∷ []))
picked-IsUsable_example =
    picked-IsUsable not_in_use given_port (pos 0) (pos 8000) (pos 8010) (8000 ∷ [])

abbrev log_bytes : List ℕ
log_bytes = 97 ∷ 10 ∷ 98 ∷ 10 ∷ 99 ∷ 10 ∷ []

tail_file-AreLastLines_example :
    (rest : List ℕ) × (tail_file (some log_bytes) (pos 4) (pos 2) ≡ some rest)
    × AreLastLines 2 (trim_newlines (drop (length log_bytes - clamp (pos 4)) log_bytes)) rest
    × (length rest ≤ max_tail_bytes)
tail_file-AreLastLines_example = tail_file-AreLastLines log_bytes (pos 4) 1

abbrev beats : List Beat
beats =
    record { between = []; tick = renews_at 20 }
    ∷ record { between = []; tick = watch_fails }
    ∷ record { between = cancels_service "svc" 21 ∷ []; tick = watches }
    ∷ []

hold_lease-IsJustified_example :
    IsJustified "op1" "w1" beats (hold_lease beats "w1" "op1" second queue)
hold_lease-IsJustified_example =
    hold_lease-IsJustified beats "op1" "w1" second queue (tt, (tt, ((tt, tt), tt)))
      queue-IsValid.distinct

abbrev meminfo : Meminfo
meminfo = record {
  mem_total = 8000;
  mem_available = 3000;
  mem_free = 1000;
  buffers = 500;
  cached = 1500;
  swap_total = 100;
  swap_free = 200;
}

mem_sample-IsSmall_example :
    ((mem_sample_from_meminfo meminfo).total_bytes ≡ pos (8000 * 1024))
    × ((mem_sample_from_meminfo meminfo).used_bytes ≡ pos ((8000 - available_kb meminfo) * 1024))
    × ((mem_sample_from_meminfo meminfo).available_bytes ≡ pos (available_kb meminfo * 1024))
    × ((mem_sample_from_meminfo meminfo).buffers_cached_bytes
        ≡ pos ((meminfo.buffers + meminfo.cached) * 1024))
    × ((mem_sample_from_meminfo meminfo).swap_total_bytes ≡ pos (100 * 1024))
    × ((mem_sample_from_meminfo meminfo).swap_used_bytes ≡ pos ((100 - 200) * 1024))
mem_sample-IsSmall_example = mem_sample-IsSmall meminfo (record {
  mem_total = omega arith;
  mem_available = omega arith;
  mem_free = omega arith;
  buffers = omega arith;
  cached = omega arith;
  swap_total = omega arith;
  swap_free = omega arith;
})

abbrev enqueued : Operation
enqueued = new_operation (record given { id = "op9" }) OpStatus.queued 5 40

enqueue-IsAppended_example : IsAppended "op9" given queue (ok enqueued) (with_row enqueued queue)
enqueue-IsAppended_example =
    enqueue-IsAppended "op9" given 40 queue (ok enqueued) (with_row enqueued queue) (
      unfold enqueue_operation insert_operation insert_unique get_operation new_operation
        parse_status trim_space in
      refl)
