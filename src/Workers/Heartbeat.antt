-- ===== src/Workers/Heartbeat.antt =====
-- The ends of the lease loop: holdLease of internal/workers/claim.go.
use mathlib.Core.Path.{subst}
use host_forge.Base.{
  ℕ, ◌+◌, ◌≡◌, refl, arith, String, some, List, [], ◌∷◌, Bool, false, ap, true, ◌&&◌, ◌==◌, inl,
  inr, ◌⊎◌, Bool-cases, Option-cases, exists_where, All,
}
use host_forge.Base.Text.{trim_space}
use host_forge.Sql.{find_where, ok, err, no_rows, unavailable}
use host_forge.Sql.Laws.{Member, find_where_sound, exists_where-Member}
use host_forge.Clock.{Time, at}
use host_forge.Queue.Rows.{Operation, Db, is_running}
use host_forge.Queue.Lease.{is_held, is_set, renew_operation_lease}
use host_forge.Queue.Cancel.{operation_cancellation_requested}
use host_forge.Queue.Enqueue.{has_id}
use host_forge.Queue.Steps.{renews, run, step}
use host_forge.Queue.Lifecycle.{Distinct}
use host_forge.Queue.Changes.Commands.{IsSound}
use host_forge.Queue.Changes.Outcomes.{renewed_db, renewed_row, renewed_database_row}
use host_forge.Queue.Changes.Tables.{update_held_cases}
use host_forge.Queue.Invariants.{run-Distinct, step-Distinct}
use host_forge.Queue.Leases.{renew-held}
use host_forge.Workers.Outcomes.{IsReleased}
use host_forge.Workers.HoldLease.{
  Beat, Tick, watches, renews_at, watch_fails, renewal_fails, Stop, over, asked, lost, on_tick,
  hold_lease,
}

abbrev is_failing : Tick → Bool
is_failing renewal_fails = true
is_failing _ = false

-- Some row of this id has a cancellation request.
abbrev IsAsked : String → Db → Type 0
IsAsked id db =
    (o : Operation) × Member o db.operations
    × ((o.id == trim_space id) ≡ true)
    × (is_set o.cancel_requested_at ≡ true)

abbrev pub is_failure : Beat → Bool
is_failure b = is_failing b.tick

-- What each end of the loop says about the database it leaves, and about the ticks.
abbrev pub IsJustified : String → String → List Beat → Stop × Db → Type 0
IsJustified id owner beats (over, db) = Unit {0}
IsJustified id owner beats (asked, db) = IsAsked id db
IsJustified id owner beats (lost e, db) =
    ((e ≡ no_rows) × IsReleased id owner db)
    ⊎ ((e ≡ unavailable) × (exists_where is_failure beats ≡ true))

later_beat :
    (id owner : String) (b : Beat) (beats : List Beat) (end : Stop × Db)
    → IsJustified id owner beats end
    → IsJustified id owner (b ∷ beats) end
later_beat id owner b beats (over, db) h = tt
later_beat id owner b beats (asked, db) h = h
later_beat id owner b beats (lost e, db) (inl h) = inl h
later_beat id owner b beats (lost e, db) (inr (q, h)) = inr (q, ground arith)

flag-IsAsked :
    (id : String) (db : Db) → operation_cancellation_requested id db ≡ true → IsAsked id db
unfolding operation_cancellation_requested
flag-IsAsked id db h =
    elim (Option-cases
      (find_where (λ o. (o.id == trim_space id) && is_running o.status) db.operations)) [
        | inl missing ↦ absurd (cc (h, missing))
        | inr (o, found) ↦
            let (passed, m) = find_where_sound _ o db.operations found in
            (o, m, ground arith, (rw found at h))
      ]

renew_flag_cases :
    (id owner : String) (lease : ℕ) (now : Time) (db : Db)
    → (renew_operation_lease id owner lease now db ≡ err no_rows)
      ⊎ ((o : Operation) × (find_where
              (has_id (trim_space id))
              (renewed_db id owner lease now db).operations
            ≡ some o)
          × (renew_operation_lease id owner lease now db
              ≡ ok (is_set o.cancel_requested_at, renewed_db id owner lease now db)))
unfolding renew_operation_lease
renew_flag_cases id owner lease now db =
    elim (update_held_cases (trim_space id) (trim_space owner)
      (renewed_row (at (now + lease)) (at now)) (renewed_database_row (at (now + lease)) (at now))
      db) [
        | inr (_, gone) ↦ inl (rw gone refl)
        | inl (_, held) ↦
            elim (Option-cases
              (find_where (has_id (trim_space id)) (renewed_db id owner lease now db).operations)) [
                | inl missing ↦ inl (rw (held, missing) refl)
                | inr (o, found) ↦ inr (o, found, rw (held, found) refl)
              ]
      ]

lost-IsReleased :
    (id owner : String) (lease : ℕ) (now : Time) (db : Db)
    → Distinct db.operations
    → renew_operation_lease id owner lease now db ≡ err no_rows
    → IsReleased id owner db
lost-IsReleased id owner lease now db d gone =
    elim (Bool-cases (exists_where (is_held (trim_space id) (trim_space owner)) db.operations)) [
      | inr no_one ↦ no_one
      | inl someone ↦
          let (o, m, h) = exists_where-Member _ db.operations someone in
          let (b, renewed, _) = renew-held id owner lease now db o d (m, h) in
          absurd (cc (gone, renewed))
    ]

on_tick-IsJustified :
    (b : Beat) (beats : List Beat) (t : Tick) (id owner : String) (lease : ℕ) (db : Db)
    (rest : Db → Stop × Db)
    → b.tick ≡ t
    → Distinct db.operations
    → ((db' : Db) → Distinct db'.operations → IsJustified id owner (b ∷ beats) (rest db'))
    → IsJustified id owner (b ∷ beats) (on_tick t owner id lease db rest)
unfolding on_tick
on_tick-IsJustified b beats watches id owner lease db rest q d k =
    elim (Bool-cases (operation_cancellation_requested id db)) [
      | inl yes_asked ↦ rw yes_asked (flag-IsAsked id db yes_asked)
      | inr not_asked ↦ rw not_asked (k db d)
    ]
on_tick-IsJustified b beats (renews_at now) id owner lease db rest q d k =
    elim (renew_flag_cases id owner lease now db) [
      | inl gone ↦ rw gone (inl (refl, lost-IsReleased id owner lease now db d gone))
      | inr (o, found, renewed) ↦
          let (named, m) = find_where_sound _ o _ found in
          elim (Bool-cases (is_set o.cancel_requested_at)) [
            | inl requested ↦ rw (renewed, requested) (o, m, named, requested)
            | inr not_requested ↦
                let next : step (renews id owner lease now) db ≡ renewed_db id owner lease now db =
                  unfold step in rw renewed refl in
                rw (renewed, not_requested)
                  (k (renewed_db id owner lease now db) (
                    subst (λ x. Distinct x.operations) next
                      (step-Distinct (renews id owner lease now) db tt d)))
          ]
    ]
on_tick-IsJustified b beats watch_fails id owner lease db rest q d k = k db d
on_tick-IsJustified b beats renewal_fails id owner lease db rest q d k =
    let failing : is_failing b.tick ≡ true = ap is_failing q in inr (refl, rw failing refl)

-- With distinct ids, and with sound commands between the beats (nothing is enqueued as already running,
-- a row of the read model is enqueued as one that was not tried yet, and no report puts an operation
-- back into the queue): when the loop says that cancellation
-- was requested, a row of the operation's id has the request; when the renewal reported no rows, no row
-- is running under that id and worker; and it reports another error only if the store failed to answer
-- a renewal.
pub hold_lease-IsJustified :
    (beats : List Beat) (id owner : String) (lease : ℕ) (db : Db)
    → All (λ (b : Beat). All IsSound b.between) beats
    → Distinct db.operations
    → IsJustified id owner beats (hold_lease beats owner id lease db)
unfolding hold_lease
hold_lease-IsJustified [] id owner lease db sound d = tt
hold_lease-IsJustified (b ∷ beats) id owner lease db sound d =
    on_tick-IsJustified b beats b.tick id owner lease (run b.between db) _ refl
      (run-Distinct b.between db sound.0 d)
      (λ db' d'.
        later_beat id owner b beats (hold_lease beats owner id lease db')
          (hold_lease-IsJustified beats id owner lease db' sound.1 d'))
