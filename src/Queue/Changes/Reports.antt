-- ===== src/Queue/Changes/Reports.antt =====
-- A handler's report and the deletion of a service, as changes of the table of operations.
use host_forge.Base.{
  ℕ, sym, ap, ◌∙◌, ◌≡◌, ◌≢◌, refl, some, String, Bool, true, false, not, ◌&&◌, arith, eqb,
  Bool-cases, Option-cases, inl, inr, List, [], ◌∷◌, ◌⊎◌, ◌==◌, exists_where,
}
use host_forge.Base.Text.{trim_space}
use host_forge.Sql.{update_where, count_where}
use host_forge.Clock.{Time}
use host_forge.Queue.Rows.{OpStatus, Operation, Db, is_running, is_terminal}
use host_forge.Queue.Enqueue.{has_id}
use host_forge.Queue.Lease.{database_has_id}
use host_forge.Queue.Cancel.{is_unasked_of, mark_asked}
use host_forge.Queue.Progress.{
  ProgressReport, ProgressUpdate, percent, parse_lowered_status, mark_progress, progress_update,
  write_progress, update_database_operation,
}
use host_forge.Queue.Removal.{
  ServiceTables, is_running_of, is_queued_of, is_kept_of, mark_removed, cancel_queued_of,
  ask_running_of, delete_idle_service, begin_database_service_deletion,
}
use host_forge.Queue.Steps.{after, queue_after}
use host_forge.Queue.Lifecycle.{Move, touched, finished, cancelled, Change, unchanged, updated}
use host_forge.Queue.Changes.Update.{mark_asked-Move}

-- A report writes nothing, or both rows.
pub report_cases :
    (r : ProgressReport) (now : Time) (db : Db)
    → (after db (update_database_operation r now db) ≡ db)
      ⊎ ((status : OpStatus) × (n : ℕ) × (parse_lowered_status r.status ≡ some status)
          × (after db (update_database_operation r now db)
              ≡ write_progress (trim_space r.id) (progress_update r status n now) db))
unfolding update_database_operation
report_cases r now db = elim (Option-cases (percent r.progress)) [
  | inl bad ↦ inl (rw bad refl)
  | inr (n, good) ↦
      elim (Bool-cases (exists_where (database_has_id (trim_space r.id)) db.database_operations)) [
        | inr missing ↦ inl (rw (good, missing) refl)
        | inl there ↦ elim (Option-cases (parse_lowered_status r.status)) [
          | inl unknown ↦ inl (rw (good, there, unknown) refl)
          | inr (status, parsed) ↦ inr (status, n, parsed, rw (good, there, parsed) refl)
        ]
      ]
]

-- Where only rows of `q` pass, an UPDATE may as well ask for `q`.
update_where_narrow :
    (p q : Operation → Bool) (f : Operation → Operation) (xs : List Operation)
    → exists_where (λ o. p o && not (q o)) xs ≡ false
    → update_where p f xs ≡ update_where (λ o. p o && q o) f xs
update_where_narrow p q f [] h = refl
update_where_narrow p q f (x ∷ xs) h = ground (arith, update_where_narrow p q f xs)

running_status : (s : OpStatus) → is_running s ≡ true → s ≡ OpStatus.running
running_status OpStatus.running h = refl
running_status OpStatus.queued h = cc
running_status OpStatus.success h = cc
running_status OpStatus.failed h = cc
running_status OpStatus.cancelled h = cc

progress-Move :
    (u : ProgressUpdate) (o : Operation)
    → is_running o.status ≡ true
    → u.status ≢ OpStatus.queued
    → Move o (mark_progress u o)
unfolding mark_progress
progress-Move u o h not_queued = by_status u.status refl
  where
    by_status : (s : OpStatus) → u.status ≡ s → Move o (mark_progress u o)
    by_status OpStatus.queued e = absurd (not_queued e)
    by_status OpStatus.running e =
        touched h (e ∙ sym (running_status o.status h)) refl (ground arith)
    by_status OpStatus.success e = finished h (ap is_terminal e) refl (ground arith)
    by_status OpStatus.failed e = finished h (ap is_terminal e) refl (ground arith)
    by_status OpStatus.cancelled e = finished h (ap is_terminal e) refl (ground arith)

pub report-Change :
    (r : ProgressReport) (now : Time) (db : Db)
    → parse_lowered_status r.status ≢ some OpStatus.queued
    → exists_where (λ o. has_id (trim_space r.id) o && not (is_running o.status)) db.operations
      ≡ false
    → Change db.operations (after db (update_database_operation r now db)).operations
unfolding write_progress progress_update
report-Change r now db not_queued meets = elim (report_cases r now db) [
  | inl same ↦ rw same (unchanged refl)
  | inr (status, n, parsed, done) ↦ rw done (
      updated (λ o. has_id (trim_space r.id) o && is_running o.status)
        (mark_progress (progress_update r status n now))
        (λ o h.
          progress-Move (progress_update r status n now) o (ground arith)
            (λ e. not_queued (parsed ∙ ap some e)))
        (λ o h k. ground arith)
        (update_where_narrow (has_id (trim_space r.id)) (λ o. is_running o.status) _ db.operations
          meets))
]

mark_removed-Move :
    (id : String) (now : Time) (o : Operation)
    → is_queued_of id o ≡ true
    → Move o (mark_removed now o)
unfolding mark_removed
mark_removed-Move id now o h = cancelled (ground arith) refl refl (ground arith)

-- A deletion writes nothing, cancels the queued operations, or asks the running ones to stop.
pub removal_cases :
    (id : String) (tables : ServiceTables) (now : Time) (db : Db)
    → (queue_after db (begin_database_service_deletion id now tables db) ≡ db)
      ⊎ ((queue_after db (begin_database_service_deletion id now tables db)
            ≡ cancel_queued_of (trim_space id) now db)
          ⊎ (queue_after db (begin_database_service_deletion id now tables db)
              ≡ ask_running_of (trim_space id) now db))
unfolding begin_database_service_deletion delete_idle_service
removal_cases id tables now db =
    elim (Bool-cases (exists_where (λ s. s == trim_space id) tables.services)) [
      | inr missing ↦ inl (rw missing refl)
      | inl there ↦
          elim (Bool-cases (eqb (count_where (is_running_of (trim_space id)) db.operations) 0)) [
            | inr busy ↦ inr (inr (rw (there, busy) refl))
            | inl idle ↦
                elim (Bool-cases
                  (eqb (count_where (is_kept_of (trim_space id)) tables.instances) 0)) [
                    | inl gone ↦ inl (rw (there, idle, gone) refl)
                    | inr kept ↦ inr (inl (rw (there, idle, kept) refl))
                  ]
          ]
    ]

pub removal-Change :
    (id : String) (tables : ServiceTables) (now : Time) (db : Db)
    → Change db.operations
        (queue_after db (begin_database_service_deletion id now tables db)).operations
unfolding cancel_queued_of ask_running_of mark_removed mark_asked
removal-Change id tables now db = elim (removal_cases id tables now db) [
  | inl same ↦ rw same (unchanged refl)
  | inr (inl done) ↦ rw done (
      updated (is_queued_of (trim_space id)) (mark_removed now)
        (λ o h. mark_removed-Move (trim_space id) now o h) (λ o h r. cc) refl)
  | inr (inr done) ↦ rw done (
      updated (is_unasked_of (trim_space id)) (mark_asked now)
        (λ o h. mark_asked-Move now o (ground arith)) (λ o h r. ground arith) refl)
]
