-- ===== src/Backups/Window.antt =====
-- The hourly limit on transfers, seen from outside: any hour holds at most the limit.
use mathlib.Core.Path.{subst}
use host_forge.Base.{
  ℕ, suc, ◌-◌, ◌/◌, ◌≤◌, List, [], ◌∷◌, ◌++◌, Bool, true, false, ◌&&◌, ◌≡◌, sym, ap, ◌∙◌, arith,
  All, inl, inr, Bool-cases,
}
use host_forge.Base.Int.{ℤ, pos}
use host_forge.Sql.{count_where}
use host_forge.Clock.{Time, whole_second, stamp_le, second}
use host_forge.Clock.Texts.{stamp_le_trans, stamp_le-whole_second}
use host_forge.Queue.Rows.{DatabaseOperation, Db}
use host_forge.Backups.Rows.{BackupDb}
use host_forge.Backups.Transfers.{hour, is_recent_transfer}
use host_forge.Backups.Effects.{
  Effect, stays, adds_destination, edits_destinations, drops_destination, adds_policy,
  edits_policies, adds_backup, adds_job, edits_backups, drops_backup, edits_jobs, Transfers,
}
use host_forge.Backups.Effects.Steps.{step-Effect, limit_of}
use host_forge.Backups.Steps.{Command, step, run}

-- A transfer that was queued in the hour up to t, by the times as they are written.
abbrev pub is_in_hour : Time → DatabaseOperation → Bool
is_in_hour t op =
    is_recent_transfer (whole_second (t - hour)) op && stamp_le op.created_at (whole_second t)

abbrev pub HoldsAtMost : ℕ → List DatabaseOperation → Type 0
HoldsAtMost n ops = (t : Time) → count_where (is_in_hour t) ops ≤ n

whole_second_mono : (a b : Time) → a ≤ b → stamp_le (whole_second a) (whole_second b) ≡ true
whole_second_mono a b h =
    stamp_le-whole_second a b
    ∙ (let le : a / second ≤ b / second = omega (arith, h) in ground arith)

count_where_le :
    {A : Type 0} (p q : A → Bool) (xs : List A)
    → ((x : A) → p x ≡ true → q x ≡ true)
    → count_where p xs ≤ count_where q xs
count_where_le p q [] h = omega arith
count_where_le p q (x ∷ xs) h = ground (arith, h x, count_where_le p q xs h)

count_where-append :
    {A : Type 0} (p : A → Bool) (xs : List A) (a : A)
    → (count_where p (xs ++ (a ∷ [])) ≤ suc (count_where p xs))
      × (p a ≡ false → count_where p (xs ++ (a ∷ [])) ≡ count_where p xs)
count_where-append p [] a = ground arith
count_where-append p (x ∷ xs) a = ground (arith, count_where-append p xs a)

hour_back :
    (a b : Time)
    → stamp_le (whole_second a) (whole_second b) ≡ true
    → stamp_le (whole_second (a - hour)) (whole_second (b - hour)) ≡ true
hour_back a b h =
    let le : a / second ≤ b / second = ground (arith, stamp_le-whole_second a b) in
    let le' : (a - hour) / second ≤ (b - hour) / second = omega (arith, le) in
    stamp_le-whole_second (a - hour) (b - hour) ∙ ground arith

-- An hour that holds the moment `now` begins no earlier than the hour before `now`.
hour-recent :
    (now t : Time) (op x : DatabaseOperation)
    → op.created_at ≡ whole_second now
    → is_in_hour t op ≡ true
    → is_in_hour t x ≡ true
    → is_recent_transfer (whole_second (now - hour)) x ≡ true
unfolding is_recent_transfer
hour-recent now t op x c e h =
    let before : stamp_le (whole_second now) (whole_second t) ≡ true =
      subst (λ s. stamp_le s (whole_second t) ≡ true) c (ground arith) in
    ground (
      arith,
      stamp_le_trans (whole_second (now - hour)) (whole_second (t - hour)) x.created_at
          (hour_back now t before),
    )

-- A transfer was admitted at `now`: an hour that it lies in holds fewer than n others.
transfer-HoldsAtMost :
    (n : ℕ) (max : ℤ) (now : Time) (op : DatabaseOperation) (q q' : Db)
    → Transfers max now op q q'
    → ((k : ℕ) → max ≡ pos k → k ≤ n)
    → HoldsAtMost n q.database_operations
    → HoldsAtMost n q'.database_operations
transfer-HoldsAtMost n max now op q q' tr small h t =
    let ops = q.database_operations in
    let more = count_where-append (is_in_hour t) ops op in
    let same = ap (count_where (is_in_hour t)) tr.operations in
    elim (Bool-cases (is_in_hour t op)) [
      | inr e ↦ omega (arith, same, more.1 e, h t)
      | inl e ↦
          let (k, limit, room) = tr.allowed in
          let fewer =
            count_where_le (is_in_hour t) (is_recent_transfer (whole_second (now - hour))) ops
              (λ x. hour-recent now t op x tr.created e) in
          omega (arith, same, more.0, fewer, room, small k limit)
    ]

Effect-HoldsAtMost :
    (n : ℕ) (max : ℤ) (db db' : BackupDb)
    → Effect max db db'
    → ((k : ℕ) → max ≡ pos k → k ≤ n)
    → HoldsAtMost n db.queue.database_operations
    → HoldsAtMost n db'.queue.database_operations
Effect-HoldsAtMost n max db db' (adds_backup now op b q tr fresh known e) small h =
    subst (λ (d : BackupDb). HoldsAtMost n d.queue.database_operations) (sym e)
      (transfer-HoldsAtMost n max now op db.queue q tr small h)
Effect-HoldsAtMost n max db db' (adds_job now op j q tr known e) small h =
    subst (λ (d : BackupDb). HoldsAtMost n d.queue.database_operations) (sym e)
      (transfer-HoldsAtMost n max now op db.queue q tr small h)
Effect-HoldsAtMost n max db db' (stays e) small h =
    subst (λ (d : BackupDb). HoldsAtMost n d.queue.database_operations) (sym e) h
Effect-HoldsAtMost n max db db' (adds_destination d e) small h =
    subst (λ (d : BackupDb). HoldsAtMost n d.queue.database_operations) (sym e) h
Effect-HoldsAtMost n max db db' (edits_destinations p f same e) small h =
    subst (λ (d : BackupDb). HoldsAtMost n d.queue.database_operations) (sym e) h
Effect-HoldsAtMost n max db db' (drops_destination id free e) small h =
    subst (λ (d : BackupDb). HoldsAtMost n d.queue.database_operations) (sym e) h
Effect-HoldsAtMost n max db db' (adds_policy p known e) small h =
    subst (λ (d : BackupDb). HoldsAtMost n d.queue.database_operations) (sym e) h
Effect-HoldsAtMost n max db db' (edits_policies p f keep e) small h =
    subst (λ (d : BackupDb). HoldsAtMost n d.queue.database_operations) (sym e) h
Effect-HoldsAtMost n max db db' (edits_backups p f same there e) small h =
    subst (λ (d : BackupDb). HoldsAtMost n d.queue.database_operations) (sym e) h
Effect-HoldsAtMost n max db db' (drops_backup id p named free e) small h =
    subst (λ (d : BackupDb). HoldsAtMost n d.queue.database_operations) (sym e) h
Effect-HoldsAtMost n max db db' (edits_jobs p f same e) small h =
    subst (λ (d : BackupDb). HoldsAtMost n d.queue.database_operations) (sym e) h

-- Every command that queues a transfer does so under a limit of at most n.
abbrev pub LimitedBy : ℕ → List Command → Type 0
LimitedBy n cs = All (λ c. (k : ℕ) → limit_of c ≡ pos k → k ≤ n) cs

-- If every backup and restore is queued under an hourly limit of at most n, then whatever order the
-- commands come in and whatever their clocks say, no span of an hour holds more than n queued
-- transfers, if none did at the start.
pub run-HoldsAtMost :
    (n : ℕ) (cs : List Command) (db : BackupDb)
    → LimitedBy n cs
    → HoldsAtMost n db.queue.database_operations
    → HoldsAtMost n (run cs db).queue.database_operations
unfolding run
run-HoldsAtMost n [] db l h = h
run-HoldsAtMost n (c ∷ cs) db l h =
    run-HoldsAtMost n cs (step c db) l.1
      (Effect-HoldsAtMost n (limit_of c) db (step c db) (step-Effect c db) l.0 h)
