-- ===== src/Queue/Enqueued.antt =====
-- Enqueueing and reading back: EnqueueOperation and GetOperation of internal/repository/operations.go.
use mathlib.Core.Path.{subst}
use host_forge.Base.{
  ℕ, ◌≡◌, refl, String, [], ◌∷◌, ◌++◌, false, inl, inr, exists_where, eq_refl, if◌then◌else◌,
}
use host_forge.Base.Text.{trim_space}
use host_forge.Sql.{Result, ok, err}
use host_forge.Sql.Laws.{find_where-append_new}
use host_forge.Clock.{Time}
use host_forge.Queue.Rows.{OpStatus, Operation, Db}
use host_forge.Queue.Enqueue.{
  NewOperationInput, has_id, is_blank, new_operation, get_operation, enqueue_operation,
}
use host_forge.Queue.Changes.Inserts.{insert_operation_cases, with_row}
use host_forge.Queue.Changes.Commands.{named}

-- What an accepted call returns, and the table it leaves.
abbrev pub IsAppended : String → NewOperationInput → Db → Result Operation → Db → Type 0
IsAppended fresh given db r db' =
    (o : Operation) × (r ≡ ok o)
    × (db'.operations ≡ db.operations ++ (o ∷ []))
    × (exists_where (has_id o.id) db.operations ≡ false)
    × (o.id ≡ trim_space (if is_blank given.id then fresh else given.id))

-- The same, for whatever the call came to.
abbrev IsAppendedBy : String → NewOperationInput → Db → Result (Result Operation × Db) → Type 0
IsAppendedBy fresh given db (ok (r, db')) = IsAppended fresh given db r db'
IsAppendedBy fresh given db (err e) = Unit {0}

read_back :
    (in' : NewOperationInput) (status : OpStatus) (attempts : ℕ) (now : Time) (db : Db)
    → exists_where (has_id (trim_space in'.id)) db.operations ≡ false
    → get_operation in'.id (with_row (new_operation in' status attempts now) db)
      ≡ ok (new_operation in' status attempts now)
unfolding get_operation new_operation
read_back in' status attempts now db free =
    rw
      (find_where-append_new (has_id (trim_space in'.id)) (new_operation in' status attempts now)
        db.operations free (eq_refl (trim_space in'.id)))
      refl

enqueue-by :
    (fresh : String) (given : NewOperationInput) (now : Time) (db : Db)
    → IsAppendedBy fresh given db (enqueue_operation fresh given now db)
unfolding enqueue_operation new_operation
enqueue-by fresh given now db = elim (insert_operation_cases (named fresh given) now db) [
  | inr (e, refused) ↦ rw refused tt
  | inl (status, attempts, _, _, free, accepted) ↦
      let o = new_operation (named fresh given) status attempts now in
      rw accepted (o, read_back (named fresh given) status attempts now db free, refl, free, refl)
]

-- An operation that is accepted is the one new row behind the old ones, under an id that no row had (the
-- given one, or the fresh one where that is blank, trimmed), and the read after the commit returns it.
pub enqueue-IsAppended :
    (fresh : String) (given : NewOperationInput) (now : Time) (db : Db) (r : Result Operation)
    (db' : Db)
    → enqueue_operation fresh given now db ≡ ok (r, db')
    → IsAppended fresh given db r db'
enqueue-IsAppended fresh given now db r db' accepted =
    subst (IsAppendedBy fresh given db) accepted (enqueue-by fresh given now db)
