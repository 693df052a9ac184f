-- ===== src/Gateway/Sealed.antt =====
-- That a revoked credential stays revoked and without its secrets, whatever is called.
use mathlib.Core.Path.{subst}
use host_forge.Base.{
  String, List, [], ◌∷◌, ◌++◌, Bool, true, false, ◌≡◌, refl, sym, ◌∙◌, All, inl, inr, if◌then◌else◌,
}
use host_forge.Sql.Laws.{Member, All-Member}
use host_forge.Sql.Updates.{All-update_where, Member-update_where}
use host_forge.Gateway.Credentials.{DatabaseExternalCredential, GatewayDb, is_revoked}
use host_forge.Gateway.Steps.{Command, step, run, IsSealed, Change, same, edits, adds}
use host_forge.Gateway.Changes.{step-Change}

All-append :
    (cs : List DatabaseExternalCredential) (c : DatabaseExternalCredential)
    → All IsSealed cs
    → IsSealed c
    → All IsSealed (cs ++ (c ∷ []))
All-append [] c h k = (k, tt)
All-append (x ∷ cs) c h k = (h.0, All-append cs c h.1 k)

Change-IsSealed :
    (cs cs' : List DatabaseExternalCredential) → Change cs cs' → All IsSealed cs → All IsSealed cs'
Change-IsSealed cs cs' (same e) h = subst (All IsSealed) (sym e) h
Change-IsSealed cs cs' (edits p f keep final id e) h = subst (All IsSealed) (sym e) (
    All-update_where IsSealed p f cs (λ c m t. keep c t (All-Member IsSealed c cs h m))
      (λ c m t. All-Member IsSealed c cs h m))
Change-IsSealed cs cs' (adds c k e) h = subst (All IsSealed) (sym e) (All-append cs c h k)

-- A credential that is revoked, in the table.
abbrev pub IsGone : String → List DatabaseExternalCredential → Type 0
IsGone id cs =
    (c : DatabaseExternalCredential) × Member c cs × (c.id ≡ id) × (is_revoked c.state ≡ true)

Member-front :
    (c : DatabaseExternalCredential) (xs ys : List DatabaseExternalCredential)
    → Member c xs
    → Member c (xs ++ ys)
Member-front c [] ys m = absurd m
Member-front c (x ∷ xs) ys (inl e) = inl e
Member-front c (x ∷ xs) ys (inr m) = inr (Member-front c xs ys m)

Change-IsGone :
    (id : String) (cs cs' : List DatabaseExternalCredential)
    → Change cs cs'
    → IsGone id cs
    → IsGone id cs'
Change-IsGone id cs cs' (same e) h = subst (IsGone id) (sym e) h
Change-IsGone id cs cs' (adds c k e) (x, m, q, r) =
    subst (IsGone id) (sym e) (x, Member-front x cs (c ∷ []) m, q, r)
Change-IsGone id cs cs' (edits p f keep final ids e) (x, m, q, r) =
    subst (IsGone id) (sym e)
      ((if p x then f x else x), Member-update_where p f x cs m, kept (p x) refl, still (p x) refl)
  where
    kept : (b : Bool) → p x ≡ b → (if p x then f x else x).id ≡ id
    kept true t = rw t (ids x ∙ q)
    kept false t = rw t q

    still : (b : Bool) → p x ≡ b → is_revoked (if p x then f x else x).state ≡ true
    still true t = rw t (final x t r)
    still false t = rw t r

-- Whatever is called, in whatever order, the credentials that are revoked are those without their
-- secrets, and a credential that is revoked stays so, if the credentials start that way.
pub run-IsSealed :
    (cs : List Command) (db : GatewayDb)
    → All IsSealed db.credentials
    → All IsSealed (run cs db).credentials
      × ((id : String) → IsGone id db.credentials → IsGone id (run cs db).credentials)
unfolding run
run-IsSealed [] db h = (h, (λ id g. g))
run-IsSealed (c ∷ cs) db h =
    let change = step-Change c db in
    let (sealed, gone) =
      run-IsSealed cs (step c db)
        (Change-IsSealed db.credentials (step c db).credentials change h) in
    (sealed, (λ id g. gone id (Change-IsGone id db.credentials (step c db).credentials change g)))
