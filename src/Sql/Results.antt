-- ===== src/Sql/Results.antt =====
-- The two ways in which a call can end.
use host_forge.Base.{◌≡◌, refl, ◌⊎◌, inl, inr}
use host_forge.Sql.{Error, Result, ok, err}

pub Result-cases {ℓ} :
    {A : Type ℓ} (m : Result A) → ((a : A) × (m ≡ ok a)) ⊎ ((e : Error) × (m ≡ err e))
Result-cases (ok a) = inl (a, refl)
Result-cases (err e) = inr (e, refl)
