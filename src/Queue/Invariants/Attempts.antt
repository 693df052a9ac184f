-- ===== src/Queue/Invariants/Attempts.antt =====
-- No row uses more attempts than it has, and terminal rows stay as they are.
use host_forge.Base.{◌≤◌, ◌≡◌, ap, true, arith, List, [], ◌∷◌, All}
use host_forge.Queue.Rows.{Operation, is_terminal}
use host_forge.Queue.Lifecycle.{
  Move, stays, touched, claimed, deferred, finished, cancelled, interrupted, requeued, IsNew,
  Evolves,
}

abbrev pub WithinLimit : Operation → Type 0
WithinLimit o = o.attempt ≤ o.max_attempts

Move-WithinLimit : {o p : Operation} → Move o p → WithinLimit o → WithinLimit p
Move-WithinLimit (stays e) w =
    omega (arith, ap (λ (x : Operation). x.attempt) e, ap (λ (x : Operation). x.max_attempts) e)
Move-WithinLimit (touched _ _ a f) w = omega (arith, f.max_attempts)
Move-WithinLimit (claimed _ _ l a f) w = omega (arith, f.max_attempts)
Move-WithinLimit (deferred _ _ a f) w = omega (arith, f.max_attempts)
Move-WithinLimit (finished _ _ a f) w = omega (arith, f.max_attempts)
Move-WithinLimit (cancelled _ _ a f) w = omega (arith, f.max_attempts)
Move-WithinLimit (interrupted _ _ _ a f) w = omega (arith, f.max_attempts)
Move-WithinLimit (requeued _ _ _ a f) w = omega (arith, f.max_attempts)

IsNew-WithinLimit : (ops : List Operation) → All IsNew ops → All WithinLimit ops
IsNew-WithinLimit [] h = tt
IsNew-WithinLimit (o ∷ ops) h =
    (omega (arith, h.0.attempt, h.0.max_attempts), IsNew-WithinLimit ops h.1)

pub Evolves-WithinLimit :
    (ops ops' : List Operation) → Evolves ops ops' → All WithinLimit ops → All WithinLimit ops'
Evolves-WithinLimit [] ops' e w = IsNew-WithinLimit ops' e
Evolves-WithinLimit (o ∷ ops) [] e w = absurd e
Evolves-WithinLimit (o ∷ ops) (p ∷ ops') e w =
    (Move-WithinLimit e.0 w.0, Evolves-WithinLimit ops ops' e.1 w.1)

pub Move-terminal : {o p : Operation} → Move o p → is_terminal o.status ≡ true → p ≡ o
Move-terminal (stays e) t = e
Move-terminal {o} (touched r _ _ _) t = absurd (ground arith)
Move-terminal (claimed q _ _ _ _) t = absurd (ground arith)
Move-terminal (deferred r _ _ _) t = absurd (ground arith)
Move-terminal (finished r _ _ _) t = absurd (ground arith)
Move-terminal (cancelled q _ _ _) t = absurd (ground arith)
Move-terminal (interrupted r _ _ _ _) t = absurd (ground arith)
Move-terminal (requeued r _ _ _ _) t = absurd (ground arith)
