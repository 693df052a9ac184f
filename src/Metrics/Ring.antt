-- ===== src/Metrics/Ring.antt =====
-- The ring of samples behind the metrics page: Sampler of internal/hostmetrics/sampler.go, for any type
-- of sample. The mutex makes each operation one step.
use host_forge.Base.{
  ℕ, zero, suc, ◌+◌, ◌-◌, ◌%◌, Bool, true, false, if◌then◌else◌, ltb, eqb, List, [], ◌∷◌, ◌++◌,
  length, take, drop, get_elem?, set, Option, none,
}
use host_forge.Base.Int.{ℤ, pos, negsuc}

-- `full` is set when a sample is first overwritten; then `head` is the oldest sample's index.
pub record Sampler {ℓ} (A : Type ℓ) : Type ℓ where
  pub capacity : ℕ
  pub ring : List A
  pub head : ℕ
  pub full : Bool

-- if capacity < 2 { capacity = 2 }
abbrev pub at_least_two : ℤ → ℕ
at_least_two (pos n) = if ltb n 2 then 2 else n
at_least_two (negsuc n) = 2

module _ {ℓ} {A : Type ℓ} where
  unfoldable pub new_sampler : ℤ → Sampler A
  new_sampler capacity = record {
    capacity = at_least_two capacity;
    ring = [];
    head = 0;
    full = false;
  }

  unfoldable pub push : Sampler A → A → Sampler A
  push s x =
      if ltb (length s.ring) s.capacity
      then record s { ring = s.ring ++ (x ∷ []) }
      else record s { full = true; ring = set s.ring s.head x; head = (s.head + 1) % s.capacity }

  unfoldable pub has_samples : Sampler A → Bool
  has_samples s = ltb 0 (length s.ring)

  -- None is the zero Sample.
  unfoldable pub latest : Sampler A → Option A
  latest s =
      if eqb (length s.ring) 0
      then none
      else if s.full
      then get_elem? s.ring ((s.head + s.capacity - 1) % s.capacity)
      else get_elem? s.ring (length s.ring - 1)

  unfoldable pub ordered : Sampler A → List A
  ordered s =
      if eqb (length s.ring) 0
      then []
      else if s.full
      then drop s.head s.ring ++ take s.head s.ring
      else s.ring

  -- ordered[len(ordered)-maxPoints:] if that leaves anything out
  abbrev pub last_points : ℤ → List A → List A
  last_points (pos (suc n)) xs = if ltb (suc n) (length xs) then drop (length xs - suc n) xs else xs
  last_points (pos zero) xs = xs
  last_points (negsuc n) xs = xs

  unfoldable pub history : Sampler A → ℤ → List A
  history s max_points = last_points max_points (ordered s)

  unfoldable pub push_all : Sampler A → List A → Sampler A
  push_all s [] = s
  push_all s (x ∷ xs) = push_all (push s x) xs
