-- ===== src/Ports.antt =====
-- Choosing a container's host port: PickHostPort and PickHostPortAvoiding of internal/docker/ports.go.
-- What the operating system answers is a parameter: `available p` is whether net.Listen on
-- 127.0.0.1:p succeeds, and `ephemeral` gives for each attempt the port it assigned to ":0", none where
-- listening failed.
use host_forge.Base.{
  ℕ, zero, suc, ◌+◌, ◌-◌, ◌≤◌, ◌<◌, ◌≡◌, refl, arith, Bool, true, false, not, ◌&&◌, if◌then◌else◌,
  leb, eqb, List, [], Option, none, some, exists_where, Bool-cases, inl, inr, ◌⊎◌,
}
use host_forge.Base.Int.{ℤ, pos, negsuc, leb_ℤ}

pub data PortError : Type 0 where
  reserved unavailable no_listener bad_range none_free : PortError

pub data Picked : Type 0 where
  picked : ℕ → Picked
  refused : PortError → Picked

abbrev is_reserved : List ℕ → ℕ → Bool
is_reserved taken p = exists_where (λ r. eqb r p) taken

-- A port the system assigned, unless it is reserved; then the loop goes on.
abbrev accept_unreserved : List ℕ → Option ℕ → Picked → Picked
accept_unreserved taken none rest = refused no_listener
accept_unreserved taken (some p) rest = if is_reserved taken p then rest else picked p

module _ (available : ℕ → Bool) (ephemeral : ℕ → Option ℕ) where
  -- The body of the scan on one port.
  abbrev is_free : List ℕ → ℕ → Bool
  is_free taken p = not (is_reserved taken p) && available p

  -- for p := start; p <= end; p++, with `left` ports still to try
  unfoldable pub scan : List ℕ → ℕ → ℕ → Picked
  scan taken zero p = refused none_free
  scan taken (suc left) p = if is_free taken p then picked p else scan taken left (p + 1)

  -- for attempt := 0; attempt < maxAttempts; attempt++, with `left` attempts to go
  unfoldable pub ephemeral_from : List ℕ → ℕ → ℕ → Picked
  ephemeral_from taken zero attempt = refused none_free
  ephemeral_from taken (suc left) attempt =
      accept_unreserved taken (ephemeral attempt) (ephemeral_from taken left (attempt + 1))

  unfoldable pub pick_exact : List ℕ → ℕ → Picked
  pick_exact taken p =
      if is_reserved taken p
      then refused reserved
      else if available p
      then picked p
      else refused unavailable

  -- if start <= 0 || end <= 0 || start > end
  unfoldable pub pick_range : List ℕ → ℤ → ℤ → Picked
  pick_range taken (pos (suc start)) (pos end) =
      if leb (suc start) end then scan taken (end - start) (suc start) else refused bad_range
  pick_range taken _ _ = refused bad_range

  unfoldable pub pick_host_port_avoiding : ℤ → ℤ → ℤ → List ℕ → Picked
  pick_host_port_avoiding (pos (suc p)) start end taken = pick_exact taken (suc p)
  pick_host_port_avoiding (pos zero) start end taken = ephemeral_from taken 64 0
  pick_host_port_avoiding (negsuc n) start end taken = pick_range taken start end

  unfoldable pub pick_host_port : ℤ → ℤ → ℤ → Picked
  pick_host_port requested start end = pick_host_port_avoiding requested start end []

  -- A scan gives the first free port of its stretch, and fails only if none is free.
  abbrev pub FirstFree : List ℕ → ℕ → ℕ → Picked → Type 0
  FirstFree taken start left (picked p) =
      (start ≤ p)
      × (p < start + left)
      × (is_free taken p ≡ true)
      × ((q : ℕ) → start ≤ q → q < p → is_free taken q ≡ false)
  FirstFree taken start left (refused e) =
      (e ≡ none_free) × ((q : ℕ) → start ≤ q → q < start + left → is_free taken q ≡ false)

  FirstFree-later :
      (taken : List ℕ) (start left : ℕ) (r : Picked)
      → is_free taken start ≡ false
      → FirstFree taken (start + 1) left r
      → FirstFree taken start (suc left) r
  FirstFree-later taken start left (picked p) busy (lower, upper, free, least) = (
    omega arith,
    omega arith,
    free,
    λ q above below. elim (Bool-cases (eqb q start)) [
      | inl same ↦ (let e : q ≡ start = ground arith in rw e busy)
      | inr other ↦ least q (ground arith) below
    ],
  )
  FirstFree-later taken start left (refused e) busy (why, none_here) = (
    why,
    λ q above below. elim (Bool-cases (eqb q start)) [
      | inl same ↦ (let e : q ≡ start = ground arith in rw e busy)
      | inr other ↦ none_here q (ground arith) (omega arith)
    ],
  )

  scan-FirstFree :
      (taken : List ℕ) (left start : ℕ) → FirstFree taken start left (scan taken left start)
  unfolding scan
  scan-FirstFree taken zero start = (refl, λ q lower upper. absurd (omega arith))
  scan-FirstFree taken (suc left) start = elim (Bool-cases (is_free taken start)) [
    | inl free ↦ rw free (omega arith, omega arith, free, λ q lower upper. absurd (omega arith))
    | inr busy ↦
        rw busy (FirstFree-later taken start left _ busy (scan-FirstFree taken left (start + 1)))
  ]

  -- A negative request scans the range from its start: the port is the first of the range that is neither
  -- reserved nor in use, and it is refused only when no port of the range is.
  pub pick_range_first :
      (start end : ℕ) (taken : List ℕ) (n : ℕ)
      → 0 < start
      → start ≤ end
      → FirstFree taken start
          (end - start + 1)
          (pick_host_port_avoiding (negsuc n) (pos start) (pos end) taken)
  unfolding pick_host_port_avoiding pick_range
  pick_range_first zero end taken n lower upper = absurd (omega arith)
  pick_range_first (suc start) end taken n lower upper =
      let inside : leb (suc start) end ≡ true = ground arith in
      let count : end - suc start + 1 ≡ end - start = omega arith in
      rw (inside, count) (scan-FirstFree taken (end - start) (suc start))

  -- A port that is given is not reserved, it is available unless the system chose it, and it is the
  -- requested one where a port is requested.
  abbrev pub IsUsable : ℤ → List ℕ → Picked → Type 0
  IsUsable requested taken (picked p) =
      (is_reserved taken p ≡ false)
      × ((available p ≡ true) ⊎ (requested ≡ pos 0))
      × ((leb_ℤ requested (pos 0) ≡ true) ⊎ (requested ≡ pos p))
  IsUsable requested taken (refused e) = Unit {0}

  scan-IsUsable : (taken : List ℕ) (left p n : ℕ) → IsUsable (negsuc n) taken (scan taken left p)
  unfolding scan
  scan-IsUsable taken zero p n = tt
  scan-IsUsable taken (suc left) p n = elim (Bool-cases (is_free taken p)) [
    | inl free ↦ rw free (ground arith, inl (ground arith), inl (ground arith))
    | inr busy ↦ rw busy (scan-IsUsable taken left (p + 1) n)
  ]

  accept-IsUsable :
      (taken : List ℕ) (given : Option ℕ) (rest : Picked)
      → IsUsable (pos 0) taken rest
      → IsUsable (pos 0) taken (accept_unreserved taken given rest)
  accept-IsUsable taken none rest h = tt
  accept-IsUsable taken (some p) rest h = elim (Bool-cases (is_reserved taken p)) [
    | inl busy ↦ rw busy h
    | inr free ↦ rw free (free, inr refl, inl refl)
  ]

  ephemeral-IsUsable :
      (taken : List ℕ) (left attempt : ℕ)
      → IsUsable (pos 0) taken (ephemeral_from taken left attempt)
  unfolding ephemeral_from
  ephemeral-IsUsable taken zero attempt = tt
  ephemeral-IsUsable taken (suc left) attempt =
      accept-IsUsable taken (ephemeral attempt) _ (ephemeral-IsUsable taken left (attempt + 1))

  exact-IsUsable : (taken : List ℕ) (p : ℕ) → IsUsable (pos p) taken (pick_exact taken p)
  unfolding pick_exact
  exact-IsUsable taken p = elim (Bool-cases (is_reserved taken p)) [
    | inl busy ↦ rw busy tt
    | inr free ↦ elim (Bool-cases (available p)) [
      | inl open_port ↦ rw (free, open_port) (free, inl open_port, inr refl)
      | inr closed ↦ rw (free, closed) tt
    ]
  ]

  range-IsUsable :
      (taken : List ℕ) (n : ℕ) (start end : ℤ)
      → IsUsable (negsuc n) taken (pick_range taken start end)
  unfolding pick_range
  range-IsUsable taken n (pos (suc start)) (pos end) = elim (Bool-cases (leb (suc start) end)) [
    | inl ordered ↦ rw ordered (scan-IsUsable taken (end - start) (suc start) n)
    | inr crossed ↦ rw crossed tt
  ]
  range-IsUsable taken n (pos zero) end = tt
  range-IsUsable taken n (pos (suc start)) (negsuc m) = tt
  range-IsUsable taken n (negsuc m) end = tt

  -- Whatever is asked for, a port that is given is not in the reserved set; it was available, unless the
  -- system assigned it (a request of 0); and a positive request gives that very port or none.
  pub picked-IsUsable :
      (requested start end : ℤ) (taken : List ℕ)
      → IsUsable requested taken (pick_host_port_avoiding requested start end taken)
  unfolding pick_host_port_avoiding
  picked-IsUsable (pos (suc p)) start end taken = exact-IsUsable taken (suc p)
  picked-IsUsable (pos zero) start end taken = ephemeral-IsUsable taken 64 0
  picked-IsUsable (negsuc n) start end taken = range-IsUsable taken n start end
