-- ===== src/Metrics/Rotation.antt =====
-- One push on the ring of internal/hostmetrics/sampler.go: its invariant, and the samples in order.
use native.Mathlib.Nat.{mod-lt, mod-eq_of_lt, mod_self}
use host_forge.Base.{
  ltb→lt, ℕ, suc, ◌+◌, ◌%◌, ◌≤◌, ◌<◌, ◌≡◌, refl, sym, arith, true, false, if◌then◌else◌, ltb, eqb,
  List, [], ◌∷◌, ◌++◌, length, take, drop, set, length-append, length-set, Bool-cases, ◌⊎◌, inl,
  inr,
}
use host_forge.Base.Int.{ℤ, pos, negsuc}
use host_forge.Base.Slices.{
  drop_all, take_all, append_nil, append_assoc, drop-set, take-set, drop_one, length-rotate,
}
use host_forge.Metrics.Ring.{Sampler, new_sampler, at_least_two, push, ordered}

pub at_least_two-le : (capacity : ℤ) → 2 ≤ at_least_two capacity
at_least_two-le (pos n) = ground arith
at_least_two-le (negsuc n) = omega arith

next-cases :
    (h c : ℕ) → h < c → (((h + 1) % c ≡ h + 1) × (h + 1 < c)) ⊎ (((h + 1) % c ≡ 0) × (h + 1 ≡ c))
next-cases h c lt = elim (Bool-cases (ltb (h + 1) c)) [
  | inl inside ↦ inl (mod-eq_of_lt (ltb→lt _ _ inside), ltb→lt _ _ inside)
  | inr last ↦ let eq : h + 1 ≡ c = ground arith in inr (rw (sym eq) (mod_self (h + 1)), eq)
]

module _ {ℓ} {A : Type ℓ} where
  -- Until the ring wraps, its head is 0; after that every slot is in use.
  pub record IsRing (s : Sampler A) : Type 0 where
    pub positive : 2 ≤ s.capacity
    pub room : length s.ring ≤ s.capacity
    pub start : s.full ≡ false → s.head ≡ 0
    pub wrapped : s.full ≡ true → (length s.ring ≡ s.capacity) × (s.head < s.capacity)

  pub new_sampler-IsRing : (capacity : ℤ) → IsRing (new_sampler capacity)
  unfolding new_sampler
  new_sampler-IsRing capacity = record {
    positive = at_least_two-le capacity;
    room = omega arith;
    start = λ e. refl;
    wrapped = λ e. absurd cc;
  }

  unless_empty : (xs : List A) → (if eqb (length xs) 0 then [] else xs) ≡ xs
  unless_empty [] = refl
  unless_empty (x ∷ xs) = ground arith

  pub rotated : (s : Sampler A) → IsRing s → ordered s ≡ drop s.head s.ring ++ take s.head s.ring
  unfolding ordered
  rotated s v = elim (Bool-cases s.full) [
    | inl full ↦ ground (arith, (v.wrapped full).0, v.positive)
    | inr part ↦ rw (part, v.start part, append_nil s.ring) (unless_empty s.ring)
  ]

  head_lt : (s : Sampler A) → IsRing s → s.head < s.capacity
  head_lt s v = elim (Bool-cases s.full) [
    | inl full ↦ (v.wrapped full).1
    | inr part ↦ ground (arith, v.start part, v.positive)
  ]

  pub push-IsRing : (s : Sampler A) (x : A) → IsRing s → IsRing (push s x)
  unfolding push
  push-IsRing s x v = elim (Bool-cases (ltb (length s.ring) s.capacity)) [
    | inl room ↦
        let part : s.full ≡ false = ground (arith, v.wrapped) in
        rw room (record {
          positive = v.positive;
          room = ground (arith, length-append s.ring (x ∷ []));
          start = v.start;
          wrapped = λ full. absurd (cc (part, full));
        })
    | inr none_left ↦ rw none_left (record {
      positive = v.positive;
      room = ground (arith, length-set s.ring s.head x, v.room);
      start = λ e. absurd cc;
      wrapped = λ e. (
        ground (arith, length-set s.ring s.head x, v.room),
        mod-lt (s.head + 1) (omega (arith, v.positive)),
      );
    })
  ]

  -- The oldest sample makes room once the window is full.
  abbrev pub slide : ℕ → List A → A → List A
  slide capacity xs x = if ltb (length xs) capacity then xs ++ (x ∷ []) else drop 1 (xs ++ (x ∷ []))

  wrap :
      (s : Sampler A) (x : A)
      → IsRing s
      → length s.ring ≡ s.capacity
      → drop ((s.head + 1) % s.capacity) (set s.ring s.head x)
          ++ take ((s.head + 1) % s.capacity) (set s.ring s.head x)
        ≡ drop 1 ((drop s.head s.ring ++ take s.head s.ring) ++ (x ∷ []))
  wrap s x v filled =
      let inside : s.head < length s.ring = rw filled (head_lt s v) in
      let one_more : s.head + 1 ≡ suc s.head = omega arith in
      let shifted : drop 1 ((drop s.head s.ring ++ take s.head s.ring) ++ (x ∷ []))
          ≡ drop (suc s.head) s.ring ++ (take s.head s.ring ++ (x ∷ [])) =
        rw (append_assoc (drop s.head s.ring) (take s.head s.ring) (x ∷ []))
          (drop_one s.head s.ring (take s.head s.ring ++ (x ∷ [])) inside) in
      elim (next-cases s.head s.capacity (head_lt s v)) [
        | inl (next, more) ↦
            rw (shifted, next, one_more, drop-set s.head x s.ring, take-set s.head x s.ring inside)
              refl
        | inr (next, eq) ↦
            rw
              (
                shifted,
                next,
                append_nil (set s.ring s.head x),
                drop_all (suc s.head) s.ring (omega (arith, filled, eq)),
                sym (take-set s.head x s.ring inside),
              )
              (sym (
                take_all (suc s.head) (set s.ring s.head x)
                  (omega (arith, length-set s.ring s.head x, filled, eq))))
      ]

  pub ordered-push :
      (s : Sampler A) (x : A) → IsRing s → ordered (push s x) ≡ slide s.capacity (ordered s) x
  unfolding push
  ordered-push s x v = elim (Bool-cases (ltb (length s.ring) s.capacity)) [
    | inl room ↦
        let part : s.full ≡ false = ground (arith, v.wrapped) in
        rw
          (
            rotated (push s x) (push-IsRing s x v),
            rotated s v,
            room,
            v.start part,
            append_nil s.ring,
            append_nil (s.ring ++ (x ∷ [])),
            room,
          )
          refl
    | inr none_left ↦
        rw
          (
            rotated (push s x) (push-IsRing s x v),
            rotated s v,
            none_left,
            length-rotate s.head s.ring,
            none_left,
          )
          (wrap s x v (ground (arith, v.room)))
  ]
