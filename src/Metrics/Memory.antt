-- ===== src/Metrics/Memory.antt =====
-- Memory figures from /proc/meminfo: MemSampleFromMeminfo of internal/hostmetrics/parse.go, in the
-- machine's 64-bit integers. The percentage, a floating-point number, is left out.
use host_forge.Base.{
  ℕ, ◌+◌, ◌-◌, ◌*◌, ◌%◌, ◌≤◌, ◌<◌, ◌≡◌, refl, arith, true, false, if◌then◌else◌, ltb, eqb, ltb→lt,
  lt→ltb, Bool-cases, inl, inr,
}
use host_forge.Base.Int.{ℤ, pos, negsuc}

-- Values in kB, as the file has them, each a uint64.
pub record Meminfo : Type 0 where
  pub mem_total : ℕ
  pub mem_available : ℕ
  pub mem_free : ℕ
  pub buffers : ℕ
  pub cached : ℕ
  pub swap_total : ℕ
  pub swap_free : ℕ

pub record MemSample : Type 0 where
  pub total_bytes : ℤ
  pub used_bytes : ℤ
  pub available_bytes : ℤ
  pub buffers_cached_bytes : ℤ
  pub swap_total_bytes : ℤ
  pub swap_used_bytes : ℤ

abbrev word : ℕ
word = 18446744073709551616

abbrev half_word : ℕ
half_word = 9223372036854775808

-- int64(x) of a 64-bit pattern, and what it is when the sign bit is set.
abbrev to_int64 : ℕ → ℤ
to_int64 x = if ltb x half_word then pos x else negsuc (word - x - 1)

-- a - b on 64-bit patterns
abbrev sub_word : ℕ → ℕ → ℕ
sub_word a b = (a + word - b) % word

abbrev times_kb : ℕ → ℕ
times_kb x = (x * 1024) % word

-- if x < 0 { x = 0 }
abbrev not_negative : ℤ → ℤ
not_negative (pos n) = pos n
not_negative (negsuc n) = pos 0

-- The pattern of avail: without MemAvailable, what is free or holds caches.
abbrev available_bits : Meminfo → ℕ
available_bits m =
    if eqb m.mem_available 0
    then times_kb ((m.mem_free + m.buffers + m.cached) % word)
    else times_kb m.mem_available

unfoldable pub mem_sample_from_meminfo : Meminfo → MemSample
mem_sample_from_meminfo m = record {
  total_bytes = to_int64 (times_kb m.mem_total);
  used_bytes = not_negative (to_int64 (sub_word (times_kb m.mem_total) (available_bits m)));
  available_bytes = to_int64 (available_bits m);
  buffers_cached_bytes = to_int64 (times_kb ((m.buffers + m.cached) % word));
  swap_total_bytes = to_int64 (times_kb m.swap_total);
  swap_used_bytes = not_negative (to_int64 (times_kb (sub_word m.swap_total m.swap_free)));
}

-- Less than an exbibyte in kB.
abbrev pub limit : ℕ
limit = 1125899906842624

pub record IsSmall (m : Meminfo) : Type 0 where
  pub mem_total : m.mem_total < limit
  pub mem_available : m.mem_available < limit
  pub mem_free : m.mem_free < limit
  pub buffers : m.buffers < limit
  pub cached : m.cached < limit
  pub swap_total : m.swap_total < limit
  pub swap_free : m.swap_free < limit

abbrev pub available_kb : Meminfo → ℕ
available_kb m =
    if eqb m.mem_available 0 then m.mem_free + m.buffers + m.cached else m.mem_available

test_of_le : (a b : ℕ) → b ≤ a → ltb a b ≡ false
test_of_le a b le = ground arith

fits : (x : ℕ) → x < half_word → to_int64 x ≡ pos x
fits x lt = ground arith

plain_kb : (x : ℕ) → x < 4 * limit → times_kb x ≡ x * 1024
plain_kb x lt = omega arith

available-eq : (m : Meminfo) → IsSmall m → available_bits m ≡ available_kb m * 1024
available-eq m v = elim (Bool-cases (eqb m.mem_available 0)) [
  | inl missing ↦ rw missing (omega (arith, v.mem_free, v.buffers, v.cached))
  | inr given ↦ rw given (omega (arith, v.mem_available))
]

cached-eq :
    (m : Meminfo)
    → IsSmall m
    → times_kb ((m.buffers + m.cached) % word) ≡ (m.buffers + m.cached) * 1024
cached-eq m v = omega (arith, v.buffers, v.cached)

difference :
    (a b : ℕ)
    → a < 4 * limit
    → b < 4 * limit
    → not_negative (to_int64 (sub_word (a * 1024) (b * 1024))) ≡ pos ((a - b) * 1024)
difference a b small_a small_b = elim (Bool-cases (ltb a b)) [
  | inr enough ↦
      let le : b ≤ a = ground arith in
      let bits : sub_word (a * 1024) (b * 1024) ≡ (a - b) * 1024 = omega (arith, le) in
      let sign : ltb ((a - b) * 1024) half_word ≡ true = lt→ltb _ _ (omega arith) in
      rw (bits, sign) refl
  | inl less ↦
      let lt : a < b = ltb→lt a b less in
      let bits : sub_word (a * 1024) (b * 1024) ≡ word - (b - a) * 1024 = omega (arith, lt) in
      let sign : ltb (word - (b - a) * 1024) half_word ≡ false =
        test_of_le _ _ (omega (arith, lt)) in
      let nothing : (a - b) * 1024 ≡ 0 = omega (arith, lt) in rw (bits, sign, nothing) refl
]

kb-difference :
    (a b : ℕ) → a < limit → b < limit → times_kb (sub_word a b) ≡ sub_word (a * 1024) (b * 1024)
kb-difference a b small_a small_b = elim (Bool-cases (ltb a b)) [
  | inr enough ↦ (let le : b ≤ a = ground arith in omega (arith, le))
  | inl less ↦ (let lt : a < b = ltb→lt a b less in omega (arith, lt))
]

available-small : (m : Meminfo) → IsSmall m → available_kb m < 4 * limit
available-small m v = elim (Bool-cases (eqb m.mem_available 0)) [
  | inl missing ↦ rw missing (omega (arith, v.mem_free, v.buffers, v.cached))
  | inr given ↦ rw given (omega (arith, v.mem_available))
]

-- Below an exbibyte nothing wraps: the totals of memory and swap and the buffers and caches are the kB
-- times 1024, what is used is the total less what
-- is available (or free and cached, where the kernel does not say), and neither that nor the swap in use
-- falls below zero when the file's figures cross.
pub mem_sample-IsSmall :
    (m : Meminfo)
    → IsSmall m
    → ((mem_sample_from_meminfo m).total_bytes ≡ pos (m.mem_total * 1024))
      × ((mem_sample_from_meminfo m).used_bytes ≡ pos ((m.mem_total - available_kb m) * 1024))
      × ((mem_sample_from_meminfo m).available_bytes ≡ pos (available_kb m * 1024))
      × ((mem_sample_from_meminfo m).buffers_cached_bytes ≡ pos ((m.buffers + m.cached) * 1024))
      × ((mem_sample_from_meminfo m).swap_total_bytes ≡ pos (m.swap_total * 1024))
      × ((mem_sample_from_meminfo m).swap_used_bytes ≡ pos ((m.swap_total - m.swap_free) * 1024))
unfolding mem_sample_from_meminfo
mem_sample-IsSmall m v =
    let small_total : m.mem_total < 4 * limit = omega (arith, v.mem_total) in
    let small = available-small m v in
    let small_swap : m.swap_total < 4 * limit = omega (arith, v.swap_total) in
    (
      rw (plain_kb m.mem_total small_total)
          (fits (m.mem_total * 1024) (omega (arith, v.mem_total))),
      rw (plain_kb m.mem_total small_total, available-eq m v)
          (difference m.mem_total (available_kb m) small_total small),
      rw (available-eq m v) (fits (available_kb m * 1024) (omega (arith, small))),
      rw (cached-eq m v)
          (fits ((m.buffers + m.cached) * 1024) (omega (arith, v.buffers, v.cached))),
      rw (plain_kb m.swap_total small_swap)
          (fits (m.swap_total * 1024) (omega (arith, v.swap_total))),
      rw (kb-difference m.swap_total m.swap_free v.swap_total v.swap_free) (
          difference m.swap_total m.swap_free (omega (arith, v.swap_total))
            (omega (arith, v.swap_free))),
    )
