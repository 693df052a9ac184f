-- ===== src/Logs/Lines.antt =====
-- What a tail is: whole lines from the end, no more than asked for.
use host_forge.Base.{
  ℕ, zero, suc, ◌+◌, ◌-◌, ◌≤◌, ◌<◌, ◌≡◌, refl, sym, ap, ◌∙◌, arith, true, false, eqb, List, [], ◌∷◌,
  ◌++◌, length, take, drop, length-append, some, Bool-cases, ◌⊎◌, inl, inr,
}
use host_forge.Base.Int.{ℤ, pos, negsuc}
use host_forge.Base.Slices.{append_assoc, length-drop}
use host_forge.Sql.{count_where}
use host_forge.Logs.Tail.{
  newline, trim_newlines, is_newline_at, search_back, tail_last_lines, clamp, tail_file,
  max_tail_bytes,
}

abbrev pub newlines : List ℕ → ℕ
newlines bs = count_where (λ b. eqb b newline) bs

take-drop : (n : ℕ) (bs : List ℕ) → take n bs ++ drop n bs ≡ bs
take-drop zero bs = refl
take-drop (suc n) [] = refl
take-drop (suc n) (b ∷ bs) = ap (λ (cs : List ℕ). b ∷ cs) (take-drop n bs)

-- A byte that is a newline ends what is taken, and counts in what is dropped.
newline-drop :
    (i : ℕ) (bs : List ℕ)
    → is_newline_at bs i ≡ true
    → (newlines (drop i bs) ≡ suc (newlines (drop (suc i) bs)))
      × (take (suc i) bs ≡ take i bs ++ (newline ∷ []))
newline-drop i [] h = absurd cc
newline-drop zero (b ∷ bs) h = (rw h refl, (let e : b ≡ newline = ground arith in rw e refl))
newline-drop (suc i) (b ∷ bs) h =
    let (counted, taken) = newline-drop i bs h in (counted, ap (λ (cs : List ℕ). b ∷ cs) taken)

other-drop :
    (i : ℕ) (bs : List ℕ)
    → is_newline_at bs i ≡ false
    → newlines (drop i bs) ≡ newlines (drop (suc i) bs)
other-drop zero [] h = refl
other-drop (suc i) [] h = refl
other-drop zero (b ∷ bs) h = rw h refl
other-drop (suc i) (b ∷ bs) h = other-drop i bs h

-- `rest` is the last lines of `bs`: all of it with fewer newlines than `lines`, or what follows the
-- newline that is `lines` from the end.
abbrev pub AreLastLines : ℕ → List ℕ → List ℕ → Type 0
AreLastLines lines bs rest =
    ((rest ≡ bs) × (newlines rest < lines))
    ⊎ ((before : List ℕ) × (bs ≡ before ++ (newline ∷ rest)) × (suc (newlines rest) ≡ lines))

split_at :
    (i : ℕ) (bs : List ℕ)
    → take (suc i) bs ≡ take i bs ++ (newline ∷ [])
    → bs ≡ take i bs ++ (newline ∷ drop (suc i) bs)
split_at i bs taken =
    sym (take-drop (suc i) bs)
    ∙ ap (λ (cs : List ℕ). cs ++ drop (suc i) bs) taken
    ∙ append_assoc (take i bs) (newline ∷ []) (drop (suc i) bs)

search_back-AreLastLines :
    (bs : List ℕ) (lines i count : ℕ)
    → i ≤ length bs
    → count ≡ newlines (drop i bs)
    → count < lines
    → AreLastLines lines bs (search_back bs lines i count)
unfolding search_back
search_back-AreLastLines bs lines zero count le counted few = inl (refl, omega (arith, counted))
search_back-AreLastLines bs lines (suc i) count le counted few =
    elim (Bool-cases (is_newline_at bs i)) [
      | inr other ↦ rw other (
          search_back-AreLastLines bs lines i count (omega arith)
            (counted ∙ sym (other-drop i bs other)) few)
      | inl found ↦
          let (more, taken) = newline-drop i bs found in
          elim (Bool-cases (eqb (count + 1) lines)) [
            | inl enough ↦
                rw (found, enough) (inr (take i bs, split_at i bs taken, ground (arith, counted)))
            | inr fewer ↦
                rw (found, fewer)
                  (search_back-AreLastLines bs lines i (count + 1) (omega arith)
                    (omega (arith, counted, more)) (ground arith))
          ]
    ]

dropped_all : (bs : List ℕ) → 0 ≡ newlines (drop (length bs) bs)
dropped_all [] = refl
dropped_all (b ∷ bs) = dropped_all bs

nothing_left :
    (bs : List ℕ) → eqb (length bs) 0 ≡ true → (bs ≡ trim_newlines bs) × (newlines bs ≡ 0)
unfolding trim_newlines
nothing_left [] h = (refl, refl)
nothing_left (b ∷ bs) h = absurd (ground arith)

tail_last_lines-AreLastLines :
    (bs : List ℕ) (n : ℕ)
    → AreLastLines (suc n) (trim_newlines bs) (tail_last_lines bs (pos (suc n)))
unfolding tail_last_lines
tail_last_lines-AreLastLines bs n = elim (Bool-cases (eqb (length bs) 0)) [
  | inl nothing ↦
      rw nothing (inl ((nothing_left bs nothing).0, omega (arith, (nothing_left bs nothing).1)))
  | inr something ↦ rw something (
      search_back-AreLastLines (trim_newlines bs) (suc n) (length (trim_newlines bs)) 0
        (omega arith) (dropped_all (trim_newlines bs)) (omega arith))
]

length-trim_newlines : (bs : List ℕ) → length (trim_newlines bs) ≤ length bs
unfolding trim_newlines
length-trim_newlines [] = omega arith
length-trim_newlines (b ∷ bs) = ground (arith, length-trim_newlines bs)

AreLastLines-length :
    (lines : ℕ) (bs rest : List ℕ) → AreLastLines lines bs rest → length rest ≤ length bs
AreLastLines-length lines bs rest (inl (all, few)) = omega (arith, ap length all)
AreLastLines-length lines bs rest (inr (before, split, enough)) =
    omega (arith, ap length split, length-append before (newline ∷ rest))

clamp-le : (max_bytes : ℤ) → clamp max_bytes ≤ max_tail_bytes
clamp-le (pos zero) = omega arith
clamp-le (pos (suc n)) = ground arith
clamp-le (negsuc n) = omega arith

-- The tail of a file that opens is there, within the cap of a mebibyte, and when lines are asked for it
-- is the last lines, so many, of the bytes that are read, without the newlines that end them.
pub tail_file-AreLastLines :
    (content : List ℕ) (max_bytes : ℤ) (n : ℕ)
    → (rest : List ℕ) × (tail_file (some content) max_bytes (pos (suc n)) ≡ some rest)
      × AreLastLines (suc n) (trim_newlines (drop (length content - clamp max_bytes) content)) rest
      × (length rest ≤ max_tail_bytes)
unfolding tail_file
tail_file-AreLastLines content max_bytes n =
    let chunk = drop (length content - clamp max_bytes) content in
    let lines = tail_last_lines-AreLastLines chunk n in
    (
      tail_last_lines chunk (pos (suc n)),
      refl,
      lines,
      omega (
        arith,
        AreLastLines-length _ _ _ lines,
        length-trim_newlines chunk,
        length-drop (length content - clamp max_bytes) content,
        clamp-le max_bytes,
      ),
    )
