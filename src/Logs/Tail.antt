-- ===== src/Logs/Tail.antt =====
-- Reading the end of a log file: internal/logs/files.go. A file is the bytes that it has when it is
-- read; that it cannot be opened is none.
use host_forge.Base.{
  ℕ, zero, suc, ◌+◌, ◌-◌, Bool, false, ◌&&◌, if◌then◌else◌, ltb, eqb, List, [], ◌∷◌, length, drop,
  Option, none, some,
}
use host_forge.Base.Int.{ℤ, pos}

abbrev pub newline : ℕ
newline = 10

abbrev default_tail_bytes : ℕ
default_tail_bytes = 65536

abbrev pub max_tail_bytes : ℕ
max_tail_bytes = 1048576

-- bytes.TrimRight(data, "\n")
unfoldable pub trim_newlines : List ℕ → List ℕ
trim_newlines [] = []
trim_newlines (b ∷ bs) =
    let rest = trim_newlines bs in if eqb b newline && eqb (length rest) 0 then [] else b ∷ rest

abbrev pub is_newline_at : List ℕ → ℕ → Bool
is_newline_at [] i = false
is_newline_at (b ∷ bs) zero = eqb b newline
is_newline_at (b ∷ bs) (suc i) = is_newline_at bs i

-- for i := len(trimmed) - 1; i >= 0; i--, where the argument is i + 1
unfoldable pub search_back : List ℕ → ℕ → ℕ → ℕ → List ℕ
search_back trimmed lines zero count = trimmed
search_back trimmed lines (suc i) count =
    if is_newline_at trimmed i
    then (if eqb (count + 1) lines
        then drop (suc i) trimmed
        else search_back trimmed lines i (count + 1))
    else search_back trimmed lines i count

unfoldable pub tail_last_lines : List ℕ → ℤ → List ℕ
tail_last_lines bytes (pos (suc n)) =
    if eqb (length bytes) 0
    then bytes
    else search_back (trim_newlines bytes) (suc n) (length (trim_newlines bytes)) 0
tail_last_lines bytes _ = bytes

abbrev pub clamp : ℤ → ℕ
clamp (pos (suc n)) = if ltb max_tail_bytes (suc n) then max_tail_bytes else suc n
clamp _ = default_tail_bytes

-- The last maxBytes of the file, and of them the last lines if tailLines is positive.
unfoldable pub tail_file : Option (List ℕ) → ℤ → ℤ → Option (List ℕ)
tail_file none max_bytes tail_lines = none
tail_file (some content) max_bytes tail_lines =
    some (tail_last_lines (drop (length content - clamp max_bytes) content) tail_lines)
