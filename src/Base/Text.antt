-- ===== src/Base/Text.antt =====
-- Go's `strings.TrimSpace` on a text of code points, and the byte order of texts.
use Prim.Native.Nat.{ℕ, ◌+◌, compare, Ordering}
use Prim.Native.Char.{code}
use Prim.Native.String.append
use Prim.Native.String.{String, ◌++◌ as concat}
use mathlib.Core.Path.{◌≡◌, refl, ap, ◌∙◌}
use mathlib.Core.Bool.{Bool, true, false, ◌&&◌, ◌||◌}
use mathlib.Core.List.{List, [], ◌∷◌, map}
use mathlib.Core.Option.{Option, none, some}
use native.Mathlib.Omega.{arith}
use text.Mathlib.Text.{◌==◌}
use host_forge.Base.Tests.{leb, eqb, if◌then◌else◌}

abbrev pub codes : String → List ℕ
codes String.[] = []
codes (String.◌∷◌ c s) = code c ∷ codes s

-- `unicode.IsSpace`.
is_space : ℕ → Bool
is_space c =
    leb 9 c && leb c 13
    || eqb c 32
    || eqb c 0x85
    || eqb c 0xA0
    || eqb c 0x1680
    || leb 0x2000 c && leb c 0x200A
    || eqb c 0x2028
    || eqb c 0x2029
    || eqb c 0x202F
    || eqb c 0x205F
    || eqb c 0x3000

trim_left : String → String
unfolding is_space
trim_left String.[] = String.[]
trim_left (String.◌∷◌ c s) =
    let rest = trim_left s in if is_space (code c) then rest else String.◌∷◌ c s

-- A space goes when nothing is left after it.
trim_right : String → String
unfolding is_space
trim_right String.[] = String.[]
trim_right (String.◌∷◌ c s) =
    let rest = trim_right s in
    if is_space (code c) && (rest == "") then String.[] else String.◌∷◌ c rest

unfoldable pub trim_space : String → String
unfolding trim_left trim_right
trim_space s = trim_right (trim_left s)

-- `strings.Trim(s, string(c))` for one character.
trim_left_of : ℕ → String → String
trim_left_of c String.[] = String.[]
trim_left_of c (String.◌∷◌ d s) =
    let rest = trim_left_of c s in if eqb (code d) c then rest else String.◌∷◌ d s

trim_right_of : ℕ → String → String
trim_right_of c String.[] = String.[]
trim_right_of c (String.◌∷◌ d s) =
    let rest = trim_right_of c s in
    if eqb (code d) c && (rest == "") then String.[] else String.◌∷◌ d rest

unfoldable pub trim_of : ℕ → String → String
unfolding trim_left_of trim_right_of
trim_of c s = trim_right_of c (trim_left_of c s)

-- `unicode.ToLower` as far as it leads into ASCII: A to Z, the Kelvin sign and the dotted capital I.
unfoldable pub lower_code : ℕ → ℕ
lower_code c =
    if leb 65 c && leb c 90
    then c + 32
    else if eqb c 0x212A
    then 0x6B
    else if eqb c 0x130
    then 0x69
    else c

equal_codes : List ℕ → List ℕ → Bool
equal_codes [] [] = true
equal_codes [] (y ∷ ys) = false
equal_codes (x ∷ xs) [] = false
equal_codes (x ∷ xs) (y ∷ ys) = eqb x y && equal_codes xs ys

-- `strings.ToLower(s) == t`, for a text `t` in ASCII.
unfoldable pub lowers_to : String → String → Bool
unfolding lower_code equal_codes
lowers_to s t = equal_codes (map lower_code (codes s)) (codes t)

-- The lexicographic order of two rows of numbers, `true` where the first is smaller.
unfoldable pub lex_lt : List ℕ → List ℕ → Bool
lex_lt [] [] = false
lex_lt [] (y ∷ ys) = true
lex_lt (x ∷ xs) [] = false
lex_lt (x ∷ xs) (y ∷ ys) =
    let rest = lex_lt xs ys in
    elim (compare x y) [ Ordering.lt ↦ true | Ordering.eq ↦ rest | Ordering.gt ↦ false ]

trim_space_runs : trim_space "  a b\t" ≡ "a b"
unfolding trim_space
trim_space_runs = refl

trim_of_runs : trim_of b'/' "/a/b//" ≡ "a/b"
unfolding trim_of
trim_of_runs = refl

lowers_to_runs : lowers_to "R2" "r2" ≡ true
unfolding lowers_to
lowers_to_runs = refl

-- Some character passes.
unfoldable pub has_code : (ℕ → Bool) → String → Bool
has_code p String.[] = false
has_code p (String.◌∷◌ c s) = p (code c) || has_code p s

-- `strings.Split(s, string(c))` for one character.
unfoldable pub split_on : ℕ → String → List String
split_on c String.[] = String.[] ∷ []
split_on c (String.◌∷◌ d s) =
    let rest = split_on c s in
    if eqb (code d) c
    then String.[] ∷ rest
    else (elim rest [ [] ↦ String.◌∷◌ d String.[] ∷ [] | part ∷ parts ↦ String.◌∷◌ d part ∷ parts ])

-- `strings.HasPrefix` and `strings.TrimPrefix` in one.
unfoldable pub strip_prefix : String → String → Option String
strip_prefix String.[] s = some s
strip_prefix (String.◌∷◌ c p) String.[] = none
strip_prefix (String.◌∷◌ c p) (String.◌∷◌ d s) =
    let rest = strip_prefix p s in if eqb (code c) (code d) then rest else none

unfoldable pub has_space : String → Bool
unfolding has_code is_space
has_space s = has_code is_space s

trim_left_same : (s : String) → has_code is_space s ≡ false → trim_left s ≡ s
unfolding trim_left has_code is_space
trim_left_same String.[] h = refl
trim_left_same (String.◌∷◌ c s) h = ground arith

trim_right_same : (s : String) → has_code is_space s ≡ false → trim_right s ≡ s
unfolding trim_right has_code is_space
trim_right_same String.[] h = refl
trim_right_same (String.◌∷◌ c s) h = ground (arith, trim_right_same s)

pub trim_space_same : (s : String) → has_space s ≡ false → trim_space s ≡ s
unfolding trim_space has_space
trim_space_same s h = rw (trim_left_same s h) (trim_right_same s h)

pub has_code-append :
    (p : ℕ → Bool) (s t : String) → has_code p (concat s t) ≡ (has_code p s || has_code p t)
unfolding has_code
has_code-append p String.[] t = ap (has_code p) (append.nil t)
has_code-append p (String.◌∷◌ c s) t =
    ap (has_code p) (append.cons c s t) ∙ ground (arith, has_code-append p s t)

pub has_space-append : (s t : String) → has_space (concat s t) ≡ (has_space s || has_space t)
unfolding has_space
has_space-append s t = has_code-append is_space s t

pub split_on-none : (c : ℕ) (s : String) → has_code (eqb c) s ≡ false → split_on c s ≡ s ∷ []
unfolding split_on has_code
split_on-none c String.[] h = refl
split_on-none c (String.◌∷◌ d s) h = ground (arith, split_on-none c s)

pub split_on-dot :
    (s : String) → split_on b'.' s ≡ s ∷ [] → split_on b'.' (concat "." s) ≡ "" ∷ s ∷ []
unfolding split_on
split_on-dot s h =
    ap (split_on b'.') (append.cons _ String.[] s)
    ∙ ap (λ t. "" ∷ split_on b'.' t) (append.nil s)
    ∙ ap (λ parts. "" ∷ parts) h

pub split_on-append :
    (c : ℕ) (s t : String) (parts : List String)
    → has_code (eqb c) s ≡ false
    → split_on c t ≡ String.[] ∷ parts
    → split_on c (concat s t) ≡ s ∷ parts
unfolding split_on has_code
split_on-append c String.[] t parts h e = ap (split_on c) (append.nil t) ∙ e
split_on-append c (String.◌∷◌ d s) t parts h e =
    ap (split_on c) (append.cons d s t)
    ∙ ground (arith, split_on-append c s t parts (ground arith) e)
