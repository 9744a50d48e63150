-- ===== src/Go/Text.antt =====
-- Text as the program walks it: strconv.Atoi, strings.Split and strings.TrimSpace, over the code
-- points of a text (its bytes, for the ASCII texts that these functions look for).
use Prim.Native.Char.{code}
use ctf_koth_evals_template.Prelude.{
  ℕ, zero, suc, ◌+◌, ◌-◌, ◌*◌, ◌^◌, String, Bool, true, false, ◌&&◌, ◌||◌, Option, none, some, List,
  [], ◌∷◌, ltb, leb, ◌==◌, if◌then◌else◌,
}
use ctf_koth_evals_template.Go.Int.{ℤ, pos, negsuc}
use mathlib.Core.List.{reverse}

abbrev pub codes : String → List ℕ
codes String.[] = []
codes (String.◌∷◌ c s) = code c ∷ codes s

abbrev pub is_digit : ℕ → Bool
is_digit c = leb b'0' c && leb c b'9'

-- The value of a run of digits, which must not be empty.
unfoldable pub digits : ℕ → List ℕ → Option ℕ
digits n [] = some n
digits n (c ∷ cs) = if is_digit c then digits (n * 10 + (c - b'0')) cs else none

unfoldable pub unsigned : List ℕ → Option ℕ
unfolding digits
unsigned [] = none
unsigned (c ∷ cs) = digits 0 (c ∷ cs)

abbrev pub negated : ℕ → ℤ
negated zero = pos 0
negated (suc n) = negsuc n

unfoldable pub in_range : Bool → Option ℕ → Option ℤ
in_range minus none = none
in_range minus (some n) =
    if minus
    then (if leb n (2 ^ 63) then some (negated n) else none)
    else (if ltb n (2 ^ 63) then some (pos n) else none)

-- strconv.Atoi on a 64-bit platform: `none` stands for the error.
unfoldable pub atoi : List ℕ → Option ℤ
unfolding unsigned in_range
atoi [] = none
atoi (c ∷ cs) =
    if c == b'-'
    then in_range true (unsigned cs)
    else if c == b'+'
    then in_range false (unsigned cs)
    else in_range false (unsigned (c ∷ cs))

-- The white space that strings.TrimSpace cuts, as far as ASCII goes.
abbrev pub is_space : ℕ → Bool
is_space c = c == 32 || (leb 9 c && leb c 13)

unfoldable pub trim_left : (ℕ → Bool) → List ℕ → List ℕ
trim_left cut [] = []
trim_left cut (c ∷ cs) = if cut c then trim_left cut cs else c ∷ cs

-- strings.Trim, strings.TrimSpace
unfoldable pub trim : (ℕ → Bool) → List ℕ → List ℕ
unfolding trim_left
trim cut s = reverse (trim_left cut (reverse (trim_left cut s)))

abbrev pub push_part : ℕ → List (List ℕ) → List (List ℕ)
push_part c [] = (c ∷ []) ∷ []
push_part c (p ∷ ps) = (c ∷ p) ∷ ps

-- strings.Split by one separator: one part more than there are separators.
unfoldable pub split : ℕ → List ℕ → List (List ℕ)
split sep [] = [] ∷ []
split sep (c ∷ cs) = if c == sep then [] ∷ split sep cs else push_part c (split sep cs)
