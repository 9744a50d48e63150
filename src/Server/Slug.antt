-- ===== src/Server/Slug.antt =====
-- slug of internal/server/suite_analytics.go, over the code points of a name.
pub mod Shape
use ctf_koth_evals_template.Prelude.{
  ℕ, ◌+◌, String, Bool, true, false, not, ◌&&◌, ◌||◌, List, [], ◌∷◌, leb, ◌==◌, if◌then◌else◌,
}
use ctf_koth_evals_template.Go.Text.{codes, trim, is_digit}
use mathlib.Core.List.{map}

-- unicode.ToLower as far as it gives ASCII: the capital letters, the dotted capital I and the Kelvin
-- sign. Every other rune stays outside of ASCII, which is all that slug asks of it.
unfoldable pub lower : ℕ → ℕ
lower c =
    if leb b'A' c && leb c b'Z'
    then c + 32
    else if c == 0x130
    then b'i'
    else if c == 0x212a
    then b'k'
    else c

abbrev pub is_alnum : ℕ → Bool
is_alnum c = (leb b'a' c && leb c b'z') || is_digit c

-- The loop, after prevDash. Either way the next character finds prevDash set if and only if this one
-- is not kept.
unfoldable pub dashed : Bool → List ℕ → List ℕ
dashed prev [] = []
dashed prev (c ∷ cs) =
    let rest = dashed (not (is_alnum c)) cs in
    if is_alnum c then c ∷ rest else if prev then rest else b'-' ∷ rest

abbrev pub is_dash : ℕ → Bool
is_dash c = c == b'-'

abbrev pub or_suite : List ℕ → List ℕ
or_suite [] = b's' ∷ b'u' ∷ b'i' ∷ b't' ∷ b'e' ∷ []
or_suite (c ∷ cs) = c ∷ cs

unfoldable pub slug : String → List ℕ
unfolding lower dashed trim
slug name = or_suite (trim is_dash (dashed false (map lower (codes name))))
