-- ===== src/Server/SuiteIds.antt =====
-- parseSuiteIDs of internal/server/public_api.go.
pub mod Meaning
use ctf_koth_evals_template.Prelude.{
  ℕ, Option, none, some, List, [], ◌∷◌, ◌++◌, ◌==◌, if◌then◌else◌, any,
}
use ctf_koth_evals_template.Go.Int.{ℤ, pos, negsuc}
use ctf_koth_evals_template.Go.Text.{atoi, split, trim, is_space}

-- The ids, or which of the three errors; `bad_part` quotes the text that is no positive integer.
pub data Parsed : Type 0 where
  ids : List ℕ → Parsed
  no_field : Parsed
  no_id : Parsed
  bad_part : List ℕ → Parsed

-- n, err := strconv.Atoi(part); err != nil || n <= 0
abbrev pub positive : Option ℤ → Option ℕ
positive none = none
positive (some (negsuc n)) = none
positive (some (pos n)) = if n == 0 then none else some n

-- The map `seen` holds what `out` holds.
abbrev pub add_new : ℕ → List ℕ → List ℕ
add_new n out = if any (λ k. k == n) out then out else out ++ n ∷ []

abbrev pub and_then : Parsed → (List ℕ → Parsed) → Parsed
and_then (ids out) f = f out
and_then no_field f = no_field
and_then no_id f = no_id
and_then (bad_part p) f = bad_part p

abbrev pub add_parsed : List ℕ → Option ℕ → List ℕ → Parsed
add_parsed part none out = bad_part part
add_parsed part (some n) out = ids (add_new n out)

-- One part, trimmed: nothing of it, a fault, or an id that joins `out` unless it is there.
unfoldable pub add_part : List ℕ → List ℕ → Parsed
unfolding atoi
add_part [] out = ids out
add_part (c ∷ cs) out = add_parsed (c ∷ cs) (positive (atoi (c ∷ cs))) out

unfoldable pub add_parts : List (List ℕ) → List ℕ → Parsed
unfolding add_part trim
add_parts [] out = ids out
add_parts (p ∷ ps) out = and_then (add_part (trim is_space p) out) (add_parts ps)

-- The loop over the repeated fields, each of which may be a list with commas.
unfoldable pub add_fields : List (List ℕ) → List ℕ → Parsed
unfolding add_parts split
add_fields [] out = ids out
add_fields (s ∷ rest) out = and_then (add_parts (split b',' s) out) (add_fields rest)

abbrev pub some_id : List ℕ → Parsed
some_id [] = no_id
some_id (n ∷ ns) = ids (n ∷ ns)

unfoldable pub parse_suite_ids : List (List ℕ) → Parsed
unfolding add_fields
parse_suite_ids [] = no_field
parse_suite_ids (s ∷ rest) = and_then (add_fields (s ∷ rest) []) some_id
