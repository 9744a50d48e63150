-- ===== src/Server/Names.antt =====
-- defaultName of internal/server/public_api.go, with filepath.Base and filepath.Ext on Unix.
use Prim.Native.Char.{code}
use ctf_koth_evals_template.Prelude.{ℕ, String, Bool, true, false, str_eq, ◌==◌, if◌then◌else◌}

unfoldable pub has_char : ℕ → String → Bool
has_char d String.[] = false
has_char d (String.◌∷◌ c s) = if code c == d then true else has_char d s

-- What follows the last d; all of the text where there is none.
unfoldable pub after_last : ℕ → String → String
unfolding has_char
after_last d String.[] = ""
after_last d (String.◌∷◌ c s) =
    let rest = after_last d s in
    if has_char d s then rest else if code c == d then s else String.◌∷◌ c s

-- What precedes the last d; all of the text where there is none.
unfoldable pub before_last : ℕ → String → String
unfolding has_char
before_last d String.[] = ""
before_last d (String.◌∷◌ c s) =
    let rest = before_last d s in
    if has_char d s then String.◌∷◌ c rest else if code c == d then "" else String.◌∷◌ c s

unfoldable pub strip_trailing : ℕ → String → String
strip_trailing d String.[] = ""
strip_trailing d (String.◌∷◌ c s) =
    let rest = strip_trailing d s in
    if str_eq rest "" then (if code c == d then "" else String.◌∷◌ c rest) else String.◌∷◌ c rest

abbrev pub or_root : String → String
or_root s = if str_eq s "" then "/" else s

-- filepath.Base
unfoldable pub base : String → String
unfolding after_last strip_trailing
base path = if str_eq path "" then "." else or_root (after_last b'/' (strip_trailing b'/' path))

-- The base name without filepath.Ext, which begins at the last dot and is empty if there is none.
unfoldable pub default_name : String → String
unfolding base has_char before_last
default_name filename =
    let name = base filename in if has_char b'.' name then before_last b'.' name else name
