-- ===== src/Worker/Manifest.antt =====
-- submissionFilename, wrapperPath and parametersToEnv of internal/worker/worker.go.
use ctf_koth_evals_template.Prelude.{
  ℕ, String, true, false, Option, none, some, List, [], ◌∷◌, ◌++◌, map, str_eq, if◌then◌else◌,
}
use ctf_koth_evals_template.Go.Float.{Float}
use ctf_koth_evals_template.Go.Text.{codes}
use ctf_koth_evals_template.Go.Any.{
  Any, Fields, end, field, null, bool, number, text, array, object, get, as_text,
}

abbrev pub as_object : Option Any → Option Fields
as_object (some (object fields)) = some fields
as_object _ = none

-- A text that is there and not empty.
abbrev pub or_else_text : Option String → String → String
or_else_text none other = other
or_else_text (some s) other = if str_eq s "" then other else s

abbrev pub declared_file : Option Fields → Option String
declared_file none = none
declared_file (some sub) = as_text (get sub "file")

-- The manifest's submission.file, or the name of the upload.
unfoldable pub submission_filename : Fields → String → String
unfolding get as_text
submission_filename manifest uploaded =
    or_else_text (declared_file (as_object (get manifest "submission"))) uploaded

-- The last element of filepath.Join(bundleDir, name).
unfoldable pub wrapper_name : Fields → String
unfolding get as_text
wrapper_name manifest = or_else_text (as_text (get manifest "wrapper")) "wrapper"

-- fmt's %v; `format` is that of a float64, and a nested value is never printed.
abbrev pub plain : (Float → List ℕ) → Any → Option (List ℕ)
plain format null = some (codes "<nil>")
plain format (bool true) = some (codes "true")
plain format (bool false) = some (codes "false")
plain format (number f) = some (format f)
plain format (text s) = some (codes s)
plain format (array items) = none
plain format (object fields) = none

abbrev pub entry : (ℕ → ℕ) → String → List ℕ → List ℕ
entry upper key value = codes "CTF_PARAM_" ++ (map upper (codes key) ++ (b'=' ∷ value))

-- In the order in which the map is ranged over, that of the fields. `upper` is unicode.ToUpper.
unfoldable pub parameters_to_env : (ℕ → ℕ) → (Float → List ℕ) → Fields → List (List ℕ)
parameters_to_env upper format end = []
parameters_to_env upper format (field key value rest) =
    let more = parameters_to_env upper format rest in
    elim (plain format value) [ none ↦ more | some v ↦ entry upper key v ∷ more ]
