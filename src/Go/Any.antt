-- ===== src/Go/Any.antt =====
-- A value of type `any` that encoding/json decoded, and maps of them as association lists.
use ctf_koth_evals_template.Prelude.{String, Bool, Option, none, some, str_eq, if◌then◌else◌}
use ctf_koth_evals_template.Go.Float.{Float}

mutual
  pub data Any : Type 0 where
    null : Any
    bool : Bool → Any
    number : Float → Any
    text : String → Any
    array : Items → Any
    object : Fields → Any

  pub data Items : Type 0 where
    nil : Items
    cons : Any → Items → Items

  -- A map[string]any: each key once.
  pub data Fields : Type 0 where
    end : Fields
    field : String → Any → Fields → Fields

-- m[key]; a nil map has no keys.
unfoldable pub get : Fields → String → Option Any
get end key = none
get (field k v rest) key = if str_eq k key then some v else get rest key

unfoldable pub as_text : Option Any → Option String
as_text (some (text s)) = some s
as_text _ = none
