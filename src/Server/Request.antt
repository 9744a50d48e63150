-- ===== src/Server/Request.antt =====
-- What the handlers share: the {id} of a path, and a request body that decodes or does not.
use ctf_koth_evals_template.Prelude.{String, Bool, true, false, Option, none, some}
use ctf_koth_evals_template.Go.Int.{ℤ}
use ctf_koth_evals_template.Go.Text.{codes, atoi}
use ctf_koth_evals_template.Server.Response.{Response, Body, bad_request}
use ctf_koth_evals_template.Server.Action.{Action, pure, stop}

-- What a decoder of the standard library made of the request: the value, or its error.
pub data Decoded {ℓ} (A : Type ℓ) : Type ℓ where
  decoded : A → Decoded A
  malformed : String → Decoded A

abbrev pub parsed_id : Option ℤ → Action ℤ
parsed_id none = stop (bad_request "bad id")
parsed_id (some n) = pure n

-- pathID(w, req, "id"), and the same test written out in internal_api.go.
unfoldable pub path_id : String → Action ℤ
path_id param = parsed_id (atoi (codes param))

-- json.NewDecoder(req.Body).Decode(&body)
abbrev pub json_body : {A : Type 0} → Decoded A → Action A
json_body (decoded b) = pure b
json_body (malformed e) = stop (record { code = 400; body = Body.formatted "bad json: " e })

-- A guard: `if !cond { http.Error(...); return }`.
abbrev pub require : Bool → Response → Action (Unit {0})
require true r = pure tt
require false r = stop r
