-- ===== src/Worker/Client.antt =====
-- internal/workerclient/client.go: what the worker makes of an answer of the server. A transport
-- that fails, and a body that does not decode, arrive as errors.
use ctf_koth_evals_template.Prelude.{
  ℕ, String, ◌<>◌, Bool, Option, none, some, List, [], str_eq, ◌==◌, if◌then◌else◌,
}
use ctf_koth_evals_template.Wireapi.{ClaimResponse}
use ctf_koth_evals_template.Server.Request.{Decoded, decoded, malformed}
use ctf_koth_evals_template.Server.Response.{Response, Body, claim, status, download}

-- What http.Client.Do gives.
abbrev pub Answer : Type 0
Answer = Decoded Response

-- The request that newRequest builds: method, path and headers.
pub record Outgoing : Type 0 where
  pub method : String
  pub url : String
  pub authorization : String
  pub worker_id : Option String

pub record Client : Type 0 where
  pub base_url : String
  pub token : String
  pub worker_id : String

abbrev pub header_of : String → Option String
header_of id = if str_eq id "" then none else some id

unfoldable pub new_request : Client → String → String → Outgoing
new_request c method path = record {
  method = method;
  url = c.base_url <> path;
  authorization = "Bearer " <> c.token;
  worker_id = header_of c.worker_id;
}

-- `statusError`: the operation, and the text of the status and the body.
abbrev pub status_error : {A : Type 0} → String → Decoded A
status_error op = malformed op

-- The JSON of the body, where it is of the wanted type.
abbrev pub claim_body : Body → Decoded ClaimResponse
claim_body (claim c) = decoded c
claim_body _ = malformed "decode claim"

abbrev pub some_claim : Decoded ClaimResponse → Decoded (Option ClaimResponse)
some_claim (decoded c) = decoded (some c)
some_claim (malformed e) = malformed e

-- 204 means no work.
unfoldable pub claim_run : Answer → Decoded (Option ClaimResponse)
claim_run (malformed e) = malformed e
claim_run (decoded r) =
    if r.code == 204
    then decoded none
    else if r.code == 200
    then some_claim (claim_body r.body)
    else status_error "claim"

abbrev pub bytes_of : Body → Decoded (List ℕ)
bytes_of (download size name bytes) = decoded bytes
bytes_of _ = decoded []

-- FetchBundle and FetchSubmission, by the name of the operation.
unfoldable pub fetch : String → Answer → Decoded (List ℕ)
fetch op (malformed e) = malformed e
fetch op (decoded r) = if r.code == 200 then bytes_of r.body else status_error op

abbrev pub is_cancelled : Body → Decoded Bool
is_cancelled (status s) = decoded (str_eq s "cancelled")
is_cancelled _ = malformed "decode status"

unfoldable pub run_cancelled : Answer → Decoded Bool
run_cancelled (malformed e) = malformed e
run_cancelled (decoded r) = if r.code == 200 then is_cancelled r.body else status_error "run status"

-- Only 204 is a success.
unfoldable pub report_result : Answer → Decoded (Unit {0})
report_result (malformed e) = malformed e
report_result (decoded r) = if r.code == 204 then decoded tt else status_error "report result"
