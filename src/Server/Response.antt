-- ===== src/Server/Response.antt =====
-- What a handler writes: the status code and the body.
use ctf_koth_evals_template.Prelude.{ℕ, String, Option, List}
use ctf_koth_evals_template.Ent.Store.{Fail, not_found, failed}
use ctf_koth_evals_template.Wireapi.{
  ClaimResponse, ChallengeListItem, SuiteDetail, SubmissionSummary, SubmissionDetail, RunDetail,
  LeaderboardEntry, QueueStatus, SubmissionDistribution, ExportRow,
}

pub data Body : Type 0 where
  empty : Body
  -- http.Error with a text, and httpError with a format and the error that fills it.
  message : String → Body
  formatted : String → String → Body
  -- A text with the bytes that %q quotes.
  quoted : String → List ℕ → Body
  -- The content length and the X-Artifact-Name of a download, and its bytes.
  download : ℕ → Option String → List ℕ → Body
  -- JSON: {"status": ...}, {key: count}, and the types of wireapi.
  status : String → Body
  count : String → ℕ → Body
  claim : ClaimResponse → Body
  challenges : List ChallengeListItem → Body
  suite : SuiteDetail → Body
  suites : List SuiteDetail → Body
  submission : SubmissionDetail → Body
  submissions : List SubmissionSummary → Body
  run : RunDetail → Body
  leaderboard : List LeaderboardEntry → Body
  distributions : List SubmissionDistribution → Body
  queue : QueueStatus → Body
  -- The file name and the rows of an export, as JSON or as CSV.
  export_json : List ℕ → List ExportRow → Body
  export_csv : List ℕ → List ExportRow → Body

pub record Response : Type 0 where
  pub code : ℕ
  pub body : Body

abbrev pub bad_request : String → Response
bad_request text = record { code = 400; body = message text }

abbrev pub http_not_found : Response
http_not_found = record { code = 404; body = message "404 page not found" }

abbrev pub no_content : Response
no_content = record { code = 204; body = empty }

abbrev pub write_json : ℕ → Body → Response
write_json code body = record { code = code; body = body }

-- err.Error() of the generated client.
abbrev pub error_text : Fail → String
error_text not_found = "ent: not found"
error_text (failed e) = e

-- httpError(w, http.StatusInternalServerError, format, err)
abbrev pub internal_error : String → Fail → Response
internal_error format e = record { code = 500; body = formatted format (error_text e) }

-- `if ent.IsNotFound(err) { missing } else { httpError(...) }`
abbrev pub missing_or : Response → String → Fail → Response
missing_or missing format not_found = missing
missing_or missing format (failed e) = internal_error format (failed e)

-- A handler that panics: middleware.Recoverer answers 500.
abbrev pub recovered : Response
recovered = record { code = 500; body = empty }
