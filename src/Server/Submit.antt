-- ===== src/Server/Submit.antt =====
-- createSubmission, persistSubmission and reevaluateSubmission of internal/server/public_api.go.
pub mod Plan
pub mod Atomic
pub mod Progress
pub mod Reevaluate
use ctf_koth_evals_template.Prelude.{
  ℕ, ◌*◌, String, Bool, true, false, not, Option, none, some, List, [], ◌∷◌, ◌++◌, map, str_eq, ltb,
  ◌==◌, if◌then◌else◌, any, select, length,
}
use ctf_koth_evals_template.Go.Int.{ℤ, equals}
use ctf_koth_evals_template.Ent.Status.{to_text}
use ctf_koth_evals_template.Ent.Schema.{Suite, Submission, Run, Db}
use ctf_koth_evals_template.Ent.Store.{
  Fail, Result, ok, err, only, create_run, create_submission as insert_submission, seal_suite,
}
use ctf_koth_evals_template.Wireapi.{SubmissionSummary, SubmissionDetail, RunSummary}
use ctf_koth_evals_template.Server.Response.{
  Response, Body, message, bad_request, http_not_found, internal_error, missing_or, write_json,
  error_text,
}
use ctf_koth_evals_template.Server.Action.{
  Action, ◌>>=◌, ◌>>◌, pure, stop, query, update, transaction, notify,
}
use ctf_koth_evals_template.Server.Request.{
  Decoded, decoded, malformed, path_id, json_body, require,
}
use ctf_koth_evals_template.Server.SuiteIds.{
  Parsed, ids, no_field, no_id, bad_part, parse_suite_ids,
}
use ctf_koth_evals_template.Server.Names.{default_name}

-- The file part of the form: its declared name and size, and what io.ReadAll gives.
pub record Artifact : Type 0 where
  pub filename : String
  pub size : ℕ
  pub content : Decoded (List ℕ)

pub record Form : Type 0 where
  pub suite_ids : List (List ℕ)
  pub submitter : String
  pub name : String
  pub artifact : Option Artifact

abbrev pub ids_or_reply : Parsed → Action (List ℕ)
ids_or_reply (ids ns) = pure ns
ids_or_reply no_field = stop (bad_request "at least one suite_ids field is required")
ids_or_reply no_id = stop (bad_request "at least one suite id is required")
ids_or_reply (bad_part p) =
    stop (record { code = 400; body = Body.quoted "suite_ids: %q is not a positive integer" p })

abbrev pub form_or_reply : Decoded Form → Action Form
form_or_reply (decoded f) = pure f
form_or_reply (malformed e) =
    stop (record { code = 400; body = Body.formatted "parse multipart: " e })

abbrev pub artifact_or_reply : Option Artifact → Action Artifact
artifact_or_reply (some a) = pure a
artifact_or_reply none = stop (bad_request "artifact field is required (multipart file)")

abbrev pub content_or_reply : Decoded (List ℕ) → Action (List ℕ)
content_or_reply (decoded bytes) = pure bytes
content_or_reply (malformed e) =
    stop (record { code = 500; body = Body.formatted "read upload: %v" e })

-- suite.IDIn(ids...)
unfoldable pub suites_in : List ℕ → Db → List Suite
suites_in wanted db = select (λ (s : Suite). any (λ n. n == s.id) wanted) db.suites

-- The error of a step of the fan-out, wrapped by the handler that called it.
abbrev pub Wrap : Type 0
Wrap = String → Fail → Response

-- persistSubmission returns it, and createSubmission answers "persist: %v".
abbrev pub persist_error : Wrap
persist_error step e = record { code = 500; body = Body.formatted "persist: %v" (error_text e) }

-- reevaluateSubmission answers with the step itself.
abbrev pub step_error : Wrap
step_error = internal_error

-- One pending run for each seed.
unfoldable pub fan_seeds : Wrap → ℕ → ℕ → ℕ → List String → Action (List Run)
fan_seeds wrap now suite submission [] = pure []
fan_seeds wrap now suite submission (seed ∷ seeds) = do
  run ← update (wrap "create run: %v") (create_run now seed suite submission)
  runs ← fan_seeds wrap now suite submission seeds
  pure (run ∷ runs)

abbrev pub sealed_db : Result Db → Result (Db × Unit {0})
sealed_db (ok db) = ok (db, tt)
sealed_db (err e) = err e

unfoldable pub seal : Wrap → Suite → Action (Unit {0})
seal wrap s =
    if s.sealed
    then pure tt
    else update (wrap "seal suite: %v") (λ db. sealed_db (seal_suite s.id db))

-- One pending run for each suite and seed; every suite is sealed.
unfoldable pub fan_out : Wrap → ℕ → ℕ → List Suite → Action (List Run)
fan_out wrap now submission [] = pure []
fan_out wrap now submission (s ∷ suites) = do
  runs ← fan_seeds wrap now s.id submission s.seeds
  seal wrap s
  more ← fan_out wrap now submission suites
  pure (runs ++ more)

-- The row that persistSubmission inserts, but for its key.
abbrev pub new_submission : String → String → String → List ℕ → String → ℕ → ℕ → Submission
new_submission name submitter filename artifact digest now id = record {
  id = id;
  name = name;
  submitter = submitter;
  artifact_name = filename;
  artifact = artifact;
  artifact_size = length artifact;
  artifact_sha256 = digest;
  created_at = now;
}

unfoldable pub persist_submission :
    List Suite → (ℕ → Submission) → ℕ → Action (Submission × List Run)
persist_submission suites build now = transaction "persist: %v" "persist: %v" do
  submission ← update (persist_error "create submission: %w") (insert_submission build)
  runs ← fan_out persist_error now submission.id suites
  pure (submission, runs)

unfoldable pub submission_summary : Submission → SubmissionSummary
submission_summary s = record {
  id = s.id;
  name = s.name;
  submitter = s.submitter;
  artifact_name = s.artifact_name;
  artifact_size = s.artifact_size;
  artifact_sha256 = s.artifact_sha256;
  created_at = s.created_at;
  runs = record { total = 0; succeeded = 0; failed = 0; timed_out = 0; pending = 0; cancelled = 0 };
}

-- runSummary of a run whose suite edge is loaded.
unfoldable pub run_summary : Run → RunSummary
unfolding to_text
run_summary r = record {
  id = r.id;
  suite_id = r.suite;
  seed = r.seed;
  status = to_text r.status;
  score = r.score;
  error = r.error;
  started_at = r.started_at;
  finished_at = r.finished_at;
  created_at = r.created_at;
}

abbrev pub submission_detail : Submission → List Run → SubmissionDetail
submission_detail s runs = record { summary = submission_summary s; runs = map run_summary runs }

abbrev pub or_default : String → String → String
or_default name filename = if str_eq name "" then default_name filename else name

-- `digest` is sha256.Sum256 in hex.
unfoldable pub create_submission : (List ℕ → String) → ℕ → Decoded Form → ℕ → Action Response
create_submission digest max_upload_mb request now = do
  form ← form_or_reply request
  wanted ← ids_or_reply (parse_suite_ids form.suite_ids)
  artifact ← artifact_or_reply form.artifact
  require (not (ltb (max_upload_mb * 1_048_576) artifact.size))
      (record { code = 413; body = message "artifact exceeds max upload size" })
  bytes ← content_or_reply artifact.content
  suites ← query (internal_error "lookup suites: %v") (λ db. ok (suites_in wanted db))
  require (length suites == length wanted) (bad_request "one or more suite_ids do not exist")
  created ←
      persist_submission suites
        (new_submission (or_default form.name artifact.filename) form.submitter artifact.filename
          bytes (digest bytes) now)
        now
  notify "runs"
  pure (write_json 201 (Body.submission (submission_detail created.0 created.1)))

-- suite.IDIn of the ints of a request.
unfoldable pub suites_with : List ℤ → Db → List Suite
unfolding equals
suites_with wanted db = select (λ (s : Suite). any (λ n. equals n s.id) wanted) db.suites

unfoldable pub reevaluate_submission : String → Decoded (List ℤ) → ℕ → Action Response
reevaluate_submission param request now = do
  id ← path_id param
  wanted ← json_body request
  require (ltb 0 (length wanted)) (bad_request "suite_ids must be non-empty")
  submission ←
      query (missing_or http_not_found "load submission: %v")
        (λ db. only (λ (s : Submission). equals id s.id) db.submissions)
  suites ← query (internal_error "load suites: %v") (λ db. ok (suites_with wanted db))
  require (length suites == length wanted) (bad_request "one or more suite_ids do not exist")
  created ← transaction "begin tx: %v" "commit: %v" (fan_out step_error now submission.id suites)
  notify "runs"
  pure (write_json 200 (Body.count "runs_created" (length created)))
