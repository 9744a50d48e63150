-- ===== src/Server/Service.antt =====
-- The requests and the timer that write, and the subcommand register-challenge, one after the other: the handlers hold writeMu, or write in one transaction or one call, so
-- a schedule is a sequence of these.
pub mod Refinement
pub mod History
pub mod Catalogue
pub mod RoundTrip
use ctf_koth_evals_template.Prelude.{ℕ, String, Bool, Option, List, [], ◌∷◌}
use ctf_koth_evals_template.Go.Int.{ℤ}
use ctf_koth_evals_template.Go.Any.{Fields}
use ctf_koth_evals_template.Ent.Schema.{Run}
use ctf_koth_evals_template.Wireapi.{ResultRequest, CreateSuiteRequest}
use ctf_koth_evals_template.Server.Action.{World, Action, serve, ◌>>=◌, ◌>>◌, pure}
use ctf_koth_evals_template.Server.Response.{Response, no_content}
use ctf_koth_evals_template.Server.Request.{Decoded}
use ctf_koth_evals_template.Server.Heartbeat.{heartbeat}
use ctf_koth_evals_template.Server.Claim.{handle_claim}
use ctf_koth_evals_template.Server.Result.{handle_result, handle_run_status}
use ctf_koth_evals_template.Server.Sweeper.{sweeper_tick}
use ctf_koth_evals_template.Server.Cancel.{
  cancel_submission, cancel_run, retry_submission, prioritize_submission,
}
use ctf_koth_evals_template.Server.Submit.{Form, create_submission, reevaluate_submission}
use ctf_koth_evals_template.Server.Suites.{create_suite, clone_suite}
use ctf_koth_evals_template.Commands.Register.{register_challenge}

-- The routes of mountInternal and mountPublic that write, each with its path, body and headers.
pub data Request : Type 0 where
  claims : String → Request
  reports : String → Decoded ResultRequest → String → Request
  asks_status : String → String → Request
  cancels_submission : String → Request
  cancels_run : String → Request
  retries : String → Request
  prioritizes : String → Request
  submits : Decoded Form → Request
  reevaluates : String → Decoded (List ℤ) → Request
  creates_suite : Decoded CreateSuiteRequest → Request
  clones_suite : String → Request
  sweeps : Request
  -- The subcommand, in a process of its own: the manifest and the tarball with its digest.
  registers : Decoded Fields → Decoded (List ℕ × String) → Request

-- What the server takes from outside: the database's choice among the first rows, SHA-256, and the
-- settings WorkerTimeout and MaxUploadMB.
pub record Env : Type 0 where
  pub first : List Run → Option Run
  pub digest : List ℕ → String
  pub worker_timeout : ℕ
  pub max_upload_mb : ℕ

-- The internal routes pass the heartbeat first; the {id} of a request is its text.
unfoldable pub handler : Env → ℕ → Request → Action Response
handler env now (claims worker) = do heartbeat worker now; handle_claim env.first worker now
handler env now (reports id body worker) = do heartbeat worker now; handle_result id body worker now
handler env now (asks_status id worker) = do heartbeat worker now; handle_run_status id
handler env now (cancels_submission id) = cancel_submission id now
handler env now (cancels_run id) = cancel_run id now
handler env now (retries id) = retry_submission id
handler env now (prioritizes id) = prioritize_submission id now
handler env now (submits form) = create_submission env.digest env.max_upload_mb form now
handler env now (reevaluates id body) = reevaluate_submission id body now
handler env now (creates_suite body) = create_suite body now
handler env now (clones_suite id) = clone_suite id now
handler env now sweeps = do sweeper_tick env.worker_timeout now; pure no_content
handler env now (registers manifest packed) = do
  told ← register_challenge manifest packed now
  pure no_content

-- A history of requests, each with its time.
unfoldable pub run_all : Env → List (ℕ × Request) → World → World
run_all env [] w = w
run_all env ((now, r) ∷ rest) w = run_all env rest (serve (handler env now r) w).1
