-- ===== src/Server/Result.antt =====
-- handleResult, parseTerminalStatus and handleRunStatus of internal/server/internal_api.go, and
-- bumpRunsHandled of heartbeat.go.
pub mod Lateness
pub mod Stored
pub mod Columns
pub mod Reports
use ctf_koth_evals_template.Prelude.{
  ℕ, ◌+◌, String, Bool, true, false, not, Option, none, some, str_eq, if◌then◌else◌,
}
use ctf_koth_evals_template.Go.Int.{ℤ, equals}
use ctf_koth_evals_template.Ent.Status.{
  Status, succeeded, failed, timed_out, cancelled, status_eq, to_text,
}
use ctf_koth_evals_template.Ent.Schema.{Run, Worker, Db}
use ctf_koth_evals_template.Ent.Store.{Result, ok, only, rewrite, update_run}
use ctf_koth_evals_template.Wireapi.{ResultRequest}
use ctf_koth_evals_template.Server.Response.{
  Response, Body, bad_request, no_content, http_not_found, missing_or, write_json,
}
use ctf_koth_evals_template.Server.Action.{
  Action, ◌>>=◌, ◌>>◌, pure, stop, query, update, save, notify,
}
use ctf_koth_evals_template.Server.Request.{Decoded, path_id, json_body}

-- The row of a request's id.
abbrev pub run_by_id : ℤ → Db → Result Run
run_by_id id db = only (λ (r : Run). equals id r.id) db.runs

unfoldable pub handle_run_status : String → Action Response
handle_run_status param = do
  id ← path_id param
  r ← query (missing_or http_not_found "query: %v") (run_by_id id)
  pure (write_json 200 (Body.status (to_text r.status)))

unfoldable pub parse_terminal_status : String → Option Status
parse_terminal_status s =
    if str_eq s "succeeded"
    then some succeeded
    else if str_eq s "failed"
    then some failed
    else if str_eq s "timed_out"
    then some timed_out
    else if str_eq s "cancelled"
    then some cancelled
    else none

abbrev pub terminal_or_reply : Option Status → Action Status
terminal_or_reply (some s) = pure s
terminal_or_reply none =
    stop (bad_request "status must be one of succeeded|failed|timed_out|cancelled")

-- The sticky-cancel guard: the report of `reported` comes too late for a run in `current`.
unfoldable pub too_late : Status → Status → Bool
unfolding status_eq
too_late succeeded reported = true
too_late failed reported = true
too_late timed_out reported = true
too_late cancelled reported = not (status_eq reported cancelled)
too_late _ reported = false

abbrev pub or_keep : {A : Type 0} → Option A → Option A → Option A
or_keep none old = old
or_keep (some a) old = some a

abbrev pub or_keep_text : String → String → String
or_keep_text new old = if str_eq new "" then old else new

-- The setters of the update, a field of the body that is missing leaves the column alone.
unfoldable pub with_result : Status → ResultRequest → ℕ → Run → Run
with_result status body now r = record r {
  status = status;
  finished_at = some now;
  score = or_keep body.score r.score;
  result = or_keep body.result r.result;
  error = or_keep_text body.error r.error;
  started_at = or_keep body.started_at r.started_at;
  stdout = or_keep_text body.stdout r.stdout;
  stderr = or_keep_text body.stderr r.stderr;
}

unfoldable pub count_handled : String → ℕ → Db → Db
unfolding rewrite
count_handled name now db = record db {
  workers =
      rewrite (λ (v : Worker). str_eq v.name name)
        (λ v. record v { runs_handled = v.runs_handled + 1; last_seen = now }) db.workers;
}

-- An error is only logged.
unfoldable pub bump_runs_handled : String → ℕ → Action (Unit {0})
bump_runs_handled name now =
    if str_eq name ""
    then pure tt
    else do done ← save (λ db. ok (count_handled name now db, tt)); pure tt

unfoldable pub record_result : Status → ResultRequest → String → ℕ → ℕ → Action Response
record_result status body worker now id = do
  saved ←
      update (missing_or http_not_found "update: %v") (update_run id (with_result status body now))
  if status_eq status succeeded then bump_runs_handled worker now else pure tt
  notify "run"
  pure no_content

unfoldable pub handle_result : String → Decoded ResultRequest → String → ℕ → Action Response
handle_result param request worker now = do
  id ← path_id param
  body ← json_body request
  status ← terminal_or_reply (parse_terminal_status body.status)
  current ← query (missing_or http_not_found "load run: %v") (run_by_id id)
  if too_late current.status status
      then pure no_content
      else record_result status body worker now current.id
