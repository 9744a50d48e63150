-- ===== src/Server/Cancel.antt =====
-- cancelSubmission, cancelRun, retrySubmission and prioritizeSubmission of
-- internal/server/public_api.go: one bulk update each.
pub mod Effects
pub mod Rerun
use ctf_koth_evals_template.Prelude.{ℕ, String, Bool, ◌&&◌, none, some, List, [], ◌∷◌}
use ctf_koth_evals_template.Go.Int.{ℤ, equals}
use ctf_koth_evals_template.Ent.Status.{
  Status, pending, claimed, running, failed, timed_out, cancelled, status_in,
}
use ctf_koth_evals_template.Ent.Schema.{Run}
use ctf_koth_evals_template.Ent.Store.{ok, update_runs}
use ctf_koth_evals_template.Server.Response.{Response, Body, internal_error, write_json}
use ctf_koth_evals_template.Server.Action.{Action, ◌>>=◌, ◌>>◌, pure, update, notify}
use ctf_koth_evals_template.Server.Request.{path_id}

-- The path's id, the update under writeMu, the nudge, the count under `key`.
unfoldable pub bulk_update :
    String → String → (ℤ → Run → Bool) → (Run → Run) → String → Action Response
bulk_update format key where' f param = do
  id ← path_id param
  n ← update (internal_error format) (λ db. ok (update_runs (where' id) f db))
  notify "runs"
  pure (write_json 200 (Body.count key n))

abbrev pub in_flight : List Status
in_flight = pending ∷ claimed ∷ running ∷ []

abbrev pub retryable : List Status
retryable = failed ∷ timed_out ∷ cancelled ∷ []

-- run.HasSubmissionWith(submission.IDEQ(id)), run.StatusIn(allowed...)
unfoldable pub of_submission : List Status → ℤ → Run → Bool
unfolding status_in equals
of_submission allowed id r = equals id r.submission && status_in allowed r.status

unfoldable pub of_run : List Status → ℤ → Run → Bool
unfolding status_in equals
of_run allowed id r = equals id r.id && status_in allowed r.status

unfoldable pub cancelled_at : ℕ → Run → Run
cancelled_at now r = record r { status = cancelled; finished_at = some now }

unfoldable pub requeued : Run → Run
requeued r = record r {
  status = pending;
  worker_id = some "";
  claimed_at = none;
  started_at = none;
  finished_at = none;
  score = none;
  result = none;
  error = "";
}

unfoldable pub prioritized : ℕ → Run → Run
prioritized now r = record r { priority = now }

unfoldable pub cancel_submission : String → ℕ → Action Response
cancel_submission param now =
    bulk_update "cancel: %v" "cancelled" (of_submission in_flight) (cancelled_at now) param

unfoldable pub cancel_run : String → ℕ → Action Response
cancel_run param now =
    bulk_update "cancel: %v" "cancelled" (of_run in_flight) (cancelled_at now) param

unfoldable pub retry_submission : String → Action Response
retry_submission param = bulk_update "retry: %v" "retried" (of_submission retryable) requeued param

-- `now` is time.Now().UnixNano().
unfoldable pub prioritize_submission : String → ℕ → Action Response
prioritize_submission param now =
    bulk_update "prioritize: %v" "prioritized" (of_submission (pending ∷ [])) (prioritized now)
      param
