-- ===== src/Server/Service/Refinement.antt =====
-- Whatever is asked of the server, in whatever order and with whatever failures of the database,
-- the table of runs keeps to the lifecycle.
use ctf_koth_evals_template.Prelude.{ℕ, String, List, [], ◌∷◌}
use ctf_koth_evals_template.Server.Action.{World, serve}
use ctf_koth_evals_template.Server.Claim.{IsFirst}
use ctf_koth_evals_template.Server.Result.{handle_run_status}
use ctf_koth_evals_template.Server.Lifecycle.{Inv, Reach, here}
use ctf_koth_evals_template.Server.Lifecycle.Rows.{Reach-Inv, Reach-trans}
use ctf_koth_evals_template.Server.Lifecycle.Rules.{
  Refines, after_call, bind-Refines, query-Refines, pure-Refines,
}
use ctf_koth_evals_template.Server.Lifecycle.Heartbeats.{heartbeat-Refines}
use ctf_koth_evals_template.Server.Lifecycle.Updates.{path_id-Refines}
use ctf_koth_evals_template.Server.Lifecycle.Claims.{handle_claim-Refines}
use ctf_koth_evals_template.Server.Lifecycle.Reports.{handle_result-Refines}
use ctf_koth_evals_template.Server.Lifecycle.Bulk.{
  cancel_submission-Refines, cancel_run-Refines, retry_submission-Refines,
  prioritize_submission-Refines, sweeper_tick-Refines,
}
use ctf_koth_evals_template.Server.Lifecycle.Submissions.{
  create_submission-Refines, reevaluate_submission-Refines,
}
use ctf_koth_evals_template.Server.Suites.Steps.{create_suite-Refines, clone_suite-Refines}
use ctf_koth_evals_template.Commands.Register.Steps.{register_challenge-Refines}
use ctf_koth_evals_template.Server.Service.{
  Request, claims, reports, asks_status, cancels_submission, cancels_run, retries, prioritizes,
  submits, reevaluates, creates_suite, clones_suite, sweeps, registers, Env, handler, run_all,
}

status-Refines : (param : String) (w : World) → Refines (handle_run_status param) w
unfolding handle_run_status
status-Refines param w =
    bind-Refines _ _ w (path_id-Refines param w)
      λ id w1 _. query-Refines _ _ _ w1 λ r _. pure-Refines _ (after_call w1)

module _ (env : Env) (law : IsFirst env.first) where
  handler-Refines : (now : ℕ) (r : Request) (w : World) → Refines (handler env now r) w
  unfolding handler
  handler-Refines now (claims worker) w =
      bind-Refines _ _ w (heartbeat-Refines worker now w)
        λ u w1 _. handle_claim-Refines env.first law worker now w1
  handler-Refines now (reports id body worker) w =
      bind-Refines _ _ w (heartbeat-Refines worker now w)
        λ u w1 _. handle_result-Refines worker now id body w1
  handler-Refines now (asks_status id worker) w =
      bind-Refines _ _ w (heartbeat-Refines worker now w) λ u w1 _. status-Refines id w1
  handler-Refines now (cancels_submission id) w = cancel_submission-Refines id now w
  handler-Refines now (cancels_run id) w = cancel_run-Refines id now w
  handler-Refines now (retries id) w = retry_submission-Refines id w
  handler-Refines now (prioritizes id) w = prioritize_submission-Refines id now w
  handler-Refines now (submits form) w =
      create_submission-Refines env.digest env.max_upload_mb form now w
  handler-Refines now (reevaluates id body) w = reevaluate_submission-Refines id body now w
  handler-Refines now (creates_suite body) w = create_suite-Refines body now w
  handler-Refines now (clones_suite id) w = clone_suite-Refines id now w
  handler-Refines now sweeps w =
      bind-Refines _ _ w (sweeper_tick-Refines env.worker_timeout now w) λ u w1 _. pure-Refines _ w1
  handler-Refines now (registers manifest packed) w =
      bind-Refines _ _ w (register_challenge-Refines manifest packed now w)
        λ u w1 _. pure-Refines _ w1

  -- From any database that satisfies the invariant, every history of requests, timer ticks,
  -- registrations and database failures leaves tables that the lifecycle reaches: each run changed
  -- only by the moves of a run's life, new runs are pending and untouched, a suite is only ever
  -- sealed, and no submission or challenge changes.
  pub run_all-Reach :
      (history : List (ℕ × Request)) (w : World) → Inv w.db → Reach w.db (run_all env history w).db
  unfolding run_all serve
  run_all-Reach [] w i = here
  run_all-Reach ((now, r) ∷ rest) w i =
      let step = (handler-Refines now r w).at i in
      Reach-trans step (run_all-Reach rest _ (Reach-Inv step i))

  -- Every history of requests, timer ticks, registrations and database failures keeps the
  -- invariant: the keys of the runs rise and stay below the next one, those of the submissions
  -- stay below theirs, a pending run names no worker and has no claim, start or finish time, no
  -- score, result or error (its output may remain), a claimed one has a named worker and a claim
  -- time and no start or finish time, score, result or error, a run in a terminal status has a
  -- finish time, and no run is `running`.
  pub run_all-Inv :
      (history : List (ℕ × Request)) (w : World) → Inv w.db → Inv (run_all env history w).db
  run_all-Inv history w i = Reach-Inv (run_all-Reach history w i) i
