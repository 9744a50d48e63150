-- ===== src/Tests/Service.antt =====
-- The service on the sample database.
use ctf_koth_evals_template.Prelude.{ℕ, ◌≡◌, refl, some, List, [], ◌∷◌, get_elem?}
use ctf_koth_evals_template.Ent.Schema.{Run}
use ctf_koth_evals_template.Server.Lifecycle.{Reach, Inv}
use ctf_koth_evals_template.Server.Lifecycle.Moves.{SameRun}
use ctf_koth_evals_template.Go.Any.{end, field, text}
use ctf_koth_evals_template.Server.Request.{decoded}
use ctf_koth_evals_template.Server.Service.{
  Request, claims, sweeps, retries, cancels_run, run_all, registers,
}
use ctf_koth_evals_template.Server.Service.Refinement.{run_all-Reach, run_all-Inv}
use ctf_koth_evals_template.Server.Service.History.{success_is_final, run_is_kept}
use ctf_koth_evals_template.Tests.Fixtures.{
  env, scan_first-IsFirst, world, db-Inv, finished_run, waiting_run,
}

abbrev history : List (ℕ × Request)
history =
    (99, registers (decoded (field "name" (text "toy") end)) (decoded (7 ∷ [], "cd34")))
    ∷ (100, claims "v")
    ∷ (200, sweeps)
    ∷ (201, cancels_run "3")
    ∷ (202, retries "1")
    ∷ []

run_all-Reach_example : Reach world.db (run_all env history world).db
run_all-Reach_example = run_all-Reach env scan_first-IsFirst history world db-Inv

run_all-Inv_example : Inv (run_all env history world).db
run_all-Inv_example = run_all-Inv env scan_first-IsFirst history world db-Inv

success_is_final_example : get_elem? (run_all env history world).db.runs 0 ≡ some finished_run
success_is_final_example =
    success_is_final env scan_first-IsFirst history world db-Inv 0 finished_run refl refl

run_is_kept_example :
    (q : Run) × (get_elem? (run_all env history world).db.runs 2 ≡ some q) × SameRun waiting_run q
run_is_kept_example = run_is_kept env scan_first-IsFirst history world db-Inv 2 waiting_run refl
