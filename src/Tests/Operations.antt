-- ===== src/Tests/Operations.antt =====
-- One operation each on the sample database.
use ctf_koth_evals_template.Prelude.{
  ◌<◌, ◌≡◌, ◌≢◌, refl, inl, inr, true, none, some, [], ◌∷◌, arith, In, All-In, get_elem?,
}
use ctf_koth_evals_template.Go.Int.{pos}
use ctf_koth_evals_template.Go.Text.{codes, atoi}
use ctf_koth_evals_template.Ent.Status.{pending, cancelled, failed, status_in}
use ctf_koth_evals_template.Ent.Schema.{Run}
use ctf_koth_evals_template.Wireapi.{ResultRequest}
use ctf_koth_evals_template.Server.Action.{World, serve, reliable}
use ctf_koth_evals_template.Server.Request.{decoded}
use ctf_koth_evals_template.Server.Claim.{claiming_worker, handle_claim}
use ctf_koth_evals_template.Server.Claim.Choice.{after_claim}
use ctf_koth_evals_template.Server.Sweeper.{reclaimed, sweeper_tick}
use ctf_koth_evals_template.Server.Sweeper.Reclaim.{IsAbandoned, sweep_exact}
use ctf_koth_evals_template.Server.Result.{parse_terminal_status, handle_result}
use ctf_koth_evals_template.Server.Result.Reports.{Reported, report_outcome}
use ctf_koth_evals_template.Server.Cancel.{
  cancelled_at, in_flight, cancel_run, retry_submission, prioritize_submission,
}
use ctf_koth_evals_template.Server.Cancel.Effects.{cancel_sticks}
use ctf_koth_evals_template.Server.Cancel.Rerun.{
  WaitsAnew, MayRetry, retry_effect, prioritized_is_next,
}
use ctf_koth_evals_template.Tests.Fixtures.{
  scan_first, scan_first-IsFirst, db, world, db-Inv, finished_run, claimed_run, waiting_run,
}

abbrev failure : ResultRequest
failure = record {
  status = "failed";
  score = none;
  result = none;
  error = "exit 1";
  started_at = some 20;
  stdout = "";
  stderr = "";
}

two : atoi (codes "2") ≡ some (pos 2)
unfolding atoi
two = refl

one : atoi (codes "1") ≡ some (pos 1)
unfolding atoi
one = refl

abbrev failed_run : Run
failed_run = record finished_run { status = failed; error = "exit 1" }

abbrev failed_world : World
failed_world = record world { db = record db { runs = failed_run ∷ waiting_run ∷ [] } }

not_cancelled : parse_terminal_status failure.status ≢ some cancelled
unfolding parse_terminal_status
not_cancelled e = absurd (cc)

low : (r : Run) → In r db.runs → r.priority < 10
low r =
    All-In (λ (x : Run). x.priority < 10) db.runs r
      (omega arith, (omega arith, (omega arith, (omega arith, tt))))

claimed_in_flight : status_in in_flight claimed_run.status ≡ true
unfolding status_in
claimed_in_flight = refl

sweep_exact_example :
    (IsAbandoned 100 30 db claimed_run
      → get_elem? (sweeper_tick 30 100 (reliable world)).1.db.runs 1 ≡ some (reclaimed claimed_run))
    × ((IsAbandoned 100 30 db claimed_run → ⊥)
        → get_elem? (sweeper_tick 30 100 (reliable world)).1.db.runs 1 ≡ some claimed_run)
sweep_exact_example = sweep_exact 100 30 world db-Inv 1 claimed_run refl

report_outcome_example :
    Reported "2"
      (decoded failure)
      "w"
      50
      db
      (serve (handle_result "2" (decoded failure) "w" 50) (reliable world)).1.db
      (serve (handle_result "2" (decoded failure) "w" 50) (reliable world)).0
report_outcome_example = report_outcome "w" 50 world db-Inv "2" (decoded failure)

cancel_sticks_example :
    get_elem?
      (serve
        (handle_result "2" (decoded failure) "w" 60)
        (reliable (serve (cancel_run "2" 50) (reliable world)).1)).1.db.runs
      1
    ≡ some (cancelled_at 50 claimed_run)
cancel_sticks_example =
    cancel_sticks world db-Inv 1 claimed_run refl "2" two 50 claimed_in_flight "2" failure "w" 60
      not_cancelled

retry_effect_example :
    (q : Run) × (get_elem? (serve (retry_submission "1") (reliable failed_world)).1.db.runs 0
      ≡ some q)
    × (failed_run.submission ≡ 1 → MayRetry failed_run.status → WaitsAnew failed_run q)
    × (failed_run.submission ≢ 1 → q ≡ failed_run)
    × ((MayRetry failed_run.status → ⊥) → q ≡ failed_run)
retry_effect_example = retry_effect failed_world "1" 1 one 0 failed_run refl

prioritized_is_next_example :
    (q : Run) × In q (serve (prioritize_submission "1" 10) (reliable world)).1.db.runs
    × (q.status ≡ pending)
    × (q.submission ≡ 1)
    × ((serve
          (handle_claim scan_first "v" 20)
          (reliable (serve (prioritize_submission "1" 10) (reliable world)).1)).1.db
        ≡ after_claim
            (claiming_worker "v")
            20
            q
            (serve (prioritize_submission "1" 10) (reliable world)).1.db)
prioritized_is_next_example =
    prioritized_is_next world "1" 1 one db-Inv 10 low scan_first scan_first-IsFirst "v" 20
      waiting_run (inr (inr (inl refl))) refl refl
