-- ===== src/Tests/Suites.antt =====
-- Suites, uploads and downloads on the sample database.
use ctf_koth_evals_template.Prelude.{
  ℕ, String, ◌≤◌, ◌≡◌, ◌⊎◌, refl, Bool, true, none, some, List, [], ◌∷◌, get_elem?,
}
use ctf_koth_evals_template.Go.Int.{pos}
use ctf_koth_evals_template.Ent.Schema.{Suite}
use ctf_koth_evals_template.Wireapi.{
  CreateSuiteRequest, SubmissionDetail, SubmissionSummary, RunSummary,
}
use ctf_koth_evals_template.Server.Response.{Body, download, write_json}
use ctf_koth_evals_template.Server.Action.{reliable, serve, ◌>>=◌, pure, query, update, notify}
use ctf_koth_evals_template.Server.Request.{decoded}
use ctf_koth_evals_template.Server.Suites.{create_suite, clone_suite}
use ctf_koth_evals_template.Server.Suites.Created.{Created, suite_is_stored_whole}
use ctf_koth_evals_template.Server.Suites.Cloned.{Cloned, clone_is_open_copy}
use ctf_koth_evals_template.Server.Downloads.{handle_artifact}
use ctf_koth_evals_template.Server.Lifecycle.{SuiteMove}
use ctf_koth_evals_template.Server.Submit.{
  create_submission, suites_in, persist_submission, fan_out, fan_seeds, seal, submission_summary,
  run_summary,
}
use ctf_koth_evals_template.Server.SuiteIds.{parse_suite_ids}
use ctf_koth_evals_template.Server.Names.{default_name}
use ctf_koth_evals_template.Server.Counts.{no_counts}
use ctf_koth_evals_template.Ent.Store.{create_run, create_submission as insert_submission}
use ctf_koth_evals_template.Ent.Status.{to_text}
use ctf_koth_evals_template.Go.Text.{codes, atoi}
use ctf_koth_evals_template.Server.Service.{run_all, Request, creates_suite, clones_suite, retries}
use ctf_koth_evals_template.Server.Service.Catalogue.{suite_is_kept}
use ctf_koth_evals_template.Server.Service.RoundTrip.{handle_artifact-create_submission}
use ctf_koth_evals_template.Tests.Fixtures.{env, scan_first-IsFirst, world, db, db-Inv, suite}
use ctf_koth_evals_template.Tests.Submissions.{upload, uploaded}

abbrev wanted_suite : CreateSuiteRequest
wanted_suite = record {
  name = "final";
  description = "";
  challenge_id = pos 1;
  parameters = none;
  seeds = "s1" ∷ [];
  timeout_seconds = pos 0;
  scoring = none;
}

suite_is_stored_whole_example :
    ((400 ≤ (serve (create_suite (decoded wanted_suite) 60) world).0.code)
      × ((serve (create_suite (decoded wanted_suite) 60) world).1.db ≡ db))
    ⊎ Created
        (decoded wanted_suite)
        60
        db
        (serve (create_suite (decoded wanted_suite) 60) world).0
        (serve (create_suite (decoded wanted_suite) 60) world).1.db
suite_is_stored_whole_example = suite_is_stored_whole (decoded wanted_suite) 60 world

clone_is_open_copy_example :
    ((400 ≤ (serve (clone_suite "1" 60) world).0.code)
      × ((serve (clone_suite "1" 60) world).1.db ≡ db))
    ⊎ Cloned "1" 60 db (serve (clone_suite "1" 60) world).0 (serve (clone_suite "1" 60) world).1.db
clone_is_open_copy_example = clone_is_open_copy "1" 60 world

abbrev suite_history : List (ℕ × Request)
suite_history =
    (60, creates_suite (decoded wanted_suite)) ∷ (61, clones_suite "1") ∷ (62, retries "1") ∷ []

suite_is_kept_example :
    (t : Suite) × (get_elem? (run_all env suite_history world).db.suites 0 ≡ some t)
    × SuiteMove suite t
    × (◌≡◌ {A = Bool} true true → t ≡ suite)
suite_is_kept_example = suite_is_kept env scan_first-IsFirst suite_history world db-Inv 0 suite refl

abbrev summary : SubmissionSummary
summary = record {
  id = 2;
  name = "p";
  submitter = "eve";
  artifact_name = "p.txt";
  artifact_size = 1;
  artifact_sha256 = "00";
  created_at = 60;
  runs = no_counts;
}

abbrev run_told : ℕ → String → RunSummary
run_told id seed = record {
  id = id;
  suite_id = 1;
  seed = seed;
  status = "pending";
  score = none;
  error = "";
  started_at = none;
  finished_at = none;
  created_at = 60;
}

abbrev detail : SubmissionDetail
detail = record { summary = summary; runs = run_told 5 "s1" ∷ run_told 6 "s2" ∷ [] }

upload_answered :
    (serve (create_submission env.digest env.max_upload_mb (decoded upload) 60) world).0
    ≡ write_json 201 (Body.submission detail)
unfolding create_submission serve ◌>>=◌ pure parse_suite_ids suites_in query persist_submission
    fan_out fan_seeds seal update insert_submission create_run notify default_name
    submission_summary run_summary to_text
upload_answered = refl

text_two : atoi (codes "2") ≡ some (pos 2)
unfolding atoi
text_two = refl

handle_artifact-create_submission_example :
    (serve (handle_artifact "2") (
      reliable (
        run_all env suite_history
          (serve (create_submission env.digest env.max_upload_mb (decoded upload) 60) world).1))).0
    ≡ record { code = 200; body = download 1 (some "p.txt") (7 ∷ []) }
handle_artifact-create_submission_example =
    handle_artifact-create_submission env scan_first-IsFirst suite_history world db-Inv upload
      uploaded (7 ∷ []) 60 detail "2" refl refl upload_answered text_two
