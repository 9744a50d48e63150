-- ===== src/Tests/Submissions.antt =====
-- Submissions on the sample database, with a call that fails.
use ctf_koth_evals_template.Prelude.{◌≤◌, ◌≡◌, ◌⊎◌, refl, inl, none, some, [], ◌∷◌, arith}
use ctf_koth_evals_template.Go.Int.{pos}
use ctf_koth_evals_template.Go.Text.{codes}
use ctf_koth_evals_template.Server.Action.{World, serve}
use ctf_koth_evals_template.Server.Request.{decoded}
use ctf_koth_evals_template.Server.Submit.{Form, create_submission, reevaluate_submission}
use ctf_koth_evals_template.Server.Submit.Atomic.{Created, submission_is_atomic}
use ctf_koth_evals_template.Server.Submit.Reevaluate.{
  Reevaluated, reevaluation_is_atomic, repeated_suite_refused,
}
use ctf_koth_evals_template.Server.Submit.Progress.{submission_succeeds}
use ctf_koth_evals_template.Server.Submit.{suites_in, Artifact}
use ctf_koth_evals_template.Server.SuiteIds.{ids, parse_suite_ids}
use ctf_koth_evals_template.Server.Action.{reliable}
use ctf_koth_evals_template.Ent.Schema.{Suite}
use ctf_koth_evals_template.Prelude.{ℕ, String, List, ◌≢◌, In, All, All-In, length, eq_iff}
use ctf_koth_evals_template.Tests.Fixtures.{world, db}

abbrev pub uploaded : Artifact
uploaded = record { filename = "p.txt"; size = 1; content = decoded (7 ∷ []) }

abbrev pub upload : Form
upload = record {
  suite_ids = codes "1" ∷ [];
  submitter = "eve";
  name = "";
  artifact = some uploaded;
}

-- The second insertion of a run fails.
abbrev failing_world : World
failing_world = record world { faults = none ∷ none ∷ none ∷ none ∷ some "disk full" ∷ [] }

submission_is_atomic_example :
    ((400 ≤ (serve (create_submission (λ b. "00") 16 (decoded upload) 60) failing_world).0.code)
      × ((serve (create_submission (λ b. "00") 16 (decoded upload) 60) failing_world).1.db ≡ db))
    ⊎ Created
        (λ b. "00")
        16
        (decoded upload)
        60
        db
        (serve (create_submission (λ b. "00") 16 (decoded upload) 60) failing_world).0
        (serve (create_submission (λ b. "00") 16 (decoded upload) 60) failing_world).1.db
submission_is_atomic_example = submission_is_atomic (λ b. "00") 16 (decoded upload) 60 failing_world

reevaluation_is_atomic_example :
    ((400 ≤ (serve (reevaluate_submission "1" (decoded (pos 1 ∷ [])) 60) failing_world).0.code)
      × ((serve (reevaluate_submission "1" (decoded (pos 1 ∷ [])) 60) failing_world).1.db ≡ db))
    ⊎ Reevaluated "1"
        (decoded (pos 1 ∷ []))
        db
        (serve (reevaluate_submission "1" (decoded (pos 1 ∷ [])) 60) failing_world).0
        (serve (reevaluate_submission "1" (decoded (pos 1 ∷ [])) 60) failing_world).1.db
reevaluation_is_atomic_example = reevaluation_is_atomic "1" (decoded (pos 1 ∷ [])) 60 failing_world

repeated_suite_refused_example :
    (400 ≤ (serve (reevaluate_submission "1" (decoded (pos 1 ∷ pos 1 ∷ [])) 60) world).0.code)
    × ((serve (reevaluate_submission "1" (decoded (pos 1 ∷ pos 1 ∷ [])) 60) world).1.db ≡ db)
repeated_suite_refused_example =
    repeated_suite_refused "1" (pos 1) (pos 1 ∷ []) 60 world (omega arith, tt) (inl refl)

first_suite : parse_suite_ids upload.suite_ids ≡ ids (1 ∷ [])
unfolding parse_suite_ids
first_suite = refl

abbrev one_id : List ℕ
one_id = 1 ∷ []

suite_there : length (suites_in one_id db) ≡ length one_id
unfolding suites_in
suite_there = refl

file_named : uploaded.filename ≢ ""
file_named = ground (arith, eq_iff "p.txt" "")

seeds_named : (s : Suite) → In s db.suites → All (λ (seed : String). seed ≢ "") s.seeds
seeds_named s =
    All-In (λ (x : Suite). All (λ (seed : String). seed ≢ "") x.seeds) db.suites s
      ((ground (arith, eq_iff "s1" ""), (ground (arith, eq_iff "s2" ""), tt)), tt)

submission_succeeds_example :
    Created
      (λ b. "00")
      16
      (decoded upload)
      60
      db
      (serve (create_submission (λ b. "00") 16 (decoded upload) 60) (reliable world)).0
      (serve (create_submission (λ b. "00") 16 (decoded upload) 60) (reliable world)).1.db
submission_succeeds_example =
    submission_succeeds (λ b. "00") 16 60 upload one_id uploaded (7 ∷ []) world first_suite refl
      (omega arith) refl file_named (omega arith) suite_there seeds_named
