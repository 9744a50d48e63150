-- ===== src/Ent/Schema.antt =====
-- The rows of the five tables, as ent/schema declares them. A required edge to one row
-- (a run's suite and submission, a suite's challenge) is the foreign key.
-- Times are nanoseconds since 1970. A NULL text that Go reads as "" is "", but for `worker_id`,
-- whose NULL the sweeper's NOT IN sees.
use ctf_koth_evals_template.Prelude.{ℕ, String, Bool, Option, List}
use ctf_koth_evals_template.Go.Float.{Float}
use ctf_koth_evals_template.Go.Any.{Fields}
use ctf_koth_evals_template.Ent.Status.{Status}
use ctf_koth_evals_template.Go.Int.{ℤ}

pub record Challenge : Type 0 where
  pub id : ℕ
  pub name : String
  pub version : String
  pub description : String
  pub manifest : Fields
  pub bundle : List ℕ
  pub bundle_size : ℕ
  pub created_at : ℕ

pub record Suite : Type 0 where
  pub id : ℕ
  pub name : String
  pub description : String
  pub parameters : Option Fields
  pub seeds : List String
  pub timeout_seconds : ℤ
  pub scoring : Option Fields
  pub sealed : Bool
  pub created_at : ℕ
  pub challenge : ℕ
  pub parent : Option ℕ

pub record Submission : Type 0 where
  pub id : ℕ
  pub name : String
  pub submitter : String
  pub artifact_name : String
  pub artifact : List ℕ
  pub artifact_size : ℕ
  pub artifact_sha256 : String
  pub created_at : ℕ

pub record Run : Type 0 where
  pub id : ℕ
  pub seed : String
  pub status : Status
  pub priority : ℕ
  pub score : Option Float
  pub result : Option Fields
  pub error : String
  pub stdout : String
  pub stderr : String
  pub worker_id : Option String
  pub claimed_at : Option ℕ
  pub started_at : Option ℕ
  pub finished_at : Option ℕ
  pub created_at : ℕ
  pub submission : ℕ
  pub suite : ℕ

pub record Worker : Type 0 where
  pub id : ℕ
  pub name : String
  pub last_seen : ℕ
  pub runs_handled : ℕ
  pub created_at : ℕ

-- The tables, in the order of insertion, and the next key of each.
pub record Db : Type 0 where
  pub challenges : List Challenge
  pub suites : List Suite
  pub submissions : List Submission
  pub runs : List Run
  pub workers : List Worker
  pub next_challenge : ℕ
  pub next_suite : ℕ
  pub next_submission : ℕ
  pub next_run : ℕ
  pub next_worker : ℕ
