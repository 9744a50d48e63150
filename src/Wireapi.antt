-- ===== src/Wireapi.antt =====
-- The JSON bodies of internal/wireapi: types.go for the workers, public.go for the SPA.
-- `omitempty` pointers are options; the tags are not modelled.
use ctf_koth_evals_template.Prelude.{ℕ, String, Bool, Option, List}
use ctf_koth_evals_template.Go.Float.{Float}
use ctf_koth_evals_template.Go.Int.{ℤ}
use ctf_koth_evals_template.Go.Any.{Fields}

-- wireapi.Suite, Challenge and Submission: what a worker is told of the rows of the same names.
pub record ClaimedSuite : Type 0 where
  pub id : ℕ
  pub timeout_seconds : ℤ
  pub parameters : Option Fields

pub record ClaimedChallenge : Type 0 where
  pub id : ℕ
  pub name : String
  pub version : String
  pub manifest : Fields

pub record ClaimedSubmission : Type 0 where
  pub id : ℕ
  pub artifact_name : String

pub record ClaimResponse : Type 0 where
  pub id : ℕ
  pub seed : String
  pub suite : ClaimedSuite
  pub challenge : ClaimedChallenge
  pub submission : ClaimedSubmission

pub record ResultRequest : Type 0 where
  pub status : String
  pub score : Option Float
  pub result : Option Fields
  pub error : String
  pub started_at : Option ℕ
  pub stdout : String
  pub stderr : String

pub record ChallengeListItem : Type 0 where
  pub id : ℕ
  pub name : String
  pub version : String
  pub description : String
  pub bundle_size : ℕ
  pub created_at : ℕ

pub record CreateSuiteRequest : Type 0 where
  pub name : String
  pub description : String
  pub challenge_id : ℤ
  pub parameters : Option Fields
  pub seeds : List String
  pub timeout_seconds : ℤ
  pub scoring : Option Fields

-- `challenge` is the zero item where the edge was not loaded.
pub record SuiteDetail : Type 0 where
  pub id : ℕ
  pub name : String
  pub description : String
  pub challenge : Option ChallengeListItem
  pub parameters : Option Fields
  pub seeds : List String
  pub timeout_seconds : ℤ
  pub scoring : Option Fields
  pub sealed : Bool
  pub created_at : ℕ

pub record RunCounts : Type 0 where
  pub total : ℕ
  pub succeeded : ℕ
  pub failed : ℕ
  pub timed_out : ℕ
  pub pending : ℕ
  pub cancelled : ℕ

pub record SubmissionSummary : Type 0 where
  pub id : ℕ
  pub name : String
  pub submitter : String
  pub artifact_name : String
  pub artifact_size : ℕ
  pub artifact_sha256 : String
  pub created_at : ℕ
  pub runs : RunCounts

pub record RunSummary : Type 0 where
  pub id : ℕ
  pub suite_id : ℕ
  pub seed : String
  pub status : String
  pub score : Option Float
  pub error : String
  pub started_at : Option ℕ
  pub finished_at : Option ℕ
  pub created_at : ℕ

pub record SubmissionDetail : Type 0 where
  pub summary : SubmissionSummary
  pub runs : List RunSummary

pub record RunDetail : Type 0 where
  pub summary : RunSummary
  pub submission_id : ℕ
  pub submission_name : String
  pub result : Option Fields
  pub worker_id : String
  pub claimed_at : Option ℕ
  pub stdout : String
  pub stderr : String

pub record Metrics : Type 0 where
  pub mean : Float
  pub median : Float
  pub mode : Float
  pub max : Float
  pub min : Float
  pub stddev : Float

pub record LeaderboardEntry : Type 0 where
  pub submission_id : ℕ
  pub name : String
  pub submitter : String
  pub metrics : Option Metrics
  pub ci95_half_width : Float
  pub p_value_vs_leader : Option Float
  pub runs : RunCounts
  pub submitted_at : ℕ

pub record QueueSuiteEntry : Type 0 where
  pub suite_id : ℕ
  pub name : String
  pub pending : ℕ
  pub mean_duration_ms : Float

pub record QueueStatus : Type 0 where
  pub pending_total : ℕ
  pub active_workers : ℕ
  pub throughput_per_sec : Float
  pub eta_seconds : Option Float
  pub by_suite : List QueueSuiteEntry

pub record SubmissionDistribution : Type 0 where
  pub submission_id : ℕ
  pub name : String
  pub submitter : String
  pub scores : List Float
  pub submitted_at : ℕ

pub record ExportRow : Type 0 where
  pub run_id : ℕ
  pub submission_id : ℕ
  pub submission_name : String
  pub submission_sha256 : String
  pub submitter : String
  pub suite_id : ℕ
  pub seed : String
  pub status : String
  pub score : Option Float
  pub duration_ms : Option ℤ
  pub started_at : Option ℕ
  pub finished_at : Option ℕ
  pub created_at : ℕ
  pub error : String
