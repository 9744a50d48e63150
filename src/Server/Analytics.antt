-- ===== src/Server/Analytics.antt =====
-- getDistributions, exportSuite and exportRow of internal/server/suite_analytics.go.
pub mod Scores
pub mod Groups
pub mod Distributions
use mathlib.Core.List.{reverse}
use ctf_koth_evals_template.Prelude.{
  ℕ, ◌+◌, ◌-◌, ◌/◌, ◌%◌, zero, suc, String, Bool, true, false, not, ◌&&◌, Option, none, some, List,
  [], ◌∷◌, ◌++◌, map, ◌==◌, ltb, leb, str_eq, if◌then◌else◌, find_first, select,
}
use ctf_koth_evals_template.Go.Float.{Float, Arith, float_lt, float_eq}
use ctf_koth_evals_template.Go.Int.{ℤ, pos, negsuc, equals}
use ctf_koth_evals_template.Go.Text.{codes, negated}
use ctf_koth_evals_template.Ent.Status.{succeeded, status_eq, to_text}
use ctf_koth_evals_template.Ent.Schema.{Suite, Submission, Run, Db}
use ctf_koth_evals_template.Ent.Store.{ok, only}
use ctf_koth_evals_template.Wireapi.{SubmissionDistribution, ExportRow}
use ctf_koth_evals_template.Scoring.{Visit, aggregate, mean}
use ctf_koth_evals_template.Server.Response.{
  Response, Body, http_not_found, internal_error, missing_or, write_json,
}
use ctf_koth_evals_template.Server.Action.{Action, ◌>>=◌, pure, query}
use ctf_koth_evals_template.Server.Request.{path_id}
use ctf_koth_evals_template.Server.Slug.{slug}

-- The runs with a score that count: HasSuiteWith, StatusEQ(succeeded), ScoreNotNil.
abbrev pub is_scored : Option Float → Bool
is_scored none = false
is_scored (some f) = true

abbrev pub counts_for : ℤ → Run → Bool
counts_for id r = equals id r.suite && (status_eq r.status succeeded && is_scored r.score)

abbrev pub new_distribution : Submission → SubmissionDistribution
new_distribution s = record {
  submission_id = s.id;
  name = s.name;
  submitter = s.submitter;
  scores = [];
  submitted_at = s.created_at;
}

abbrev pub with_score : Float → SubmissionDistribution → SubmissionDistribution
with_score score d = record d { scores = d.scores ++ score ∷ [] }

-- byID[sid], made on first use; the score is appended.
unfoldable pub add_score :
    Submission → Float → List SubmissionDistribution → List SubmissionDistribution
add_score s score [] = with_score score (new_distribution s) ∷ []
add_score s score (d ∷ ds) =
    if d.submission_id == s.id then with_score score d ∷ ds else d ∷ add_score s score ds

abbrev pub add_loaded :
    Option Submission → Option Float → List SubmissionDistribution → List SubmissionDistribution
add_loaded none score ds = ds
add_loaded (some s) none ds = ds
add_loaded (some s) (some score) ds = add_score s score ds

abbrev pub submission_of : Db → Run → Option Submission
submission_of db r = find_first (λ (s : Submission). s.id == r.submission) db.submissions

unfoldable pub group_scores :
    Db → List Run → List SubmissionDistribution → List SubmissionDistribution
unfolding add_score
group_scores db [] ds = ds
group_scores db (r ∷ rs) ds = group_scores db rs (add_loaded (submission_of db r) r.score ds)

module _ (ar : Arith) where
  -- The `less` of sort.Slice: the higher mean first, then the earlier submission.
  unfoldable pub before : Visit → SubmissionDistribution → SubmissionDistribution → Bool
  unfolding aggregate float_eq float_lt
  before visit a b =
      let ma : Float = aggregate ar visit a.scores mean in
      let mb : Float = aggregate ar visit b.scores mean in
      if float_eq ma mb then ltb a.submitted_at b.submitted_at else float_lt mb ma

  -- `arrange` is the order in which the map is ranged over, `sort` is sort.Slice.
  unfoldable pub get_distributions :
      (List SubmissionDistribution → List SubmissionDistribution)
      → ((SubmissionDistribution → SubmissionDistribution → Bool)
          → List SubmissionDistribution
          → List SubmissionDistribution)
      → Visit
      → String
      → Action Response
  unfolding group_scores
  get_distributions arrange sort visit param = do
    id ← path_id param
    suite ←
        query (missing_or http_not_found "load suite: %v")
          (λ db. only (λ (s : Suite). equals id s.id) db.suites)
    groups ←
        query (internal_error "load runs: %v")
          (λ db. ok (group_scores db (select (counts_for id) db.runs) []))
    pure (write_json 200 (Body.distributions (sort (before visit) (arrange groups))))

-- r.FinishedAt.Sub(*r.StartedAt).Milliseconds(), which rounds towards zero.
unfoldable pub milliseconds : ℕ → ℕ → ℤ
milliseconds start finish =
    if leb start finish
    then pos ((finish - start) / 1_000_000)
    else negated ((start - finish) / 1_000_000)

abbrev pub duration_of : Option ℕ → Option ℕ → Option ℤ
duration_of none finish = none
duration_of (some s) none = none
duration_of (some s) (some f) = some (milliseconds s f)

abbrev pub text_of : (Submission → String) → Option Submission → String
text_of f none = ""
text_of f (some s) = f s

abbrev pub key_of : Option Submission → ℕ
key_of none = 0
key_of (some s) = s.id

-- The submission is the loaded edge.
unfoldable pub export_row : Run → Option Submission → ℕ → ExportRow
unfolding milliseconds to_text
export_row r sub suite = record {
  run_id = r.id;
  submission_id = key_of sub;
  submission_name = text_of (λ s. s.name) sub;
  submission_sha256 = text_of (λ s. s.artifact_sha256) sub;
  submitter = text_of (λ s. s.submitter) sub;
  suite_id = suite;
  seed = r.seed;
  status = to_text r.status;
  score = r.score;
  duration_ms = duration_of r.started_at r.finished_at;
  started_at = r.started_at;
  finished_at = r.finished_at;
  created_at = r.created_at;
  error = r.error;
}

-- strconv.Itoa, the digits from the right; `fuel` above the number is enough.
unfoldable pub decimal : ℕ → ℕ → List ℕ → List ℕ
decimal zero n out = out
decimal (suc fuel) n out =
    let digit = b'0' + n % 10 in
    let more = decimal fuel (n / 10) (digit ∷ out) in if ltb n 10 then digit ∷ out else more

abbrev pub file_base : Suite → List ℕ
file_base su = codes "suite-" ++ (decimal (su.id + 1) su.id [] ++ (b'-' ∷ slug su.name))

abbrev pub export_body : Bool → List ℕ → List ExportRow → Body
export_body true base rows = Body.export_json (base ++ codes ".json") rows
export_body false base rows = Body.export_csv (base ++ codes ".csv") rows

-- The `format` of the query; the runs come in the order of their keys, that of the table.
unfoldable pub export_suite : String → String → Action Response
unfolding export_row decimal slug
export_suite param format = do
  id ← path_id param
  su ←
      query (missing_or http_not_found "load suite: %v")
        (λ db. only (λ (s : Suite). equals id s.id) db.suites)
  rows ← query (internal_error "load runs: %v") (λ db. ok (
      map (λ r. export_row r (submission_of db r) su.id)
        (select (λ (r : Run). equals id r.suite) db.runs)))
  pure (write_json 200 (export_body (str_eq format "json") (file_base su) rows))
