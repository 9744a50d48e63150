-- ===== src/Server/Listings.antt =====
-- listSubmissions, getSubmission and getRun of internal/server/public_api.go.
pub mod Groups
pub mod Tallies
use ctf_koth_evals_template.Prelude.{
  ℕ, ◌+◌, String, Bool, true, false, ◌&&◌, Option, none, some, List, [], ◌∷◌, map, ◌==◌,
  if◌then◌else◌, find_first, select,
}
use ctf_koth_evals_template.Go.Int.{ℤ, equals}
use ctf_koth_evals_template.Ent.Status.{Status, status_eq}
use ctf_koth_evals_template.Ent.Schema.{Suite, Submission, Run, Db}
use ctf_koth_evals_template.Ent.Store.{Result, ok, err, only}
use ctf_koth_evals_template.Wireapi.{
  RunCounts, RunSummary, SubmissionSummary, SubmissionDetail, RunDetail,
}
use ctf_koth_evals_template.Server.Response.{
  Response, Body, http_not_found, internal_error, missing_or, write_json,
}
use ctf_koth_evals_template.Server.Action.{Action, ◌>>=◌, pure, query}
use ctf_koth_evals_template.Server.Request.{path_id}
use ctf_koth_evals_template.Server.Counts.{no_counts, add_count}
use ctf_koth_evals_template.Server.Submit.{submission_summary, run_summary, submission_detail}

-- countRow: a group of the query, with the number of its runs.
pub record CountRow : Type 0 where
  pub submission : ℕ
  pub status : Status
  pub n : ℕ

abbrev pub same_group : Run → CountRow → Bool
same_group r c = c.submission == r.submission && status_eq c.status r.status

-- SELECT submission_runs, status, COUNT(*) ... GROUP BY submission_runs, status.
unfoldable pub count_in : Run → List CountRow → List CountRow
count_in r [] = record { submission = r.submission; status = r.status; n = 1 } ∷ []
count_in r (c ∷ cs) = if same_group r c then record c { n = c.n + 1 } ∷ cs else c ∷ count_in r cs

unfoldable pub group_counts : List Run → List CountRow
unfolding count_in
group_counts [] = []
group_counts (r ∷ rs) = count_in r (group_counts rs)

-- byID[c.SubmissionRuns], made on first use.
unfoldable pub add_row : CountRow → List (ℕ × RunCounts) → List (ℕ × RunCounts)
unfolding add_count
add_row c [] = (c.submission, add_count c.status c.n no_counts) ∷ []
add_row c ((id, rc) ∷ rest) =
    if id == c.submission then (id, add_count c.status c.n rc) ∷ rest else (id, rc) ∷ add_row c rest

unfoldable pub by_id : List CountRow → List (ℕ × RunCounts) → List (ℕ × RunCounts)
unfolding add_row
by_id [] m = m
by_id (c ∷ cs) m = by_id cs (add_row c m)

unfoldable pub counts_of : ℕ → List (ℕ × RunCounts) → Option RunCounts
counts_of k [] = none
counts_of k ((id, rc) ∷ rest) = if id == k then some rc else counts_of k rest

abbrev pub with_counts : Option RunCounts → SubmissionSummary → SubmissionSummary
with_counts none sm = sm
with_counts (some rc) sm = record sm { runs = rc }

unfoldable pub summary_with : List (ℕ × RunCounts) → Submission → SubmissionSummary
unfolding counts_of submission_summary
summary_with m r = with_counts (counts_of r.id m) (submission_summary r)

-- `order` is ORDER BY created_at DESC in the database, `arrange` the order of the groups.
unfoldable pub list_submissions :
    (List Submission → List Submission) → (List CountRow → List CountRow) → Action Response
unfolding group_counts by_id summary_with
list_submissions order arrange = do
  rows ← query (internal_error "query: %v") (λ db. ok (order db.submissions))
  counts ← query (internal_error "count runs: %v") (λ db. ok (arrange (group_counts db.runs)))
  pure (write_json 200 (Body.submissions (map (summary_with (by_id counts [])) rows)))

abbrev pub with_runs : Db → Result Submission → Result (Submission × List Run)
with_runs db (ok s) = ok (s, select (λ (r : Run). r.submission == s.id) db.runs)
with_runs db (err e) = err e

-- WithRuns in the order of the keys, which is that of the table.
unfoldable pub get_submission : String → Action Response
unfolding submission_summary run_summary
get_submission param = do
  id ← path_id param
  found ←
      query (missing_or http_not_found "query: %v")
        (λ db. with_runs db (only (λ (s : Submission). equals id s.id) db.submissions))
  pure (write_json 200 (Body.submission (submission_detail found.0 found.1)))

abbrev pub with_edges : Db → Result Run → Result (Run × Option Submission × Option Suite)
with_edges db (ok r) = ok (
  r,
  find_first (λ (s : Submission). s.id == r.submission) db.submissions,
  find_first (λ (s : Suite). s.id == r.suite) db.suites,
)
with_edges db (err e) = err e

-- suiteIDFromRun, on the loaded edge.
abbrev pub suite_id_of : Option Suite → ℕ
suite_id_of none = 0
suite_id_of (some s) = s.id

abbrev pub owner_id : Option Submission → ℕ
owner_id none = 0
owner_id (some s) = s.id

abbrev pub owner_name : Option Submission → String
owner_name none = ""
owner_name (some s) = s.name

-- A NULL worker_id is read as "".
abbrev pub worker_text : Option String → String
worker_text none = ""
worker_text (some name) = name

unfoldable pub run_detail : Run → Option Submission → Option Suite → RunDetail
unfolding run_summary
run_detail r sub su = record {
  summary = record (run_summary r) { suite_id = suite_id_of su };
  submission_id = owner_id sub;
  submission_name = owner_name sub;
  result = r.result;
  worker_id = worker_text r.worker_id;
  claimed_at = r.claimed_at;
  stdout = r.stdout;
  stderr = r.stderr;
}

unfoldable pub get_run : String → Action Response
unfolding run_detail
get_run param = do
  id ← path_id param
  found ←
      query (missing_or http_not_found "query: %v")
        (λ db. with_edges db (only (λ (r : Run). equals id r.id) db.runs))
  pure (write_json 200 (Body.run (run_detail found.0 found.1 found.2)))
