-- ===== src/Server/Claim.antt =====
-- handleClaim of internal/server/internal_api.go.
pub mod Choice
use ctf_koth_evals_template.Prelude.{
  ℕ, String, ◌≡◌, Bool, false, ◌&&◌, ◌||◌, Option, none, some, List, ◌∷◌, str_eq, ltb, ◌==◌,
  if◌then◌else◌, select, find_first, In,
}
use ctf_koth_evals_template.Ent.Status.{pending, claimed, status_eq}
use ctf_koth_evals_template.Ent.Schema.{Challenge, Suite, Submission, Run, Db}
use ctf_koth_evals_template.Ent.Store.{Result, ok, err, not_found, update_run}
use ctf_koth_evals_template.Server.Response.{
  Response, no_content, missing_or, internal_error, write_json, claim,
}
use ctf_koth_evals_template.Server.Action.{
  Action, ◌>>=◌, ◌>>◌, pure, query, update, deref, transaction, notify,
}

-- Order(Desc(priority), Asc(created_at)) puts the first row before the second.
unfoldable pub claims_before : Run → Run → Bool
claims_before a b =
    ltb b.priority a.priority || (a.priority == b.priority && ltb a.created_at b.created_at)

-- ORDER BY ... LIMIT 1 in the database: a row of the result that no other stands before. Which one
-- of several it is, the database does not promise.
pub record IsFirst (first : List Run → Option Run) : Type 0 where
  pub first_cons : (r : Run) (rs : List Run) → (q : Run) × (first (r ∷ rs) ≡ some q)
  pub first_in : (rs : List Run) (q : Run) → first rs ≡ some q → In q rs
  pub first_best :
      (rs : List Run) (q r : Run) → first rs ≡ some q → In r rs → claims_before r q ≡ false

-- A run with the edges that WithSuite, WithChallenge and WithSubmission load.
pub record Loaded : Type 0 where
  pub row : Run
  pub suite : Option Suite
  pub challenge : Option Challenge
  pub submission : Option Submission

abbrev pub challenge_of : Db → Option Suite → Option Challenge
challenge_of db none = none
challenge_of db (some s) = find_first (λ (c : Challenge). c.id == s.challenge) db.challenges

unfoldable pub load_edges : Db → Run → Loaded
load_edges db r =
    let suite : Option Suite = find_first (λ (s : Suite). s.id == r.suite) db.suites in
    record {
      row = r;
      suite = suite;
      challenge = challenge_of db suite;
      submission = find_first (λ (s : Submission). s.id == r.submission) db.submissions;
    }

abbrev pub is_pending : Run → Bool
is_pending r = status_eq r.status pending

abbrev pub loaded_or_missing : Db → Option Run → Result Loaded
loaded_or_missing db none = err not_found
loaded_or_missing db (some r) = ok (load_edges db r)

-- SetStatus, SetWorkerID, SetClaimedAt
abbrev pub claimed_by : String → ℕ → Run → Run
claimed_by worker now r = record r {
  status = claimed;
  worker_id = some worker;
  claimed_at = some now;
}

unfoldable pub take_pending : (List Run → Option Run) → String → ℕ → Action (Loaded × Run)
take_pending first worker now = do
  taken ←
      query (missing_or no_content "query: %v")
        (λ db. loaded_or_missing db (first (select is_pending db.runs)))
  updated ← update (internal_error "update: %v") (update_run taken.row.id (claimed_by worker now))
  pure (taken, updated)

unfoldable pub claim_response : Loaded → Run → Action Response
claim_response taken updated = do
  suite ← deref taken.suite
  challenge ← deref taken.challenge
  submission ← deref taken.submission
  pure (
      write_json 200 (
        claim (record {
          id = updated.id;
          seed = updated.seed;
          suite = record {
            id = suite.id;
            timeout_seconds = suite.timeout_seconds;
            parameters = suite.parameters;
          };
          challenge = record {
            id = challenge.id;
            name = challenge.name;
            version = challenge.version;
            manifest = challenge.manifest;
          };
          submission = record { id = submission.id; artifact_name = submission.artifact_name };
        })))

-- The X-Worker-Id header, or "unknown" where it is missing.
abbrev pub claiming_worker : String → String
claiming_worker header = if str_eq header "" then "unknown" else header

unfoldable pub handle_claim : (List Run → Option Run) → String → ℕ → Action Response
handle_claim first header now = do
  taken ← transaction "begin tx: %v" "commit: %v" (take_pending first (claiming_worker header) now)
  notify "claim"
  claim_response taken.0 taken.1
