-- ===== src/Server/Suites.antt =====
-- listChallenges, listSuites, createSuite, getSuite, cloneSuite and suiteDetail of
-- internal/server/public_api.go.
pub mod Created
pub mod Cloned
pub mod Steps
use ctf_koth_evals_template.Prelude.{
  ℕ, String, ◌<>◌, Bool, false, not, Option, none, some, List, [], ◌∷◌, map, str_eq, ltb, ◌==◌,
  if◌then◌else◌, length, find_first,
}
use ctf_koth_evals_template.Go.Int.{ℤ, pos, equals}
use ctf_koth_evals_template.Ent.Schema.{Challenge, Suite, Db}
use ctf_koth_evals_template.Ent.Store.{Result, ok, err, only, create_suite as insert_suite}
use ctf_koth_evals_template.Wireapi.{ChallengeListItem, CreateSuiteRequest, SuiteDetail}
use ctf_koth_evals_template.Server.Response.{
  Response, Body, bad_request, http_not_found, internal_error, missing_or, write_json,
}
use ctf_koth_evals_template.Server.Action.{Action, ◌>>=◌, ◌>>◌, pure, query, update, deref}
use ctf_koth_evals_template.Server.Request.{Decoded, path_id, json_body, require}

unfoldable pub challenge_list_item : Challenge → ChallengeListItem
challenge_list_item c = record {
  id = c.id;
  name = c.name;
  version = c.version;
  description = c.description;
  bundle_size = c.bundle_size;
  created_at = c.created_at;
}

-- `order` is ORDER BY created_at DESC in the database.
unfoldable pub list_challenges : (List Challenge → List Challenge) → Action Response
list_challenges order = do
  rows ← query (internal_error "query: %v") (λ db. ok (order db.challenges))
  pure (write_json 200 (Body.challenges (map challenge_list_item rows)))

abbrev pub item_of : Option Challenge → Option ChallengeListItem
item_of none = none
item_of (some c) = some (challenge_list_item c)

-- The challenge is the loaded edge.
unfoldable pub suite_detail : Option Challenge → Suite → SuiteDetail
unfolding challenge_list_item
suite_detail challenge s = record {
  id = s.id;
  name = s.name;
  description = s.description;
  challenge = item_of challenge;
  parameters = s.parameters;
  seeds = s.seeds;
  timeout_seconds = s.timeout_seconds;
  scoring = s.scoring;
  sealed = s.sealed;
  created_at = s.created_at;
}

-- The edge that WithChallenge loads.
abbrev pub challenge_of : Db → Suite → Option Challenge
challenge_of db s = find_first (λ (c : Challenge). c.id == s.challenge) db.challenges

unfoldable pub list_suites : (List Suite → List Suite) → Action Response
unfolding suite_detail
list_suites order = do
  details ←
      query (internal_error "query: %v")
        (λ db. ok (map (λ s. suite_detail (challenge_of db s) s) (order db.suites)))
  pure (write_json 200 (Body.suites details))

-- One hour where the request says nothing.
abbrev pub timeout_or_default : ℤ → ℤ
timeout_or_default t = if equals t 0 then pos 3600 else t

-- The row that createSuite inserts, but for its key.
abbrev pub requested_suite : CreateSuiteRequest → Challenge → ℕ → ℕ → Suite
requested_suite body ch now id = record {
  id = id;
  name = body.name;
  description = body.description;
  parameters = body.parameters;
  seeds = body.seeds;
  timeout_seconds = timeout_or_default body.timeout_seconds;
  scoring = body.scoring;
  sealed = false;
  created_at = now;
  challenge = ch.id;
  parent = none;
}

unfoldable pub create_suite : Decoded CreateSuiteRequest → ℕ → Action Response
unfolding suite_detail
create_suite request now = do
  body ← json_body request
  require (not (str_eq body.name "")) (bad_request "name is required")
  require (not (equals body.challenge_id 0)) (bad_request "challenge_id is required")
  require (ltb 0 (length body.seeds)) (bad_request "seeds must be non-empty")
  ch ←
      query (missing_or (bad_request "challenge not found") "lookup challenge: %v")
        (λ db. only (λ (c : Challenge). equals body.challenge_id c.id) db.challenges)
  created ← update (internal_error "create: %v") (insert_suite (requested_suite body ch now))
  pure (write_json 201 (Body.suite (suite_detail (some ch) created)))

abbrev pub with_challenge : Db → Result Suite → Result (Suite × Option Challenge)
with_challenge db (ok s) = ok (s, challenge_of db s)
with_challenge db (err e) = err e

-- Suite.Query().Where(suite.IDEQ(id)).WithChallenge().Only(ctx)
abbrev pub suite_by_id : ℤ → Db → Result (Suite × Option Challenge)
suite_by_id id db = with_challenge db (only (λ (s : Suite). equals id s.id) db.suites)

unfoldable pub get_suite : String → Action Response
unfolding suite_detail
get_suite param = do
  id ← path_id param
  r ← query (missing_or http_not_found "query: %v") (suite_by_id id)
  pure (write_json 200 (Body.suite (suite_detail r.1 r.0)))

-- The row that cloneSuite inserts, but for its key.
abbrev pub copied_suite : Suite → Challenge → ℕ → ℕ → Suite
copied_suite src ch now id = record {
  id = id;
  name = src.name <> " (copy)";
  description = src.description;
  parameters = src.parameters;
  seeds = src.seeds;
  timeout_seconds = src.timeout_seconds;
  scoring = src.scoring;
  sealed = false;
  created_at = now;
  challenge = ch.id;
  parent = some src.id;
}

unfoldable pub clone_suite : String → ℕ → Action Response
unfolding suite_detail
clone_suite param now = do
  id ← path_id param
  src ← query (missing_or http_not_found "load suite: %v") (suite_by_id id)
  ch ← deref src.1
  created ← update (internal_error "clone: %v") (insert_suite (copied_suite src.0 ch now))
  pure (write_json 201 (Body.suite (suite_detail src.1 created)))
