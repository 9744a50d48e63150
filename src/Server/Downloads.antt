-- ===== src/Server/Downloads.antt =====
-- handleBundle and handleArtifact of internal/server/internal_api.go.
use ctf_koth_evals_template.Prelude.{String, not, Option, none, some, List, str_eq, select}
use ctf_koth_evals_template.Go.Int.{equals}
use ctf_koth_evals_template.Ent.Schema.{Challenge, Submission}
use ctf_koth_evals_template.Ent.Store.{Result, ok, err, not_found, only}
use ctf_koth_evals_template.Server.Response.{
  Response, download, bad_request, http_not_found, missing_or,
}
use ctf_koth_evals_template.Server.Action.{Action, ◌>>=◌, ◌>>◌, pure, query}
use ctf_koth_evals_template.Server.Request.{path_id, require}

-- The content length, and the bytes.
abbrev pub bundle_response : Challenge → Response
bundle_response ch = record { code = 200; body = download ch.bundle_size none ch.bundle }

abbrev pub challenge_or_missing : Option Challenge → Result Challenge
challenge_or_missing none = err not_found
challenge_or_missing (some ch) = ok ch

-- `first` is LIMIT 1 in the database: which of several challenges of one version it gives is open.
unfoldable pub handle_bundle : (List Challenge → Option Challenge) → String → Action Response
handle_bundle first hash = do
  require (not (str_eq hash "")) (bad_request "missing hash")
  ch ← query (missing_or http_not_found "query: %v") (λ db.
      challenge_or_missing
        (first (select (λ (c : Challenge). str_eq c.version hash) db.challenges)))
  pure (bundle_response ch)

abbrev pub artifact_response : Submission → Response
artifact_response sub = record {
  code = 200;
  body = download sub.artifact_size (some sub.artifact_name) sub.artifact;
}

unfoldable pub handle_artifact : String → Action Response
handle_artifact param = do
  id ← path_id param
  sub ←
      query (missing_or http_not_found "query: %v")
        (λ db. only (λ (s : Submission). equals id s.id) db.submissions)
  pure (artifact_response sub)
