-- ===== src/Commands/Register.antt =====
-- registerChallenge of cmd/ctf-evals/register.go.
pub mod Again
pub mod Steps
use ctf_koth_evals_template.Prelude.{
  ℕ, String, ◌<>◌, Option, none, some, List, length, str_eq, if◌then◌else◌,
}
use ctf_koth_evals_template.Go.Any.{Fields, get, as_text}
use ctf_koth_evals_template.Ent.Schema.{Challenge, Db}
use ctf_koth_evals_template.Ent.Store.{
  Result, ok, err, not_found, failed, only, same_key, create_challenge,
}
use ctf_koth_evals_template.Server.Request.{Decoded, decoded, malformed}
use ctf_koth_evals_template.Server.Response.{error_text}
use ctf_koth_evals_template.Server.Action.{Action, ◌>>=◌, pure, call, save}
use ctf_koth_evals_template.Worker.Execute.{or_give}

-- What the command prints, or the error that it returns.
pub data Registration : Type 0 where
  already registered : Challenge → Registration
  refused : String → Registration

-- manifest[key].(string), "" where it is not one.
abbrev pub or_empty : Option String → String
or_empty none = ""
or_empty (some s) = s

abbrev pub text_at : Fields → String → String
text_at manifest key = or_empty (as_text (get manifest key))

abbrev pub new_challenge : Fields → List ℕ → String → ℕ → ℕ → Challenge
new_challenge manifest bundle version now id = record {
  id = id;
  name = text_at manifest "name";
  version = version;
  description = text_at manifest "description";
  manifest = manifest;
  bundle = bundle;
  bundle_size = length bundle;
  created_at = now;
}

abbrev pub inserted : Result Challenge → Registration
inserted (ok ch) = registered ch
inserted (err e) = refused ("insert: " <> error_text e)

abbrev pub after_lookup : (ℕ → Challenge) → Result Challenge → Action Registration
after_lookup build (ok ch) = pure (already ch)
after_lookup build (err (failed e)) = pure (refused ("lookup: " <> e))
after_lookup build (err not_found) = do
  created ← save (create_challenge build)
  pure (inserted created)

abbrev pub look_up : Fields → List ℕ → String → ℕ → Action Registration
look_up manifest bundle version now = do
  existing ← call (λ db. only (same_key (text_at manifest "name") version) db.challenges)
  after_lookup (new_challenge manifest bundle version now) existing

-- What readManifest gives, and bundle.Pack: the tarball and its digest.
unfoldable pub register_challenge :
    Decoded Fields → Decoded (List ℕ × String) → ℕ → Action Registration
unfolding get as_text only
register_challenge manifest packed now =
    or_give manifest (λ e. pure (refused e))
      λ m.
        if str_eq (text_at m "name") ""
        then pure (refused "manifest.json is missing a non-empty \"name\" field")
        else or_give packed (λ e. pure (refused ("pack: " <> e))) λ p. look_up m p.0 p.1 now
