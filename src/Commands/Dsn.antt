-- ===== src/Commands/Dsn.antt =====
-- resolve of internal/db/db.go, over the bytes of the DSN.
use ctf_koth_evals_template.Prelude.{
  ℕ, String, Bool, true, false, ◌&&◌, ◌||◌, List, [], ◌∷◌, ◌==◌, length, drop, if◌then◌else◌,
}
use ctf_koth_evals_template.Go.Text.{codes}
use ctf_koth_evals_template.Server.Request.{Decoded, decoded, malformed}

-- dialect.SQLite and dialect.Postgres
pub data Dialect : Type 0 where
  sqlite postgres : Dialect

pub record Resolved : Type 0 where
  pub driver : String
  pub dialect : Dialect
  pub conn : List ℕ

-- strings.HasPrefix
unfoldable pub has_prefix : List ℕ → List ℕ → Bool
has_prefix [] text = true
has_prefix (p ∷ ps) [] = false
has_prefix (p ∷ ps) (c ∷ cs) = p == c && has_prefix ps cs

abbrev pub sqlite_at : List ℕ → Decoded Resolved
sqlite_at [] = malformed "sqlite DSN missing path"
sqlite_at (c ∷ cs) = decoded (record { driver = "sqlite"; dialect = sqlite; conn = c ∷ cs })

unfoldable pub resolve : List ℕ → Decoded Resolved
unfolding has_prefix
resolve dsn =
    if has_prefix (codes "sqlite://") dsn
    then sqlite_at (drop (length (codes "sqlite://")) dsn)
    else if has_prefix (codes "postgres://") dsn || has_prefix (codes "postgresql://") dsn
    then decoded (record { driver = "pgx"; dialect = postgres; conn = dsn })
    else malformed "unrecognized DSN scheme (want sqlite:// or postgres://)"
