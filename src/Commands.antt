-- ===== src/Commands.antt =====
-- What a subcommand of cmd/ctf-evals does before it serves or works: internal/config, the scheme of
-- internal/db, and registerChallenge.
pub mod Config
pub mod Dsn
pub mod Register
