-- ===== src/Commands/Config/Loading.antt =====
-- When a configuration loads, and what its numbers are then.
use ctf_koth_evals_template.Prelude.{String, ◌≡◌, true, some}
use ctf_koth_evals_template.Go.Int.{ℤ, is_positive}
use ctf_koth_evals_template.Go.Text.{codes, atoi}
use ctf_koth_evals_template.Server.Request.{Decoded, decoded, malformed}
use ctf_koth_evals_template.Commands.Config.{Config, Outside, env}

-- The text of a variable is a number above zero.
abbrev pub Reads : Outside → String → String → ℤ → Type 0
Reads o key default n = (atoi (codes (env o key default)) ≡ some n) × (is_positive n ≡ true)

abbrev pub Lasts : Outside → String → String → ℤ → Type 0
Lasts o key default d = o.parse_duration (env o key default) ≡ decoded d

pub record IsLoaded (o : Outside) (cfg : Config) : Type 0 where
  pub poll : Lasts o "CTF_EVALS_POLL_INTERVAL" "1s" cfg.poll_interval
  pub concurrency : Reads o "CTF_EVALS_CONCURRENCY" "2" cfg.concurrency
  pub sweep : Lasts o "CTF_EVALS_SWEEP_INTERVAL" "10s" cfg.sweep_interval
  pub timeout : Lasts o "CTF_EVALS_WORKER_TIMEOUT" "30s" cfg.worker_timeout
  pub upload : Reads o "CTF_EVALS_MAX_UPLOAD_MB" "16" cfg.max_upload_mb

pub data Loading (o : Outside) : Decoded Config → Type 0 where
  accepted : (cfg : Config) → IsLoaded o cfg → Loading o (decoded cfg)
  refused : (e : String) → ((cfg : Config) → IsLoaded o cfg → ⊥) → Loading o (malformed e)
