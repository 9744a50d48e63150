-- ===== src/Commands/Config.antt =====
-- internal/config/config.go: the environment, read into a Config.
pub mod Loading
use ctf_koth_evals_template.Prelude.{
  ℕ, String, ◌<>◌, Bool, true, false, Option, none, some, str_eq, if◌then◌else◌,
}
use ctf_koth_evals_template.Go.Int.{ℤ, is_positive}
use ctf_koth_evals_template.Go.Text.{codes, atoi}
use ctf_koth_evals_template.Server.Request.{Decoded, decoded, malformed}
use ctf_koth_evals_template.Worker.Execute.{or_give}

-- Durations in nanoseconds.
pub record Config : Type 0 where
  pub dsn : String
  pub addr : String
  pub password : String
  pub worker_token : String
  pub server_url : String
  pub cache_dir : String
  pub worker_id : String
  pub poll_interval : ℤ
  pub concurrency : ℤ
  pub sweep_interval : ℤ
  pub worker_timeout : ℤ
  pub max_upload_mb : ℤ

-- What Load reads from outside: os.Getenv, os.Hostname, the text of os.Getpid, time.ParseDuration.
pub record Outside : Type 0 where
  pub getenv : String → String
  pub hostname : Decoded String
  pub pid : String
  pub parse_duration : String → Decoded ℤ

unfoldable pub env : Outside → String → String → String
env o key default = let v : String = o.getenv key in if str_eq v "" then default else v

abbrev pub named_or : String → String → String
named_or h pid = if str_eq h "" then "worker-" <> pid else h

unfoldable pub hostname_or_random : Outside → String
hostname_or_random o = elim o.hostname [
  | decoded h ↦ named_or h o.pid
  | malformed e ↦ "worker-" <> o.pid
]

-- strconv.Atoi, and the test for a value below 1.
abbrev pub checked : String → Option ℤ → Decoded ℤ
checked e none = malformed e
checked e (some n) = if is_positive n then decoded n else malformed e

unfoldable pub positive : Outside → String → String → Decoded ℤ
unfolding env atoi
positive o key default =
    checked (key <> " must be a positive int") (atoi (codes (env o key default)))

abbrev pub with_key : String → Decoded ℤ → Decoded ℤ
with_key key (decoded d) = decoded d
with_key key (malformed e) = malformed (key <> ": " <> e)

unfoldable pub duration : Outside → String → String → Decoded ℤ
unfolding env
duration o key default = with_key key (o.parse_duration (env o key default))

unfoldable pub load : Outside → Decoded Config
unfolding env hostname_or_random positive duration
load o = or_give (duration o "CTF_EVALS_POLL_INTERVAL" "1s") malformed λ interval.
    or_give (positive o "CTF_EVALS_CONCURRENCY" "2") malformed λ conc.
      or_give (duration o "CTF_EVALS_SWEEP_INTERVAL" "10s") malformed λ sweep.
        or_give (duration o "CTF_EVALS_WORKER_TIMEOUT" "30s") malformed λ timeout.
          or_give (positive o "CTF_EVALS_MAX_UPLOAD_MB" "16") malformed λ upload. decoded (record {
            dsn =
                env o "CTF_EVALS_DB"
                  "sqlite://./data/ctf-evals.db?_pragma=foreign_keys(1)&_pragma=journal_mode(WAL)&_pragma=busy_timeout(5000)";
            addr = env o "CTF_EVALS_ADDR" ":8080";
            password = o.getenv "CTF_EVALS_PASSWORD";
            worker_token = o.getenv "CTF_EVALS_WORKER_TOKEN";
            server_url = env o "CTF_EVALS_SERVER_URL" "http://localhost:8080";
            cache_dir = env o "CTF_EVALS_CACHE_DIR" "./data/cache";
            worker_id = env o "CTF_EVALS_WORKER_ID" (hostname_or_random o);
            poll_interval = interval;
            concurrency = conc;
            sweep_interval = sweep;
            worker_timeout = timeout;
            max_upload_mb = upload;
          })
