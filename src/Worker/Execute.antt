-- ===== src/Worker/Execute.antt =====
-- execute, ensureBundle, layoutWorkdir and readResult of internal/worker/worker.go: what is reported
-- of a run, given how each step outside of the program ends.
pub mod Branches
pub mod Filenames
pub mod Polls
pub mod Preparation
pub mod Verdict
pub mod Delivery
use ctf_koth_evals_template.Prelude.{
  ℕ, ◌+◌, ◌-◌, ◌*◌, ◌%◌, ◌^◌, String, ◌<>◌, Bool, true, false, not, ◌||◌, Option, none, some, List,
  [], ◌∷◌, ◌++◌, map, str_eq, ◌==◌, leb, if◌then◌else◌,
}
use ctf_koth_evals_template.Go.Float.{Float}
use ctf_koth_evals_template.Go.Int.{ℤ, pos, negsuc}
use ctf_koth_evals_template.Go.Text.{codes}
use ctf_koth_evals_template.Go.Any.{Any, number, Fields, get}
use ctf_koth_evals_template.Wireapi.{ClaimResponse, ResultRequest}
use ctf_koth_evals_template.Server.Request.{Decoded, decoded, malformed}
use ctf_koth_evals_template.Worker.Client.{Answer, run_cancelled}
use ctf_koth_evals_template.Worker.Manifest.{submission_filename}
use ctf_koth_evals_template.Worker.Tail.{log_tail_limit, new_tail, write_all}

-- A call to the system, which gives an error or nothing.
abbrev pub Done : Type 0
Done = Decoded (Unit {0})

-- What a step gave, or the answer to its error.
abbrev pub or_give : {A B : Type 0} → Decoded A → (String → B) → (A → B) → B
or_give (malformed e) fail next = fail e
or_give (decoded a) fail next = next a

-- The directory of the bundle is there; what the server sends; what Extract makes of it.
pub record BundleSteps : Type 0 where
  pub cached : Bool
  pub fetched : Decoded (List ℕ)
  pub extracted : List ℕ → Done

-- `hash` is bundle.Hash.
unfoldable pub ensure_bundle : (List ℕ → String) → String → BundleSteps → Done
ensure_bundle hash version s =
    if s.cached
    then decoded tt
    else or_give s.fetched malformed λ bytes.
      if str_eq (hash bytes) version
      then s.extracted bytes
      else malformed ("bundle hash mismatch: server reported " <> version <> ", got " <> hash bytes)

-- The calls of layoutWorkdir, by the path below the working directory.
pub data FileOp : Type 0 where
  make_dir : List String → FileOp
  write_file : List String → List ℕ → FileOp

-- What the text of an error begins with.
abbrev pub prefix : FileOp → String
prefix (make_dir path) = ""
prefix (write_file [] bytes) = ""
prefix (write_file (sub ∷ path) bytes) =
    if str_eq sub "submission" then "write submission: " else "write seed: "

abbrev pub layout_dirs : List String
layout_dirs = "submission" ∷ "inputs" ∷ "artifacts" ∷ "logs" ∷ []

abbrev pub layout_ops : String → List ℕ → String → List FileOp
layout_ops name artifact seed =
    map (λ sub. make_dir (sub ∷ [])) layout_dirs
    ++ (write_file ("submission" ∷ name ∷ []) artifact
        ∷ write_file ("inputs" ∷ "seed.txt" ∷ []) (codes seed)
        ∷ [])

-- The calls one after another, up to the first that fails.
unfoldable pub run_ops : (FileOp → Done) → List FileOp → Done
run_ops does [] = decoded tt
run_ops does (op ∷ ops) =
    let rest = run_ops does ops in or_give (does op) (λ e. malformed (prefix op <> e)) λ u. rest

unfoldable pub layout_workdir : (FileOp → Done) → String → List ℕ → String → Done
unfolding run_ops
layout_workdir does name artifact seed = run_ops does (layout_ops name artifact seed)

-- A number of JSON is a float64.
abbrev pub to_float : Option Any → Decoded Float
to_float none = malformed "result.json missing score field"
to_float (some (number f)) = decoded f
to_float (some other) = malformed "result.json score is not a number"

-- os.ReadFile, and json.Unmarshal as `json`.
unfoldable pub read_result : (List ℕ → Decoded Fields) → Decoded (List ℕ) → Decoded (Fields × Float)
unfolding get
read_result json file = or_give file malformed λ raw.
    or_give (json raw) (λ e. malformed ("invalid result.json: " <> e))
      λ parsed. or_give (to_float (get parsed "score")) malformed λ score. decoded (parsed, score)

-- The watchdog: the first poll that says so cancels the run; an error is no answer.
abbrev pub says_cancelled : Decoded Bool → Bool
says_cancelled (decoded b) = b
says_cancelled (malformed e) = false

unfoldable pub watched : List Answer → Bool
unfolding run_cancelled
watched [] = false
watched (a ∷ rest) =
    let later = watched rest in if says_cancelled (run_cancelled a) then true else later

-- How the process of the wrapper ends: the polls before that, whether the deadline had passed, what
-- cmd.Wait gives, and the writes to its streams.
pub record Ended : Type 0 where
  pub polls : List Answer
  pub deadline_passed : Bool
  pub waited : Done
  pub stdout : List (List ℕ)
  pub stderr : List (List ℕ)

-- How every step ends. A process is given a timeout, in nanoseconds.
pub record Steps : Type 0 where
  pub bundle : BundleSteps
  pub artifact : Decoded (List ℕ)
  pub cleaned : Done
  pub files : FileOp → Done
  pub wrapper_found : Done
  pub started : Done
  pub started_at : ℕ
  pub process : ℕ → Ended
  pub result_file : Decoded (List ℕ)

-- What the libraries compute: SHA-256 in hex, encoding/json, and the text that JSON makes of bytes.
pub record Codecs : Type 0 where
  pub hash : List ℕ → String
  pub json : List ℕ → Decoded Fields
  pub as_string : List ℕ → String

-- time.Duration(n) * time.Second, an int64: its 64 bits.
unfoldable pub nanoseconds : ℤ → ℕ
nanoseconds (pos n) = n * 1_000_000_000 % 2 ^ 64
nanoseconds (negsuc n) = (2 ^ 64 - (n + 1) * 1_000_000_000 % 2 ^ 64) % 2 ^ 64

-- A minute where the product is not positive: zero, or its sign bit is set.
unfoldable pub timeout_of : ℤ → ℕ
unfolding nanoseconds
timeout_of seconds =
    let t = nanoseconds seconds in if (t == 0) || leb (2 ^ 63) t then 60_000_000_000 else t

abbrev pub failure : String → Option ℕ → String → String → ResultRequest
failure cause started stdout stderr = record {
  status = "failed";
  score = none;
  result = none;
  error = cause;
  started_at = started;
  stdout = stdout;
  stderr = stderr;
}

-- stdoutTail.String()
abbrev pub tail_text : Codecs → List (List ℕ) → String
tail_text c writes = c.as_string (write_all writes (new_tail log_tail_limit)).buf

-- What is reported once the process has ended.
unfoldable pub report_ended : Codecs → Steps → Ended → ResultRequest
unfolding watched read_result write_all
report_ended c s e =
    let out = tail_text c e.stdout in
    let errs = tail_text c e.stderr in
    if watched e.polls
    then record (failure "run cancelled by operator" (some s.started_at) out errs) {
      status = "cancelled";
    }
    else if e.deadline_passed
    then record (failure "wrapper exceeded suite timeout" (some s.started_at) out errs) {
      status = "timed_out";
    }
    else or_give e.waited (λ x. failure ("wrapper: " <> x) (some s.started_at) out errs)
        λ u.
          or_give (read_result c.json s.result_file)
            (λ x. failure ("read result: " <> x) (some s.started_at) out errs)
            λ r. record {
              status = "succeeded";
              score = some r.1;
              result = some r.0;
              error = "";
              started_at = some s.started_at;
              stdout = out;
              stderr = errs;
            }

-- The request that ReportResult sends.
unfoldable pub execute : Codecs → ClaimResponse → Steps → ResultRequest
unfolding ensure_bundle submission_filename layout_workdir timeout_of report_ended
execute c claim s =
    or_give (ensure_bundle c.hash claim.challenge.version s.bundle)
      (λ e. failure ("ensure bundle: " <> e) none "" "")
      λ u.
        or_give s.artifact (λ e. failure ("fetch submission: " <> e) none "" "")
          λ artifact.
            or_give s.cleaned (λ e. failure ("clean workdir: " <> e) none "" "")
              λ u.
                or_give
                  (layout_workdir s.files
                    (submission_filename claim.challenge.manifest claim.submission.artifact_name)
                    artifact claim.seed)
                  (λ e. failure ("layout workdir: " <> e) none "" "")
                  λ u.
                    or_give s.wrapper_found (λ e. failure ("wrapper not found: " <> e) none "" "")
                      λ u.
                        or_give s.started
                          (λ e. failure ("start wrapper: " <> e) (some s.started_at) "" "")
                          λ u. report_ended c s (s.process (timeout_of claim.suite.timeout_seconds))
