-- ===== src/Server/Queue.antt =====
-- getQueue of internal/server/public_api.go: what waits, for each suite, and when it may be done.
pub mod Means
pub mod Backlog
use ctf_koth_evals_template.Prelude.{
  ℕ, ◌+◌, ◌-◌, ◌/◌, ◌%◌, suc, String, Bool, true, false, ◌&&◌, Option, none, some, List, [], ◌∷◌,
  ◌++◌, ◌==◌, ltb, leb, if◌then◌else◌, length, find_first, select,
}
use ctf_koth_evals_template.Go.Float.{Float, Arith, float_lt, float_eq, zero_float}
use ctf_koth_evals_template.Go.Int.{ℤ, pos, negsuc}
use ctf_koth_evals_template.Go.Text.{negated}
use ctf_koth_evals_template.Ent.Status.{pending, claimed, running, succeeded, status_eq, status_in}
use ctf_koth_evals_template.Ent.Schema.{Suite, Run, Worker, Db}
use ctf_koth_evals_template.Ent.Store.{ok}
use ctf_koth_evals_template.Wireapi.{QueueSuiteEntry, QueueStatus}
use ctf_koth_evals_template.Server.Response.{Response, Body, internal_error, write_json}
use ctf_koth_evals_template.Server.Action.{Action, ◌>>=◌, pure, query}
use ctf_koth_evals_template.Server.Analytics.{duration_of}
use ctf_koth_evals_template.Server.Sweeper.{is_fresh}

-- StatusIn(pending, claimed, running)
abbrev pub is_unfinished : Run → Bool
is_unfinished r = status_in (pending ∷ claimed ∷ running ∷ []) r.status

abbrev pub suite_of : Db → Run → Option Suite
suite_of db r = find_first (λ (s : Suite). s.id == r.suite) db.suites

abbrev pub with_suites : Db → List Run → List (Run × Option Suite)
with_suites db [] = []
with_suites db (r ∷ rs) = (r, suite_of db r) ∷ with_suites db rs

-- pendingBySuite[k]++
unfoldable pub increment : ℕ → List (ℕ × ℕ) → List (ℕ × ℕ)
increment k [] = (k, 1) ∷ []
increment k ((j, n) ∷ rest) = if j == k then (j, n + 1) ∷ rest else (j, n) ∷ increment k rest

-- pendingBySuite[k], 0 where the key is missing.
unfoldable pub number_at : ℕ → List (ℕ × ℕ) → ℕ
number_at k [] = 0
number_at k ((j, n) ∷ rest) = if j == k then n else number_at k rest

abbrev pub add_loaded : Option Suite → List (ℕ × ℕ) → List (ℕ × ℕ)
add_loaded none m = m
add_loaded (some s) m = increment s.id m

unfoldable pub pending_by_suite : List (Run × Option Suite) → List (ℕ × ℕ) → List (ℕ × ℕ)
unfolding increment
pending_by_suite [] m = m
pending_by_suite ((r, s) ∷ rs) m = pending_by_suite rs (add_loaded s m)

abbrev pub is_there : Option ℕ → Bool
is_there none = false
is_there (some t) = true

-- The finished runs of a suite that have both times.
abbrev pub is_timed : ℕ → Run → Bool
is_timed k r =
    r.suite == k
    && (status_eq r.status succeeded && (is_there r.started_at && is_there r.finished_at))

module _ (ar : Arith) where
  -- float64(n) of an int64
  abbrev pub of_signed : ℤ → Float
  of_signed (pos n) = ar.of_int n
  of_signed (negsuc n) = ar.sub zero_float (ar.of_int (suc n))

  abbrev pub add_duration : Option ℤ → Float → Float
  add_duration none sum = sum
  add_duration (some ms) sum = ar.add sum (of_signed ms)

  -- float64(r.FinishedAt.Sub(*r.StartedAt) / time.Millisecond), summed up.
  unfoldable pub sum_ms : List Run → Float → Float
  sum_ms [] sum = sum
  sum_ms (r ∷ rs) sum = sum_ms rs (add_duration (duration_of r.started_at r.finished_at) sum)

  unfoldable pub mean_ms : List Run → Float
  unfolding sum_ms
  mean_ms runs =
      if ltb 0 (length runs)
      then ar.div (sum_ms runs zero_float) (ar.of_int (length runs))
      else zero_float

  -- The entries so far, and pendingWorkSeconds. A suite with no work and no mean has no entry.
  abbrev pub add_entry :
      QueueSuiteEntry → List QueueSuiteEntry × Float → List QueueSuiteEntry × Float
  add_entry e (entries, work) =
      if e.pending == 0 && float_eq e.mean_duration_ms zero_float then (entries, work) else (
        entries ++ e ∷ [],
        ar.add work (ar.div (ar.mul (ar.of_int e.pending) e.mean_duration_ms) (ar.of_int 1000)),
      )

  abbrev pub suite_entry : ℕ → Suite → List Run → QueueSuiteEntry
  suite_entry waits su finished = record {
    suite_id = su.id;
    name = su.name;
    pending = waits;
    mean_duration_ms = mean_ms finished;
  }

  -- The loop over the suites, with a query for each.
  unfoldable pub suite_entries :
      List (ℕ × ℕ)
      → List Suite
      → List QueueSuiteEntry × Float
      → Action (List QueueSuiteEntry × Float)
  unfolding number_at mean_ms
  suite_entries m [] acc = pure acc
  suite_entries m (su ∷ suites) acc = do
    finished ←
        query (internal_error "succeeded runs: %v") (λ db. ok (select (is_timed su.id) db.runs))
    suite_entries m suites (add_entry (suite_entry (number_at su.id m) su finished) acc)

  -- Duration.Seconds(): whole seconds, and the rest over 1e9.
  abbrev pub seconds : ℕ → ℕ → Float
  seconds start finish =
      if leb start finish
      then ar.add (ar.of_int ((finish - start) / 1_000_000_000))
          (ar.div (ar.of_int ((finish - start) % 1_000_000_000)) (ar.of_int 1_000_000_000))
      else ar.add (of_signed (negated ((start - finish) / 1_000_000_000))) (
          ar.div (of_signed (negated ((start - finish) % 1_000_000_000))) (ar.of_int 1_000_000_000))

  abbrev pub add_seconds : Option ℕ → Option ℕ → Float → Float
  add_seconds (some s) (some f) work = ar.add work (seconds s f)
  add_seconds _ _ work = work

  unfoldable pub work_seconds : List Run → Float → Float
  work_seconds [] work = work
  work_seconds (r ∷ rs) work = work_seconds rs (add_seconds r.started_at r.finished_at work)

  abbrev pub at_least_one : Float → Float
  at_least_one wall = if float_lt wall (ar.of_int 1) then ar.of_int 1 else wall

  -- `none` where no run is recent.
  abbrev pub throughput_of : ℕ → List Run → Option ℕ → Float
  throughput_of now recent none = zero_float
  throughput_of now recent (some oldest) =
      ar.div (work_seconds recent zero_float) (at_least_one (seconds oldest now))

  abbrev pub eta : Float → Float → Option Float
  eta work throughput =
      if float_lt zero_float throughput then some (ar.div work throughput) else none

-- oldestFinish
abbrev pub earlier : Option ℕ → Option ℕ → Option ℕ
earlier none oldest = oldest
earlier (some f) none = some f
earlier (some f) (some o) = if ltb f o then some f else some o

unfoldable pub oldest_finish : List Run → Option ℕ → Option ℕ
oldest_finish [] oldest = oldest
oldest_finish (r ∷ rs) oldest = oldest_finish rs (earlier r.finished_at oldest)

-- FinishedAtGT(now - 30s), the subtraction moved to the other side; NULL is not greater.
abbrev pub finished_within : ℕ → ℕ → Option ℕ → Bool
finished_within now window none = false
finished_within now window (some f) = ltb now (f + window)

abbrev pub is_recent : ℕ → Run → Bool
is_recent now r =
    status_eq r.status succeeded
    && (finished_within now 30_000_000_000 r.finished_at && is_there r.started_at)

module _ (ar : Arith) where
  abbrev pub queue_status : ℕ → ℕ → ℕ → List QueueSuiteEntry × Float → List Run → QueueStatus
  queue_status now waiting active (entries, work) recent =
      let throughput : Float = throughput_of ar now recent (oldest_finish recent none) in
      record {
        pending_total = waiting;
        active_workers = active;
        throughput_per_sec = throughput;
        eta_seconds = eta ar work throughput;
        by_suite = entries;
      }

  -- The clock is read for the window, for the time since the oldest finish, and for the workers.
  unfoldable pub get_queue : ℕ → ℕ → ℕ → ℕ → Action Response
  unfolding pending_by_suite suite_entries work_seconds oldest_finish is_fresh float_lt
  get_queue timeout now later latest = do
    waiting ←
        query (internal_error "pending runs: %v")
          (λ db. ok (with_suites db (select is_unfinished db.runs)))
    suites ← query (internal_error "suites: %v") (λ db. ok db.suites)
    entries ← suite_entries ar (pending_by_suite waiting []) suites ([], zero_float)
    recent ← query (internal_error "recent runs: %v") (λ db. ok (select (is_recent now) db.runs))
    active ←
        query (internal_error "workers: %v")
          (λ db. ok (length (select (is_fresh latest timeout) db.workers)))
    pure (write_json 200 (Body.queue (queue_status later (length waiting) active entries recent)))
