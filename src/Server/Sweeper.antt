-- ===== src/Server/Sweeper.antt =====
-- sweep of internal/server/sweeper.go and one tick of runSweeper.
pub mod Reclaim
pub mod Alive
use ctf_koth_evals_template.Prelude.{
  ℕ, ◌+◌, String, Bool, true, false, not, ◌&&◌, Option, none, some, List, [], ◌∷◌, map, str_eq, ltb,
  if◌then◌else◌, select, any,
}
use ctf_koth_evals_template.Ent.Status.{pending, claimed, status_eq}
use ctf_koth_evals_template.Ent.Schema.{Run, Worker, Db}
use ctf_koth_evals_template.Ent.Store.{Result, ok, err, update_runs}
use ctf_koth_evals_template.Server.Action.{Action, ◌>>=◌, pure, call, save, notify}

-- worker.LastSeenGT(now - workerTimeout), the subtraction moved to the other side.
unfoldable pub is_fresh : ℕ → ℕ → Worker → Bool
is_fresh now timeout v = ltb now (v.last_seen + timeout)

unfoldable pub fresh_names : ℕ → ℕ → Db → List String
unfolding is_fresh
fresh_names now timeout db = map (λ (v : Worker). v.name) (select (is_fresh now timeout) db.workers)

-- run.WorkerIDNotIn(fresh...), which is not asked for where `fresh` is empty. NULL is not "not in".
abbrev pub not_in_fresh : List String → Option String → Bool
not_in_fresh [] worker = true
not_in_fresh (f ∷ fs) none = false
not_in_fresh (f ∷ fs) (some worker) = not (any (str_eq worker) (f ∷ fs))

unfoldable pub is_orphan : List String → Run → Bool
unfolding status_eq
is_orphan fresh r = status_eq r.status claimed && not_in_fresh fresh r.worker_id

unfoldable pub reclaimed : Run → Run
reclaimed r = record r { status = pending; worker_id = some ""; claimed_at = none }

abbrev pub or_fail : {A B : Type 0} → Result A → (A → Action (Result B)) → Action (Result B)
or_fail (ok a) f = f a
or_fail (err e) f = pure (err e)

-- The number of runs taken back, or the error.
unfoldable pub sweep : ℕ → ℕ → Action (Result ℕ)
sweep timeout now = do
  fresh ← call (λ db. ok (fresh_names now timeout db))
  or_fail fresh (λ names. save (λ db. ok (update_runs (is_orphan names) reclaimed db)))

abbrev pub report_sweep : Result ℕ → Action (Unit {0})
report_sweep (err e) = pure tt
report_sweep (ok n) = if ltb 0 n then notify "runs" else pure tt

unfoldable pub sweeper_tick : ℕ → ℕ → Action (Unit {0})
sweeper_tick timeout now = do n ← sweep timeout now; report_sweep n
