-- ===== src/Server/Sweeper/Alive.antt =====
-- The heartbeat and the sweeper together: a worker that calls keeps its run.
use ctf_koth_evals_template.Prelude.{
  ℕ, ◌+◌, ◌≤◌, String, ◌≡◌, ◌≢◌, sym, ap, ◌∙◌, some, get_elem?, arith,
}
use ctf_koth_evals_template.Ent.Schema.{Run}
use ctf_koth_evals_template.Server.Action.{World, reliable}
use ctf_koth_evals_template.Server.Heartbeat.{heartbeat_ttl, heartbeat}
use ctf_koth_evals_template.Server.Heartbeat.Freshness.{
  IsCached, IsSeen, heartbeat-IsSeen, heartbeat_keeps_runs,
}
use ctf_koth_evals_template.Server.Sweeper.{sweeper_tick}
use ctf_koth_evals_template.Server.Sweeper.Reclaim.{IsAbandoned, sweep_exact}
use ctf_koth_evals_template.Server.Lifecycle.{Inv}
use ctf_koth_evals_template.Server.Lifecycle.Rows.{Reach-Inv}
use ctf_koth_evals_template.Server.Lifecycle.Heartbeats.{heartbeat-Refines}

seen_not_abandoned :
    (id : String) (now later timeout : ℕ) (w : World) (r : Run)
    → IsSeen id now w
    → later + heartbeat_ttl ≤ now + timeout
    → r.worker_id ≡ some id
    → IsAbandoned later timeout w.db r
    → ⊥
seen_not_abandoned id now later timeout w r (v, m, n, s) soon owned a =
    let gone = a.unseen v m (owned ∙ ap some (sym n)) in omega arith

-- On a database that does not fail, where the invariant holds and the table holds what the cache
-- says was written, a worker that calls under a name at `now` keeps the run that it claimed: a
-- sweep that comes by `now` and the timeout, less the five seconds between two writes of the same
-- heartbeat, leaves the row alone.
pub caller_keeps_run :
    (id : String) (now later timeout : ℕ) (w : World)
    → id ≢ ""
    → IsCached w
    → Inv w.db
    → later + heartbeat_ttl ≤ now + timeout
    → (k : ℕ) (r : Run) → get_elem? w.db.runs k ≡ some r
    → r.worker_id ≡ some id
    → get_elem?
        (sweeper_tick timeout later (reliable (heartbeat id now (reliable w)).1)).1.db.runs
        k
      ≡ some r
caller_keeps_run id now later timeout w named c i soon k r at owned =
    let seen = (heartbeat-IsSeen id now w named c).1 in
    let (runs, next) = heartbeat_keeps_runs id now w named in
    let v = (heartbeat id now (reliable w)).1 in
    let kept = Reach-Inv ((heartbeat-Refines id now (reliable w)).at i) i in
    (sweep_exact later timeout v kept k r (ap (λ rs. get_elem? rs k) runs ∙ at)).1
      (seen_not_abandoned id now later timeout v r seen soon owned)
