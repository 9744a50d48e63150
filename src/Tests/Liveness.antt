-- ===== src/Tests/Liveness.antt =====
-- A worker that calls.
use ctf_koth_evals_template.Prelude.{
  ℕ, ◌≤◌, String, ◌≡◌, ◌≢◌, refl, inl, inr, some, [], ◌∷◌, get_elem?, arith, str_eq, eq_iff,
  Bool-cases, subst, none, Option, if◌then◌else◌,
}
use ctf_koth_evals_template.Server.Action.{World, reliable}
use ctf_koth_evals_template.Server.Heartbeat.{cached, heartbeat}
use ctf_koth_evals_template.Server.Heartbeat.Freshness.{IsCached, IsSeen, heartbeat-IsSeen}
use ctf_koth_evals_template.Server.Sweeper.{sweeper_tick}
use ctf_koth_evals_template.Server.Sweeper.Alive.{caller_keeps_run}
use ctf_koth_evals_template.Tests.Fixtures.{world, db-Inv, worker, claimed_run}

abbrev cached_world : World
cached_world = record world { hb_cache = ("w", 14) ∷ [] }

w_not_empty : ◌≢◌ {A = String} "w" ""
w_not_empty = ground (arith, eq_iff "w" "")

at_most : (t : ℕ) → ◌≡◌ {A = Option ℕ} (some 14) (some t) → t ≤ 14
at_most t e = let same : 14 ≡ t = cc in omega arith

cached_world-IsCached : IsCached cached_world
unfolding cached
cached_world-IsCached = record {
  written = λ id t e. elim (Bool-cases (str_eq "w" id)) [
    | inl h ↦ (
      worker,
      inl refl,
      ground (arith, eq_iff "w" id),
      at_most t (subst (λ b. ◌≡◌ {A = Option ℕ} (if b then some 14 else none) (some t)) h e),
    )
    | inr h ↦ absurd (
        let never = subst (λ b. ◌≡◌ {A = Option ℕ} (if b then some 14 else none) (some t)) h e in
        cc)
  ];
}

heartbeat-IsSeen_example :
    IsCached (heartbeat "w" 20 (reliable cached_world)).1
    × IsSeen "w" 20 (heartbeat "w" 20 (reliable cached_world)).1
heartbeat-IsSeen_example = heartbeat-IsSeen "w" 20 cached_world w_not_empty cached_world-IsCached

caller_keeps_run_example :
    get_elem?
      (sweeper_tick 30_000_000_000 1000
        (reliable (heartbeat "w" 20 (reliable cached_world)).1)).1.db.runs
      1
    ≡ some claimed_run
caller_keeps_run_example =
    caller_keeps_run "w" 20 1000 30_000_000_000 cached_world w_not_empty cached_world-IsCached
      db-Inv (omega arith) 1 claimed_run refl refl
