-- ===== src/Server/Lifecycle/Heartbeats.antt =====
-- The heartbeat of a worker's request leaves the runs alone.
use ctf_koth_evals_template.Prelude.{
  ℕ, String, ◌≡◌, refl, subst, inl, inr, Bool, true, false, str_eq, Bool-cases, any,
}
use ctf_koth_evals_template.Ent.Schema.{Db}
use ctf_koth_evals_template.Ent.Store.{ok}
use ctf_koth_evals_template.Server.Action.{World, ◌>>=◌, pure, save}
use ctf_koth_evals_template.Server.Heartbeat.{
  heartbeat, beat_if, should_heartbeat, upsert_worker, is_named,
}
use ctf_koth_evals_template.Server.Lifecycle.{Inv, Evolution, here, next}
use ctf_koth_evals_template.Server.Lifecycle.Rows.{runs_kept-Evolution}
use ctf_koth_evals_template.Server.Lifecycle.References.{Catalogue-refl}
use ctf_koth_evals_template.Server.Lifecycle.Rules.{
  Refines, bind-Refines, save-Refines, pure-Refines,
}

upsert-runs :
    (name : String) (now : ℕ) (db : Db) → Inv db → Evolution db (upsert_worker name now db)
unfolding upsert_worker
upsert-runs name now db i = elim (Bool-cases (any (is_named name) db.workers)) [
  | inl e ↦ rw e (runs_kept-Evolution db _ refl refl (Catalogue-refl _ _ refl refl refl refl i) i)
  | inr e ↦ rw e (runs_kept-Evolution db _ refl refl (Catalogue-refl _ _ refl refl refl refl i) i)
]

beat_if-Refines : (due : Bool) (id : String) (now : ℕ) (w : World) → Refines (beat_if due id now) w
beat_if-Refines false id now w = record { at = λ i. here }
beat_if-Refines true id now w = record { at = λ i. (written w).at i }
  where
    written :
        (w : World) → Refines (do done ← save (λ db. ok (upsert_worker id now db, tt)); pure tt) w
    written w =
        bind-Refines _ _ w
          (save-Refines _ w λ db u e i.
            let same : upsert_worker id now w.db ≡ db = cc e in
            next here (subst (Evolution w.db) same (upsert-runs id now w.db i)))
          λ d w1 _. pure-Refines tt w1

pub heartbeat-Refines : (id : String) (now : ℕ) (w : World) → Refines (heartbeat id now) w
unfolding heartbeat
heartbeat-Refines id now w = record {
  at = λ i. elim (Bool-cases (str_eq id "")) [
    | inl e ↦ rw e here
    | inr e ↦ rw e (
        let (cache, due) = should_heartbeat id now w.hb_cache in
        (beat_if-Refines due id now (record w { hb_cache = cache })).at i)
  ];
}
