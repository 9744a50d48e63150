-- ===== src/Server/Lifecycle/Claims.antt =====
-- handleClaim keeps to the lifecycle.
use ctf_koth_evals_template.Prelude.{
  ℕ, String, ◌≡◌, ◌≢◌, refl, sym, ap, subst, ◌∙◌, inl, inr, Option, none, some, List, arith, In,
  select, str_eq, eq_iff, Bool-cases,
}
use ctf_koth_evals_template.Ent.Status.{pending, status_eq_sound}
use ctf_koth_evals_template.Ent.Schema.{Run, Db}
use ctf_koth_evals_template.Ent.Store.{ok}
use ctf_koth_evals_template.Server.Action.{World}
use ctf_koth_evals_template.Server.Claim.{
  IsFirst, Loaded, is_pending, loaded_or_missing, load_edges, claimed_by, take_pending,
  claim_response, claiming_worker, handle_claim,
}
use ctf_koth_evals_template.Server.Lifecycle.{claim}
use ctf_koth_evals_template.Server.Lifecycle.Rows.{select-In}
use ctf_koth_evals_template.Server.Lifecycle.Rules.{
  Refines, after_call, bind-Refines, query-Refines, update-Refines, notify-Refines, deref-Refines,
  transaction-Refines, pure-Refines,
}
use ctf_koth_evals_template.Server.Lifecycle.Updates.{update_run-Reach}

worker_named : (header : String) → claiming_worker header ≢ ""
worker_named header e = elim (Bool-cases (str_eq header "")) [
  | inl t ↦ ground (arith, eq_iff "unknown" "")
  | inr f ↦ ground (arith, eq_iff header "")
]

module _ (first : List Run → Option Run) (law : IsFirst first) where
  -- What the claim takes is a row of the table that waits.
  pub taken_is_pending :
      (db : Db) (l : Loaded)
      → loaded_or_missing db (first (select is_pending db.runs)) ≡ ok l
      → In l.row db.runs × (l.row.status ≡ pending)
  unfolding load_edges
  taken_is_pending db l e = found (first (select is_pending db.runs)) refl e
    where
      found :
          (o : Option Run)
          → first (select is_pending db.runs) ≡ o
          → loaded_or_missing db o ≡ ok l
          → In l.row db.runs × (l.row.status ≡ pending)
      found none q h = absurd (cc)
      found (some r) q h =
          let same : r ≡ l.row = cc in
          let m = select-In is_pending db.runs r (law.first_in (select is_pending db.runs) r q) in
          (
            subst (λ x. In x db.runs) same m.0,
            ap (λ (x : Run). x.status) (sym same) ∙ status_eq_sound r.status pending m.1,
          )

  take_pending-Refines :
      (worker : String) (now : ℕ) (w : World)
      → worker ≢ ""
      → Refines (take_pending first worker now) w
  unfolding take_pending
  take_pending-Refines worker now w named = query-Refines _ _ _ w λ l found.
      bind-Refines _ _ (after_call w)
        (update-Refines _ _ (after_call w) λ db q e i.
          let p = taken_is_pending w.db l found in
          update_run-Reach (claimed_by worker now) w.db db l.row q (λ x. refl) p.0
            (claim worker now p.1 named) e i)
        (λ q w' e. pure-Refines _ w')

  pub handle_claim-Refines :
      (header : String) (now : ℕ) (w : World) → Refines (handle_claim first header now) w
  unfolding handle_claim claim_response
  handle_claim-Refines header now w =
      bind-Refines _ _ w
        (transaction-Refines _ _ _ w
          (take_pending-Refines (claiming_worker header) now (after_call w) (worker_named header)))
        λ t w1 _. bind-Refines _ _ w1 (notify-Refines "claim" w1) λ u w2 _.
          bind-Refines _ _ w2 (deref-Refines t.0.suite w2) λ s w3 _.
            bind-Refines _ _ w3 (deref-Refines t.0.challenge w3) λ c w4 _.
              bind-Refines _ _ w4 (deref-Refines t.0.submission w4) λ b w5 _. pure-Refines _ w5
