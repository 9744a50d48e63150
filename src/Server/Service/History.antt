-- ===== src/Server/Service/History.antt =====
-- What no history of requests can do to a run.
use ctf_koth_evals_template.Prelude.{
  ℕ, zero, suc, ◌≡◌, ◌≢◌, refl, ap, subst, ◌∙◌, some, List, [], ◌∷◌, In, All-In, get_elem?,
}
use ctf_koth_evals_template.Ent.Status.{succeeded, running}
use ctf_koth_evals_template.Ent.Schema.{Run, Db}
use ctf_koth_evals_template.Server.Action.{World}
use ctf_koth_evals_template.Server.Claim.{IsFirst}
use ctf_koth_evals_template.Server.Lifecycle.{Move, IsValid, Shape, Inv, Evolves, Reach, here, next}
use ctf_koth_evals_template.Server.Lifecycle.Moves.{SameRun, Move-SameRun, Move-succeeded}
use ctf_koth_evals_template.Server.Service.{Request, Env, run_all}
use ctf_koth_evals_template.Server.Service.Refinement.{run_all-Reach, run_all-Inv}

evolved_row :
    (rs qs : List Run) (k : ℕ) (r : Run)
    → Evolves rs qs
    → get_elem? rs k ≡ some r
    → (q : Run) × (get_elem? qs k ≡ some q) × Move r q
evolved_row [] qs k r e at = absurd (cc)
evolved_row (x ∷ rs) [] k r e at = elim e [ ]
evolved_row (x ∷ rs) (q ∷ qs) zero r e at =
    let same : x ≡ r = cc in (q, refl, subst (λ y. Move y q) same e.0)
evolved_row (x ∷ rs) (q ∷ qs) (suc k) r e at = evolved_row rs qs k r e.1 at

SameRun-trans : {a b c : Run} → SameRun a b → SameRun b c → SameRun a c
SameRun-trans s t = record {
  id = t.id ∙ s.id;
  seed = t.seed ∙ s.seed;
  submission = t.submission ∙ s.submission;
  suite = t.suite ∙ s.suite;
  created_at = t.created_at ∙ s.created_at;
}

reached_row :
    {a b : Db} (k : ℕ) (r : Run)
    → Reach a b
    → get_elem? a.runs k ≡ some r
    → (q : Run) × (get_elem? b.runs k ≡ some q) × SameRun r q
reached_row k r here at =
    (r, at, record { id = refl; seed = refl; submission = refl; suite = refl; created_at = refl })
reached_row k r (next {b} {c} s e) at =
    let (q, there, same) = reached_row k r s at in
    let (p, now, move) = evolved_row b.runs c.runs k q e.rows there in
    (p, now, SameRun-trans same (Move-SameRun move))

reached_success :
    {a b : Db} (k : ℕ) (r : Run)
    → Reach a b
    → get_elem? a.runs k ≡ some r
    → r.status ≡ succeeded
    → get_elem? b.runs k ≡ some r
reached_success k r here at s = at
reached_success k r (next {b} {c} t e) at s =
    let there = reached_success k r t at s in
    let (p, now, move) = evolved_row b.runs c.runs k r e.rows there in
    now ∙ ap some (Move-succeeded move s)

not_running : (r : Run) → IsValid r → r.status ≢ running
not_running r v e = elim (subst (λ s. Shape s r) e v) [ ]

module _ (env : Env) (law : IsFirst env.first) (history : List (ℕ × Request)) (w : World)
    (i : Inv w.db) where
  -- From any database that satisfies the invariant, after any history, a run that had succeeded is
  -- the same row in the same place.
  pub success_is_final :
      (k : ℕ) (r : Run)
      → get_elem? w.db.runs k ≡ some r
      → r.status ≡ succeeded
      → get_elem? (run_all env history w).db.runs k ≡ some r
  success_is_final k r = reached_success k r (run_all-Reach env law history w i)

  -- From any database that satisfies the invariant, after any history every run that was there
  -- stands in its place, with its key, seed, submission, suite and creation time.
  pub run_is_kept :
      (k : ℕ) (r : Run)
      → get_elem? w.db.runs k ≡ some r
      → (q : Run) × (get_elem? (run_all env history w).db.runs k ≡ some q) × SameRun r q
  run_is_kept k r = reached_row k r (run_all-Reach env law history w i)

  -- No run is ever in the status `running`.
  pub never_running : (r : Run) → In r (run_all env history w).db.runs → r.status ≢ running
  never_running r m =
      not_running r
        (All-In IsValid (run_all env history w).db.runs r (run_all-Inv env law history w i).valid m)
