-- ===== src/Server/Suites/Steps.antt =====
-- createSuite and cloneSuite keep to the lifecycle: they add a suite that is not sealed.
use ctf_koth_evals_template.Prelude.{ℕ, String, ◌≡◌, refl, sym, ap, ◌∙◌, subst, false}
use ctf_koth_evals_template.Ent.Schema.{Suite, Db}
use ctf_koth_evals_template.Ent.Store.{Fail, create_suite as insert_suite}
use ctf_koth_evals_template.Wireapi.{CreateSuiteRequest}
use ctf_koth_evals_template.Server.Response.{Response}
use ctf_koth_evals_template.Server.Action.{World, update}
use ctf_koth_evals_template.Server.Request.{Decoded}
use ctf_koth_evals_template.Server.Lifecycle.{Inv, Evolution, here, next}
use ctf_koth_evals_template.Server.Lifecycle.Rows.{runs_kept-Evolution}
use ctf_koth_evals_template.Server.Lifecycle.References.{Extends-refl, append-SuitesEvolve}
use ctf_koth_evals_template.Server.Lifecycle.Rules.{
  Refines, bind-Refines, query-Refines, update-Refines, pure-Refines, deref-Refines, after_call,
}
use ctf_koth_evals_template.Server.Lifecycle.Updates.{path_id-Refines}
use ctf_koth_evals_template.Server.Lifecycle.Submissions.{json-Refines, require-Refines}
use ctf_koth_evals_template.Server.Suites.{create_suite, clone_suite, requested_suite, copied_suite}
use ctf_koth_evals_template.Server.Suites.Created.{Added, insert_suite-Added}

Added-Evolution :
    (db db' : Db) (s : Suite) → s.sealed ≡ false → Added db s db' → Inv db → Evolution db db'
Added-Evolution db db' s is_open a i = subst (Evolution db) (sym a.appended) (
    runs_kept-Evolution db _ refl refl
      (record {
        suites = append-SuitesEvolve db.suites s is_open;
        submissions = Extends-refl db.submissions;
        keys = i.submission_keys;
        challenges = Extends-refl db.challenges;
      })
      i)

inserted-Refines :
    (h : Fail → Response) (build : ℕ → Suite) (w : World)
    → ((n : ℕ) → (build n).id ≡ n)
    → ((n : ℕ) → (build n).sealed ≡ false)
    → Refines (update h (insert_suite build)) w
inserted-Refines h build w named is_open = update-Refines h (insert_suite build) w λ db s e i.
    let (a, row) = insert_suite-Added build named w.db db s e in
    next here
      (Added-Evolution w.db db s (ap (λ (x : Suite). x.sealed) row ∙ is_open w.db.next_suite) a i)

pub create_suite-Refines :
    (request : Decoded CreateSuiteRequest) (now : ℕ) (w : World)
    → Refines (create_suite request now) w
unfolding create_suite
create_suite-Refines request now w = bind-Refines _ _ w (json-Refines request w) λ body w1 _.
    bind-Refines _ _ w1 (require-Refines _ _ w1) λ u w2 _.
      bind-Refines _ _ w2 (require-Refines _ _ w2) λ u' w3 _.
        bind-Refines _ _ w3 (require-Refines _ _ w3) λ v w4 _. query-Refines _ _ _ w4 λ ch _.
          bind-Refines _ _ (after_call w4)
            (inserted-Refines _ (requested_suite body ch now) (after_call w4) (λ n. refl)
              (λ n. refl))
            λ s w5 _. pure-Refines _ w5

pub clone_suite-Refines : (param : String) (now : ℕ) (w : World) → Refines (clone_suite param now) w
unfolding clone_suite
clone_suite-Refines param now w = bind-Refines _ _ w (path_id-Refines param w) λ id w1 _.
    query-Refines _ _ _ w1 λ src _.
      bind-Refines _ _ (after_call w1) (deref-Refines src.1 (after_call w1)) λ ch w2 _.
        bind-Refines _ _ w2
          (inserted-Refines _ (copied_suite src.0 ch now) w2 (λ n. refl) (λ n. refl))
          λ s w3 _. pure-Refines _ w3
