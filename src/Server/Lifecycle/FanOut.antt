-- ===== src/Server/Lifecycle/FanOut.antt =====
-- persistSubmission and reevaluateSubmission only add new rows.
use ctf_koth_evals_template.Prelude.{
  ℕ, String, ◌≡◌, refl, subst, inl, inr, List, [], ◌∷◌, arith, Bool-cases, true, ◌==◌,
}
use ctf_koth_evals_template.Ent.Schema.{Run, Suite, Db}
use ctf_koth_evals_template.Ent.Store.{
  Result, ok, err, only, create_run, new_run, with_run, rewrite, seal_suite,
}
use ctf_koth_evals_template.Server.Action.{World}
use ctf_koth_evals_template.Server.Lifecycle.{Inv, Evolution, here, next, IsNew}
use ctf_koth_evals_template.Server.Lifecycle.Rows.{
  Keyed-append, append-Evolves, runs_kept-Evolution,
}
use ctf_koth_evals_template.Server.Lifecycle.References.{
  Catalogue-refl, Extends-refl, sealed-SuitesEvolve,
}
use ctf_koth_evals_template.Server.Lifecycle.Rules.{
  Refines, bind-Refines, update-Refines, pure-Refines,
}
use ctf_koth_evals_template.Server.Submit.{Wrap, fan_seeds, seal, fan_out, sealed_db}

pub new_run-IsNew :
    (now : ℕ) (seed : String) (suite submission id : ℕ)
    → IsNew (new_run now seed suite submission id)
new_run-IsNew now seed suite submission id = record {
  waits = refl;
  unfinished = record {
    no_score = refl;
    no_result = refl;
    no_error = refl;
    not_started = refl;
    not_finished = refl;
  };
  unclaimed = refl;
  unowned = refl;
}

create_run-Evolution :
    (now : ℕ) (seed : String) (suite submission : ℕ) (db db' : Db) (q : Run)
    → create_run now seed suite submission db ≡ ok (db', q)
    → Inv db
    → Evolution db db'
unfolding create_run
create_run-Evolution now seed suite submission db db' q e i = subst (Evolution db) same (record {
  rows = append-Evolves db.runs row (new_run-IsNew now seed suite submission db.next_run);
  keys = Keyed-append 0 db.next_run db.runs row refl i.keyed;
  catalogue = Catalogue-refl _ _ refl refl refl refl i;
})
  where
    row : Run
    row = new_run now seed suite submission db.next_run

    same : with_run row db ≡ db'
    same = ground arith

abbrev sealed_in : ℕ → Db → Db
sealed_in id db = record db {
  suites = rewrite (λ (s : Suite). s.id == id) (λ s. record s { sealed = true }) db.suites;
}

seal-Evolution :
    (id : ℕ) (db db' : Db) (u : Unit {0})
    → sealed_db (seal_suite id db) ≡ ok (db', u)
    → Inv db
    → Evolution db db'
unfolding seal_suite
seal-Evolution id db db' u e i =
    subst (Evolution db) (result (only (λ (s : Suite). s.id == id) db.suites) e) (
      runs_kept-Evolution db (sealed_in id db) refl refl
        (record {
          suites = sealed-SuitesEvolve (λ (x : Suite). x.id == id) db.suites;
          submissions = Extends-refl db.submissions;
          keys = i.submission_keys;
          challenges = Extends-refl db.challenges;
        })
        i)
  where
    result :
        (found : Result Suite)
        → sealed_db (elim found [ ok s ↦ ok (sealed_in id db) | err t ↦ err t ]) ≡ ok (db', u)
        → sealed_in id db ≡ db'
    result (ok s) h = cc
    result (err t) h = absurd (cc)

fan_seeds-Refines :
    (wrap : Wrap) (now suite submission : ℕ) (seeds : List String) (w : World)
    → Refines (fan_seeds wrap now suite submission seeds) w
unfolding fan_seeds
fan_seeds-Refines wrap now suite submission [] w = pure-Refines _ w
fan_seeds-Refines wrap now suite submission (seed ∷ seeds) w =
    bind-Refines _ _ w
      (update-Refines _ _ w
        λ db q e i. next here (create_run-Evolution now seed suite submission w.db db q e i))
      λ q w1 _.
        bind-Refines _ _ w1 (fan_seeds-Refines wrap now suite submission seeds w1)
          λ rs w2 _. pure-Refines _ w2

seal-Refines : (wrap : Wrap) (s : Suite) (w : World) → Refines (seal wrap s) w
unfolding seal
seal-Refines wrap s w = elim (Bool-cases s.sealed) [
  | inl e ↦ rw e (pure-Refines tt w)
  | inr e ↦ rw e (update-Refines _ _ w λ db u t i. next here (seal-Evolution s.id w.db db u t i))
]

pub fan_out-Refines :
    (wrap : Wrap) (now submission : ℕ) (suites : List Suite) (w : World)
    → Refines (fan_out wrap now submission suites) w
unfolding fan_out
fan_out-Refines wrap now submission [] w = pure-Refines _ w
fan_out-Refines wrap now submission (s ∷ suites) w =
    bind-Refines _ _ w (fan_seeds-Refines wrap now s.id submission s.seeds w) λ rs w1 _.
      bind-Refines _ _ w1 (seal-Refines wrap s w1) λ u w2 _.
        bind-Refines _ _ w2 (fan_out-Refines wrap now submission suites w2)
          λ more w3 _. pure-Refines _ w3
