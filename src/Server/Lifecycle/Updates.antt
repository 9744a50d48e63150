-- ===== src/Server/Lifecycle/Updates.antt =====
-- The updates of the generated client as steps of the lifecycle, and the {id} of a path.
use ctf_koth_evals_template.Prelude.{
  String, ◌≡◌, refl, subst, Bool, true, Option, none, some, arith, In, ◌==◌,
}
use ctf_koth_evals_template.Go.Int.{ℤ}
use ctf_koth_evals_template.Go.Text.{atoi, codes}
use ctf_koth_evals_template.Ent.Schema.{Run, Db}
use ctf_koth_evals_template.Ent.Store.{Result, ok, err, only, rewrite, update_run, updated_with}
use ctf_koth_evals_template.Server.Action.{World}
use ctf_koth_evals_template.Server.Request.{parsed_id, path_id}
use ctf_koth_evals_template.Server.Lifecycle.{Move, Inv, Reach, here, next}
use ctf_koth_evals_template.Server.Lifecycle.Rows.{rewrite-Evolves, rewrite-Keyed, Keyed-unique}
use ctf_koth_evals_template.Server.Lifecycle.References.{Catalogue-refl}
use ctf_koth_evals_template.Server.Lifecycle.Rules.{Refines, pure-Refines, stop-Refines}

-- A bulk update moves the rows it selects.
pub update_runs-Reach :
    (p : Run → Bool) (f : Run → Run) (db : Db)
    → ((r : Run) → (f r).id ≡ r.id)
    → ((r : Run) → In r db.runs → p r ≡ true → Move r (f r))
    → Inv db
    → Reach db (record db { runs = rewrite p f db.runs })
update_runs-Reach p f db same moves i = next here (record {
  rows = rewrite-Evolves p f db.runs moves;
  keys = rewrite-Keyed p f 0 db.next_run db.runs same i.keyed;
  catalogue = Catalogue-refl _ _ refl refl refl refl i;
})

-- An update of the one row of a key.
pub update_run-Reach :
    (f : Run → Run) (db db' : Db) (r q : Run)
    → ((x : Run) → (f x).id ≡ x.id)
    → In r db.runs
    → Move r (f r)
    → update_run r.id f db ≡ ok (db', q)
    → Inv db
    → Reach db db'
unfolding update_run
update_run-Reach f db db' r q same m moves e i =
    subst (Reach db) (result (only (λ (x : Run). x.id == r.id) db.runs) e)
      (update_runs-Reach (λ x. x.id == r.id) f db same one_row i)
  where
    one_row : (x : Run) → In x db.runs → (x.id == r.id) ≡ true → Move x (f x)
    one_row x n t =
        let same_row : r ≡ x = Keyed-unique 0 db.next_run db.runs r x i.keyed m n (ground arith) in
        subst (λ y. Move y (f y)) same_row moves

    result :
        (found : Result Run)
        → updated_with found (record db { runs = rewrite (λ (y : Run). y.id == r.id) f db.runs }) f
          ≡ ok (db', q)
        → record db { runs = rewrite (λ (y : Run). y.id == r.id) f db.runs } ≡ db'
    result (ok x) h = cc
    result (err t) h = absurd (cc)

pub path_id-Refines : (param : String) (w : World) → Refines (path_id param) w
unfolding path_id
path_id-Refines param w = parsed (atoi (codes param))
  where
    parsed : (o : Option ℤ) → Refines (parsed_id o) w
    parsed none = stop-Refines _ w
    parsed (some n) = pure-Refines n w
