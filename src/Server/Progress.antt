-- ===== src/Server/Progress.antt =====
-- One rule for each way to build an action: it runs to a value, on a database that does not fail.
use ctf_koth_evals_template.Prelude.{String, ◌≡◌, refl, []}
use ctf_koth_evals_template.Ent.Schema.{Db}
use ctf_koth_evals_template.Ent.Store.{Fail, Result, ok}
use ctf_koth_evals_template.Server.Hub.{publish}
use ctf_koth_evals_template.Server.Response.{Response}
use ctf_koth_evals_template.Server.Action.{
  World, Action, value, ◌>>=◌, pure, query, update, transaction, notify, serve,
}

-- The action runs to a value, and no fault is left over.
pub record Runs {A : Type 0} (m : Action A) (w : World) (P : A → Db → Type 0) : Type 0 where
  pub result : A
  pub after : World
  pub runs : m w ≡ (value result, after)
  pub calm : after.faults ≡ []
  pub holds : P result after.db

pub bind-Runs :
    {A B : Type 0} (m : Action A) (f : A → Action B) (w : World) (P : A → Db → Type 0)
    (Q : B → Db → Type 0)
    → Runs m w P
    → ((a : A) (v : World) → v.faults ≡ [] → P a v.db → Runs (f a) v Q)
    → Runs (m >>= f) w Q
unfolding ◌>>=◌
bind-Runs m f w P Q r k =
    let s = k r.result r.after r.calm r.holds in
    record {
      result = s.result;
      after = s.after;
      runs = rw r.runs s.runs;
      calm = s.calm;
      holds = s.holds;
    }

-- An action whose value is known, in front of the rest.
pub then-Runs :
    {A B : Type 0} (m : Action A) (f : A → Action B) (w : World) (Q : B → Db → Type 0) (a : A)
    → m w ≡ (value a, w)
    → Runs (f a) w Q
    → Runs (m >>= f) w Q
unfolding ◌>>=◌
then-Runs m f w Q a e s = record {
  result = s.result;
  after = s.after;
  runs = rw e s.runs;
  calm = s.calm;
  holds = s.holds;
}

pub pure-Runs :
    {A : Type 0} (a : A) (w : World) (P : A → Db → Type 0)
    → w.faults ≡ []
    → P a w.db
    → Runs (pure a) w P
unfolding pure
pure-Runs a w P c h = record { result = a; after = w; runs = refl; calm = c; holds = h }

pub update-Runs :
    {A : Type 0} (h : Fail → Response) (f : Db → Result (Db × A)) (w : World) (P : A → Db → Type 0)
    (a : A) (db : Db)
    → w.faults ≡ []
    → f w.db ≡ ok (db, a)
    → P a db
    → Runs (update h f) w P
unfolding update
update-Runs h f w P a db c e p = record {
  result = a;
  after = record w { db = db; faults = [] };
  runs = rw (c, e) refl;
  calm = refl;
  holds = p;
}

pub transaction-Runs :
    {A : Type 0} (begin_format commit_format : String) (body : Action A) (w : World)
    (P : A → Db → Type 0)
    → w.faults ≡ []
    → Runs body (record w { faults = [] }) P
    → Runs (transaction begin_format commit_format body) w P
unfolding transaction query ◌>>=◌
transaction-Runs b c body w P e r = record {
  result = r.result;
  after = record r.after { faults = [] };
  runs = rw (e, r.runs, r.calm) refl;
  calm = refl;
  holds = r.holds;
}

pub notify-Runs : (kind : String) (w : World) → w.faults ≡ [] → Runs (notify kind) w (λ u db. Unit)
unfolding notify
notify-Runs kind w c = record {
  result = tt;
  after = record w { hub = publish kind w.hub };
  runs = refl;
  calm = c;
  holds = tt;
}

pub answered :
    {m : Action Response} {w : World} {P : Response → Db → Type 0}
    → (r : Runs m w P) → (serve m w).0 ≡ r.result
unfolding serve
answered r = rw r.runs
