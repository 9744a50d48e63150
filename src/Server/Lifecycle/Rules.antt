-- ===== src/Server/Lifecycle/Rules.antt =====
-- One rule for each way to build an action: what it leaves can be reached from what it found.
use ctf_koth_evals_template.Prelude.{String, ◌≡◌, refl, Option, none, some}
use ctf_koth_evals_template.Ent.Schema.{Db}
use ctf_koth_evals_template.Ent.Store.{Fail, Result, ok, err}
use ctf_koth_evals_template.Server.Response.{Response, internal_error}
use ctf_koth_evals_template.Server.Action.{
  World, Action, Outcome, value, pure, stop, reply, continue, ◌>>=◌, save, query, update, or_reply,
  deref, settle, transaction, notify, faulted, next_fault, later_faults, stored, serve,
}
use ctf_koth_evals_template.Server.Lifecycle.{Inv, Reach, here}
use ctf_koth_evals_template.Server.Lifecycle.Rows.{Reach-Inv, Reach-trans}

pub record Refines {A : Type 0} (m : Action A) (w : World) : Type 0 where
  pub at : Inv w.db → Reach w.db (m w).1.db

-- The world behind one call.
abbrev pub after_call : World → World
after_call w = record w { faults = later_faults w.faults }

module _ {A B : Type 0} where
  continue-Reach :
      (f : A → Action B) (w : World) (o : Outcome A × World)
      → Inv w.db
      → Reach w.db o.1.db
      → ((a : A) (w' : World) → o ≡ (value a, w') → Refines (f a) w')
      → Reach w.db (let (r, w') = o in continue r f w').1.db
  continue-Reach f w (value a, w') i r k = Reach-trans r ((k a w' refl).at (Reach-Inv r i))
  continue-Reach f w (reply s, w') i r k = r

  pub bind-Refines :
      (m : Action A) (f : A → Action B) (w : World)
      → Refines m w
      → ((a : A) (w' : World) → m w ≡ (value a, w') → Refines (f a) w')
      → Refines (m >>= f) w
  unfolding ◌>>=◌
  bind-Refines m f w r k = record { at = λ i. continue-Reach f w (m w) i (r.at i) k }

  -- A read changes no table, and what follows knows what was read.
  pub query-Refines :
      (h : Fail → Response) (g : Db → Result A) (f : A → Action B) (w : World)
      → ((a : A) → g w.db ≡ ok a → Refines (f a) (after_call w))
      → Refines (query h g >>= f) w
  unfolding query
  query-Refines h g f w k = record { at = λ i. go i (next_fault w.faults) (g w.db) refl }
    where
      go :
          Inv w.db
          → (e : Option String) (r : Result A) → g w.db ≡ r
          → Reach w.db
              (let (o, w') = or_reply h (faulted e r) (after_call w) in continue o f w').1.db
      go i none (ok a) q = (k a q).at i
      go i none (err x) q = here
      go i (some t) r q = here

-- Nothing follows an early return.
pub stop_then-Refines :
    {A B : Type 0} (s : Response) (f : A → Action B) (w : World) → Refines (stop s >>= f) w
unfolding ◌>>=◌
stop_then-Refines s f w = record { at = λ i. here }

pub pure-Refines : {A : Type 0} (a : A) (w : World) → Refines (pure a) w
unfolding pure
pure-Refines a w = record { at = λ i. here }

pub stop-Refines : {A : Type 0} (s : Response) (w : World) → Refines (stop {A = A} s) w
unfolding stop
stop-Refines s w = record { at = λ i. here }

-- A write that evolves the tables where it succeeds.
pub save-Refines :
    {A : Type 0} (g : Db → Result (Db × A)) (w : World)
    → ((db : Db) (a : A) → g w.db ≡ ok (db, a) → Inv w.db → Reach w.db db)
    → Refines (save g) w
unfolding save
save-Refines {A} g w k = record { at = λ i. go i (next_fault w.faults) (g w.db) refl }
  where
    go :
        Inv w.db
        → (e : Option String) (r : Result (Db × A)) → g w.db ≡ r
        → Reach w.db (stored w.db (faulted e r))
    go i none (ok (db, a)) q = k db a q i
    go i none (err x) q = here
    go i (some t) r q = here

or_reply-Refines :
    {A : Type 0} (h : Fail → Response) (r : Result A) (w : World) → Refines (or_reply h r) w
or_reply-Refines h (ok a) w = pure-Refines a w
or_reply-Refines h (err x) w = stop-Refines (h x) w

pub update-Refines :
    {A : Type 0} (h : Fail → Response) (g : Db → Result (Db × A)) (w : World)
    → ((db : Db) (a : A) → g w.db ≡ ok (db, a) → Inv w.db → Reach w.db db)
    → Refines (update h g) w
unfolding update
update-Refines h g w k =
    bind-Refines (save g) (or_reply h) w (save-Refines g w k) (λ r w' e. or_reply-Refines h r w')

pub notify-Refines : (kind : String) (w : World) → Refines (notify kind) w
unfolding notify
notify-Refines kind w = record { at = λ i. here }

pub deref-Refines : {A : Type 0} (o : Option A) (w : World) → Refines (deref o) w
unfolding deref
deref-Refines none w = record { at = λ i. here }
deref-Refines (some a) w = record { at = λ i. here }

-- A transaction leaves what its body reached, or the tables that it found.
pub transaction-Refines :
    {A : Type 0} (b c : String) (m : Action A) (w : World)
    → Refines m (after_call w)
    → Refines (transaction b c m) w
unfolding transaction
transaction-Refines {A} b c m w r =
    query-Refines (internal_error b) (λ db. ok tt) (λ _ w'. settle c w'.db (m w')) w
      (λ u e. record { at = λ i. settled (m (after_call w)) (r.at i) })
  where
    committed :
        (e : Option String) (a : A) (w' : World)
        → next_fault w'.faults ≡ e
        → Reach w.db w'.db
        → Reach w.db (settle c w.db (value a, w')).1.db
    committed none a w' e q = rw (e, settle) q
    committed (some t) a w' e q = rw (e, settle) here

    settled : (o : Outcome A × World) → Reach w.db o.1.db → Reach w.db (settle c w.db o).1.db
    settled (reply s, w') q = here
    settled (value a, w') q = committed (next_fault w'.faults) a w' refl q

-- What a request leaves satisfies the invariant.
pub serve-Inv : (m : Action Response) (w : World) → Refines m w → Inv w.db → Inv (serve m w).1.db
unfolding serve
serve-Inv m w r i = Reach-Inv (r.at i) i
