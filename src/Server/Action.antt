-- ===== src/Server/Action.antt =====
-- Handlers as actions on the server's state. Every call of the database client takes the next
-- entry of `faults`: `some e` makes it fail with that error, so a list of faults is one behaviour
-- of the database. A handler that returns early stops with the response that it wrote.
use ctf_koth_evals_template.Prelude.{ℕ, String, Option, none, some, List, [], ◌∷◌}
use ctf_koth_evals_template.Ent.Schema.{Db}
use ctf_koth_evals_template.Ent.Store.{Fail, failed, Result, ok, err}
use ctf_koth_evals_template.Server.Hub.{Hub, publish}
use ctf_koth_evals_template.Server.Response.{Response, internal_error, recovered}

pub record World : Type 0 where
  pub db : Db
  pub hub : Option Hub
  -- hbCache: when each worker was last written to the table.
  pub hb_cache : List (String × ℕ)
  pub faults : List (Option String)

-- The world in which no call fails.
abbrev pub reliable : World → World
reliable w = record w { faults = [] }

pub data Outcome {ℓ} (A : Type ℓ) : Type ℓ where
  value : A → Outcome A
  reply : Response → Outcome A

abbrev pub Action : Type 0 → Type 0
Action A = World → Outcome A × World

abbrev pub continue : {A B : Type 0} → Outcome A → (A → Action B) → Action B
continue (value a) f w = f a w
continue (reply r) f w = (reply r, w)

unfoldable pub pure : {A : Type 0} → A → Action A
pure a w = (value a, w)

unfoldable pub stop : {A : Type 0} → Response → Action A
stop r w = (reply r, w)

-- Opening it opens `pure` and `stop` too.
infixl 5 ◌>>=◌ ◌>>◌
unfoldable pub ◌>>=◌ : {A B : Type 0} → Action A → (A → Action B) → Action B
unfolding pure stop
◌>>=◌ m f w = let (r, w') = m w in continue r f w'

abbrev pub ◌>>◌ : {B : Type 0} → Action (Unit {0}) → Action B → Action B
m >> k = m >>= λ _. k

abbrev pub faulted : {A : Type 0} → Option String → Result A → Result A
faulted none r = r
faulted (some e) r = err (failed e)

abbrev pub next_fault : List (Option String) → Option String
next_fault [] = none
next_fault (f ∷ fs) = f

abbrev pub later_faults : List (Option String) → List (Option String)
later_faults [] = []
later_faults (f ∷ fs) = fs

-- A read.
unfoldable pub call : {A : Type 0} → (Db → Result A) → Action (Result A)
call f w =
    (value (faulted (next_fault w.faults) (f w.db)), record w { faults = later_faults w.faults })

abbrev pub stored : Db → {A : Type 0} → Result (Db × A) → Db
stored db (ok (db', a)) = db'
stored db (err e) = db

abbrev pub returned : {A : Type 0} → Result (Db × A) → Result A
returned (ok (db', a)) = ok a
returned (err e) = err e

-- A write: a call that fails leaves the tables alone.
unfoldable pub save : {A : Type 0} → (Db → Result (Db × A)) → Action (Result A)
save f w =
    let r = faulted (next_fault w.faults) (f w.db) in
    (value (returned r), record w { db = stored w.db r; faults = later_faults w.faults })

abbrev pub or_reply : {A : Type 0} → (Fail → Response) → Result A → Action A
or_reply h (ok a) = pure a
or_reply h (err e) = stop (h e)

unfoldable pub query : {A : Type 0} → (Fail → Response) → (Db → Result A) → Action A
unfolding call ◌>>=◌
query h f = do r ← call f; or_reply h r

unfoldable pub update : {A : Type 0} → (Fail → Response) → (Db → Result (Db × A)) → Action A
unfolding save ◌>>=◌
update h f = do r ← save f; or_reply h r

-- A field of an edge that may be nil.
unfoldable pub deref : {A : Type 0} → Option A → Action A
unfolding pure stop
deref none = stop recovered
deref (some a) = pure a

abbrev pub settle : {A : Type 0} → String → Db → Outcome A × World → Outcome A × World
settle format before (reply r, w) = (reply r, record w { db = before })
settle format before (value a, w) = elim (next_fault w.faults) [
  | none ↦ (value a, record w { faults = later_faults w.faults })
  | some e ↦ (
    reply (internal_error format (failed e)),
    record w { db = before; faults = later_faults w.faults },
  )
]

-- Client.Tx, the body on the transaction's view, tx.Commit; a deferred Rollback on every other way out.
unfoldable pub transaction : {A : Type 0} → String → String → Action A → Action A
unfolding query
transaction begin_format commit_format body = do
  query (internal_error begin_format) (λ db. ok tt)
  λ w. settle commit_format w.db (body w)

unfoldable pub notify : String → Action (Unit {0})
unfolding publish
notify kind w = (value tt, record w { hub = publish kind w.hub })

abbrev pub written : Outcome Response → Response
written (value r) = r
written (reply r) = r

-- A request served: what the handler wrote, whichever way it ended, and the state behind it.
-- Opening it opens every action of this file.
unfoldable pub serve : Action Response → World → Response × World
unfolding query update transaction notify deref
serve m w = let (r, w') = m w in (written r, w')
