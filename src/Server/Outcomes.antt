-- ===== src/Server/Outcomes.antt =====
-- One rule for each way to build an action: what holds of its value and what of an early reply,
-- whatever the database does.
pub mod Requests
use ctf_koth_evals_template.Prelude.{
  ◌≤◌, arith, String, ◌≡◌, ◌⊎◌, inl, inr, refl, Option, none, some, Option-cases,
}
use ctf_koth_evals_template.Ent.Schema.{Db}
use ctf_koth_evals_template.Ent.Store.{Fail, Result, ok, err, failed}
use ctf_koth_evals_template.Server.Response.{Response, internal_error}
use ctf_koth_evals_template.Server.Action.{
  World, Action, Outcome, value, reply, pure, stop, continue, ◌>>=◌, query, update, or_reply,
  settle, transaction, notify, faulted, next_fault, later_faults, stored, returned, serve, written,
}

-- `P` of a value and the tables behind it, `R` of an early reply and the tables behind it.
abbrev pub Holds :
    {A : Type 0} → (A → Db → Type 0) → (Response → Db → Type 0) → Outcome A × World → Type 0
Holds P R (value a, v) = P a v.db
Holds P R (reply r, v) = R r v.db

pub record Ends {A : Type 0} (m : Action A) (w : World) (P : A → Db → Type 0)
    (R : Response → Db → Type 0) : Type 0 where
  pub at : Holds P R (m w)

-- An error is answered.
abbrev pub Fails : Response → Db → Type 0
Fails r db = 400 ≤ r.code

-- An error is answered, and the tables are what they were.
abbrev pub FailsOn : Db → Response → Db → Type 0
FailsOn before r db = (400 ≤ r.code) × (db ≡ before)

module _ {A B : Type 0} (f : A → Action B) (P : A → Db → Type 0) (Q : B → Db → Type 0)
    (R : Response → Db → Type 0) where
  continue-Holds :
      (o : Outcome A × World)
      → Holds P R o
      → ((a : A) (v : World) → P a v.db → Ends (f a) v Q R)
      → Holds Q R (let (r, v) = o in continue r f v)
  continue-Holds (value a, v) h k = (k a v h).at
  continue-Holds (reply r, v) h k = h

  pub bind-Ends :
      (m : Action A) (w : World)
      → Ends m w P R
      → ((a : A) (v : World) → P a v.db → Ends (f a) v Q R)
      → Ends (m >>= f) w Q R
  unfolding ◌>>=◌
  bind-Ends m w l k = record { at = continue-Holds (m w) l.at k }

module _ {A : Type 0} (w : World) (P : A → Db → Type 0) (R : Response → Db → Type 0) where
  pub pure-Ends : (a : A) → P a w.db → Ends (pure a) w P R
  unfolding pure
  pure-Ends a h = record { at = h }

  pub stop-Ends : (r : Response) → R r w.db → Ends (stop r) w P R
  unfolding stop
  stop-Ends r h = record { at = h }

  pub query-Ends :
      (h : Fail → Response) (f : Db → Result A)
      → ((e : Fail) → R (h e) w.db)
      → ((a : A) → f w.db ≡ ok a → P a w.db)
      → Ends (query h f) w P R
  unfolding query
  query-Ends h f before k = record { at = go (next_fault w.faults) (f w.db) refl }
    where
      go :
          (e : Option String) (r : Result A)
          → f w.db ≡ r
          → Holds P R (or_reply h (faulted e r) (record w { faults = later_faults w.faults }))
      go none (ok a) q = k a q
      go none (err x) q = before x
      go (some t) r q = before (failed t)

  pub update-Ends :
      (h : Fail → Response) (f : Db → Result (Db × A))
      → ((e : Fail) → R (h e) w.db)
      → ((a : A) (db : Db) → f w.db ≡ ok (db, a) → P a db)
      → Ends (update h f) w P R
  unfolding update
  update-Ends h f before k = record { at = go (next_fault w.faults) (f w.db) refl }
    where
      go :
          (e : Option String) (r : Result (Db × A))
          → f w.db ≡ r
          → Holds P R (
              or_reply h
                (returned (faulted e r))
                (record w { db = stored w.db (faulted e r); faults = later_faults w.faults }))
      go none (ok (db, a)) q = k a db q
      go none (err x) q = before x
      go (some t) r q = before (failed t)

  settle-Ends :
      (format : String) (before : Db) (o : Outcome A × World)
      → ((r : Response) → 400 ≤ r.code → R r before)
      → Holds P Fails o
      → Holds P R (settle format before o)
  settle-Ends format before (reply r, v) b h = b r h
  settle-Ends format before (value a, v) b h = go (next_fault v.faults)
    where
      go :
          (e : Option String)
          → Holds P R (elim e [
            | none ↦ (value a, record v { faults = later_faults v.faults })
            | some t ↦ (
              reply (internal_error format (failed t)),
              record v { db = before; faults = later_faults v.faults },
            )
          ])
      go none = h
      go (some t) = b (internal_error format (failed t)) (omega arith)

  -- A transaction that replies leaves the tables as they were; otherwise its body ran to the end.
  pub transaction-Ends :
      (begin_format commit_format : String) (body : Action A)
      → ((r : Response) → 400 ≤ r.code → R r w.db)
      → ((v : World) → v.db ≡ w.db → Ends body v P Fails)
      → Ends (transaction begin_format commit_format body) w P R
  unfolding transaction ◌>>=◌ query
  transaction-Ends begin_format commit_format body b k = elim (Option-cases (next_fault w.faults)) [
    | inl e ↦ record {
      at = rw e (
          settle-Ends commit_format w.db (body (record w { faults = later_faults w.faults })) b
            (k _ refl).at);
    }
    | inr (t, e) ↦ record { at = rw e (b (internal_error begin_format (failed t)) (omega arith)) }
  ]

pub notify-Ends :
    (kind : String) (w : World) (R : Response → Db → Type 0)
    → Ends (notify kind) w (λ u db. db ≡ w.db) R
unfolding notify
notify-Ends kind w R = record { at = refl }

-- What a request that ends so was answered, and what it left.
pub serve-Ends :
    (m : Action Response) (w : World) (P : Response → Db → Type 0)
    → Ends m w P (FailsOn w.db)
    → ((400 ≤ (serve m w).0.code) × ((serve m w).1.db ≡ w.db)) ⊎ P (serve m w).0 (serve m w).1.db
unfolding serve
serve-Ends m w P e = reply_or_done (m w) e.at
  where
    reply_or_done :
        (o : Outcome Response × World)
        → Holds P (FailsOn w.db) o
        → ((400 ≤ (written o.0).code) × (o.1.db ≡ w.db)) ⊎ P (written o.0) o.1.db
    reply_or_done (value r, v) h = inr h
    reply_or_done (reply r, v) h = inl h
