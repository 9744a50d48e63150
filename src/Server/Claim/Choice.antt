-- ===== src/Server/Claim/Choice.antt =====
-- Which run a claim takes, and what it makes of it, on a database that does not fail.
use ctf_koth_evals_template.Prelude.{
  ℕ, String, ◌≡◌, ◌≢◌, refl, ap, subst, ◌∙◌, inl, inr, false, Option, none, some, List, [], ◌∷◌,
  arith, In, ◌==◌, select, Option-cases,
}
use ctf_koth_evals_template.Ent.Status.{pending, status_eq, status_eq_refl, status_eq_sound}
use ctf_koth_evals_template.Ent.Schema.{Run, Db}
use ctf_koth_evals_template.Ent.Tables.{In-select}
use ctf_koth_evals_template.Ent.Store.{rewrite, update_run}
use ctf_koth_evals_template.Server.Hub.{publish}
use ctf_koth_evals_template.Server.Response.{Response, no_content}
use ctf_koth_evals_template.Server.Action.{
  World, value, reply, serve, ◌>>=◌, transaction, query, update, notify, reliable,
}
use ctf_koth_evals_template.Server.Claim.{
  IsFirst, Loaded, claims_before, is_pending, load_edges, claimed_by, take_pending, claim_response,
  claiming_worker, handle_claim,
}
use ctf_koth_evals_template.Server.Lifecycle.{Inv}
use ctf_koth_evals_template.Server.Lifecycle.Rows.{select-In, only-id}

-- The tables once `q` is claimed.
abbrev pub after_claim : String → ℕ → Run → Db → Db
after_claim worker now q db = record db {
  runs = rewrite (λ (x : Run). x.id == q.id) (claimed_by worker now) db.runs;
}

module _ (first : List Run → Option Run) (worker : String) (now : ℕ) (w : World)
    (i : Inv w.db) where
  take_pending_lem :
      (q : Run)
      → first (select is_pending w.db.runs) ≡ some q
      → In q w.db.runs
      → take_pending first worker now (reliable w) ≡ (
        value (load_edges w.db q, claimed_by worker now q),
        record w { db = after_claim worker now q w.db; faults = [] },
      )
  unfolding take_pending query update ◌>>=◌ update_run load_edges
  take_pending_lem q e m = rw (e, only-id w.db q i m)

  take_pending-none :
      first (select is_pending w.db.runs) ≡ none
      → take_pending first worker now (reliable w) ≡ (reply no_content, reliable w)
  unfolding take_pending query ◌>>=◌
  take_pending-none e = rw e

-- What the claim of `q` answers: 200 with the run, its suite, challenge and submission, or, where
-- an edge is missing, the 500 of a recovered panic.
abbrev pub claim_answer : String → ℕ → Run → World → Response
claim_answer worker now q w =
    (serve (claim_response (load_edges w.db q) (claimed_by worker now q)) (reliable w)).0

claim_response-db :
    (l : Loaded) (r : Run) (w v : World)
    → (serve (claim_response l r) w).0 ≡ (serve (claim_response l r) v).0
      × ((serve (claim_response l r) w).1 ≡ w)
unfolding serve claim_response ◌>>=◌
claim_response-db l r w v = ground arith

first_none :
    (first : List Run → Option Run) → IsFirst first → (rs : List Run) → first rs ≡ none → rs ≡ []
first_none first law [] e = refl
first_none first law (r ∷ rs) e = let (q, s) = law.first_cons r rs in absurd (cc)

select-pending :
    (q : Run) (rs : List Run) → In q (select is_pending rs) → In q rs × (q.status ≡ pending)
select-pending q rs m =
    let (a, b) = select-In is_pending rs q m in (a, status_eq_sound q.status pending b)

pending-select :
    (q : Run) (rs : List Run) → In q rs → q.status ≡ pending → In q (select is_pending rs)
pending-select q rs m e =
    In-select is_pending rs q m (ap (λ s. status_eq s pending) e ∙ status_eq_refl pending)

module _ (first : List Run → Option Run) (law : IsFirst first) (header : String) (now : ℕ)
    (w : World) (i : Inv w.db) where
  claim_of_first :
      (q : Run)
      → first (select is_pending w.db.runs) ≡ some q
      → In q w.db.runs
      → (serve (handle_claim first header now) (reliable w)).1.db
          ≡ after_claim (claiming_worker header) now q w.db
        × ((serve (handle_claim first header now) (reliable w)).0
            ≡ claim_answer (claiming_worker header) now q w)
  unfolding serve handle_claim ◌>>=◌ transaction query notify claim_response
  claim_of_first q e m =
      let worker = claiming_worker header in
      let d =
        claim_response-db (load_edges w.db q) (claimed_by worker now q)
          (record w {
            db = after_claim worker now q w.db;
            hub = publish "claim" w.hub;
            faults = [];
          })
          (reliable w) in
      rw (take_pending_lem first worker now w i q e m) (ap (λ (v : World). v.db) d.1, d.0)

  pub claim_takes_first :
      (r : Run)
      → In r w.db.runs
      → r.status ≡ pending
      → (q : Run) × In q w.db.runs
        × (q.status ≡ pending)
        × ((p : Run) → In p w.db.runs → p.status ≡ pending → claims_before p q ≡ false)
        × ((serve (handle_claim first header now) (reliable w)).1.db
            ≡ after_claim (claiming_worker header) now q w.db)
        × ((serve (handle_claim first header now) (reliable w)).0
            ≡ claim_answer (claiming_worker header) now q w)
  claim_takes_first r m s = elim (Option-cases (first (select is_pending w.db.runs))) [
    | inl e ↦
        let empty = first_none first law (select is_pending w.db.runs) e in
        elim (subst (In r) empty (pending-select r w.db.runs m s)) [ ]
    | inr (q, e) ↦
        let found = select-pending q w.db.runs (law.first_in (select is_pending w.db.runs) q e) in
        let effect = claim_of_first q e found.0 in
        (
          q,
          found.0,
          found.1,
          λ p m' s'.
              law.first_best (select is_pending w.db.runs) q p e (pending-select p w.db.runs m' s'),
          effect.0,
          effect.1,
        )
  ]

  answer_of_none :
      first (select is_pending w.db.runs) ≡ none
      → (serve (handle_claim first header now) (reliable w)).1.db ≡ w.db
        × ((serve (handle_claim first header now) (reliable w)).0 ≡ no_content)
  unfolding serve handle_claim ◌>>=◌ transaction query
  answer_of_none e = rw (take_pending-none first (claiming_worker header) now w i e) (refl, refl)

  -- Where no run is pending, a claim answers 204 and leaves the tables alone.
  pub claim_finds_none :
      ((r : Run) → In r w.db.runs → r.status ≢ pending)
      → (serve (handle_claim first header now) (reliable w)).1.db ≡ w.db
        × ((serve (handle_claim first header now) (reliable w)).0 ≡ no_content)
  claim_finds_none none_pending = elim (Option-cases (first (select is_pending w.db.runs))) [
    | inl e ↦ answer_of_none e
    | inr (q, e) ↦
        let found = select-pending q w.db.runs (law.first_in (select is_pending w.db.runs) q e) in
        absurd (none_pending q found.0 found.1)
  ]
