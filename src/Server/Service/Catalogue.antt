-- ===== src/Server/Service/Catalogue.antt =====
-- What no history of requests can do to a suite or to a submission.
use ctf_koth_evals_template.Prelude.{
  ℕ, zero, suc, ◌≡◌, refl, sym, ap, subst, Bool, true, false, some, List, [], ◌∷◌, get_elem?,
  if◌then◌else◌,
}
use ctf_koth_evals_template.Ent.Schema.{Suite, Submission, Db}
use ctf_koth_evals_template.Ent.Store.{ok, only}
use ctf_koth_evals_template.Server.Action.{World}
use ctf_koth_evals_template.Server.Claim.{IsFirst}
use ctf_koth_evals_template.Server.Lifecycle.{
  SuiteMove, as_it_was, sealing, SuitesEvolve, Extends, Inv, Reach, here, next,
}
use ctf_koth_evals_template.Server.Service.{Request, Env, run_all}
use ctf_koth_evals_template.Server.Service.Refinement.{run_all-Reach}

SuiteMove-trans : {s t u : Suite} → SuiteMove s t → SuiteMove t u → SuiteMove s u
SuiteMove-trans m as_it_was = m
SuiteMove-trans as_it_was sealing = sealing
SuiteMove-trans sealing sealing = sealing

sealed_again : (s : Suite) → s.sealed ≡ true → record s { sealed = true } ≡ s
sealed_again s e = sym (ap (λ b. record s { sealed = b }) e)

SuiteMove-sealed : {s t : Suite} → SuiteMove s t → s.sealed ≡ true → t ≡ s
SuiteMove-sealed as_it_was e = refl
SuiteMove-sealed {s} sealing e = sealed_again s e

moved_suite :
    (ss ts : List Suite) (k : ℕ) (s : Suite)
    → SuitesEvolve ss ts
    → get_elem? ss k ≡ some s
    → (t : Suite) × (get_elem? ts k ≡ some t) × SuiteMove s t
moved_suite [] ts k s e at = absurd (cc)
moved_suite (x ∷ ss) [] k s e at = elim e [ ]
moved_suite (x ∷ ss) (t ∷ ts) zero s e at =
    let same : x ≡ s = cc in (t, refl, subst (λ y. SuiteMove y t) same e.0)
moved_suite (x ∷ ss) (t ∷ ts) (suc k) s e at = moved_suite ss ts k s e.1 at

reached_suite :
    {a b : Db} (k : ℕ) (s : Suite)
    → Reach a b
    → get_elem? a.suites k ≡ some s
    → (t : Suite) × (get_elem? b.suites k ≡ some t) × SuiteMove s t
reached_suite k s here at = (s, at, as_it_was)
reached_suite k s (next {b} {c} r e) at =
    let (t, there, move) = reached_suite k s r at in
    let (u, now, later) = moved_suite b.suites c.suites k t e.catalogue.suites there in
    (u, now, SuiteMove-trans move later)

module _ (p : Submission → Bool) where
  -- A row that is found at the front of a table is found in every table that extends it.
  only-Extends :
      (xs ys : List Submission) (s : Submission)
      → Extends xs ys
      → only p xs ≡ ok s
      → only p ys ≡ ok s
  unfolding only
  only-Extends [] ys s e h = absurd (cc)
  only-Extends (x ∷ xs) [] s e h = elim e [ ]
  only-Extends (x ∷ xs) (y ∷ ys) s e h =
      subst (λ z. (if p z then ok z else only p ys) ≡ ok s) e.0
        (found (p x) (only-Extends xs ys s e.1) h)
    where
      found :
          (b : Bool)
          → (only p xs ≡ ok s → only p ys ≡ ok s)
          → (if b then ok x else only p xs) ≡ ok s
          → (if b then ok x else only p ys) ≡ ok s
      found true rest h = h
      found false rest h = rest h

  pub reached_submission :
      {a b : Db} (s : Submission)
      → Reach a b
      → only p a.submissions ≡ ok s
      → only p b.submissions ≡ ok s
  reached_submission s here h = h
  reached_submission s (next {b} {c} r e) h =
      only-Extends b.submissions c.submissions s e.catalogue.submissions (reached_submission s r h)

module _ (env : Env) (law : IsFirst env.first) (history : List (ℕ × Request)) (w : World)
    (i : Inv w.db) where
  -- From any database that satisfies the invariant, after any history every suite stands in its
  -- place with every column that it had, but that it may have been sealed since; a suite that was
  -- sealed is the same row.
  pub suite_is_kept :
      (k : ℕ) (s : Suite)
      → get_elem? w.db.suites k ≡ some s
      → (t : Suite) × (get_elem? (run_all env history w).db.suites k ≡ some t)
        × SuiteMove s t
        × (s.sealed ≡ true → t ≡ s)
  suite_is_kept k s at =
      let (t, there, move) = reached_suite k s (run_all-Reach env law history w i) at in
      (t, there, move, SuiteMove-sealed move)
