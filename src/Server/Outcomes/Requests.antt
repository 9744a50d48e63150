-- ===== src/Server/Outcomes/Requests.antt =====
-- What holds after the steps that the handlers share, where the tables are still `before`.
use ctf_koth_evals_template.Prelude.{
  String, ◌≤◌, ◌≡◌, refl, sym, ap, ◌∙◌, Bool, true, false, Option, none, some, List, arith,
}
use ctf_koth_evals_template.Go.Int.{ℤ}
use ctf_koth_evals_template.Go.Text.{codes, atoi}
use ctf_koth_evals_template.Ent.Schema.{Suite, Db}
use ctf_koth_evals_template.Ent.Store.{Fail, Result, ok, not_found, failed}
use ctf_koth_evals_template.Server.Response.{Response, missing_or}
use ctf_koth_evals_template.Server.Action.{World, query, deref}
use ctf_koth_evals_template.Server.Request.{
  Decoded, decoded, malformed, path_id, parsed_id, json_body, require,
}
use ctf_koth_evals_template.Server.Outcomes.{Ends, FailsOn, pure-Ends, stop-Ends, query-Ends}

-- Both answers of a failed lookup are errors.
pub missing_or-Fails :
    (r : Response) (format : String) (e : Fail) → 400 ≤ r.code → 400 ≤ (missing_or r format e).code
missing_or-Fails r format not_found h = h
missing_or-Fails r format (failed t) h = omega arith

module _ (before : Db) (v : World) (same : v.db ≡ before) where
  pub path_id-Ends :
      (param : String)
      → Ends
          (path_id param)
          v
          (λ id db. (atoi (codes param) ≡ some id) × (db ≡ before))
          (FailsOn before)
  unfolding path_id
  path_id-Ends param = parsed (atoi (codes param)) refl
    where
      parsed :
          (o : Option ℤ)
          → atoi (codes param) ≡ o
          → Ends
              (parsed_id o)
              v
              (λ id db. (atoi (codes param) ≡ some id) × (db ≡ before))
              (FailsOn before)
      parsed none e = stop-Ends v _ _ _ (omega arith, same)
      parsed (some n) e = pure-Ends v _ _ n (e, same)

  pub json_body-Ends :
      {A : Type 0} (d : Decoded A)
      → Ends (json_body d) v (λ x db. (d ≡ decoded x) × (db ≡ before)) (FailsOn before)
  json_body-Ends (decoded x) = pure-Ends v _ _ x (refl, same)
  json_body-Ends (malformed e) = stop-Ends v _ _ _ (omega arith, same)

  pub require-Ends :
      (b : Bool) (r : Response)
      → 400 ≤ r.code
      → Ends (require b r) v (λ u db. (b ≡ true) × (db ≡ before)) (FailsOn before)
  require-Ends true r bad = pure-Ends v _ _ tt (refl, same)
  require-Ends false r bad = stop-Ends v _ _ r (bad, same)

  pub lookup-Ends :
      (h : Fail → Response) (f : Db → List Suite)
      → ((e : Fail) → 400 ≤ (h e).code)
      → Ends (query h (λ db. ok (f db))) v (λ x db. (x ≡ f before) × (db ≡ before)) (FailsOn before)
  lookup-Ends h f bad =
      query-Ends v _ _ h (λ db. ok (f db)) (λ e. (bad e, same))
        λ a e. let got : f v.db ≡ a = cc in (sym got ∙ ap f same, same)

  -- A read gives what it reads of `before`.
  pub read-Ends :
      {A : Type 0} (h : Fail → Response) (f : Db → Result A)
      → ((e : Fail) → 400 ≤ (h e).code)
      → Ends (query h f) v (λ a db. (f before ≡ ok a) × (db ≡ before)) (FailsOn before)
  read-Ends h f bad = query-Ends v _ _ h f (λ e. (bad e, same)) λ a e. (ap f (sym same) ∙ e, same)

  pub deref-Ends :
      {A : Type 0} (o : Option A)
      → Ends (deref o) v (λ a db. (o ≡ some a) × (db ≡ before)) (FailsOn before)
  unfolding deref
  deref-Ends none = stop-Ends v _ _ _ (omega arith, same)
  deref-Ends (some a) = pure-Ends v _ _ a (refl, same)
