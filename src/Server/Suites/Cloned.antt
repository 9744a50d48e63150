-- ===== src/Server/Suites/Cloned.antt =====
-- A clone is an open copy of its source, which stays as it was, whatever the database does.
use ctf_koth_evals_template.Prelude.{
  ℕ, ◌≤◌, String, ◌<>◌, ◌≡◌, refl, sym, ap, subst, ◌∙◌, ◌⊎◌, true, false, Option, some, In, arith,
}
use ctf_koth_evals_template.Go.Int.{ℤ, equals}
use ctf_koth_evals_template.Go.Text.{codes, atoi}
use ctf_koth_evals_template.Ent.Schema.{Challenge, Suite, Db}
use ctf_koth_evals_template.Ent.Store.{Result, ok, err}
use ctf_koth_evals_template.Ent.Tables.{find_first-In}
use ctf_koth_evals_template.Server.Response.{Response, Body, write_json}
use ctf_koth_evals_template.Server.Action.{World, serve}
use ctf_koth_evals_template.Server.Lifecycle.Rows.{only-In}
use ctf_koth_evals_template.Server.Outcomes.{Ends, FailsOn, bind-Ends, pure-Ends, serve-Ends}
use ctf_koth_evals_template.Server.Outcomes.Requests.{
  path_id-Ends, read-Ends, deref-Ends, missing_or-Fails,
}
use ctf_koth_evals_template.Server.Suites.{
  clone_suite, challenge_list_item, copied_suite, suite_detail, suite_by_id, with_challenge,
  challenge_of,
}
use ctf_koth_evals_template.Server.Suites.Created.{Added, described, insert_suite-Ends}

-- What a copy takes from its source, and what it does not.
pub record IsCopy (src copy : Suite) : Type 0 where
  pub name : copy.name ≡ src.name <> " (copy)"
  pub description : copy.description ≡ src.description
  pub challenge : copy.challenge ≡ src.challenge
  pub seeds : copy.seeds ≡ src.seeds
  pub parameters : copy.parameters ≡ src.parameters
  pub timeout : copy.timeout_seconds ≡ src.timeout_seconds
  pub scoring : copy.scoring ≡ src.scoring
  pub is_open : copy.sealed ≡ false
  pub parent : copy.parent ≡ some src.id

-- The source is the suite of the path.
pub record Cloned (param : String) (now : ℕ) (before : Db) (answer : Response) (after : Db)
    : Type 0 where
  pub id : ℤ
  pub is_id : atoi (codes param) ≡ some id
  pub source : Suite
  pub stands : In source before.suites
  pub asked_for : equals id source.id ≡ true
  pub challenge : Challenge
  pub registered : In challenge before.challenges
  pub own_challenge : challenge.id ≡ source.challenge
  pub copy : Suite
  pub is_copy : IsCopy source copy
  pub created : copy.created_at ≡ now
  pub added : Added before copy after
  pub answered : answer ≡ write_json 201 (Body.suite (described copy challenge))

loaded_lem :
    (db : Db) (r : Result Suite) (p : Suite × Option Challenge)
    → with_challenge db r ≡ ok p
    → (r ≡ ok p.0) × (challenge_of db p.0 ≡ p.1)
loaded_lem db (ok s) p e =
    let same : (s, challenge_of db s) ≡ p = cc in
    (
      ap (λ (x : Suite × Option Challenge). ok x.0) same,
      subst (λ x. challenge_of db x.0 ≡ x.1) same refl,
    )
loaded_lem db (err t) p e = absurd (cc)

pub clone_suite-Ends :
    (param : String) (now : ℕ) (w : World)
    → Ends (clone_suite param now) w (λ r db. Cloned param now w.db r db) (FailsOn w.db)
unfolding clone_suite
clone_suite-Ends param now w = bind-Ends _ _ _ _ _ w (path_id-Ends w.db w refl param) λ id v1 e1.
    bind-Ends _ _ _ _ _ v1
      (read-Ends w.db v1 e1.1 _ (suite_by_id id) (λ e. missing_or-Fails _ _ e (omega arith)))
      λ src v2 h2. bind-Ends _ _ _ _ _ v2 (deref-Ends w.db v2 h2.1 src.1) λ ch v3 h3.
        bind-Ends _ _ _ _ _ v3
          (insert_suite-Ends w.db v3 h3.1 _ (copied_suite src.0 ch now) (λ n. refl)
            (λ e. omega arith))
          λ s v4 h4.
            let loaded = loaded_lem w.db _ src h2.0 in
            let edge = find_first-In _ w.db.challenges ch (loaded.1 ∙ h3.0) in
            pure-Ends v4 _ _ _ (record {
              id = id;
              is_id = e1.0;
              source = src.0;
              stands = (only-In _ w.db.suites src.0 loaded.0).0;
              asked_for = (only-In _ w.db.suites src.0 loaded.0).1;
              challenge = ch;
              registered = edge.0;
              own_challenge = ground (arith, edge.1);
              created = ap (λ (x : Suite). x.created_at) h4.1;
              copy = s;
              is_copy = subst (IsCopy src.0) (sym h4.1) (record {
                name = refl;
                description = refl;
                challenge = ground (arith, edge.1);
                seeds = refl;
                parameters = refl;
                timeout = refl;
                scoring = refl;
                is_open = refl;
                parent = refl;
              });
              added = h4.0;
              answered =
                  ap (λ o. write_json 201 (Body.suite (suite_detail o s))) h3.0
                  ∙ (unfold suite_detail challenge_list_item in refl);
            })

-- A request to clone a suite, whichever call of the database fails, either is answered with an
-- error and leaves the tables as they were, or is answered with 201, and the one change is a new
-- suite, which the answer describes: a copy of the suite of the path, with its challenge,
-- description, seeds, parameters, timeout and scoring, which names that suite as its parent and is
-- not sealed.
pub clone_is_open_copy :
    (param : String) (now : ℕ) (w : World)
    → ((400 ≤ (serve (clone_suite param now) w).0.code)
        × ((serve (clone_suite param now) w).1.db ≡ w.db))
      ⊎ Cloned param now w.db
          (serve (clone_suite param now) w).0
          (serve (clone_suite param now) w).1.db
clone_is_open_copy param now w =
    serve-Ends (clone_suite param now) w (λ r db. Cloned param now w.db r db)
      (clone_suite-Ends param now w)
