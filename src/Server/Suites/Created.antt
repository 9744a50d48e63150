-- ===== src/Server/Suites/Created.antt =====
-- A suite is created whole or not at all, whatever the database does.
use ctf_koth_evals_template.Prelude.{
  ℕ, ◌+◌, ◌≤◌, ◌≡◌, ◌≢◌, refl, sym, ap, subst, ◌∙◌, ◌⊎◌, inl, inr, Bool-cases, ◌==◌, true, false,
  not, none, some, [], ◌∷◌, ◌++◌, In, arith, str_eq, eq_iff, ltb, length,
}
use ctf_koth_evals_template.Go.Int.{ℤ, pos, negsuc, equals, is_positive}
use ctf_koth_evals_template.Ent.Schema.{Challenge, Suite, Db}
use ctf_koth_evals_template.Ent.Store.{Fail, ok, only, create_suite as insert_suite}
use ctf_koth_evals_template.Wireapi.{CreateSuiteRequest, SuiteDetail}
use ctf_koth_evals_template.Server.Response.{Response, Body, write_json}
use ctf_koth_evals_template.Server.Action.{World, update, serve}
use ctf_koth_evals_template.Server.Request.{Decoded, decoded}
use ctf_koth_evals_template.Server.Lifecycle.Rows.{only-In}
use ctf_koth_evals_template.Server.Outcomes.{
  Ends, FailsOn, bind-Ends, pure-Ends, update-Ends, serve-Ends,
}
use ctf_koth_evals_template.Server.Outcomes.Requests.{
  json_body-Ends, require-Ends, read-Ends, missing_or-Fails,
}
use ctf_koth_evals_template.Server.Suites.{
  create_suite, requested_suite, suite_detail, challenge_list_item, timeout_or_default,
}

-- One more suite, the row `s`; every other table is what it was.
pub record Added (before : Db) (s : Suite) (after : Db) : Type 0 where
  pub fresh : s.id ≡ before.next_suite
  pub runs_for_a_time : is_positive s.timeout_seconds ≡ true
  pub is_named : s.name ≢ ""
  pub appended :
      after ≡ record before { suites = before.suites ++ s ∷ []; next_suite = before.next_suite + 1 }

pub insert_suite-Added :
    (build : ℕ → Suite) (named : (n : ℕ) → (build n).id ≡ n) (db db' : Db) (s : Suite)
    → insert_suite build db ≡ ok (db', s)
    → Added db s db' × (s ≡ build db.next_suite)
unfolding insert_suite
insert_suite-Added build named db db' s e = (
  record {
    fresh = ap (λ (x : Suite). x.id) is_row ∙ named db.next_suite;
    runs_for_a_time = ground arith;
    is_named = ground (arith, eq_iff s.name "");
    appended = ground arith;
  },
  is_row,
)
  where
    is_row : s ≡ build db.next_suite
    is_row = ground arith

pub insert_suite-Ends :
    (before : Db) (v : World) (same : v.db ≡ before) (h : Fail → Response) (build : ℕ → Suite)
    (named : (n : ℕ) → (build n).id ≡ n)
    → ((e : Fail) → 400 ≤ (h e).code)
    → Ends
        (update h (insert_suite build))
        v
        (λ s db. Added before s db × (s ≡ build before.next_suite))
        (FailsOn before)
insert_suite-Ends before v same h build named bad =
    update-Ends v _ _ h (insert_suite build) (λ e. (bad e, same))
      λ s db e.
        subst (λ d. Added d s db × (s ≡ build d.next_suite)) same
          (insert_suite-Added build named v.db db s e)

-- What the answer says of a suite and its challenge.
abbrev pub described : Suite → Challenge → SuiteDetail
described s c = record {
  id = s.id;
  name = s.name;
  description = s.description;
  challenge = some (record {
    id = c.id;
    name = c.name;
    version = c.version;
    description = c.description;
    bundle_size = c.bundle_size;
    created_at = c.created_at;
  });
  parameters = s.parameters;
  seeds = s.seeds;
  timeout_seconds = s.timeout_seconds;
  scoring = s.scoring;
  sealed = s.sealed;
  created_at = s.created_at;
}

-- The row says what the request says, and an hour where that gives no timeout.
pub record IsRequested (body : CreateSuiteRequest) (c : Challenge) (now : ℕ) (s : Suite)
    : Type 0 where
  pub name : s.name ≡ body.name
  pub description : s.description ≡ body.description
  pub challenge : s.challenge ≡ c.id
  pub seeds : s.seeds ≡ body.seeds
  pub parameters : s.parameters ≡ body.parameters
  pub scoring : s.scoring ≡ body.scoring
  pub timeout : body.timeout_seconds ≢ pos 0 → s.timeout_seconds ≡ body.timeout_seconds
  pub default_timeout : body.timeout_seconds ≡ pos 0 → s.timeout_seconds ≡ pos 3600
  pub is_open : s.sealed ≡ false
  pub created : s.created_at ≡ now
  pub no_parent : s.parent ≡ none

timeout_lem :
    (t : ℤ) → (t ≢ pos 0 → timeout_or_default t ≡ t) × (t ≡ pos 0 → timeout_or_default t ≡ pos 3600)
unfolding equals
timeout_lem (negsuc n) = (λ h. refl, λ e. absurd (cc))
timeout_lem (pos n) = elim (Bool-cases (n == 0)) [
  | inl e ↦ let zero_n : n ≡ 0 = ground arith in rw e (λ h. absurd (h (ap pos zero_n)), λ h. refl)
  | inr e ↦ rw e (λ h. refl, λ h. absurd (let bad : n ≡ 0 = (let inner = h in cc) in ground arith))
]

requested_suite-IsRequested :
    (body : CreateSuiteRequest) (c : Challenge) (now id : ℕ)
    → IsRequested body c now (requested_suite body c now id)
requested_suite-IsRequested body c now id = record {
  name = refl;
  description = refl;
  challenge = refl;
  seeds = refl;
  parameters = refl;
  scoring = refl;
  timeout = (timeout_lem body.timeout_seconds).0;
  default_timeout = (timeout_lem body.timeout_seconds).1;
  is_open = refl;
  created = refl;
  no_parent = refl;
}

-- A suite that is answered with 201: the request named a challenge that is there and had seeds, and
-- the suite is stored open, with what the request says.
pub record Created (request : Decoded CreateSuiteRequest) (now : ℕ) (before : Db)
    (answer : Response) (after : Db) : Type 0 where
  pub body : CreateSuiteRequest
  pub is_body : request ≡ decoded body
  pub has_seeds : body.seeds ≢ []
  pub challenge : Challenge
  pub stands : In challenge before.challenges
  pub asked_for : equals body.challenge_id challenge.id ≡ true
  pub suite : Suite
  pub row : IsRequested body challenge now suite
  pub added : Added before suite after
  pub answered : answer ≡ write_json 201 (Body.suite (described suite challenge))

pub create_suite-Ends :
    (request : Decoded CreateSuiteRequest) (now : ℕ) (w : World)
    → Ends (create_suite request now) w (λ r db. Created request now w.db r db) (FailsOn w.db)
unfolding create_suite
create_suite-Ends request now w =
    bind-Ends _ _ _ _ _ w (json_body-Ends w.db w refl request) λ body v1 h1.
      bind-Ends _ _ _ _ _ v1 (require-Ends w.db v1 h1.1 (not (str_eq body.name "")) _ (omega arith))
        λ u2 v2 h2.
          bind-Ends _ _ _ _ _ v2
            (require-Ends w.db v2 h2.1 (not (equals body.challenge_id 0)) _ (omega arith))
            λ u3 v3 h3.
              bind-Ends _ _ _ _ _ v3
                (require-Ends w.db v3 h3.1 (ltb 0 (length body.seeds)) _ (omega arith))
                λ u4 v4 h4.
                  bind-Ends _ _ _ _ _ v4
                    (read-Ends w.db v4 h4.1 _
                      (λ db. only (λ (c : Challenge). equals body.challenge_id c.id) db.challenges)
                      (λ e. missing_or-Fails _ _ e (omega arith)))
                    λ ch v5 h5.
                      let found = only-In _ w.db.challenges ch h5.0 in
                      bind-Ends _
                        (λ s db.
                          Added w.db s db × (s ≡ requested_suite body ch now w.db.next_suite))
                        _ _ _ v5
                        (insert_suite-Ends w.db v5 h5.1 _ (requested_suite body ch now) (λ n. refl)
                          (λ e. omega arith))
                        λ s v6 h6. pure-Ends v6 _ _ _ (record {
                          body = body;
                          is_body = h1.0;
                          has_seeds = λ e. ground (arith, h4.0, ap length e);
                          challenge = ch;
                          stands = found.0;
                          asked_for = found.1;
                          suite = s;
                          row =
                              subst (IsRequested body ch now) (sym h6.1)
                                (requested_suite-IsRequested body ch now w.db.next_suite);
                          added = h6.0;
                          answered = unfold suite_detail challenge_list_item in refl;
                        })

-- A request for a suite, whichever call of the database fails, either is answered with an error
-- and leaves the tables as they were, or is answered with 201: its challenge is there, and the one
-- change is a new suite, which the answer describes, with the challenge, name, description, seeds,
-- parameters, scoring and timeout of the request (an hour where it gave none), which is not sealed
-- and has no parent, whose timeout is positive and whose name and list of seeds are not empty.
pub suite_is_stored_whole :
    (request : Decoded CreateSuiteRequest) (now : ℕ) (w : World)
    → ((400 ≤ (serve (create_suite request now) w).0.code)
        × ((serve (create_suite request now) w).1.db ≡ w.db))
      ⊎ Created request now w.db
          (serve (create_suite request now) w).0
          (serve (create_suite request now) w).1.db
suite_is_stored_whole request now w =
    serve-Ends (create_suite request now) w (λ r db. Created request now w.db r db)
      (create_suite-Ends request now w)
