-- ===== src/Server/Submit/Reevaluate.antt =====
-- A reevaluation adds every run that it promises or none, whatever the database does, and takes no
-- suite twice.
use ctf_koth_evals_template.Prelude.{
  ℕ, ◌+◌, ◌≤◌, String, ◌≡◌, refl, sym, ap, ◌∙◌, subst, ◌⊎◌, inl, inr, Bool, true, false, some, List,
  [], ◌∷◌, In, any, ◌==◌, Bool-cases, arith, length, select, tally, if◌then◌else◌,
}
use ctf_koth_evals_template.Go.Int.{ℤ, pos, negsuc, equals}
use ctf_koth_evals_template.Go.Text.{codes, atoi}
use ctf_koth_evals_template.Ent.Schema.{Suite, Submission, Run, Db}
use ctf_koth_evals_template.Ent.Store.{Fail, not_found, failed, only}
use ctf_koth_evals_template.Ent.Tables.{In-any}
use ctf_koth_evals_template.Server.Response.{Response, Body, write_json, missing_or, http_not_found}
use ctf_koth_evals_template.Server.Action.{World, query, serve}
use ctf_koth_evals_template.Server.Request.{Decoded, decoded}
use ctf_koth_evals_template.Server.Lifecycle.Rows.{only-In}
use ctf_koth_evals_template.Server.Outcomes.{
  Ends, Fails, FailsOn, bind-Ends, pure-Ends, query-Ends, transaction-Ends, notify-Ends, serve-Ends,
}
use ctf_koth_evals_template.Server.Outcomes.Requests.{
  path_id-Ends, json_body-Ends, require-Ends, lookup-Ends,
}
use ctf_koth_evals_template.Server.Submit.{step_error, fan_out, suites_with, reevaluate_submission}
use ctf_koth_evals_template.Server.Submit.Plan.{planned, Fanned, fan_out-Ends}

-- The suite's id stands in the list.
abbrev pub chosen : List ℤ → Suite → Bool
chosen wanted s = any (λ n. equals n s.id) wanted

-- A reevaluation that is answered with 200: the submission is the one of the path, the suites are
-- those that the list names.
pub record Reevaluated (param : String) (request : Decoded (List ℤ)) (before : Db)
    (answer : Response) (after : Db) : Type 0 where
  pub id : ℤ
  pub is_id : atoi (codes param) ≡ some id
  pub wanted : List ℤ
  pub is_list : request ≡ decoded wanted
  pub submission : Submission
  pub stands : In submission before.submissions
  pub asked_for : equals id submission.id ≡ true
  pub suites : List Suite
  pub selected : suites ≡ select (chosen wanted) before.suites
  pub found : length suites ≡ length wanted
  pub runs : List Run
  pub fanned : Fanned submission.id suites (planned suites) before runs after
  pub answered : answer ≡ write_json 200 (Body.count "runs_created" (length runs))

module _ (before : Db) (v : World) (same : v.db ≡ before) where
  load-Ends :
      (h : Fail → Response) (p : Submission → Bool)
      → ((e : Fail) → 400 ≤ (h e).code)
      → Ends
          (query h (λ db. only p db.submissions))
          v
          (λ s db. In s before.submissions × (p s ≡ true) × (db ≡ before))
          (FailsOn before)
  load-Ends h p bad =
      query-Ends v _ _ h (λ db. only p db.submissions) (λ e. (bad e, same))
        λ s e. (
          subst (λ (d : Db). In s d.submissions) same (only-In p v.db.submissions s e).0,
          (only-In p v.db.submissions s e).1,
          same,
        )

missing_fails : (e : Fail) → 400 ≤ (missing_or http_not_found "load submission: %v" e).code
missing_fails not_found = omega arith
missing_fails (failed t) = omega arith

pub reevaluate-Ends :
    (param : String) (request : Decoded (List ℤ)) (now : ℕ) (w : World)
    → Ends
        (reevaluate_submission param request now)
        w
        (λ r db. Reevaluated param request w.db r db)
        (FailsOn w.db)
unfolding reevaluate_submission
reevaluate-Ends param request now w =
    bind-Ends _ _ _ _ _ w (path_id-Ends w.db w refl param) λ id v1 e1.
      bind-Ends _ _ _ _ _ v1 (json_body-Ends w.db v1 e1.1 request) λ wanted v2 h2.
        bind-Ends _ _ _ _ _ v2 (require-Ends w.db v2 h2.1 _ _ (omega arith)) λ u3 v3 h3.
          bind-Ends _ _ _ _ _ v3 (load-Ends w.db v3 h3.1 _ _ missing_fails) λ submission v4 h4.
            bind-Ends _ _ _ _ _ v4
              (lookup-Ends w.db v4 h4.2 _ (suites_with wanted) (λ x. omega arith))
              λ suites v5 h5.
                bind-Ends _ _ _ _ _ v5
                  (require-Ends w.db v5 h5.1 (length suites == length wanted) _ (omega arith))
                  λ u6 v6 h6.
                    bind-Ends _
                      (λ runs db. Fanned submission.id suites (planned suites) w.db runs db) _ _ _
                      v6
                      (transaction-Ends v6 _ _ _ _ _ (λ r bad. (bad, h6.1))
                        λ u e.
                          subst
                            (λ d.
                              Ends (fan_out step_error now submission.id suites) u
                                (λ runs db. Fanned submission.id suites (planned suites) d runs db)
                                Fails)
                            (e ∙ h6.1)
                            (fan_out-Ends step_error (λ step x. omega arith) now submission.id
                              suites u))
                      λ runs v7 f.
                        bind-Ends _ _ _ _ _ v7 (notify-Ends "runs" v7 (FailsOn w.db)) λ u8 v8 e8.
                          pure-Ends v8 _ _ _ (record {
                            id = id;
                            is_id = e1.0;
                            wanted = wanted;
                            is_list = h2.0;
                            submission = submission;
                            stands = h4.0;
                            asked_for = h4.1;
                            suites = suites;
                            selected = h5.0 ∙ (unfold suites_with in refl);
                            found = ground (arith, h6.0);
                            runs = runs;
                            fanned =
                                subst
                                  (λ d. Fanned submission.id suites (planned suites) w.db runs d)
                                  (sym e8) f;
                            answered = refl;
                          })

-- A reevaluation, whichever call of the database fails, either is answered with an error and
-- leaves the tables as they were, or is answered with 200 and the number of its runs: one pending
-- run for every seed of every suite that the request names, under the submission of the path, and
-- these suites are sealed.
pub reevaluation_is_atomic :
    (param : String) (request : Decoded (List ℤ)) (now : ℕ) (w : World)
    → ((400 ≤ (serve (reevaluate_submission param request now) w).0.code)
        × ((serve (reevaluate_submission param request now) w).1.db ≡ w.db))
      ⊎ Reevaluated param request w.db
          (serve (reevaluate_submission param request now) w).0
          (serve (reevaluate_submission param request now) w).1.db
reevaluation_is_atomic param request now w =
    serve-Ends (reevaluate_submission param request now) w
      (λ r db. Reevaluated param request w.db r db) (reevaluate-Ends param request now w)

-- Keys rise.
abbrev pub SuiteKeys : ℕ → List Suite → Type 0
SuiteKeys lo [] = Unit
SuiteKeys lo (s ∷ ss) = (lo ≤ s.id) × SuiteKeys (s.id + 1) ss

later_differs : (n : ℤ) (k m : ℕ) → equals n k ≡ true → k + 1 ≤ m → equals n m ≡ false
unfolding equals
later_differs (pos n) k m e h = ground arith
later_differs (negsuc n) k m e h = refl

none_above :
    (n : ℤ) (lo : ℕ) (ss : List Suite)
    → SuiteKeys lo ss
    → ((m : ℕ) → lo ≤ m → equals n m ≡ false)
    → tally (λ (s : Suite). equals n s.id) ss ≡ 0
none_above n lo [] k h = refl
none_above n lo (s ∷ ss) k h =
    rw (h s.id k.0, none_above n (s.id + 1) ss k.1 (λ m l. h m (omega (arith, k.0))))

at_most_one :
    (n : ℤ) (lo : ℕ) (ss : List Suite)
    → SuiteKeys lo ss
    → tally (λ (s : Suite). equals n s.id) ss ≤ 1
at_most_one n lo [] k = omega arith
at_most_one n lo (s ∷ ss) k = elim (Bool-cases (equals n s.id)) [
  | inl t ↦ rw (t, none_above n (s.id + 1) ss k.1 (λ m h. later_differs n s.id m t h)) (omega arith)
  | inr f ↦ rw f (omega (arith, at_most_one n (s.id + 1) ss k.1))
]

length-select : {A : Type 0} (p : A → Bool) (xs : List A) → length (select p xs) ≡ tally p xs
length-select p [] = refl
length-select p (x ∷ xs) = elim (Bool-cases (p x)) [
  | inl t ↦ rw t (omega (arith, length-select p xs))
  | inr f ↦ rw f (omega (arith, length-select p xs))
]

tally_either :
    {A : Type 0} (p q : A → Bool) (xs : List A)
    → tally (λ x. if p x then true else q x) xs ≤ tally p xs + tally q xs
tally_either p q [] = omega arith
tally_either p q (x ∷ xs) = elim (Bool-cases (p x)) [
  | inl t ↦ rw t (omega (arith, tally_either p q xs))
  | inr f ↦ rw f (omega (arith, tally_either p q xs))
]

chosen_bound :
    (wanted : List ℤ) (lo : ℕ) (ss : List Suite)
    → SuiteKeys lo ss
    → tally (chosen wanted) ss ≤ length wanted
chosen_bound [] lo [] k = omega arith
chosen_bound [] lo (s ∷ ss) k = omega (arith, chosen_bound [] (s.id + 1) ss k.1)
chosen_bound (n ∷ wanted) lo ss k = omega (
  arith,
  tally_either (λ (s : Suite). equals n s.id) (chosen wanted) ss,
  at_most_one n lo ss k,
  chosen_bound wanted lo ss k,
)

tally_cong :
    {A : Type 0} (p q : A → Bool) (xs : List A) → ((x : A) → p x ≡ q x) → tally p xs ≡ tally q xs
tally_cong p q [] h = refl
tally_cong p q (x ∷ xs) h = rw (h x, tally_cong p q xs h)

chosen_again :
    (n : ℤ) (wanted : List ℤ) (s : Suite) → In n wanted → chosen (n ∷ wanted) s ≡ chosen wanted s
chosen_again n wanted s m = elim (Bool-cases (equals n s.id)) [
  | inl t ↦ rw (t, In-any (λ k. equals k s.id) wanted n m t)
  | inr f ↦ rw f
]

selected_bound :
    (n : ℤ) (wanted : List ℤ) (db : Db)
    → SuiteKeys 0 db.suites
    → In n wanted
    → length (suites_with (n ∷ wanted) db) ≤ length wanted
unfolding suites_with
selected_bound n wanted db k m = omega (
  arith,
  length-select (chosen (n ∷ wanted)) db.suites,
  tally_cong (chosen (n ∷ wanted)) (chosen wanted) db.suites (λ s. chosen_again n wanted s m),
  chosen_bound wanted 0 db.suites k,
)

-- Where the keys of the suites rise, a reevaluation that names a suite twice is answered with an
-- error and leaves the tables as they were, even if every suite that it names is there.
pub repeated_suite_refused :
    (param : String) (n : ℤ) (wanted : List ℤ) (now : ℕ) (w : World)
    → SuiteKeys 0 w.db.suites
    → In n wanted
    → (400 ≤ (serve (reevaluate_submission param (decoded (n ∷ wanted)) now) w).0.code)
      × ((serve (reevaluate_submission param (decoded (n ∷ wanted)) now) w).1.db ≡ w.db)
unfolding suites_with
repeated_suite_refused param n wanted now w k m =
    elim (reevaluation_is_atomic param (decoded (n ∷ wanted)) now w) [
      | inl h ↦ h
      | inr made ↦
          let same : n ∷ wanted ≡ made.wanted = (let d = made.is_list in cc) in
          let count : length (suites_with (n ∷ wanted) w.db) ≡ length (n ∷ wanted) =
            subst (λ l. length (suites_with l w.db) ≡ length l) (sym same)
              (sym (ap length made.selected) ∙ made.found) in
          absurd (omega (arith, selected_bound n wanted w.db k m))
    ]
