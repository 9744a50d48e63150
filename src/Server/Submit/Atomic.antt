-- ===== src/Server/Submit/Atomic.antt =====
-- A submission is created whole or not at all, whatever the database does.
use ctf_koth_evals_template.Prelude.{
  ℕ, String, ◌≡◌, refl, sym, ◌∙◌, subst, ◌⊎◌, Option, none, some, List, [], ◌∷◌, ◌++◌, ◌==◌, arith,
  length, ◌*◌, ◌≤◌,
}
use ctf_koth_evals_template.Ent.Schema.{Suite, Submission, Run, Db}
use ctf_koth_evals_template.Ent.Store.{ok, create_submission as insert_submission}
use ctf_koth_evals_template.Server.Response.{Response, Body, write_json}
use ctf_koth_evals_template.Server.Action.{World, serve}
use ctf_koth_evals_template.Server.Request.{Decoded, decoded, malformed}
use ctf_koth_evals_template.Server.SuiteIds.{
  Parsed, ids, no_field, no_id, bad_part, parse_suite_ids,
}
use ctf_koth_evals_template.Server.Outcomes.{
  Ends, FailsOn, bind-Ends, pure-Ends, stop-Ends, update-Ends, transaction-Ends, notify-Ends,
  serve-Ends,
}
use ctf_koth_evals_template.Server.Outcomes.Requests.{require-Ends, lookup-Ends}
use ctf_koth_evals_template.Server.Submit.{
  Form, Artifact, or_default, submission_detail, form_or_reply, ids_or_reply, artifact_or_reply,
  content_or_reply, new_submission, persist_submission, persist_error, create_submission, suites_in,
}
use ctf_koth_evals_template.Server.Submit.Plan.{planned, Fanned, fan_out-Ends}

-- One more submission, under a fresh key.
pub record Inserted (build : ℕ → Submission) (before : Db) (s : Submission) (after : Db)
    : Type 0 where
  pub inserted : after.submissions ≡ before.submissions ++ s ∷ []
  pub runs_kept : after.runs ≡ before.runs
  pub suites_kept : after.suites ≡ before.suites
  pub row : s ≡ build before.next_submission

-- One more submission, with the planned runs.
pub record Persisted (suites : List Suite) (build : ℕ → Submission) (before : Db) (s : Submission)
    (runs : List Run) (after : Db) : Type 0 where
  pub stored : Db
  pub inserted : Inserted build before s stored
  pub fanned : Fanned s.id suites (planned suites) stored runs after

insert_lem :
    (build : ℕ → Submission) (db db' : Db) (s : Submission)
    → insert_submission build db ≡ ok (db', s)
    → Inserted build db s db'
unfolding insert_submission
insert_lem build db db' s e = record {
  inserted = ground arith;
  runs_kept = ground arith;
  suites_kept = ground arith;
  row = ground arith;
}

-- A submission that is answered with 201: the form named suites that are there and held a file, the
-- row is stored, and every seed of every suite has a run.
pub record Created (digest : List ℕ → String) (max_upload_mb : ℕ) (request : Decoded Form) (now : ℕ)
    (before : Db) (answer : Response) (after : Db) : Type 0 where
  pub form : Form
  pub is_form : request ≡ decoded form
  pub wanted : List ℕ
  pub parsed : parse_suite_ids form.suite_ids ≡ ids wanted
  pub suites : List Suite
  pub selected : suites ≡ suites_in wanted before
  pub found : length suites ≡ length wanted
  pub artifact : Artifact
  pub uploaded : form.artifact ≡ some artifact
  pub within : artifact.size ≤ max_upload_mb * 1_048_576
  pub bytes : List ℕ
  pub read : artifact.content ≡ decoded bytes
  pub submission : Submission
  pub runs : List Run
  pub persisted :
      Persisted suites
        (new_submission
          (or_default form.name artifact.filename)
          form.submitter
          artifact.filename
          bytes
          (digest bytes)
          now)
        before
        submission
        runs
        after
  pub answered : answer ≡ write_json 201 (Body.submission (submission_detail submission runs))

module _ (before : Db) (v : World) (same : v.db ≡ before) where
  form-Ends :
      (d : Decoded Form)
      → Ends (form_or_reply d) v (λ f db. (d ≡ decoded f) × (db ≡ before)) (FailsOn before)
  form-Ends (decoded f) = pure-Ends v _ _ f (refl, same)
  form-Ends (malformed e) = stop-Ends v _ _ _ (omega arith, same)

  ids-Ends :
      (p : Parsed)
      → Ends (ids_or_reply p) v (λ ns db. (p ≡ ids ns) × (db ≡ before)) (FailsOn before)
  ids-Ends (ids ns) = pure-Ends v _ _ ns (refl, same)
  ids-Ends no_field = stop-Ends v _ _ _ (omega arith, same)
  ids-Ends no_id = stop-Ends v _ _ _ (omega arith, same)
  ids-Ends (bad_part part) = stop-Ends v _ _ _ (omega arith, same)

  artifact-Ends :
      (a : Option Artifact)
      → Ends (artifact_or_reply a) v (λ x db. (a ≡ some x) × (db ≡ before)) (FailsOn before)
  artifact-Ends (some x) = pure-Ends v _ _ x (refl, same)
  artifact-Ends none = stop-Ends v _ _ _ (omega arith, same)

  content-Ends :
      (d : Decoded (List ℕ))
      → Ends (content_or_reply d) v (λ x db. (d ≡ decoded x) × (db ≡ before)) (FailsOn before)
  content-Ends (decoded x) = pure-Ends v _ _ x (refl, same)
  content-Ends (malformed e) = stop-Ends v _ _ _ (omega arith, same)

  pub persist_submission-Ends :
      (suites : List Suite) (build : ℕ → Submission) (now : ℕ)
      → Ends
          (persist_submission suites build now)
          v
          (λ p db. Persisted suites build before p.0 p.1 db)
          (FailsOn before)
  unfolding persist_submission
  persist_submission-Ends suites build now =
      transaction-Ends v _ _ _ _ _ (λ r bad. (bad, same))
        λ u e'.
          let e = e' ∙ same in
          bind-Ends _ (λ s db. Inserted build u.db s db) _ _ _ u
            (update-Ends u _ _ _ _ (λ x. omega arith) λ s db h. insert_lem build u.db db s h)
            λ s x h.
              bind-Ends _ (λ rs db. Fanned s.id suites (planned suites) x.db rs db) _ _ _ x
                (fan_out-Ends persist_error (λ step x. omega arith) now s.id suites x)
                λ rs y f.
                  pure-Ends y _ _ (s, rs)
                    (record {
                      stored = x.db;
                      inserted = subst (λ d. Inserted build d s x.db) e h;
                      fanned = f;
                    })

pub create_submission-Ends :
    (digest : List ℕ → String) (max_upload_mb : ℕ) (request : Decoded Form) (now : ℕ) (w : World)
    → Ends
        (create_submission digest max_upload_mb request now)
        w
        (λ r db. Created digest max_upload_mb request now w.db r db)
        (FailsOn w.db)
unfolding create_submission
create_submission-Ends digest max_upload_mb request now w =
    bind-Ends _ _ _ _ _ w (form-Ends w.db w refl request) λ form v1 h1.
      bind-Ends _ _ _ _ _ v1 (ids-Ends w.db v1 h1.1 (parse_suite_ids form.suite_ids))
        λ wanted v2 h2.
          bind-Ends _ _ _ _ _ v2 (artifact-Ends w.db v2 h2.1 form.artifact) λ artifact v3 h3.
            bind-Ends _ _ _ _ _ v3 (require-Ends w.db v3 h3.1 _ _ (omega arith)) λ u v4 h4.
              bind-Ends _ _ _ _ _ v4 (content-Ends w.db v4 h4.1 artifact.content) λ bytes v5 h5.
                bind-Ends _ _ _ _ _ v5
                  (lookup-Ends w.db v5 h5.1 _ (suites_in wanted) (λ x. omega arith))
                  λ suites v6 h6.
                    bind-Ends _ _ _ _ _ v6
                      (require-Ends w.db v6 h6.1 (length suites == length wanted) _ (omega arith))
                      λ u7 v7 h7.
                        let build : ℕ → Submission =
                          new_submission (or_default form.name artifact.filename) form.submitter
                            artifact.filename bytes (digest bytes) now in
                        bind-Ends _ _ _ _ _ v7
                          (persist_submission-Ends w.db v7 h7.1 suites build now)
                          λ made v8 p.
                            bind-Ends _ _ _ _ _ v8 (notify-Ends "runs" v8 (FailsOn w.db))
                              λ u9 v9 e9. pure-Ends v9 _ _ _ (record {
                                form = form;
                                is_form = h1.0;
                                wanted = wanted;
                                parsed = h2.0;
                                suites = suites;
                                selected = h6.0;
                                found = ground (arith, h7.0);
                                artifact = artifact;
                                uploaded = h3.0;
                                within = ground (arith, h4.0);
                                bytes = bytes;
                                read = h5.0;
                                submission = made.0;
                                runs = made.1;
                                persisted =
                                    subst (λ d. Persisted suites build w.db made.0 made.1 d)
                                      (sym e9) p;
                                answered = refl;
                              })

-- A submission, whichever call of the database fails, either is answered with an error and leaves
-- the tables as they were, or is answered with 201: its form named suites that are all there and
-- held a file within the size limit, one row for it is stored, every seed of every suite has one
-- new pending run, and these suites are sealed.
pub submission_is_atomic :
    (digest : List ℕ → String) (max_upload_mb : ℕ) (request : Decoded Form) (now : ℕ) (w : World)
    → ((400 ≤ (serve (create_submission digest max_upload_mb request now) w).0.code)
        × ((serve (create_submission digest max_upload_mb request now) w).1.db ≡ w.db))
      ⊎ Created digest max_upload_mb request now w.db
          (serve (create_submission digest max_upload_mb request now) w).0
          (serve (create_submission digest max_upload_mb request now) w).1.db
submission_is_atomic digest max_upload_mb request now w =
    serve-Ends (create_submission digest max_upload_mb request now) w
      (λ r db. Created digest max_upload_mb request now w.db r db)
      (create_submission-Ends digest max_upload_mb request now w)
