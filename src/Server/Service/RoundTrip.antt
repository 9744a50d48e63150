-- ===== src/Server/Service/RoundTrip.antt =====
-- What a submitter uploads is what the workers download, whatever happens in between.
use ctf_koth_evals_template.Prelude.{
  ℕ, ◌<◌, String, ◌≡◌, refl, sym, ap, subst, ◌∙◌, some, List, [], ◌∷◌, ◌++◌, All, arith, inl, inr,
  length,
}
use ctf_koth_evals_template.Go.Int.{pos, equals}
use ctf_koth_evals_template.Go.Text.{codes, atoi}
use ctf_koth_evals_template.Ent.Schema.{Submission, Db}
use ctf_koth_evals_template.Ent.Store.{ok, only}
use ctf_koth_evals_template.Wireapi.{SubmissionDetail}
use ctf_koth_evals_template.Server.Response.{Response, Body, download, write_json}
use ctf_koth_evals_template.Server.Action.{World, reliable, serve, ◌>>=◌, query}
use ctf_koth_evals_template.Server.Request.{Decoded, decoded, path_id}
use ctf_koth_evals_template.Server.Claim.{IsFirst}
use ctf_koth_evals_template.Server.Downloads.{handle_artifact, artifact_response}
use ctf_koth_evals_template.Server.Lifecycle.{Inv, HasKeys}
use ctf_koth_evals_template.Server.Lifecycle.Rules.{serve-Inv}
use ctf_koth_evals_template.Server.Lifecycle.Submissions.{create_submission-Refines}
use ctf_koth_evals_template.Server.Submit.{
  Form, Artifact, create_submission, submission_detail, submission_summary,
}
use ctf_koth_evals_template.Server.Submit.Atomic.{Created, submission_is_atomic}
use ctf_koth_evals_template.Server.Service.{Request, Env, run_all}
use ctf_koth_evals_template.Server.Service.Refinement.{run_all-Reach}
use ctf_koth_evals_template.Server.Service.Catalogue.{reached_submission}

-- The row behind others with smaller keys is found by its key.
only_last :
    (n : ℕ) (ss : List Submission) (q : Submission)
    → q.id ≡ n
    → All (λ (s : Submission). s.id < n) ss
    → only (λ (s : Submission). equals (pos n) s.id) (ss ++ q ∷ []) ≡ ok q
unfolding only equals
only_last n [] q e h = ground (arith, e)
only_last n (s ∷ ss) q e h = ground (arith, h.0, only_last n ss q e h.1)

handle_artifact-found :
    (param : String) (n : ℕ) (w : World) (s : Submission)
    → atoi (codes param) ≡ some (pos n)
    → only (λ (x : Submission). equals (pos n) x.id) w.db.submissions ≡ ok s
    → (serve (handle_artifact param) (reliable w)).0 ≡ artifact_response s
unfolding handle_artifact serve ◌>>=◌ query path_id
handle_artifact-found param n w s e f = rw (e, f) refl

-- The created row, at its key.
stored_row :
    {digest : List ℕ → String} {mb : ℕ} {request : Decoded Form} {now : ℕ} {before : Db}
    {answer : Response} {after : Db} (c : Created digest mb request now before answer after)
    → HasKeys before
    → only (λ (x : Submission). equals (pos c.submission.id) x.id) after.submissions
      ≡ ok c.submission
stored_row {before = before} c keys =
    subst (λ l. only (λ (x : Submission). equals (pos c.submission.id) x.id) l ≡ ok c.submission)
      (sym (c.persisted.fanned.submissions ∙ c.persisted.inserted.inserted))
      (only_last c.submission.id before.submissions c.submission refl (
        subst (λ n. All (λ (s : Submission). s.id < n) before.submissions)
          (sym (ap (λ (s : Submission). s.id) c.persisted.inserted.row)) keys))

abbrev uploaded_file : Artifact → List ℕ → Response
uploaded_file artifact bytes = record {
  code = 200;
  body = download (length bytes) (some artifact.filename) bytes;
}

Created-file :
    {digest : List ℕ → String} {mb : ℕ} {form : Form} {now : ℕ} {before : Db} {answer : Response}
    {after : Db} (c : Created digest mb (decoded form) now before answer after)
    (artifact : Artifact) (bytes : List ℕ)
    → form.artifact ≡ some artifact
    → artifact.content ≡ decoded bytes
    → artifact_response c.submission ≡ uploaded_file artifact bytes
Created-file {form = form} c artifact bytes up read =
    let same_form : form ≡ c.form = (let e = c.is_form in cc) in
    let same_file : c.artifact ≡ artifact =
      (let e = sym c.uploaded ∙ sym (ap (λ (f : Form). f.artifact) same_form) ∙ up in cc) in
    let same_bytes : c.bytes ≡ bytes =
      (let e = sym c.read ∙ ap (λ (a : Artifact). a.content) same_file ∙ read in cc) in
    ap artifact_response c.persisted.inserted.row
    ∙ ap (λ (a : Artifact). uploaded_file a c.bytes) same_file
    ∙ ap (uploaded_file artifact) same_bytes

module _ (env : Env) (law : IsFirst env.first) (history : List (ℕ × Request)) (w : World)
    (i : Inv w.db) (form : Form) (artifact : Artifact) (bytes : List ℕ) (now : ℕ)
    (detail : SubmissionDetail) (param : String) where
  abbrev creation : Response × World
  creation = serve (create_submission env.digest env.max_upload_mb (decoded form) now) w

  -- Where, on a database that satisfies the invariant, a form with a file is answered with 201 and
  -- the detail of a submission, then after any history of requests, ticks and failures a download
  -- of the artifact under the id of that detail answers 200 with the bytes of the file, their
  -- number and its name.
  pub handle_artifact-create_submission :
      form.artifact ≡ some artifact
      → artifact.content ≡ decoded bytes
      → (serve (create_submission env.digest env.max_upload_mb (decoded form) now) w).0
        ≡ write_json 201 (Body.submission detail)
      → atoi (codes param) ≡ some (pos detail.summary.id)
      → (serve (handle_artifact param) (
          reliable (
            run_all env history
              (serve (create_submission env.digest env.max_upload_mb (decoded form) now) w).1))).0
        ≡ record { code = 200; body = download (length bytes) (some artifact.filename) bytes }
  handle_artifact-create_submission up read answered id =
      elim (submission_is_atomic env.digest env.max_upload_mb (decoded form) now w) [
        | inl (bad, kept) ↦ absurd (omega (arith, ap (λ (r : Response). r.code) answered))
        | inr c ↦
            let told : submission_detail c.submission c.runs ≡ detail =
              (let e = sym c.answered ∙ answered in cc) in
            let key : c.submission.id ≡ detail.summary.id =
              (unfold submission_summary in ap (λ (d : SubmissionDetail). d.summary.id) told) in
            let kept =
              serve-Inv _ w
                (create_submission-Refines env.digest env.max_upload_mb (decoded form) now w) i in
            handle_artifact-found param c.submission.id (run_all env history creation.1)
              c.submission (id ∙ ap (λ n. some (pos n)) (sym key))
              (reached_submission _ c.submission (run_all-Reach env law history creation.1 kept)
                (stored_row c i.submission_keys))
            ∙ Created-file c artifact bytes up read
      ]
