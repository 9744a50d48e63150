-- ===== src/Ent/Store.antt =====
-- The calls of the generated client, on the tables: a query with `Where` reads the rows that pass,
-- a bulk `Update` rewrites those and counts them, `UpdateOneID` fails on a missing row, and
-- `Create` runs the field validators of ent/schema, then inserts under a fresh key.
use Prim.Native.String.{len}
use ctf_koth_evals_template.Prelude.{
  ℕ, ◌+◌, String, Bool, true, none, List, [], ◌∷◌, ◌++◌, str_eq, ltb, ◌==◌, ◌&&◌, if◌then◌else◌,
  tally, any,
}
use ctf_koth_evals_template.Go.Int.{is_positive}
use ctf_koth_evals_template.Ent.Status.{pending}
use ctf_koth_evals_template.Ent.Schema.{Challenge, Suite, Submission, Run, Db}

-- The error of a call: the row is not there, or a text from a validator or from the database.
pub data Fail : Type 0 where
  not_found : Fail
  failed : String → Fail

pub data Result {ℓ} (A : Type ℓ) : Type ℓ where
  ok : A → Result A
  err : Fail → Result A

-- Query().Where(p).First(ctx), Query().Where(p).Only(ctx) on a unique key, Get(ctx, id).
unfoldable pub only : {A : Type 0} → (A → Bool) → List A → Result A
only p [] = err not_found
only p (x ∷ xs) = if p x then ok x else only p xs

-- The rewriting of one table by a bulk update.
unfoldable pub rewrite : {A : Type 0} → (A → Bool) → (A → A) → List A → List A
rewrite p f [] = []
rewrite p f (x ∷ xs) = (if p x then f x else x) ∷ rewrite p f xs

-- Run.Update().Where(p).Set...().Save(ctx), with the number of rows that it reports.
unfoldable pub update_runs : (Run → Bool) → (Run → Run) → Db → Db × ℕ
unfolding rewrite
update_runs p f db = (record db { runs = rewrite p f db.runs }, tally p db.runs)

-- Run.UpdateOneID(id).Set...().Save(ctx)
abbrev pub updated_with : Result Run → Db → (Run → Run) → Result (Db × Run)
updated_with (ok r) db f = ok (db, f r)
updated_with (err e) db f = err e

unfoldable pub update_run : ℕ → (Run → Run) → Db → Result (Db × Run)
unfolding only rewrite
update_run id f db =
    updated_with (only (λ (r : Run). r.id == id) db.runs)
      (record db { runs = rewrite (λ (r : Run). r.id == id) f db.runs }) f

-- Suite.UpdateOneID(id).SetSealed(true).Save(ctx)
unfoldable pub seal_suite : ℕ → Db → Result Db
unfolding only rewrite
seal_suite id db = elim (only (λ (s : Suite). s.id == id) db.suites) [
  | ok s ↦ ok (record db {
    suites = rewrite (λ (s : Suite). s.id == id) (λ s. record s { sealed = true }) db.suites;
  })
  | err e ↦ err e
]

-- The row that Run.Create() inserts: the fields set by the caller, and the schema's defaults.
abbrev pub new_run : ℕ → String → ℕ → ℕ → ℕ → Run
new_run now seed suite submission id = record {
  id = id;
  seed = seed;
  status = pending;
  priority = 0;
  score = none;
  result = none;
  error = "";
  stdout = "";
  stderr = "";
  worker_id = none;
  claimed_at = none;
  started_at = none;
  finished_at = none;
  created_at = now;
  submission = submission;
  suite = suite;
}

abbrev pub with_run : Run → Db → Db
with_run row db = record db { runs = db.runs ++ row ∷ []; next_run = db.next_run + 1 }

-- Run.Create().SetSeed(seed).SetSuite(su).SetSubmission(sub).Save(ctx), with the validator
-- NotEmpty of the seed.
unfoldable pub create_run : ℕ → String → ℕ → ℕ → Db → Result (Db × Run)
create_run now seed suite submission db =
    let row : Run = new_run now seed suite submission db.next_run in
    if str_eq seed ""
    then err (failed "ent: validator failed for field \"Run.seed\"")
    else ok (with_run row db, row)

-- Submission.Create().Save(ctx), with the validator NotEmpty of the artifact's name and MaxLen(64)
-- of the digest.
unfoldable pub create_submission : (ℕ → Submission) → Db → Result (Db × Submission)
create_submission build db =
    let row : Submission = build db.next_submission in
    if str_eq row.artifact_name ""
    then err (failed "ent: validator failed for field \"Submission.artifact_name\"")
    else if ltb 64 (len row.artifact_sha256)
    then err (failed "ent: validator failed for field \"Submission.artifact_sha256\"")
    else ok (
      record db {
        submissions = db.submissions ++ row ∷ [];
        next_submission = db.next_submission + 1;
      },
      row,
    )

-- Suite.Create().Save(ctx), with the validators NotEmpty of the name and Positive of the timeout.
unfoldable pub create_suite : (ℕ → Suite) → Db → Result (Db × Suite)
create_suite build db =
    let row : Suite = build db.next_suite in
    if str_eq row.name ""
    then err (failed "ent: validator failed for field \"Suite.name\"")
    else if is_positive row.timeout_seconds
    then ok (record db { suites = db.suites ++ row ∷ []; next_suite = db.next_suite + 1 }, row)
    else err (failed "ent: validator failed for field \"Suite.timeout_seconds\"")

-- The unique index of name and version.
abbrev pub same_key : String → String → Challenge → Bool
same_key name version c = str_eq c.name name && str_eq c.version version

-- Challenge.Create().Save(ctx), with the validators NotEmpty of the name and the version.
unfoldable pub create_challenge : (ℕ → Challenge) → Db → Result (Db × Challenge)
create_challenge build db =
    let row : Challenge = build db.next_challenge in
    if str_eq row.name ""
    then err (failed "ent: validator failed for field \"Challenge.name\"")
    else if str_eq row.version ""
    then err (failed "ent: validator failed for field \"Challenge.version\"")
    else if any (same_key row.name row.version) db.challenges
    then err (failed "ent: constraint failed: (name, version)")
    else ok (
      record db { challenges = db.challenges ++ row ∷ []; next_challenge = db.next_challenge + 1 },
      row,
    )
