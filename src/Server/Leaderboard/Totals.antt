-- ===== src/Server/Leaderboard/Totals.antt =====
-- No run of a suite is lost between the buckets of its leaderboard, and each is in one class.
use ctf_koth_evals_template.Prelude.{
  ℕ, ◌+◌, String, ◌≡◌, refl, inl, inr, Bool, true, false, Option, none, some, List, [], ◌∷◌, All,
  tally, arith, ◌==◌, Bool-cases, Option-cases,
}
use ctf_koth_evals_template.Go.Float.{Float}
use ctf_koth_evals_template.Ent.Status.{
  Status, pending, claimed, running, succeeded, failed, timed_out, cancelled,
}
use ctf_koth_evals_template.Ent.Schema.{Submission, Run, Db}
use ctf_koth_evals_template.Wireapi.{RunCounts}
use ctf_koth_evals_template.Server.Counts.{add_count, IsBalanced}
use ctf_koth_evals_template.Server.Leaderboard.{
  Bucket, add_score, add_run, add_to_bucket, submission_of, bucket_runs, new_bucket,
}

-- The runs in all buckets.
abbrev pub total_of : List Bucket → ℕ
total_of [] = 0
total_of (b ∷ bs) = b.counts.total + total_of bs

abbrev is_there : Option Submission → Bool
is_there none = false
is_there (some s) = true

-- The submission of the run is there.
abbrev pub is_attributed : Db → Run → Bool
is_attributed db r = is_there (submission_of db r)

add_count_lem :
    (s : Status) (c : RunCounts)
    → IsBalanced c
    → IsBalanced (add_count s 1 c) × ((add_count s 1 c).total ≡ c.total + 1)
unfolding add_count
add_count_lem pending c b = (record { classes = omega (arith, b.classes) }, refl)
add_count_lem claimed c b = (record { classes = omega (arith, b.classes) }, refl)
add_count_lem running c b = (record { classes = omega (arith, b.classes) }, refl)
add_count_lem succeeded c b = (record { classes = omega (arith, b.classes) }, refl)
add_count_lem failed c b = (record { classes = omega (arith, b.classes) }, refl)
add_count_lem timed_out c b = (record { classes = omega (arith, b.classes) }, refl)
add_count_lem cancelled c b = (record { classes = omega (arith, b.classes) }, refl)

add_score-counts :
    (s : Status) (score : Option Float) (seed : String) (b : Bucket)
    → (add_score s score seed b).counts ≡ b.counts
add_score-counts succeeded (some x) seed b = refl
add_score-counts succeeded none seed b = refl
add_score-counts pending score seed b = refl
add_score-counts claimed score seed b = refl
add_score-counts running score seed b = refl
add_score-counts failed score seed b = refl
add_score-counts timed_out score seed b = refl
add_score-counts cancelled score seed b = refl

add_run_lem :
    (r : Run) (b : Bucket)
    → IsBalanced b.counts
    → IsBalanced (add_run r b).counts × ((add_run r b).counts.total ≡ b.counts.total + 1)
unfolding add_run
add_run_lem r b h =
    let counted =
      add_score-counts r.status r.score r.seed
        (record b { counts = add_count r.status 1 b.counts }) in
    rw counted (add_count_lem r.status b.counts h)

abbrev AreBalanced : List Bucket → Type 0
AreBalanced bs = All (λ (b : Bucket). IsBalanced b.counts) bs

add_to_bucket_lem :
    (s : Submission) (r : Run) (bs : List Bucket)
    → AreBalanced bs
    → AreBalanced (add_to_bucket s r bs) × (total_of (add_to_bucket s r bs) ≡ total_of bs + 1)
unfolding add_to_bucket
add_to_bucket_lem s r [] h =
    let (balanced, more) = add_run_lem r (new_bucket s) (record { classes = refl }) in
    ((balanced, tt), omega (arith, more))
add_to_bucket_lem s r (b ∷ bs) h = elim (Bool-cases (b.submission_id == s.id)) [
  | inl e ↦
      let (balanced, more) = add_run_lem r b h.0 in rw e ((balanced, h.1), omega (arith, more))
  | inr e ↦
      let (balanced, more) = add_to_bucket_lem s r bs h.1 in
      rw e ((h.0, balanced), omega (arith, more))
]

-- Counting runs into balanced buckets keeps every bucket balanced, its five classes make its
-- total, and adds to the totals together one for each run whose submission is there.
pub bucket_runs_totals :
    (db : Db) (rs : List Run) (bs : List Bucket)
    → All (λ (b : Bucket). IsBalanced b.counts) bs
    → All (λ (b : Bucket). IsBalanced b.counts) (bucket_runs db rs bs)
      × (total_of (bucket_runs db rs bs) ≡ total_of bs + tally (is_attributed db) rs)
unfolding bucket_runs
bucket_runs_totals db [] bs h = (h, omega arith)
bucket_runs_totals db (r ∷ rs) bs h = elim (Option-cases (submission_of db r)) [
  | inl e ↦ let (all, total) = bucket_runs_totals db rs bs h in rw e (all, omega (arith, total))
  | inr (s, e) ↦
      let (balanced, more) = add_to_bucket_lem s r bs h in
      let (all, total) = bucket_runs_totals db rs (add_to_bucket s r bs) balanced in
      rw e (all, omega (arith, total, more))
]
