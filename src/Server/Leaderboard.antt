-- ===== src/Server/Leaderboard.antt =====
-- getLeaderboard, pairedPValue, sortLeaderboard and less of internal/server/public_api.go.
pub mod Order
pub mod Totals
use mathlib.Core.List.{reverse}
use ctf_koth_evals_template.Prelude.{
  ℕ, String, Bool, true, false, not, ◌&&◌, Option, none, some, List, [], ◌∷◌, ◌++◌, map, str_eq,
  ltb, leb, ◌==◌, if◌then◌else◌, length, select, find_first,
}
use ctf_koth_evals_template.Go.Float.{Float, Arith, float_lt, float_eq, is_nan, nan, zero_float}
use ctf_koth_evals_template.Go.Int.{equals}
use ctf_koth_evals_template.Ent.Status.{Status, succeeded}
use ctf_koth_evals_template.Ent.Schema.{Suite, Submission, Run, Db}
use ctf_koth_evals_template.Ent.Store.{ok, only}
use ctf_koth_evals_template.Wireapi.{RunCounts, LeaderboardEntry, Metrics}
use ctf_koth_evals_template.Scoring
use ctf_koth_evals_template.Scoring.{Visit, aggregate}
use ctf_koth_evals_template.Server.Response.{
  Response, Body, http_not_found, internal_error, missing_or, write_json,
}
use ctf_koth_evals_template.Server.Action.{Action, ◌>>=◌, pure, query}
use ctf_koth_evals_template.Server.Request.{path_id}
use ctf_koth_evals_template.Server.Counts.{no_counts, add_count}

pub record Bucket : Type 0 where
  pub submission_id : ℕ
  pub name : String
  pub submitter : String
  pub submitted_at : ℕ
  pub scores : List Float
  pub scores_by_seed : List (String × Float)
  pub counts : RunCounts

-- m[seed] = score
unfoldable pub put_score : String → Float → List (String × Float) → List (String × Float)
put_score seed score [] = (seed, score) ∷ []
put_score seed score ((k, v) ∷ rest) =
    if str_eq k seed then (k, score) ∷ rest else (k, v) ∷ put_score seed score rest

unfoldable pub score_of : String → List (String × Float) → Option Float
score_of seed [] = none
score_of seed ((k, v) ∷ rest) = if str_eq k seed then some v else score_of seed rest

abbrev pub new_bucket : Submission → Bucket
new_bucket s = record {
  submission_id = s.id;
  name = s.name;
  submitter = s.submitter;
  submitted_at = s.created_at;
  scores = [];
  scores_by_seed = [];
  counts = no_counts;
}

-- Only a succeeded run adds its score, and only if it has one.
abbrev pub add_score : Status → Option Float → String → Bucket → Bucket
add_score succeeded (some score) seed b = record b {
  scores = b.scores ++ score ∷ [];
  scores_by_seed = put_score seed score b.scores_by_seed;
}
add_score _ _ seed b = b

unfoldable pub add_run : Run → Bucket → Bucket
unfolding add_count put_score
add_run r b =
    add_score r.status r.score r.seed (record b { counts = add_count r.status 1 b.counts })

-- buckets[sid], made on first use.
unfoldable pub add_to_bucket : Submission → Run → List Bucket → List Bucket
unfolding add_run
add_to_bucket s r [] = add_run r (new_bucket s) ∷ []
add_to_bucket s r (b ∷ bs) =
    if b.submission_id == s.id then add_run r b ∷ bs else b ∷ add_to_bucket s r bs

abbrev pub add_loaded : Option Submission → Run → List Bucket → List Bucket
add_loaded none r bs = bs
add_loaded (some s) r bs = add_to_bucket s r bs

abbrev pub submission_of : Db → Run → Option Submission
submission_of db r = find_first (λ (s : Submission). s.id == r.submission) db.submissions

unfoldable pub bucket_runs : Db → List Run → List Bucket → List Bucket
unfolding add_to_bucket
bucket_runs db [] bs = bs
bucket_runs db (r ∷ rs) bs = bucket_runs db rs (add_loaded (submission_of db r) r bs)

-- a.SubmittedAt.Before(b.SubmittedAt) is the tie-break.
abbrev pub less_metrics : Option Metrics → Option Metrics → Bool → Bool
less_metrics none none earlier = earlier
less_metrics none (some n) earlier = false
less_metrics (some m) none earlier = true
less_metrics (some m) (some n) earlier =
    if float_eq m.mean n.mean then earlier else float_lt n.mean m.mean

unfoldable pub less : LeaderboardEntry → LeaderboardEntry → Bool
unfolding float_eq float_lt
less a b = less_metrics a.metrics b.metrics (ltb a.submitted_at b.submitted_at)

-- The inner loop: `e` moves down past every entry that it is less than. The prefix is kept in
-- reverse, its last entry first.
unfoldable pub sink : LeaderboardEntry → List LeaderboardEntry → List LeaderboardEntry
unfolding less
sink e [] = e ∷ []
sink e (p ∷ ps) = if less e p then p ∷ sink e ps else e ∷ p ∷ ps

unfoldable pub sink_all : List LeaderboardEntry → List LeaderboardEntry → List LeaderboardEntry
unfolding sink
sink_all prefix [] = prefix
sink_all prefix (e ∷ es) = sink_all (sink e prefix) es

unfoldable pub sort_leaderboard : List LeaderboardEntry → List LeaderboardEntry
unfolding sink_all
sort_leaderboard es = reverse (sink_all [] es)

-- 1.96, 1.0 and math.Sqrt2
abbrev pub z_95 : Float
z_95 = record { bits = 0x3fff5c28f5c28f5c }

abbrev pub one : Float
one = record { bits = 0x3ff0000000000000 }

abbrev pub sqrt_2 : Float
sqrt_2 = record { bits = 0x3ff6a09e667f3bcd }

module _ (ar : Arith) where
  open ar use {add, sub, mul, div, of_int, sqrt, abs, erfc}

  -- The differences on the seeds that both have, in the order of a's entries.
  unfoldable pub differences : List (String × Float) → List (String × Float) → List Float
  unfolding score_of
  differences [] b = []
  differences ((seed, sa) ∷ rest) b = elim (score_of seed b) [
    | none ↦ differences rest b
    | some sb ↦ sub sa sb ∷ differences rest b
  ]

  unfoldable pub p_value_of : List Float → Float
  p_value_of diffs =
      if ltb (length diffs) 2
      then nan
      else let mean = Scoring.mean_of ar diffs in
        let sd = Scoring.stddev_of ar diffs in
        if float_eq sd zero_float
        then (if float_eq mean zero_float then one else zero_float)
        else erfc (div (abs (div mean (div sd (sqrt (of_int (length diffs)))))) sqrt_2)

  unfoldable pub paired_p_value : List (String × Float) → List (String × Float) → Float
  unfolding differences p_value_of
  paired_p_value a b = p_value_of (differences a b)

  abbrev pub metrics_of : Visit → List Float → Metrics
  metrics_of visit scores = record {
    mean = aggregate ar visit scores Scoring.mean;
    median = aggregate ar visit scores Scoring.median;
    mode = aggregate ar visit scores Scoring.mode;
    max = aggregate ar visit scores Scoring.max;
    min = aggregate ar visit scores Scoring.min;
    stddev = aggregate ar visit scores Scoring.stddev;
  }

  -- 1.96 * sd / math.Sqrt(n)
  abbrev pub half_width : Float → ℕ → Float
  half_width sd n =
      if leb 2 n && not (is_nan sd) then div (mul z_95 sd) (sqrt (of_int n)) else zero_float

  unfoldable pub entry_of : Visit → Bucket → LeaderboardEntry
  unfolding aggregate
  entry_of visit b = record {
    submission_id = b.submission_id;
    name = b.name;
    submitter = b.submitter;
    metrics = if ltb 0 (length b.scores) then some (metrics_of visit b.scores) else none;
    ci95_half_width =
        if ltb 0 (length b.scores)
        then half_width (aggregate ar visit b.scores Scoring.stddev) (length b.scores)
        else zero_float;
    p_value_vs_leader = none;
    runs = b.counts;
    submitted_at = b.submitted_at;
  }

  -- buckets[id].scoresBySeed
  unfoldable pub seeds_of : ℕ → List Bucket → List (String × Float)
  seeds_of id [] = []
  seeds_of id (b ∷ bs) = if b.submission_id == id then b.scores_by_seed else seeds_of id bs

  abbrev pub unless_nan : Float → Option Float
  unless_nan p = if is_nan p then none else some p

  abbrev pub with_p_value :
      List Bucket → List (String × Float) → LeaderboardEntry → LeaderboardEntry
  with_p_value buckets leader e = elim e.metrics [
    | none ↦ e
    | some m ↦ record e {
      p_value_vs_leader = unless_nan (paired_p_value leader (seeds_of e.submission_id buckets));
    }
  ]

  -- Every entry behind the first one that has metrics is compared with that one.
  unfoldable pub compare_with_leader : List Bucket → List LeaderboardEntry → List LeaderboardEntry
  unfolding seeds_of paired_p_value
  compare_with_leader buckets [] = []
  compare_with_leader buckets (e ∷ es) =
      let later = compare_with_leader buckets es in
      elim e.metrics [
        | none ↦ e ∷ later
        | some m ↦ e ∷ map (with_p_value buckets (seeds_of e.submission_id buckets)) es
      ]

  -- `arrange` and `visit` are the orders in which the maps are ranged over.
  unfoldable pub get_leaderboard : (List Bucket → List Bucket) → Visit → String → Action Response
  get_leaderboard arrange visit param = do
    id ← path_id param
    suite ←
        query (missing_or http_not_found "load suite: %v")
          (λ db. only (λ (s : Suite). equals id s.id) db.suites)
    buckets ←
        query (internal_error "load runs: %v")
          (λ db. ok (bucket_runs db (select (λ (r : Run). equals id r.suite) db.runs) []))
    pure (
        write_json 200 (
          Body.leaderboard (
            compare_with_leader buckets
              (sort_leaderboard (map (entry_of visit) (arrange buckets))))))
