-- ===== src/Tests/Totals.antt =====
-- The buckets of the sample database.
use ctf_koth_evals_template.Prelude.{◌+◌, ◌≡◌, [], All, tally}
use ctf_koth_evals_template.Server.Counts.{IsBalanced}
use ctf_koth_evals_template.Server.Leaderboard.{Bucket, bucket_runs}
use ctf_koth_evals_template.Server.Leaderboard.Totals.{total_of, is_attributed, bucket_runs_totals}
use ctf_koth_evals_template.Tests.Fixtures.{db}

bucket_runs_totals_example :
    All (λ (b : Bucket). IsBalanced b.counts) (bucket_runs db db.runs [])
    × (total_of (bucket_runs db db.runs []) ≡ 0 + tally (is_attributed db) db.runs)
bucket_runs_totals_example = bucket_runs_totals db db.runs [] tt
