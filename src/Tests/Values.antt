-- ===== src/Tests/Values.antt =====
-- Credentials, ids, scores and entries.
use mathlib.Core.List.Permᴰ.{Permᴰ}
use ctf_koth_evals_template.Prelude.{
  ℕ, ◌≡◌, ◌≢◌, ◌↔◌, refl, false, Option, none, some, List, [], ◌∷◌, ◌++◌, All, In,
}
use ctf_koth_evals_template.Go.Float.{Float, Arith, float_lt, is_nan, IsNumber, zero_float}
use ctf_koth_evals_template.Go.Text.{codes}
use ctf_koth_evals_template.Wireapi.{LeaderboardEntry, Metrics}
use ctf_koth_evals_template.Scoring
use ctf_koth_evals_template.Scoring.{Visit, aggregate}
use mathlib.Core.List.{reverse}
use ctf_koth_evals_template.Prelude.{◌<◌, ◌≤◌, ◌⊎◌, inl, inr}
use ctf_koth_evals_template.Go.Float.{order_key}
use ctf_koth_evals_template.Scoring.{count_all}
use ctf_koth_evals_template.Scoring.Counting.{frequency}
use ctf_koth_evals_template.Scoring.Mode.{RangesOver, aggregate_mode}
use ctf_koth_evals_template.Scoring.Extrema.{aggregate_extrema}
use ctf_koth_evals_template.Server.Auth.{bearer_prefix, bearer_auth}
use ctf_koth_evals_template.Server.Auth.Access.{bearer_auth-accepts}
use ctf_koth_evals_template.Server.Counts.{no_counts}
use ctf_koth_evals_template.Server.Leaderboard.{sort_leaderboard}
use ctf_koth_evals_template.Server.Leaderboard.Order.{
  IsRanked, IsRanking, sort_leaderboard-IsRanking,
}
use ctf_koth_evals_template.Server.SuiteIds.{ids, parse_suite_ids}

abbrev token : List ℕ
token = codes "secret"

bearer_auth-accepts_example :
    (bearer_auth token (codes "Bearer secret") ≡ none)
    ↔ ((token ≢ []) × (codes "Bearer secret" ≡ bearer_prefix ++ token))
bearer_auth-accepts_example = bearer_auth-accepts token (codes "Bearer secret")

abbrev no_decoder : List ℕ → Option (List ℕ)
no_decoder raw = some raw

abbrev fields : List (List ℕ)
fields = codes "1, 2" ∷ codes "2,3" ∷ []

parsed_fields : parse_suite_ids fields ≡ ids (1 ∷ 2 ∷ 3 ∷ [])
unfolding parse_suite_ids
parsed_fields = refl

-- No rounding operation is called where only comparisons are.
abbrev pub flat : Arith
flat = record {
  add = λ a b. a;
  sub = λ a b. a;
  mul = λ a b. a;
  div = λ a b. a;
  of_int = λ n. zero_float;
  sqrt = λ a. a;
  abs = λ a. a;
  erfc = λ a. a;
}

abbrev pub in_order : Visit
in_order counts = counts

-- 1.0 and 2.0
abbrev pub low : Float
low = record { bits = 0x3ff0000000000000 }

abbrev high : Float
high = record { bits = 0x4000000000000000 }

numbers : All IsNumber (low ∷ high ∷ [])
unfolding is_nan
numbers = (refl, (refl, tt))

aggregate_extrema_example :
    In (aggregate flat in_order (low ∷ high ∷ []) Scoring.max) (low ∷ high ∷ [])
    × In (aggregate flat in_order (low ∷ high ∷ []) Scoring.min) (low ∷ high ∷ [])
    × ((v : Float)
        → In v (low ∷ high ∷ [])
        → (float_lt (aggregate flat in_order (low ∷ high ∷ []) Scoring.max) v ≡ false)
          × (float_lt v (aggregate flat in_order (low ∷ high ∷ []) Scoring.min) ≡ false))
aggregate_extrema_example = aggregate_extrema flat in_order low (high ∷ []) numbers

abbrev entry : ℕ → Option Metrics → LeaderboardEntry
entry id metrics = record {
  submission_id = id;
  name = "p";
  submitter = "eve";
  metrics = metrics;
  ci95_half_width = zero_float;
  p_value_vs_leader = none;
  runs = no_counts;
  submitted_at = id;
}

abbrev scored : Float → Option Metrics
scored mean = some (record {
  mean = mean;
  median = mean;
  mode = mean;
  max = mean;
  min = mean;
  stddev = zero_float;
})

abbrev entries : List LeaderboardEntry
entries = entry 1 none ∷ entry 2 (scored low) ∷ entry 3 (scored high) ∷ []

ranked : All IsRanked entries
unfolding is_nan
ranked = (tt, (refl, (refl, tt)))

sort_leaderboard-IsRanking_example :
    Permᴰ (sort_leaderboard entries) entries × IsRanking (sort_leaderboard entries)
sort_leaderboard-IsRanking_example = sort_leaderboard-IsRanking entries ranked

-- The entries of a map, the last one first.
abbrev backwards : Visit
backwards counts = reverse counts

abbrev three : List Float
three = low ∷ high ∷ high ∷ []

three_numbers : All IsNumber three
unfolding is_nan
three_numbers = (refl, (refl, (refl, tt)))

backwards-RangesOver : RangesOver (count_all three []) (backwards (count_all three []))
unfolding count_all
backwards-RangesOver e = (λ m. swapped m, λ m. turned m)
  where
    swapped : In e ((high, 2) ∷ (low, 1) ∷ []) → In e ((low, 1) ∷ (high, 2) ∷ [])
    swapped (inl h) = inr (inl h)
    swapped (inr (inl h)) = inl h
    swapped (inr (inr h)) = elim h [ ]

    turned : In e ((low, 1) ∷ (high, 2) ∷ []) → In e ((high, 2) ∷ (low, 1) ∷ [])
    turned (inl h) = inr (inl h)
    turned (inr (inl h)) = inl h
    turned (inr (inr h)) = elim h [ ]

aggregate_mode_example :
    In (aggregate flat backwards three Scoring.mode) three
    × ((v : Float)
        → In v three
        → (frequency v three < frequency (aggregate flat backwards three Scoring.mode) three)
          ⊎ ((frequency v three ≡ frequency (aggregate flat backwards three Scoring.mode) three)
              × (order_key (aggregate flat backwards three Scoring.mode) ≤ order_key v)))
aggregate_mode_example =
    aggregate_mode low (high ∷ high ∷ []) three_numbers backwards backwards-RangesOver flat
