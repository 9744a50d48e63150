-- ===== src/Scoring.antt =====
-- internal/scoring/aggregate.go.
pub mod Sort
pub mod Extrema
pub mod Counting
pub mod Mode
use ctf_koth_evals_template.Prelude.{
  ℕ, zero, suc, ◌+◌, ◌-◌, ◌/◌, ◌%◌, String, Bool, true, false, ◌&&◌, ◌||◌, Option, none, some, List,
  [], ◌∷◌, str_eq, ltb, leb, ◌==◌, if◌then◌else◌, length,
}
use ctf_koth_evals_template.Go.Float.{Float, Arith, float_lt, float_eq, nan, zero_float}
use ctf_koth_evals_template.Go.Any.{Fields, get, as_text}
use Sort.{sort_floats}

pub data Strategy : Type 0 where
  mean median mode max min stddev : Strategy

unfoldable pub strategy_text : Strategy → String
strategy_text mean = "mean"
strategy_text median = "median"
strategy_text mode = "mode"
strategy_text max = "max"
strategy_text min = "min"
strategy_text stddev = "stddev"

abbrev pub strategy_of : Option String → Strategy
strategy_of none = mean
strategy_of (some v) =
    if str_eq v "mean"
    then mean
    else if str_eq v "median"
    then median
    else if str_eq v "mode"
    then mode
    else if str_eq v "max"
    then max
    else if str_eq v "min"
    then min
    else if str_eq v "stddev"
    then stddev
    else mean

-- FromConfig. A nil map has no keys.
unfoldable pub from_config : Fields → Strategy
unfolding get as_text
from_config cfg = strategy_of (as_text (get cfg "aggregate"))

-- m := scores[0]; for _, v := range scores[1:] { if v > m { m = v } }
unfoldable pub max_from : Float → List Float → Float
unfolding float_lt
max_from m [] = m
max_from m (v ∷ vs) = max_from (if float_lt m v then v else m) vs

unfoldable pub min_from : Float → List Float → Float
unfolding float_lt
min_from m [] = m
min_from m (v ∷ vs) = min_from (if float_lt v m then v else m) vs

-- counts[v]++ on a map with float64 keys: NaN is never found again.
unfoldable pub count_one : Float → List (Float × ℕ) → List (Float × ℕ)
unfolding float_eq
count_one v [] = (v, 1) ∷ []
count_one v ((k, n) ∷ rest) = if float_eq k v then (k, n + 1) ∷ rest else (k, n) ∷ count_one v rest

unfoldable pub count_all : List Float → List (Float × ℕ) → List (Float × ℕ)
unfolding count_one
count_all [] counts = counts
count_all (v ∷ vs) counts = count_all vs (count_one v counts)

-- c > bestCount || (c == bestCount && v < best)
abbrev pub improves : Float × ℕ → Float × ℕ → Bool
improves (v, c) (best, best_count) = ltb best_count c || (c == best_count && float_lt v best)

unfoldable pub best_of : Float × ℕ → List (Float × ℕ) → Float × ℕ
unfolding float_lt
best_of best [] = best
best_of best (e ∷ es) = best_of (if improves e best then e else best) es

-- A range over a map visits its entries in an order that the language leaves open.
abbrev pub Visit : Type 0
Visit = List (Float × ℕ) → List (Float × ℕ)

abbrev pub float_at : ℕ → List Float → Float
float_at i [] = zero_float
float_at zero (x ∷ xs) = x
float_at (suc i) (x ∷ xs) = float_at i xs

module _ (ar : Arith) where
  open ar use {add, sub, mul, div, of_int, sqrt}

  unfoldable pub sum_from : Float → List Float → Float
  sum_from t [] = t
  sum_from t (v ∷ vs) = sum_from (add t v) vs

  unfoldable pub squares_from : Float → Float → List Float → Float
  squares_from m sq [] = sq
  squares_from m sq (v ∷ vs) = squares_from m (add sq (mul (sub v m) (sub v m))) vs

  unfoldable pub mean_of : List Float → Float
  unfolding sum_from
  mean_of scores = div (sum_from zero_float scores) (of_int (length scores))

  -- The sample standard deviation, with n - 1.
  unfoldable pub stddev_of : List Float → Float
  unfolding squares_from mean_of
  stddev_of scores =
      sqrt (div (squares_from (mean_of scores) zero_float scores) (of_int (length scores - 1)))

  unfoldable pub median_of : List Float → Float
  unfolding sort_floats
  median_of scores =
      let cp = sort_floats scores in
      let mid = length cp / 2 in
      if length cp % 2 == 1
      then float_at mid cp
      else div (add (float_at (mid - 1) cp) (float_at mid cp)) (of_int 2)

  unfoldable pub aggregate : Visit → List Float → Strategy → Float
  unfolding median_of count_all best_of max_from min_from stddev_of mean_of
  aggregate visit [] s = nan
  aggregate visit (x ∷ xs) median = median_of (x ∷ xs)
  aggregate visit (x ∷ xs) mode = (best_of (x, 0) (visit (count_all (x ∷ xs) []))).0
  aggregate visit (x ∷ xs) max = max_from x xs
  aggregate visit (x ∷ xs) min = min_from x xs
  aggregate visit (x ∷ xs) stddev =
      if ltb (length (x ∷ xs)) 2 then zero_float else stddev_of (x ∷ xs)
  aggregate visit (x ∷ xs) mean = mean_of (x ∷ xs)
