-- ===== src/Scoring/Sort.antt =====
-- sort.Float64s: ascending, NaN in front.
use ctf_koth_evals_template.Prelude.{Bool, not, ◌&&◌, ◌||◌, List, [], ◌∷◌, if◌then◌else◌}
use ctf_koth_evals_template.Go.Float.{Float, is_nan, float_lt}

-- sort.Float64Slice.Less
unfoldable pub float_less : Float → Float → Bool
unfolding float_lt is_nan
float_less a b = float_lt a b || (is_nan a && not (is_nan b))

unfoldable pub insert_float : Float → List Float → List Float
unfolding float_less
insert_float x [] = x ∷ []
insert_float x (y ∷ ys) = if float_less y x then y ∷ insert_float x ys else x ∷ y ∷ ys

unfoldable pub sort_floats : List Float → List Float
unfolding insert_float
sort_floats [] = []
sort_floats (x ∷ xs) = insert_float x (sort_floats xs)
