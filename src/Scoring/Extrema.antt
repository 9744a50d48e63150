-- ===== src/Scoring/Extrema.antt =====
-- The largest and the smallest score.
use ctf_koth_evals_template.Prelude.{
  ◌≤◌, ◌≡◌, refl, inl, inr, Bool, true, false, List, [], ◌∷◌, if◌then◌else◌, All, In, All-In, arith,
  Bool-cases,
}
use ctf_koth_evals_template.Go.Float.{
  Float, Arith, float_lt, order_key, IsNumber, float_lt_key, key_le_of_not_lt,
}
use ctf_koth_evals_template.Scoring.{Visit, aggregate, max_from, min_from}
use ctf_koth_evals_template.Scoring

abbrev step : Bool → Float → Float → Float
step b v m = if b then v else m

step-In :
    (b : Bool) (m v : Float) (vs : List Float) (r : Float)
    → In r (step b v m ∷ vs)
    → In r (m ∷ v ∷ vs)
step-In true m v vs r (inl e) = inr (inl e)
step-In true m v vs r (inr h) = inr (inr h)
step-In false m v vs r (inl e) = inl e
step-In false m v vs r (inr h) = inr (inr h)

max_from-In : (m : Float) (vs : List Float) → In (max_from m vs) (m ∷ vs)
unfolding max_from
max_from-In m [] = inl refl
max_from-In m (v ∷ vs) = step-In (float_lt m v) m v vs _ (max_from-In (step (float_lt m v) v m) vs)

min_from-In : (m : Float) (vs : List Float) → In (min_from m vs) (m ∷ vs)
unfolding min_from
min_from-In m [] = inl refl
min_from-In m (v ∷ vs) = step-In (float_lt v m) m v vs _ (min_from-In (step (float_lt v m) v m) vs)

-- The greater of two numbers is a number above both.
max_step :
    (m v : Float)
    → IsNumber m
    → IsNumber v
    → IsNumber (step (float_lt m v) v m)
      × (order_key m ≤ order_key (step (float_lt m v) v m))
      × (order_key v ≤ order_key (step (float_lt m v) v m))
max_step m v h k = elim (Bool-cases (float_lt m v)) [
  | inl e ↦ rw e (k, omega (arith, float_lt_key m v e), omega arith)
  | inr e ↦ rw e (h, omega arith, key_le_of_not_lt m v h k e)
]

min_step :
    (m v : Float)
    → IsNumber m
    → IsNumber v
    → IsNumber (step (float_lt v m) v m)
      × (order_key (step (float_lt v m) v m) ≤ order_key m)
      × (order_key (step (float_lt v m) v m) ≤ order_key v)
min_step m v h k = elim (Bool-cases (float_lt v m)) [
  | inl e ↦ rw e (k, omega (arith, float_lt_key v m e), omega arith)
  | inr e ↦ rw e (h, omega arith, key_le_of_not_lt v m k h e)
]

max_from_bound :
    (m : Float) (vs : List Float)
    → All IsNumber (m ∷ vs)
    → All (λ v. order_key v ≤ order_key (max_from m vs)) (m ∷ vs)
unfolding max_from
max_from_bound m [] h = (omega arith, tt)
max_from_bound m (v ∷ vs) h =
    let (number, over_m, over_v) = max_step m v h.0 h.1.0 in
    let rest = max_from_bound (step (float_lt m v) v m) vs (number, h.1.1) in
    (omega (arith, rest.0), (omega (arith, rest.0), rest.1))

min_from_bound :
    (m : Float) (vs : List Float)
    → All IsNumber (m ∷ vs)
    → All (λ v. order_key (min_from m vs) ≤ order_key v) (m ∷ vs)
unfolding min_from
min_from_bound m [] h = (omega arith, tt)
min_from_bound m (v ∷ vs) h =
    let (number, under_m, under_v) = min_step m v h.0 h.1.0 in
    let rest = min_from_bound (step (float_lt v m) v m) vs (number, h.1.1) in
    (omega (arith, rest.0), (omega (arith, rest.0), rest.1))

not_lt_of_key : (a b : Float) → order_key b ≤ order_key a → float_lt a b ≡ false
not_lt_of_key a b h = elim (Bool-cases (float_lt a b)) [
  | inl e ↦ absurd (omega (arith, float_lt_key a b e))
  | inr e ↦ e
]

-- Where no score is NaN, the strategies max and min give one of the scores, and no score is
-- greater, or less.
pub aggregate_extrema :
    (ar : Arith) (visit : Visit) (x : Float) (xs : List Float)
    → All IsNumber (x ∷ xs)
    → In (aggregate ar visit (x ∷ xs) Scoring.max) (x ∷ xs)
      × In (aggregate ar visit (x ∷ xs) Scoring.min) (x ∷ xs)
      × ((v : Float)
          → In v (x ∷ xs)
          → (float_lt (aggregate ar visit (x ∷ xs) Scoring.max) v ≡ false)
            × (float_lt v (aggregate ar visit (x ∷ xs) Scoring.min) ≡ false))
unfolding aggregate
aggregate_extrema ar visit x xs numbers = (
  max_from-In x xs,
  min_from-In x xs,
  λ v m. (
    not_lt_of_key (max_from x xs) v (
        All-In (λ v. order_key v ≤ order_key (max_from x xs)) (x ∷ xs) v
          (max_from_bound x xs numbers) m),
    not_lt_of_key v (min_from x xs) (
        All-In (λ v. order_key (min_from x xs) ≤ order_key v) (x ∷ xs) v
          (min_from_bound x xs numbers) m),
  ),
)
