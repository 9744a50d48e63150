-- ===== src/Server/Queue/Means.antt =====
-- What is said of a suite in the queue: its waiting runs, and how long its finished ones took.
use ctf_koth_evals_template.Prelude.{
  ℕ, ◌-◌, ◌/◌, suc, ◌≡◌, ◌⊎◌, refl, ap, ◌∙◌, Bool, true, false, ◌&&◌, Option, none, some, List, [],
  ◌∷◌, ◌++◌, ◌==◌, ltb, leb, if◌then◌else◌, length, select, Bool-cases, arith, inl, inr,
}
use ctf_koth_evals_template.Go.Float.{Float, Arith, zero_float}
use ctf_koth_evals_template.Go.Int.{ℤ, pos, negsuc}
use ctf_koth_evals_template.Go.Text.{negated}
use ctf_koth_evals_template.Ent.Status.{
  Status, pending, claimed, running, succeeded, failed, timed_out, cancelled, status_eq, status_in,
}
use ctf_koth_evals_template.Ent.Schema.{Run}
use ctf_koth_evals_template.Server.Analytics.{milliseconds, duration_of}
use ctf_koth_evals_template.Server.Queue.{
  is_unfinished, is_there, is_timed, of_signed, add_duration, sum_ms, mean_ms,
}

-- No report has ended the run, and no client has.
abbrev pub is_open : Status → Bool
is_open pending = true
is_open claimed = true
is_open running = true
is_open succeeded = false
is_open failed = false
is_open timed_out = false
is_open cancelled = false

status_in-is_open : (s : Status) → status_in (pending ∷ claimed ∷ running ∷ []) s ≡ is_open s
unfolding status_in status_eq
status_in-is_open s = ground arith

pub is_unfinished_lem : (r : Run) → is_unfinished r ≡ is_open r.status
is_unfinished_lem r = status_in-is_open r.status

-- The whole milliseconds from one time to the other, rounded towards zero, where both are there.
abbrev pub elapsed : Option ℕ → Option ℕ → List ℤ
elapsed (some s) (some f) =
    (if leb s f then pos ((f - s) / 1_000_000) else negated ((s - f) / 1_000_000)) ∷ []
elapsed (some s) none = []
elapsed none f = []

abbrev pub duration : Status → Option ℕ → Option ℕ → List ℤ
duration succeeded s f = elapsed s f
duration pending s f = []
duration claimed s f = []
duration running s f = []
duration failed s f = []
duration timed_out s f = []
duration cancelled s f = []

-- How long each succeeded run of the suite took, in the order of the runs.
abbrev pub durations : ℕ → List Run → List ℤ
durations k [] = []
durations k (r ∷ rs) =
    if r.suite == k
    then duration r.status r.started_at r.finished_at ++ durations k rs
    else durations k rs

module _ (ar : Arith) where
  abbrev pub float_of : ℤ → Float
  float_of (pos n) = ar.of_int n
  float_of (negsuc n) = ar.sub zero_float (ar.of_int (suc n))

  abbrev pub total : List ℤ → Float → Float
  total [] sum = sum
  total (d ∷ ds) sum = total ds (ar.add sum (float_of d))

  -- The sum over the number; zero where there is nothing to divide.
  abbrev pub mean_of : List ℤ → Float
  mean_of [] = zero_float
  mean_of (d ∷ ds) = ar.div (total (d ∷ ds) zero_float) (ar.of_int (length (d ∷ ds)))

-- A run of the suite has one duration, or it is not among the timed ones.
Timed : Bool → List ℤ → Option ℤ → Type 0
Timed b ds o = ((d : ℤ) × (b ≡ true) × (ds ≡ d ∷ []) × (o ≡ some d)) ⊎ ((b ≡ false) × (ds ≡ []))

duration_cases :
    (t : Status) (s f : Option ℕ)
    → Timed (status_eq t succeeded && (is_there s && is_there f)) (duration t s f) (duration_of s f)
unfolding Timed status_eq milliseconds
duration_cases succeeded (some s) (some f) = inl (_, refl, refl, refl)
duration_cases succeeded (some s) none = inr (refl, refl)
duration_cases succeeded none f = inr (refl, refl)
duration_cases pending s f = inr (refl, refl)
duration_cases claimed s f = inr (refl, refl)
duration_cases running s f = inr (refl, refl)
duration_cases failed s f = inr (refl, refl)
duration_cases timed_out s f = inr (refl, refl)
duration_cases cancelled s f = inr (refl, refl)

module _ (ar : Arith) (k : ℕ) where
  of_signed_lem : (d : ℤ) → of_signed ar d ≡ float_of ar d
  of_signed_lem (pos n) = refl
  of_signed_lem (negsuc n) = refl

  sum_ms-select :
      (rs : List Run) (sum : Float)
      → sum_ms ar (select (is_timed k) rs) sum ≡ total ar (durations k rs) sum
  unfolding sum_ms Timed
  sum_ms-select [] sum = refl
  sum_ms-select (r ∷ rs) sum = elim (Bool-cases (r.suite == k)) [
    | inl e ↦ elim (duration_cases r.status r.started_at r.finished_at) [
      | inl (d, t, ds, o) ↦
          rw (e, t, ds)
            (sum_ms-select rs (add_duration ar (duration_of r.started_at r.finished_at) sum)
              ∙ ap (λ x. total ar (durations k rs) (add_duration ar x sum)) o
              ∙ ap (λ x. total ar (durations k rs) (ar.add sum x)) (of_signed_lem d))
      | inr (t, ds) ↦ rw (e, t, ds) (sum_ms-select rs sum)
    ]
    | inr e ↦ rw e (sum_ms-select rs sum)
  ]

  length-timed : (rs : List Run) → length (select (is_timed k) rs) ≡ length (durations k rs)
  unfolding Timed
  length-timed [] = refl
  length-timed (r ∷ rs) = elim (Bool-cases (r.suite == k)) [
    | inl e ↦ elim (duration_cases r.status r.started_at r.finished_at) [
      | inl (d, t, ds, o) ↦ rw (e, t, ds) (omega (arith, length-timed rs))
      | inr (t, ds) ↦ rw (e, t, ds) (length-timed rs)
    ]
    | inr e ↦ rw e (length-timed rs)
  ]

  mean_of-length :
      (ds : List ℤ)
      → (if ltb 0 (length ds)
          then ar.div (total ar ds zero_float) (ar.of_int (length ds))
          else zero_float)
        ≡ mean_of ar ds
  mean_of-length [] = refl
  mean_of-length (d ∷ ds) =
      let more : ltb 0 (length (d ∷ ds)) ≡ true = ground arith in
      ap
        (λ b.
          if b
          then ar.div (total ar (d ∷ ds) zero_float) (ar.of_int (length (d ∷ ds)))
          else zero_float)
        more

  pub mean_ms-select :
      (rs : List Run) → mean_ms ar (select (is_timed k) rs) ≡ mean_of ar (durations k rs)
  unfolding mean_ms
  mean_ms-select rs =
      rw (sum_ms-select rs zero_float, length-timed rs) (mean_of-length (durations k rs))
