-- ===== src/Scoring/Mode.antt =====
-- The mode, whatever the order in which the map of counts is ranged over.
use ctf_koth_evals_template.Prelude.{
  ℕ, ◌≤◌, ◌<◌, ◌≡◌, ◌⊎◌, refl, sym, ap, subst, inl, inr, Bool, true, false, List, [], ◌∷◌,
  if◌then◌else◌, All, In, All-In, arith,
}
use ctf_koth_evals_template.Go.Float.{Float, Arith, float_lt, float_eq, order_key, IsNumber}
use ctf_koth_evals_template.Scoring.{Visit, aggregate, count_all, best_of, improves}
use ctf_koth_evals_template.Scoring.Counting.{
  frequency, Good, Covers, frequency_cong, frequency_positive, onto, In-onto, onto-In,
  frequency-onto, count_all-Good,
}
use ctf_koth_evals_template.Scoring

-- A greater count, or the same count and no greater score.
abbrev Below : Float × ℕ → Float × ℕ → Type 0
Below (v, c) (b, n) = (c < n) ⊎ ((c ≡ n) × (order_key b ≤ order_key v))

improves-Below : (e b : Float × ℕ) → IsNumber e.0 → IsNumber b.0 → improves e b ≡ true → Below b e
unfolding float_lt
improves-Below (v, c) (b, n) h k e = ground arith

not_improves-Below :
    (e b : Float × ℕ) → IsNumber e.0 → IsNumber b.0 → improves e b ≡ false → Below e b
unfolding float_lt
not_improves-Below (v, c) (b, n) h k e = ground arith

Below-refl : (e : Float × ℕ) → Below e e
Below-refl (v, c) = inr (refl, omega arith)

Below-trans : (a b c : Float × ℕ) → Below a b → Below b c → Below a c
Below-trans (a, x) (b, y) (c, z) h k = ground arith

abbrev step : Bool → Float × ℕ → Float × ℕ → Float × ℕ
step t e b = if t then e else b

-- What `r` is among `best` and the entries.
abbrev IsBest : Float × ℕ → List (Float × ℕ) → Float × ℕ → Type 0
IsBest best es r = Below best r × All (λ e. Below e r) es × ((r ≡ best) ⊎ In r es)

best_step :
    (best e : Float × ℕ) (es : List (Float × ℕ)) (t : Bool)
    → IsNumber best.0
    → IsNumber e.0
    → improves e best ≡ t
    → IsBest e es (best_of e es)
    → IsBest best es (best_of best es)
    → IsBest best (e ∷ es) (best_of (step t e best) es)
best_step best e es true h k t (up, all, from) rest = (
  Below-trans best e _ (improves-Below e best k h t) up,
  (up, all),
  elim from [ inl s ↦ inr (inl (sym s)) | inr m ↦ inr (inr m) ],
)
best_step best e es false h k f rest (up, all, from) = (
  up,
  (Below-trans e best _ (not_improves-Below e best k h f) up, all),
  elim from [ inl s ↦ inl s | inr m ↦ inr (inr m) ],
)

best_of-IsBest :
    (best : Float × ℕ) (es : List (Float × ℕ))
    → IsNumber best.0
    → All (λ (e : Float × ℕ). IsNumber e.0) es
    → IsBest best es (best_of best es)
unfolding best_of
best_of-IsBest best [] h k = (Below-refl best, tt, inl refl)
best_of-IsBest best (e ∷ es) h k =
    best_step best e es (improves e best) h k.0 refl (best_of-IsBest e es k.0 k.1)
      (best_of-IsBest best es h k.1)

entry-Good :
    (done : List Float) (cs : List (Float × ℕ)) (e : Float × ℕ)
    → Good done cs
    → In e cs
    → IsNumber e.0 × In e.0 done × (e.1 ≡ frequency e.0 done)
entry-Good done [] e g m = elim m [ ]
entry-Good done ((k, n) ∷ cs) e (h, i, c, d, g) (inl s) =
    (subst (λ p. IsNumber p.0 × In p.0 done × (p.1 ≡ frequency p.0 done)) s (h, i, c))
entry-Good done ((k, n) ∷ cs) e (h, i, c, d, g) (inr m) = entry-Good done cs e g m

key_of_eq : (a b : Float) → float_eq a b ≡ true → order_key a ≡ order_key b
unfolding float_eq
key_of_eq a b h = ground arith

numbers_of :
    (es : List (Float × ℕ))
    → ((e : Float × ℕ) → In e es → IsNumber e.0)
    → All (λ (e : Float × ℕ). IsNumber e.0) es
numbers_of [] h = tt
numbers_of (e ∷ es) h = (h e (inl refl), numbers_of es (λ x m. h x (inr m)))

-- The order in which a map is ranged over: every entry, and nothing else.
abbrev pub RangesOver : List (Float × ℕ) → List (Float × ℕ) → Type 0
RangesOver cs es = (e : Float × ℕ) → (In e es → In e cs) × (In e cs → In e es)

module _ (x : Float) (xs : List Float) (numbers : All IsNumber (x ∷ xs)) (visit : Visit)
    (every : RangesOver (count_all (x ∷ xs) []) (visit (count_all (x ∷ xs) []))) where
  abbrev counts : List (Float × ℕ)
  counts = count_all (x ∷ xs) []

  abbrev done : List Float
  done = onto (x ∷ xs) []

  counted : Good done counts × Covers done counts
  counted = count_all-Good (x ∷ xs) [] [] numbers tt (λ v m. elim m [ ])

  abbrev chosen : Float × ℕ
  chosen = best_of (x, 0) (visit counts)

  entry :
      (e : Float × ℕ)
      → In e (visit counts)
      → IsNumber e.0 × In e.0 done × (e.1 ≡ frequency e.0 done)
  entry e m = entry-Good done counts e counted.0 ((every e).0 m)

  best : IsBest (x, 0) (visit counts) chosen
  best =
      best_of-IsBest (x, 0) (visit counts) numbers.0
        (numbers_of (visit counts) (λ e m. (entry e m).0))

  -- Every score has an entry that the mode stands above.
  above :
      (v : Float)
      → In v (x ∷ xs)
      → (e : Float × ℕ) × In e (visit counts) × (float_eq e.0 v ≡ true) × Below e chosen
  above v m =
      let (e, l, h) = counted.1 v (onto-In (x ∷ xs) [] v (inl m)) in
      let there = (every e).1 l in
      (e, there, h, All-In (λ e. Below e chosen) (visit counts) e best.1 there)

  stands : In chosen (visit counts)
  stands = elim best.2 [
    | inr m ↦ m
    | inl s ↦
        let (e, m, h, low) = above x (inl refl) in
        let (number, l, c) = entry e m in
        let some_there = frequency_positive e.0 done number l in
        let none_there = ap (λ (p : Float × ℕ). p.1) s in
        absurd (nothing_below e low (omega arith) none_there)
  ]
    where
      nothing_below : (e : Float × ℕ) → Below e chosen → 0 < e.1 → chosen.1 ≡ 0 → ⊥
      nothing_below e low h z = ground (arith, z)

  -- Where no score is NaN, and in whichever order the entries of the counts are ranged over, the
  -- strategy mode gives one of the scores: none is more frequent, and none that is as frequent is
  -- less.
  pub aggregate_mode :
      (ar : Arith)
      → In (aggregate ar visit (x ∷ xs) Scoring.mode) (x ∷ xs)
        × ((v : Float)
            → In v (x ∷ xs)
            → (frequency v (x ∷ xs) < frequency (aggregate ar visit (x ∷ xs) Scoring.mode) (x ∷ xs))
              ⊎ ((frequency v (x ∷ xs)
                    ≡ frequency (aggregate ar visit (x ∷ xs) Scoring.mode) (x ∷ xs))
                  × (order_key (aggregate ar visit (x ∷ xs) Scoring.mode) ≤ order_key v)))
  unfolding aggregate
  aggregate_mode ar =
      let (number, l, c) = entry chosen stands in
      (
        elim (In-onto (x ∷ xs) [] chosen.0 l) [ inl m ↦ m | inr m ↦ elim m [ ] ],
        λ v m.
            let (e, there, h, low) = above v m in
            let (also_number, l', c') = entry e there in
            elim low [
              | inl less ↦ inl (
                  omega (
                    arith,
                    less,
                    c,
                    c',
                    frequency_cong e.0 v done h,
                    frequency-onto v (x ∷ xs) [],
                    frequency-onto chosen.0 (x ∷ xs) [],
                  ))
              | inr (same, order) ↦ inr (
                omega (
                  arith,
                  same,
                  c,
                  c',
                  frequency_cong e.0 v done h,
                  frequency-onto v (x ∷ xs) [],
                  frequency-onto chosen.0 (x ∷ xs) [],
                ),
                omega (arith, order, key_of_eq e.0 v h),
              )
            ],
      )
