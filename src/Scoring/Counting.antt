-- ===== src/Scoring/Counting.antt =====
-- What the map of counts of the mode holds: the frequency of each score.
use ctf_koth_evals_template.Prelude.{
  ℕ, ◌+◌, ◌<◌, ◌≡◌, ◌⊎◌, refl, sym, ap, subst, inl, inr, true, false, List, [], ◌∷◌, All, In,
  All-In, tally, arith, Bool-cases,
}
use ctf_koth_evals_template.Go.Float.{Float, float_eq, IsNumber}
use ctf_koth_evals_template.Scoring.{count_one, count_all}

-- How often a score is among the others.
abbrev pub frequency : Float → List Float → ℕ
frequency v scores = tally (float_eq v) scores

-- The counts after some scores: each entry holds a score, the entries are apart, and each count is right.
abbrev pub Good : List Float → List (Float × ℕ) → Type 0
Good done [] = Unit
Good done ((k, n) ∷ cs) =
    IsNumber k
    × In k done
    × (n ≡ frequency k done)
    × All (λ (e : Float × ℕ). float_eq k e.0 ≡ false) cs
    × Good done cs

-- Every score has an entry.
abbrev pub Covers : List Float → List (Float × ℕ) → Type 0
Covers done cs = (v : Float) → In v done → (e : Float × ℕ) × In e cs × (float_eq e.0 v ≡ true)

-- The scores already counted, the last one first.
abbrev pub onto : List Float → List Float → List Float
onto [] done = done
onto (v ∷ vs) done = onto vs (v ∷ done)

pub In-onto : (vs done : List Float) (x : Float) → In x (onto vs done) → In x vs ⊎ In x done
In-onto [] done x m = inr m
In-onto (v ∷ vs) done x m = elim (In-onto vs (v ∷ done) x m) [
  | inl n ↦ inl (inr n)
  | inr (inl e) ↦ inl (inl e)
  | inr (inr n) ↦ inr n
]

pub onto-In : (vs done : List Float) (x : Float) → In x vs ⊎ In x done → In x (onto vs done)
onto-In [] done x (inl m) = elim m [ ]
onto-In [] done x (inr m) = m
onto-In (v ∷ vs) done x (inl (inl e)) = onto-In vs (v ∷ done) x (inr (inl e))
onto-In (v ∷ vs) done x (inl (inr m)) = onto-In vs (v ∷ done) x (inl m)
onto-In (v ∷ vs) done x (inr m) = onto-In vs (v ∷ done) x (inr (inr m))

pub frequency-onto :
    (a : Float) (vs done : List Float)
    → frequency a (onto vs done) ≡ frequency a vs + frequency a done
frequency-onto a [] done = omega arith
frequency-onto a (v ∷ vs) done = omega (arith, frequency-onto a vs (v ∷ done))

eq_refl : (a : Float) → IsNumber a → float_eq a a ≡ true
unfolding float_eq
eq_refl a h = ground arith

eq_sym : (a b : Float) → float_eq a b ≡ true → float_eq b a ≡ true
unfolding float_eq
eq_sym a b h = ground arith

eq_trans : (a b c : Float) → float_eq a b ≡ true → float_eq b c ≡ true → float_eq a c ≡ true
unfolding float_eq
eq_trans a b c h k = ground arith

differs_of_eq : (a b c : Float) → float_eq a b ≡ true → float_eq a c ≡ false → float_eq c b ≡ false
unfolding float_eq
differs_of_eq a b c h k = ground arith

same_test : (a b x : Float) → float_eq a b ≡ true → float_eq a x ≡ float_eq b x
unfolding float_eq
same_test a b x h = ground arith

pub frequency_cong :
    (a b : Float) (done : List Float) → float_eq a b ≡ true → frequency a done ≡ frequency b done
frequency_cong a b [] h = refl
frequency_cong a b (x ∷ xs) h = rw (same_test a b x h) (omega (arith, frequency_cong a b xs h))

frequency_zero :
    (v : Float) (done : List Float)
    → ((x : Float) → In x done → float_eq v x ≡ false)
    → frequency v done ≡ 0
frequency_zero v [] h = refl
frequency_zero v (x ∷ xs) h =
    rw (h x (inl refl)) (omega (arith, frequency_zero v xs (λ y m. h y (inr m))))

pub frequency_positive :
    (v : Float) (done : List Float) → IsNumber v → In v done → 0 < frequency v done
frequency_positive v [] h m = elim m [ ]
frequency_positive v (x ∷ xs) h (inl e) =
    let hit : float_eq v x ≡ true = subst (λ y. float_eq v y ≡ true) (sym e) (eq_refl v h) in
    rw hit (omega arith)
frequency_positive v (x ∷ xs) h (inr m) = omega (arith, frequency_positive v xs h m)

module _ (v : Float) (number : IsNumber v) (done : List Float) where
  Good-skip :
      (cs : List (Float × ℕ))
      → All (λ (e : Float × ℕ). float_eq e.0 v ≡ false) cs
      → Good done cs
      → Good (v ∷ done) cs
  Good-skip [] a g = tt
  Good-skip ((k, n) ∷ cs) a (h, m, c, d, g) =
      (h, inr m, rw a.0 (omega (arith, c)), d, Good-skip cs a.1 g)

  others_differ :
      (k : Float) (cs : List (Float × ℕ))
      → float_eq k v ≡ true
      → All (λ (e : Float × ℕ). float_eq k e.0 ≡ false) cs
      → All (λ (e : Float × ℕ). float_eq e.0 v ≡ false) cs
  others_differ k [] h a = tt
  others_differ k (e ∷ cs) h a = (differs_of_eq k v e.0 h a.0, others_differ k cs h a.1)

  still_apart :
      (k : Float) (cs : List (Float × ℕ))
      → float_eq k v ≡ false
      → All (λ (e : Float × ℕ). float_eq k e.0 ≡ false) cs
      → All (λ (e : Float × ℕ). float_eq k e.0 ≡ false) (count_one v cs)
  unfolding count_one
  still_apart k [] h a = (h, tt)
  still_apart k ((q, n) ∷ cs) h a = elim (Bool-cases (float_eq q v)) [
    | inl e ↦ rw e (a.0, a.1)
    | inr e ↦ rw e (a.0, still_apart k cs h a.1)
  ]

  count_one-Good :
      (cs : List (Float × ℕ))
      → Good done cs
      → (All (λ (e : Float × ℕ). float_eq e.0 v ≡ false) cs → frequency v done ≡ 0)
      → Good (v ∷ done) (count_one v cs)
  unfolding count_one
  count_one-Good [] g missing =
      (number, inl refl, rw (eq_refl v number) (omega (arith, missing tt)), tt, tt)
  count_one-Good ((k, n) ∷ cs) (h, m, c, d, g) missing = elim (Bool-cases (float_eq k v)) [
    | inl e ↦ rw e (h, inr m, rw e (omega (arith, c)), d, Good-skip cs (others_differ k cs e d) g)
    | inr e ↦ rw e (
      h,
      inr m,
      rw e (omega (arith, c)),
      still_apart k cs e d,
      count_one-Good cs g (λ a. missing (e, a)),
    )
  ]

  has_entry :
      (cs : List (Float × ℕ)) → (e : Float × ℕ) × In e (count_one v cs) × (float_eq e.0 v ≡ true)
  unfolding count_one
  has_entry [] = ((v, 1), inl refl, eq_refl v number)
  has_entry ((k, n) ∷ cs) = elim (Bool-cases (float_eq k v)) [
    | inl h ↦ ((k, n + 1), rw h (inl refl), h)
    | inr h ↦ let (e, m, f) = has_entry cs in (e, rw h (inr m), f)
  ]

  keeps_key :
      (cs : List (Float × ℕ)) (e : Float × ℕ)
      → In e cs
      → (q : Float × ℕ) × In q (count_one v cs) × (q.0 ≡ e.0)
  unfolding count_one
  keeps_key [] e m = elim m [ ]
  keeps_key ((k, n) ∷ cs) e (inl s) = elim (Bool-cases (float_eq k v)) [
    | inl h ↦ ((k, n + 1), rw h (inl refl), ap (λ p. p.0) s)
    | inr h ↦ ((k, n), rw h (inl refl), ap (λ p. p.0) s)
  ]
  keeps_key ((k, n) ∷ cs) e (inr m) = elim (Bool-cases (float_eq k v)) [
    | inl h ↦ (e, rw h (inr m), refl)
    | inr h ↦ let (q, l, f) = keeps_key cs e m in (q, rw h (inr l), f)
  ]

  count_one-Covers : (cs : List (Float × ℕ)) → Covers done cs → Covers (v ∷ done) (count_one v cs)
  count_one-Covers cs c x (inl e) =
      let (q, m, h) = has_entry cs in (q, m, subst (λ y. float_eq q.0 y ≡ true) e h)
  count_one-Covers cs c x (inr n) =
      let (e, m, h) = c x n in
      let (q, l, same) = keeps_key cs e m in (q, l, subst (λ y. float_eq y x ≡ true) (sym same) h)

  uncounted :
      (cs : List (Float × ℕ))
      → Covers done cs
      → All (λ (e : Float × ℕ). float_eq e.0 v ≡ false) cs
      → frequency v done ≡ 0
  uncounted cs c a = frequency_zero v done λ x m. elim (Bool-cases (float_eq v x)) [
    | inr f ↦ f
    | inl e ↦
        let (q, l, h) = c x m in
        let hit = eq_trans q.0 x v h (eq_sym v x e) in
        let miss = All-In (λ (e : Float × ℕ). float_eq e.0 v ≡ false) cs q a l in absurd (cc)
  ]

pub count_all-Good :
    (vs done : List Float) (cs : List (Float × ℕ))
    → All IsNumber vs
    → Good done cs
    → Covers done cs
    → Good (onto vs done) (count_all vs cs) × Covers (onto vs done) (count_all vs cs)
unfolding count_all
count_all-Good [] done cs h g c = (g, c)
count_all-Good (v ∷ vs) done cs h g c =
    count_all-Good vs (v ∷ done) (count_one v cs) h.1
      (count_one-Good v h.0 done cs g (uncounted v h.0 done cs c))
      (count_one-Covers v h.0 done cs c)
