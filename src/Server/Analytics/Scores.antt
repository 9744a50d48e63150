-- ===== src/Server/Analytics/Scores.antt =====
-- The groups of getDistributions hold each submission's own scores.
use ctf_koth_evals_template.Prelude.{
  ℕ, ◌≡◌, ◌⊎◌, refl, Bool, ◌&&◌, select, sym, ap, ◌∙◌, true, false, Option, none, some, List, [],
  ◌∷◌, ◌++◌, ◌==◌, if◌then◌else◌, find_first, Bool-cases, arith, inl, inr,
}
use mathlib.Core.List.{append_assoc, append-nil}
use ctf_koth_evals_template.Go.Float.{Float}
use ctf_koth_evals_template.Ent.Schema.{Submission, Run, Db}
use ctf_koth_evals_template.Ent.Tables.{find_first-In}
use ctf_koth_evals_template.Wireapi.{SubmissionDistribution}
use ctf_koth_evals_template.Ent.Status.{
  Status, pending, claimed, running, succeeded, failed, timed_out, cancelled, status_eq,
}
use ctf_koth_evals_template.Go.Int.{ℤ, pos, negsuc, equals}
use ctf_koth_evals_template.Server.Analytics.{
  is_scored, counts_for, add_score, add_loaded, submission_of, group_scores,
}

-- The score of a succeeded run.
abbrev pub counted : Status → Option Float → List Float
counted succeeded (some f) = f ∷ []
counted succeeded none = []
counted pending score = []
counted claimed score = []
counted running score = []
counted failed score = []
counted timed_out score = []
counted cancelled score = []

-- The scores of the succeeded runs of a submission in a suite, in the order of the runs.
abbrev pub scores_of : ℕ → ℕ → List Run → List Float
scores_of suite k [] = []
scores_of suite k (r ∷ rs) =
    if r.suite == suite && r.submission == k
    then counted r.status r.score ++ scores_of suite k rs
    else scores_of suite k rs

abbrev pub scores_at : ℕ → List SubmissionDistribution → List Float
scores_at k [] = []
scores_at k (d ∷ ds) = if d.submission_id == k then d.scores else scores_at k ds

abbrev pub score_list : Option Float → List Float
score_list none = []
score_list (some f) = f ∷ []

-- The scores of the runs of one submission, in the order of the runs.
abbrev pub own_scores : ℕ → List Run → List Float
own_scores k [] = []
own_scores k (r ∷ rs) =
    if r.submission == k then score_list r.score ++ own_scores k rs else own_scores k rs

-- A run that counts has one score, or it has none to count.
Counted : Bool → List Float → Option Float → Type 0
Counted b fs o = ((b ≡ true) × (fs ≡ score_list o)) ⊎ ((b ≡ false) × (fs ≡ []))

score_cases :
    (t : Status) (o : Option Float) → Counted (status_eq t succeeded && is_scored o) (counted t o) o
unfolding Counted status_eq
score_cases succeeded (some f) = inl (refl, refl)
score_cases succeeded none = inr (refl, refl)
score_cases pending o = inr (refl, refl)
score_cases claimed o = inr (refl, refl)
score_cases running o = inr (refl, refl)
score_cases failed o = inr (refl, refl)
score_cases timed_out o = inr (refl, refl)
score_cases cancelled o = inr (refl, refl)

pub own_scores-select :
    (id : ℤ) (suite k : ℕ) (rs : List Run)
    → equals id suite ≡ true
    → own_scores k (select (counts_for id) rs) ≡ scores_of suite k rs
unfolding Counted equals
own_scores-select (negsuc n) suite k rs e = absurd (cc)
own_scores-select (pos n) suite k [] e = refl
own_scores-select (pos n) suite k (r ∷ rs) e =
    let same : (n == r.suite) ≡ (r.suite == suite) = ground arith in
    elim (Bool-cases (r.suite == suite)) [
      | inl t ↦ elim (score_cases r.status r.score) [
        | inl (c, fs) ↦ elim (Bool-cases (r.submission == k)) [
          | inl b ↦
              rw (same, t, b, c, fs)
                (rw b (ap (λ l. score_list r.score ++ l) (own_scores-select (pos n) suite k rs e)))
          | inr b ↦ rw (same, t, b, c) (rw b (own_scores-select (pos n) suite k rs e))
        ]
        | inr (c, fs) ↦ elim (Bool-cases (r.submission == k)) [
          | inl b ↦ rw (same, t, b, c, fs) (own_scores-select (pos n) suite k rs e)
          | inr b ↦ rw (same, t, b, c) (own_scores-select (pos n) suite k rs e)
        ]
      ]
      | inr t ↦ rw (same, t) (own_scores-select (pos n) suite k rs e)
    ]

scores_at-add_score :
    (k : ℕ) (s : Submission) (f : Float) (ds : List SubmissionDistribution)
    → scores_at k (add_score s f ds) ≡ scores_at k ds ++ (if s.id == k then f ∷ [] else [])
unfolding add_score
scores_at-add_score k s f [] = elim (Bool-cases (s.id == k)) [ inl e ↦ rw e | inr e ↦ rw e ]
scores_at-add_score k s f (d ∷ ds) = elim (Bool-cases (d.submission_id == s.id)) [
  | inl e ↦
      let same : s.id ≡ d.submission_id = ground arith in
      elim (Bool-cases (d.submission_id == k)) [
        | inl t ↦ rw (e, t, ap (λ n. n == k) same ∙ t)
        | inr t ↦ rw (e, t, ap (λ n. n == k) same ∙ t) (sym (append-nil (scores_at k ds)))
      ]
  | inr e ↦ elim (Bool-cases (d.submission_id == k)) [
    | inl t ↦
        let other : (s.id == k) ≡ false = ground arith in
        rw (e, t, other) (sym (append-nil d.scores))
    | inr t ↦ rw (e, t) (scores_at-add_score k s f ds)
  ]
]

module _ (db : Db) (k : ℕ) (s : Submission)
    (stored : find_first (λ (x : Submission). x.id == k) db.submissions ≡ some s) where
  -- Of the two branches of a run's own submission: it is the stored one, or it has another key.
  owner_key :
      (r : Run) (o : Option Submission)
      → submission_of db r ≡ o
      → (o ≡ none → (r.submission == k) ≡ false)
        × ((t : Submission) → o ≡ some t → (t.id == k) ≡ (r.submission == k))
  owner_key r o e = (λ n. missing n (Bool-cases (r.submission == k)), λ t f. found t f)
    where
      missing :
          o ≡ none
          → ((r.submission == k) ≡ true) ⊎ ((r.submission == k) ≡ false)
          → (r.submission == k) ≡ false
      missing n (inr f) = f
      missing n (inl t) =
          let key : r.submission ≡ k = ground arith in
          let there : submission_of db r ≡ some s =
            ap (λ n. find_first (λ (x : Submission). x.id == n) db.submissions) key ∙ stored in
          absurd (let bad = sym there ∙ e ∙ n in cc)

      found : (t : Submission) → o ≡ some t → (t.id == k) ≡ (r.submission == k)
      found t f =
          let m = find_first-In _ db.submissions t (e ∙ f) in
          let key : t.id ≡ r.submission = ground (arith, m.1) in ap (λ n. n == k) key

  scores_at-add_loaded :
      (r : Run) (ds : List SubmissionDistribution) (o : Option Submission) (score : Option Float)
      → submission_of db r ≡ o
      → scores_at k (add_loaded o score ds)
        ≡ scores_at k ds ++ (if r.submission == k then score_list score else [])
  scores_at-add_loaded r ds none score e =
      rw ((owner_key r none e).0 refl) (sym (append-nil (scores_at k ds)))
  scores_at-add_loaded r ds (some t) none e = elim (Bool-cases (r.submission == k)) [
    | inl b ↦ rw b (sym (append-nil (scores_at k ds)))
    | inr b ↦ rw b (sym (append-nil (scores_at k ds)))
  ]
  scores_at-add_loaded r ds (some t) (some f) e =
      scores_at-add_score k t f ds
      ∙ ap (λ b. scores_at k ds ++ (if b then f ∷ [] else [])) ((owner_key r (some t) e).1 t refl)

  pub scores_at-group_scores :
      (rs : List Run) (ds : List SubmissionDistribution)
      → scores_at k (group_scores db rs ds) ≡ scores_at k ds ++ own_scores k rs
  unfolding group_scores
  scores_at-group_scores [] ds = sym (append-nil (scores_at k ds))
  scores_at-group_scores (r ∷ rs) ds =
      scores_at-group_scores rs (add_loaded (submission_of db r) r.score ds)
      ∙ ap (λ l. l ++ own_scores k rs) (scores_at-add_loaded r ds (submission_of db r) r.score refl)
      ∙ elim (Bool-cases (r.submission == k)) [
        | inl b ↦ rw b (append_assoc (scores_at k ds) (score_list r.score) (own_scores k rs))
        | inr b ↦ rw b (append_assoc (scores_at k ds) [] (own_scores k rs))
      ]
