-- ===== src/Server/Analytics/Groups.antt =====
-- The groups that getDistributions makes of the runs: one for each submission, in any order.
use mathlib.Core.List.Permᴰ.{Permᴰ}
use ctf_koth_evals_template.Prelude.{
  ℕ, ◌≡◌, refl, sym, ap, ◌∙◌, subst, ◌++◌, false, Option, none, some, List, [], ◌∷◌, ◌==◌,
  find_first, Bool-cases, arith, inl, inr, All, All-In, In,
}
use ctf_koth_evals_template.Go.Float.{Float}
use ctf_koth_evals_template.Ent.Schema.{Submission, Run, Db}
use ctf_koth_evals_template.Ent.Tables.{find_first-In}
use ctf_koth_evals_template.Wireapi.{SubmissionDistribution}
use ctf_koth_evals_template.Server.Analytics.{
  add_score, add_loaded, submission_of, group_scores, new_distribution, with_score,
}
use ctf_koth_evals_template.Server.Analytics.Scores.{scores_at}

-- No other of the list has the key.
abbrev pub Other : ℕ → SubmissionDistribution → Type 0
Other k d = (d.submission_id == k) ≡ false

abbrev pub Distinct : List SubmissionDistribution → Type 0
Distinct [] = Unit
Distinct (d ∷ ds) = All (Other d.submission_id) ds × Distinct ds

add_score-All :
    (P : SubmissionDistribution → Type 0) (s : Submission) (f : Float)
    (ds : List SubmissionDistribution)
    → P (with_score f (new_distribution s))
    → ((d : SubmissionDistribution) → P d → P (with_score f d))
    → All P ds
    → All P (add_score s f ds)
unfolding add_score
add_score-All P s f [] new kept h = (new, tt)
add_score-All P s f (d ∷ ds) new kept h = elim (Bool-cases (d.submission_id == s.id)) [
  | inl e ↦ rw e (kept d h.0, h.1)
  | inr e ↦ rw e (h.0, add_score-All P s f ds new kept h.1)
]

add_score-Distinct :
    (s : Submission) (f : Float) (ds : List SubmissionDistribution)
    → Distinct ds
    → Distinct (add_score s f ds)
unfolding add_score
add_score-Distinct s f [] h = (tt, tt)
add_score-Distinct s f (d ∷ ds) h = elim (Bool-cases (d.submission_id == s.id)) [
  | inl e ↦ rw e h
  | inr e ↦
      let other : (s.id == d.submission_id) ≡ false = ground arith in
      rw e (
        add_score-All (Other d.submission_id) s f ds other (λ x o. o) h.0,
        add_score-Distinct s f ds h.1,
      )
]

-- The group is named for the submission.
abbrev pub Describes : SubmissionDistribution → Submission → Type 0
Describes d s = (d.name ≡ s.name) × (d.submitter ≡ s.submitter) × (d.submitted_at ≡ s.created_at)

-- The submission is stored under the group's key, and the group has a score.
abbrev pub IsGroup : Db → SubmissionDistribution → Type 0
IsGroup db d =
    (s : Submission) × (find_first (λ (x : Submission). x.id == d.submission_id) db.submissions
      ≡ some s)
    × Describes d s
    × ((f : Float) × In f d.scores)

abbrev pub Groups : Db → List SubmissionDistribution → Type 0
Groups db ds = Distinct ds × All (IsGroup db) ds

In-last : (f : Float) (fs : List Float) → In f (fs ++ f ∷ [])
In-last f [] = inl refl
In-last f (g ∷ fs) = inr (In-last f fs)

add_loaded-Groups :
    (db : Db) (r : Run) (o : Option Submission) (score : Option Float)
    (ds : List SubmissionDistribution)
    → submission_of db r ≡ o
    → Groups db ds
    → Groups db (add_loaded o score ds)
add_loaded-Groups db r none score ds e h = h
add_loaded-Groups db r (some s) none ds e h = h
add_loaded-Groups db r (some s) (some f) ds e h =
    let key : s.id ≡ r.submission = ground (arith, (find_first-In _ db.submissions s e).1) in
    (
      add_score-Distinct s f ds h.0,
      add_score-All (IsGroup db) s f ds
          (
            s,
            ap (λ n. find_first (λ (x : Submission). x.id == n) db.submissions) key ∙ e,
            (refl, refl, refl),
            (f, inl refl),
          )
          (λ d (t, stored, told, some_score). (t, stored, told, (f, In-last f d.scores))) h.1,
    )

pub group_scores-Groups :
    (db : Db) (rs : List Run) (ds : List SubmissionDistribution)
    → Groups db ds
    → Groups db (group_scores db rs ds)
unfolding group_scores
group_scores-Groups db [] ds h = h
group_scores-Groups db (r ∷ rs) ds h =
    group_scores-Groups db rs _ (add_loaded-Groups db r (submission_of db r) r.score ds refl h)

pub own_group :
    (ds : List SubmissionDistribution) (d : SubmissionDistribution)
    → Distinct ds
    → In d ds
    → scores_at d.submission_id ds ≡ d.scores
own_group [] d h m = elim m [ ]
own_group (x ∷ ds) d h (inl e) =
    subst (λ (y : SubmissionDistribution). scores_at y.submission_id (x ∷ ds) ≡ y.scores) e
      (ground arith)
own_group (x ∷ ds) d h (inr m) =
    let other : (d.submission_id == x.submission_id) ≡ false =
      All-In (Other x.submission_id) ds d h.0 m in
    let apart : (x.submission_id == d.submission_id) ≡ false = ground arith in
    rw apart (own_group ds d h.1 m)

-- Permutations keep what is in a list.
pub Permᴰ-In :
    {xs ys : List SubmissionDistribution} (d : SubmissionDistribution)
    → Permᴰ xs ys
    → In d xs
    → In d ys
Permᴰ-In d Permᴰ.nil m = m
Permᴰ-In d (Permᴰ.cons e p) (inl h) = inl (sym e ∙ h)
Permᴰ-In d (Permᴰ.cons e p) (inr m) = inr (Permᴰ-In d p m)
Permᴰ-In d (Permᴰ.swap e f) (inl h) = inr (inl (sym e ∙ h))
Permᴰ-In d (Permᴰ.swap e f) (inr (inl h)) = inl (sym f ∙ h)
Permᴰ-In d (Permᴰ.swap e f) (inr (inr m)) = inr (inr m)
Permᴰ-In d (Permᴰ.trans p r) m = Permᴰ-In d r (Permᴰ-In d p m)

All-Permᴰ :
    (P : SubmissionDistribution → Type 0) {xs ys : List SubmissionDistribution}
    → Permᴰ xs ys
    → All P xs
    → All P ys
All-Permᴰ P Permᴰ.nil h = h
All-Permᴰ P (Permᴰ.cons e p) h = (subst P e h.0, All-Permᴰ P p h.1)
All-Permᴰ P (Permᴰ.swap e f) h = (subst P f h.1.0, (subst P e h.0, h.1.1))
All-Permᴰ P (Permᴰ.trans p r) h = All-Permᴰ P r (All-Permᴰ P p h)

-- That no two have one key does not depend on the order.
pub Distinct-Permᴰ : {xs ys : List SubmissionDistribution} → Permᴰ xs ys → Distinct xs → Distinct ys
Distinct-Permᴰ Permᴰ.nil h = h
Distinct-Permᴰ (Permᴰ.cons {a = a} {l₂ = l} e p) h = (
  subst (λ (z : SubmissionDistribution). All (Other z.submission_id) l) e
      (All-Permᴰ (Other a.submission_id) p h.0),
  Distinct-Permᴰ p h.1,
)
Distinct-Permᴰ (Permᴰ.swap {a = a} {b = b} {b' = d} {l = l} e f) h =
    let apart : (a.submission_id == b.submission_id) ≡ false =
      (let other : (b.submission_id == a.submission_id) ≡ false = h.0.0 in ground arith) in
    subst (λ (x : SubmissionDistribution). Distinct (x ∷ d ∷ l)) f
      (subst (λ (y : SubmissionDistribution). Distinct (b ∷ y ∷ l)) e
        ((apart, h.1.0), (h.0.1, h.1.1)))
Distinct-Permᴰ (Permᴰ.trans p r) h = Distinct-Permᴰ r (Distinct-Permᴰ p h)
