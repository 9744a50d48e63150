-- ===== src/Server/Analytics/Distributions.antt =====
-- What getDistributions answers.
use mathlib.Core.List.Permᴰ.{Permᴰ}
use mathlib.Core.List.Permᴰ
use ctf_koth_evals_template.Prelude.{
  ℕ, String, ◌≡◌, refl, sym, ap, ◌∙◌, subst, if◌then◌else◌, Bool, true, some, List, [], ◌∷◌, ◌==◌,
  find_first, select, Bool-cases, arith, inl, inr, All-In, In,
}
use ctf_koth_evals_template.Go.Float.{Float, Arith}
use ctf_koth_evals_template.Go.Int.{ℤ, equals}
use ctf_koth_evals_template.Go.Text.{codes, atoi}
use ctf_koth_evals_template.Ent.Schema.{Suite, Submission, Db}
use ctf_koth_evals_template.Ent.Store.{ok, only}
use ctf_koth_evals_template.Scoring.{Visit}
use ctf_koth_evals_template.Wireapi.{SubmissionDistribution}
use ctf_koth_evals_template.Server.Response.{Body, write_json}
use ctf_koth_evals_template.Server.Action.{World, reliable, serve, ◌>>=◌, query, pure}
use ctf_koth_evals_template.Server.Request.{path_id}
use ctf_koth_evals_template.Server.Analytics.{group_scores, counts_for, before, get_distributions}
use ctf_koth_evals_template.Server.Analytics.Groups.{
  Distinct, IsGroup, group_scores-Groups, own_group, Permᴰ-In, Distinct-Permᴰ,
}
use ctf_koth_evals_template.Server.Analytics.Scores.{
  scores_at, scores_of, own_scores-select, scores_at-group_scores,
}

-- A score that stands under a key is in a group with the key.
scores_at-In :
    (k : ℕ) (f : Float) (ds : List SubmissionDistribution)
    → In f (scores_at k ds)
    → (d : SubmissionDistribution) × In d ds × (d.submission_id ≡ k)
scores_at-In k f [] m = elim m [ ]
scores_at-In k f (d ∷ ds) m = elim (Bool-cases (d.submission_id == k)) [
  | inl e ↦ (d, inl refl, ground arith)
  | inr e ↦
      let later : In f (scores_at k ds) =
        subst (λ b. In f (if b then d.scores else scores_at k ds)) e m in
      let (x, there, key) = scores_at-In k f ds later in (x, inr there, key)
]

-- What the list of the distributions of a suite is to hold: one for each submission at most, each
-- named for its submission and with all its scores in the suite, and one where there is a score.
abbrev pub Distributed : Db → ℕ → List SubmissionDistribution → Type 0
Distributed db suite ds =
    Distinct ds
    × ((d : SubmissionDistribution)
        → In d ds
        → IsGroup db d × (d.scores ≡ scores_of suite d.submission_id db.runs))
    × ((s : Submission) (f : Float)
        → find_first (λ (x : Submission). x.id == s.id) db.submissions ≡ some s
        → In f (scores_of suite s.id db.runs)
        → (d : SubmissionDistribution) × In d ds × (d.submission_id ≡ s.id))

module _ (db : Db) (id : ℤ) (suite : ℕ) (is_id : equals id suite ≡ true) where
  groups : List SubmissionDistribution
  groups = group_scores db (select (counts_for id) db.runs) []

  scores_at-groups :
      (k : ℕ) (s : Submission)
      → find_first (λ (x : Submission). x.id == k) db.submissions ≡ some s
      → scores_at k groups ≡ scores_of suite k db.runs
  unfolding groups
  scores_at-groups k s found =
      scores_at-group_scores db k s found (select (counts_for id) db.runs) []
      ∙ own_scores-select id suite k db.runs is_id

  -- The groups, in any order.
  group_scores-Distributed :
      (ds : List SubmissionDistribution) → Permᴰ ds groups → Distributed db suite ds
  unfolding groups
  group_scores-Distributed ds perm =
      let (distinct, all_groups) =
        group_scores-Groups db (select (counts_for id) db.runs) [] (tt, tt) in
      (
        Distinct-Permᴰ (Permᴰ.symm perm) distinct,
        λ d m.
            let there = Permᴰ-In d perm m in
            let group = All-In (IsGroup db) groups d all_groups there in
            (
              group,
              sym (own_group groups d distinct there)
                  ∙ scores_at-groups d.submission_id group.0 group.1,
            ),
        λ s f found m.
            let same = sym (scores_at-groups s.id s found) in
            let (d, there, key) = scores_at-In s.id f groups (subst (In f) same m) in
            (d, Permᴰ-In d (Permᴰ.symm perm) there, key),
      )

only_key :
    (id : ℤ) (suites : List Suite) (su : Suite)
    → only (λ (s : Suite). equals id s.id) suites ≡ ok su
    → equals id su.id ≡ true
unfolding only
only_key id [] su e = absurd (cc)
only_key id (x ∷ xs) su e = elim (Bool-cases (equals id x.id)) [
  | inl t ↦
      let here : ok x ≡ ok su =
        subst (λ b. (if b then ok x else only (λ (s : Suite). equals id s.id) xs) ≡ ok su) t e in
      let same : x ≡ su = cc in ap (λ (s : Suite). equals id s.id) (sym same) ∙ t
  | inr t ↦
      only_key id xs su
        (subst (λ b. (if b then ok x else only (λ (s : Suite). equals id s.id) xs) ≡ ok su) t e)
]

module _ (ar : Arith) (arrange : List SubmissionDistribution → List SubmissionDistribution)
    (sort : (SubmissionDistribution → SubmissionDistribution → Bool)
      → List SubmissionDistribution
      → List SubmissionDistribution)
    (arranges : (ds : List SubmissionDistribution) → Permᴰ (arrange ds) ds)
    (sorts : (less : SubmissionDistribution → SubmissionDistribution → Bool)
        (ds : List SubmissionDistribution)
      → Permᴰ (sort less ds) ds) where
  -- On a database that does not fail and where the suite is there, the answer is 200 and a list of
  -- distributions, no two of one submission. Each is named for the submission that is stored under
  -- its key, has a score, and holds exactly the scores of the succeeded runs of this suite that
  -- are of its submission, in the order of the runs; and every stored submission with such a score
  -- has one.
  pub distributions_are_own_scores :
      (visit : Visit) (param : String) (id : ℤ) (su : Suite) (w : World)
      → atoi (codes param) ≡ some id
      → only (λ (s : Suite). equals id s.id) w.db.suites ≡ ok su
      → (ds : List SubmissionDistribution) × ((serve
            (get_distributions ar arrange sort visit param)
            (reliable w)).0
          ≡ write_json 200 (Body.distributions ds))
        × Distributed w.db su.id ds
  unfolding get_distributions serve ◌>>=◌ query pure path_id groups
  distributions_are_own_scores visit param id su w e found =
      let is_id = only_key id w.db.suites su found in
      let all = groups w.db id su.id is_id in
      (
        sort (before ar visit) (arrange all),
        rw (e, found) refl,
        group_scores-Distributed w.db id su.id is_id (sort (before ar visit) (arrange all))
            (Permᴰ.trans (sorts (before ar visit) (arrange all)) (arranges all)),
      )
