-- ===== src/Server/Lifecycle/References.antt =====
-- The tables that runs refer to, under the client's insertions and the sealing of a suite.
use ctf_koth_evals_template.Prelude.{
  ℕ, ◌+◌, ◌<◌, ◌≡◌, refl, subst, Bool, true, false, List, [], ◌∷◌, ◌++◌, arith, All, All-append,
  if◌then◌else◌,
}
use ctf_koth_evals_template.Ent.Schema.{Suite, Submission, Db}
use ctf_koth_evals_template.Ent.Store.{rewrite}
use ctf_koth_evals_template.Server.Lifecycle.{
  SuiteMove, as_it_was, sealing, SuitesEvolve, Extends, Catalogue, Inv,
}

pub SuitesEvolve-refl : (ss : List Suite) → SuitesEvolve ss ss
SuitesEvolve-refl [] = tt
SuitesEvolve-refl (s ∷ ss) = (as_it_was, SuitesEvolve-refl ss)

pub Extends-refl : {A : Type 0} (xs : List A) → Extends xs xs
Extends-refl [] = tt
Extends-refl (x ∷ xs) = (refl, Extends-refl xs)

pub Extends-append : {A : Type 0} (xs ys : List A) → Extends xs (xs ++ ys)
Extends-append [] ys = tt
Extends-append (x ∷ xs) ys = (refl, Extends-append xs ys)

pub append-SuitesEvolve :
    (ss : List Suite) (t : Suite) → t.sealed ≡ false → SuitesEvolve ss (ss ++ t ∷ [])
append-SuitesEvolve [] t e = (e, tt)
append-SuitesEvolve (s ∷ ss) t e = (as_it_was, append-SuitesEvolve ss t e)

pub sealed-SuitesEvolve :
    (p : Suite → Bool) (ss : List Suite)
    → SuitesEvolve ss (rewrite p (λ s. record s { sealed = true }) ss)
unfolding rewrite
sealed-SuitesEvolve p [] = tt
sealed-SuitesEvolve p (s ∷ ss) = (moved (p s), sealed-SuitesEvolve p ss)
  where
    moved : (b : Bool) → SuiteMove s (if b then record s { sealed = true } else s)
    moved true = sealing
    moved false = as_it_was

-- A step that leaves these tables alone.
pub Catalogue-refl :
    (a b : Db)
    → a.suites ≡ b.suites
    → a.submissions ≡ b.submissions
    → a.next_submission ≡ b.next_submission
    → a.challenges ≡ b.challenges
    → Inv a
    → Catalogue a b
Catalogue-refl a b suites submissions next challenges i = record {
  suites = subst (SuitesEvolve a.suites) suites (SuitesEvolve-refl a.suites);
  submissions = subst (Extends a.submissions) submissions (Extends-refl a.submissions);
  keys =
      subst (λ n. All (λ (s : Submission). s.id < n) b.submissions) next
        (subst (All (λ (s : Submission). s.id < a.next_submission)) submissions i.submission_keys);
  challenges = subst (Extends a.challenges) challenges (Extends-refl a.challenges);
}

below_suc :
    (n : ℕ) (ss : List Submission)
    → All (λ (s : Submission). s.id < n) ss
    → All (λ (s : Submission). s.id < n + 1) ss
below_suc n [] h = tt
below_suc n (s ∷ ss) h = (omega (arith, h.0), below_suc n ss h.1)

-- The keys with a row under the next one.
pub keys-append :
    (n : ℕ) (ss : List Submission) (q : Submission)
    → q.id ≡ n
    → All (λ (s : Submission). s.id < n) ss
    → All (λ (s : Submission). s.id < n + 1) (ss ++ q ∷ [])
keys-append n ss q e h = All-append _ ss (q ∷ []) (below_suc n ss h) (omega (arith, e), tt)
