-- ===== src/Bundle/Path/Parts.antt =====
-- Paths and their parts: splitting, joining, and what filepath.Clean leaves.
use ctf_koth_evals_template.Prelude.{
  ℕ, ◌≡◌, refl, sym, ap, ◌∙◌, true, false, List, [], ◌∷◌, ◌++◌, All, ◌==◌, Bool-cases, arith, inl,
  inr,
}
use ctf_koth_evals_template.Go.Text.{split, push_part}
use ctf_koth_evals_template.Bundle.Path.{Part, join_parts}

-- Splitting gives at least one part.
pub split-cons : (sep : ℕ) (s : List ℕ) → (p : Part) × (ps : List Part) × (split sep s ≡ p ∷ ps)
unfolding split
split-cons sep [] = ([], [], refl)
split-cons sep (c ∷ cs) = elim (Bool-cases (c == sep)) [
  | inl e ↦ ([], split sep cs, rw e)
  | inr e ↦ let (p, ps, f) = split-cons sep cs in (c ∷ p, ps, rw (e, f))
]

push_part-append :
    (c : ℕ) (xs : List Part) (ys : List Part) (p : Part) (ps : List Part)
    → xs ≡ p ∷ ps
    → push_part c xs ++ ys ≡ push_part c (xs ++ ys)
push_part-append c xs ys p ps e = rw e refl

-- A separator between two texts parts them.
pub split-append :
    (sep : ℕ) (s t : List ℕ) → split sep (s ++ (sep ∷ t)) ≡ split sep s ++ split sep t
unfolding split
split-append sep [] t = let e : (sep == sep) ≡ true = ground arith in rw e
split-append sep (c ∷ cs) t = elim (Bool-cases (c == sep)) [
  | inl e ↦ rw e (ap (λ l. [] ∷ l) (split-append sep cs t))
  | inr e ↦
      let (p, ps, f) = split-cons sep cs in
      rw e (
        ap (push_part c) (split-append sep cs t)
        ∙ sym (push_part-append c (split sep cs) (split sep t) p ps f))
]

-- No byte of the part is the separator.
abbrev pub Lacks : ℕ → Part → Type 0
Lacks sep = All (λ c. (c == sep) ≡ false)

push_part-Lacks :
    (sep c : ℕ) (ps : List Part)
    → (c == sep) ≡ false
    → All (Lacks sep) ps
    → All (Lacks sep) (push_part c ps)
push_part-Lacks sep c [] e h = ((e, tt), tt)
push_part-Lacks sep c (p ∷ ps) e h = ((e, h.0), h.1)

pub split-Lacks : (sep : ℕ) (s : List ℕ) → All (Lacks sep) (split sep s)
unfolding split
split-Lacks sep [] = (tt, tt)
split-Lacks sep (c ∷ cs) = elim (Bool-cases (c == sep)) [
  | inl e ↦ rw e (tt, split-Lacks sep cs)
  | inr e ↦ rw e (push_part-Lacks sep c (split sep cs) e (split-Lacks sep cs))
]

split_one : (sep : ℕ) (p : Part) → Lacks sep p → split sep p ≡ p ∷ []
unfolding split
split_one sep [] h = refl
split_one sep (c ∷ cs) h = rw (h.0, split_one sep cs h.1)

-- Splitting undoes joining.
pub split-join_parts :
    (p : Part) (ps : List Part)
    → All (Lacks b'/') (p ∷ ps)
    → split b'/' (join_parts (p ∷ ps)) ≡ p ∷ ps
unfolding join_parts
split-join_parts p [] h = split_one b'/' p h.0
split-join_parts p (q ∷ ps) h =
    split-append b'/' p (join_parts (q ∷ ps))
    ∙ ap (λ l. l ++ split b'/' (join_parts (q ∷ ps))) (split_one b'/' p h.0)
    ∙ ap (λ l. p ∷ l) (split-join_parts q ps h.1)
