-- ===== src/Server/SuiteIds/Meaning.antt =====
-- What a list of suite ids that was parsed is.
use ctf_koth_evals_template.Prelude.{
  In-append, ℕ, ◌<◌, ◌≡◌, ◌≢◌, sym, subst, inl, inr, Option, none, some, List, [], ◌∷◌, ◌++◌, ◌==◌,
  any, All, All-append, In, arith, Bool-cases, Option-cases,
}
use ctf_koth_evals_template.Go.Int.{ℤ, pos, negsuc}
use ctf_koth_evals_template.Go.Text.{atoi, split, trim, is_space}
use ctf_koth_evals_template.Ent.Tables.{In-any}
use ctf_koth_evals_template.Server.SuiteIds.{
  Parsed, ids, no_field, no_id, bad_part, positive, add_new, and_then, add_part, add_parts,
  add_fields, some_id, parse_suite_ids,
}

-- No id stands twice.
abbrev pub Distinct : List ℕ → Type 0
Distinct [] = Unit
Distinct (n ∷ ns) = (In n ns → ⊥) × Distinct ns

-- Positive and distinct.
pub record IsIdList (ns : List ℕ) : Type 0 where
  pub positive : All (λ n. 0 < n) ns
  pub distinct : Distinct ns

-- `P` of the ids, where there are ids.
abbrev pub OnIds : (List ℕ → Type 0) → Parsed → Type 0
OnIds P (ids ns) = P ns
OnIds P no_field = Unit
OnIds P no_id = Unit
OnIds P (bad_part p) = Unit

and_then-OnIds :
    (P Q : List ℕ → Type 0) (p : Parsed) (f : List ℕ → Parsed)
    → OnIds P p
    → ((ns : List ℕ) → P ns → OnIds Q (f ns))
    → OnIds Q (and_then p f)
and_then-OnIds P Q (ids ns) f h k = k ns h
and_then-OnIds P Q no_field f h k = tt
and_then-OnIds P Q no_id f h k = tt
and_then-OnIds P Q (bad_part p) f h k = tt

Distinct-append : (ns : List ℕ) (n : ℕ) → Distinct ns → (In n ns → ⊥) → Distinct (ns ++ n ∷ [])
Distinct-append [] n d h = (λ m. m, tt)
Distinct-append (x ∷ xs) n d h = (
  λ m. elim (In-append xs (n ∷ []) x m) [
    | inl a ↦ d.0 a
    | inr b ↦ elim b [ inl e ↦ h (inl (sym e)) | inr z ↦ z ]
  ],
  Distinct-append xs n d.1 (λ m. h (inr m)),
)

positive_lem : (o : Option ℤ) (n : ℕ) → positive o ≡ some n → 0 < n
positive_lem none n e = absurd (cc)
positive_lem (some (negsuc k)) n e = absurd (cc)
positive_lem (some (pos k)) n e = ground arith

add_new-IsIdList : (n : ℕ) (out : List ℕ) → 0 < n → IsIdList out → IsIdList (add_new n out)
add_new-IsIdList n out h d = elim (Bool-cases (any (λ k. k == n) out)) [
  | inl e ↦ rw e d
  | inr e ↦ rw e (record {
    positive = All-append (λ k. 0 < k) out (n ∷ []) d.positive (h, tt);
    distinct =
        Distinct-append out n d.distinct
          λ m. absurd (let seen = In-any (λ k. k == n) out n m (ground arith) in cc);
  })
]

add_part-OnIds : (p out : List ℕ) → IsIdList out → OnIds IsIdList (add_part p out)
unfolding add_part
add_part-OnIds [] out d = d
add_part-OnIds (c ∷ cs) out d = elim (Option-cases (positive (atoi (c ∷ cs)))) [
  | inl e ↦ rw e tt
  | inr (n, e) ↦ rw e (add_new-IsIdList n out (positive_lem (atoi (c ∷ cs)) n e) d)
]

add_parts-OnIds :
    (ps : List (List ℕ)) (out : List ℕ) → IsIdList out → OnIds IsIdList (add_parts ps out)
unfolding add_parts
add_parts-OnIds [] out d = d
add_parts-OnIds (p ∷ ps) out d =
    and_then-OnIds _ _ (add_part (trim is_space p) out) (add_parts ps)
      (add_part-OnIds (trim is_space p) out d) (add_parts-OnIds ps)

add_fields-OnIds :
    (fs : List (List ℕ)) (out : List ℕ) → IsIdList out → OnIds IsIdList (add_fields fs out)
unfolding add_fields
add_fields-OnIds [] out d = d
add_fields-OnIds (f ∷ fs) out d =
    and_then-OnIds _ _ (add_parts (split b',' f) out) (add_fields fs)
      (add_parts-OnIds (split b',' f) out d) (add_fields-OnIds fs)

some_id-OnIds : (ns : List ℕ) → IsIdList ns → OnIds (λ ms. IsIdList ms × (ms ≢ [])) (some_id ns)
some_id-OnIds [] d = tt
some_id-OnIds (n ∷ ns) d = (d, λ e. absurd (cc))

parsed-OnIds :
    (fields : List (List ℕ)) → OnIds (λ ms. IsIdList ms × (ms ≢ [])) (parse_suite_ids fields)
unfolding parse_suite_ids
parsed-OnIds [] = tt
parsed-OnIds (f ∷ fs) =
    and_then-OnIds _ _ (add_fields (f ∷ fs) []) some_id
      (add_fields-OnIds (f ∷ fs) [] (record { positive = tt; distinct = tt })) some_id-OnIds

-- The suite ids that a form is read as are positive, no id stands twice, and there is one at least.
pub parse_suite_ids-IsIdList :
    (fields : List (List ℕ)) (ns : List ℕ)
    → parse_suite_ids fields ≡ ids ns
    → IsIdList ns × (ns ≢ [])
parse_suite_ids-IsIdList fields ns e =
    subst (OnIds (λ ms. IsIdList ms × (ms ≢ []))) e (parsed-OnIds fields)
