-- ===== src/Bundle/Path/Inside.antt =====
-- writeEntry's check: a path that passes it stays below the root that it is joined to.
use mathlib.Core.List.{
  reverse, reverse_aux, reverse-cons, reverse-append, reverse-reverse, reverse_aux-eq, append-nil,
}
use ctf_koth_evals_template.Prelude.{
  ℕ, zero, suc, ◌≡◌, refl, sym, ap, ◌∙◌, subst, Bool, true, false, List, [], ◌∷◌, ◌++◌, All,
  All-reverse, if◌then◌else◌, Bool-cases, arith, inl, inr,
}
use ctf_koth_evals_template.Go.Text.{split}
use ctf_koth_evals_template.Bundle.Path.{
  Part, dots, is_dots, is_void, go_up, push, push_all, is_rooted, resolve, join_parts, or_dot,
  render, clean, join, starts_with_dots, is_unsafe,
}
use ctf_koth_evals_template.Bundle.Path.Parts.{Lacks, split-append, split-Lacks, split-join_parts}

-- A part that names something in the directory: neither "", "." nor "..", and without a slash.
abbrev pub IsName : Part → Type 0
IsName p = (is_void p ≡ false) × (is_dots p ≡ false) × Lacks b'/' p

abbrev climb : ℕ → List Part
climb zero = []
climb (suc n) = dots ∷ climb n

-- Names, and only below them a number of "..".
record Shape (stack : List Part) : Type 0 where
  pub names : List Part
  pub up : ℕ
  pub form : stack ≡ names ++ climb up
  pub are_names : All IsName names

go_up-Shape :
    (rooted : Bool) (stack : List Part) (names : List Part) (n : ℕ)
    → stack ≡ names ++ climb n
    → All IsName names
    → Shape (go_up rooted stack)
go_up-Shape true stack [] zero e h =
    rw e (record { names = []; up = 0; form = refl; are_names = tt })
go_up-Shape false stack [] zero e h =
    rw e (record { names = []; up = 1; form = refl; are_names = tt })
go_up-Shape rooted stack [] (suc n) e h =
    rw e (record { names = []; up = suc (suc n); form = refl; are_names = tt })
go_up-Shape rooted stack (q ∷ qs) n e h =
    rw (e, h.0.1) (record { names = qs; up = n; form = refl; are_names = h.1 })

push-Shape :
    (rooted : Bool) (p : Part) (stack : List Part)
    → Lacks b'/' p
    → Shape stack
    → Shape (push rooted p stack)
push-Shape rooted p stack lacks s = elim (Bool-cases (is_void p)) [
  | inl v ↦ rw v s
  | inr v ↦ elim (Bool-cases (is_dots p)) [
    | inl d ↦ rw (v, d) (go_up-Shape rooted stack s.names s.up s.form s.are_names)
    | inr d ↦
        rw (v, d)
          (record {
            names = p ∷ s.names;
            up = s.up;
            form = ap (λ l. p ∷ l) s.form;
            are_names = ((v, d, lacks), s.are_names);
          })
  ]
]

push_all-Shape :
    (rooted : Bool) (ps stack : List Part)
    → All (Lacks b'/') ps
    → Shape stack
    → Shape (push_all rooted stack ps)
unfolding push_all
push_all-Shape rooted [] stack h s = s
push_all-Shape rooted (p ∷ ps) stack h s =
    push_all-Shape rooted ps (push rooted p stack) h.1 (push-Shape rooted p stack h.0 s)

push_all-append :
    (rooted : Bool) (xs ys stack : List Part)
    → push_all rooted stack (xs ++ ys) ≡ push_all rooted (push_all rooted stack xs) ys
unfolding push_all
push_all-append rooted [] ys stack = refl
push_all-append rooted (x ∷ xs) ys stack = push_all-append rooted xs ys (push rooted x stack)

push_all-names :
    (rooted : Bool) (ps stack : List Part)
    → All IsName ps
    → push_all rooted stack ps ≡ reverse_aux ps stack
unfolding push_all
push_all-names rooted [] stack h = refl
push_all-names rooted (p ∷ ps) stack h =
    rw (h.0.0, h.0.1) (push_all-names rooted ps (p ∷ stack) h.1)

climb-snoc : (n : ℕ) → climb n ++ dots ∷ [] ≡ dots ∷ climb n
climb-snoc zero = refl
climb-snoc (suc n) = ap (λ l. dots ∷ l) (climb-snoc n)

dots_first : (ps : List Part) → starts_with_dots (join_parts (dots ∷ ps)) ≡ true
unfolding join_parts
dots_first [] = refl
dots_first (p ∷ ps) = refl

climb-reverse : (n : ℕ) → reverse (climb n) ≡ climb n
climb-reverse zero = refl
climb-reverse (suc n) =
    reverse-cons dots (climb n) ∙ ap (λ l. l ++ dots ∷ []) (climb-reverse n) ∙ climb-snoc n

-- A path that goes up begins with "..".
climb_first :
    (n : ℕ) (ps : List Part) → starts_with_dots (join_parts (reverse (ps ++ climb (suc n)))) ≡ true
climb_first n ps =
    ap (λ l. starts_with_dots (join_parts l))
      (reverse-append ps (climb (suc n)) ∙ ap (λ l. l ++ reverse ps) (climb-reverse (suc n)))
    ∙ dots_first (climb n ++ reverse ps)

-- The text that passes the check is not rooted and does not begin with "..".
passes :
    (rooted : Bool) (text : List ℕ)
    → is_unsafe (or_dot (if rooted then b'/' ∷ text else text)) ≡ false
    → (rooted ≡ false) × (starts_with_dots text ≡ false)
passes true [] e = absurd (cc)
passes true (c ∷ text) e = absurd (cc)
passes false [] e = (refl, refl)
passes false (c ∷ []) e = (refl, refl)
passes false (c ∷ d ∷ text) e = (refl, ground arith)

-- What is left of a path that passes the check is names.
left_names :
    (stack : List Part)
    → Shape stack
    → starts_with_dots (join_parts (reverse stack)) ≡ false
    → All IsName (reverse stack)
left_names stack s e = by_height s.up s.form
  where
    by_height : (n : ℕ) → stack ≡ s.names ++ climb n → All IsName (reverse stack)
    by_height zero f =
        let only_names : stack ≡ s.names = f ∙ append-nil s.names in
        subst (λ l. All IsName (reverse l)) (sym only_names)
          (All-reverse IsName s.names s.are_names)
    by_height (suc n) f = absurd (
        let bad =
          sym (ap (λ l. starts_with_dots (join_parts (reverse l))) f ∙ climb_first n s.names) ∙ e in
        cc)

no_parts : Shape []
no_parts = record { names = []; up = 0; form = refl; are_names = tt }

resolve-names :
    (path : List ℕ)
    → is_unsafe (clean path) ≡ false
    → (is_rooted path ≡ false) × All IsName (resolve path)
unfolding resolve clean
resolve-names path e =
    let (not_rooted, no_dots) = passes (is_rooted path) (join_parts (resolve path)) e in
    let stack = push_all (is_rooted path) [] (split b'/' path) in
    (
      not_rooted,
      left_names stack
          (push_all-Shape (is_rooted path) (split b'/' path) [] (split-Lacks b'/' path) no_parts)
          no_dots,
    )

lacking : (ps : List Part) → All IsName ps → All (Lacks b'/') ps
lacking [] h = tt
lacking (p ∷ ps) h = (h.0.2, lacking ps h.1)

not_empty :
    (c : ℕ) (cs : List ℕ) (ps : List Part)
    → or_dot (join_parts ((c ∷ cs) ∷ ps)) ≡ join_parts ((c ∷ cs) ∷ ps)
unfolding join_parts
not_empty c cs [] = refl
not_empty c cs (p ∷ ps) = refl

-- The parts of the cleaned text are put on the stack as they are.
push_all-clean :
    (rooted : Bool) (ps stack : List Part)
    → All IsName ps
    → push_all rooted stack (split b'/' (or_dot (join_parts ps))) ≡ reverse_aux ps stack
unfolding push_all split join_parts
push_all-clean rooted [] stack h = refl
push_all-clean rooted ([] ∷ ps) stack h = absurd (let v = h.0.0 in cc)
push_all-clean rooted ((c ∷ cs) ∷ ps) stack h =
    ap (λ t. push_all rooted stack (split b'/' t)) (not_empty c cs ps)
    ∙ ap (push_all rooted stack) (split-join_parts (c ∷ cs) ps (lacking ((c ∷ cs) ∷ ps) h))
    ∙ push_all-names rooted ((c ∷ cs) ∷ ps) stack h

resolve-join :
    (c : ℕ) (cs path : List ℕ)
    → is_unsafe (clean path) ≡ false
    → resolve ((c ∷ cs) ++ (b'/' ∷ clean path)) ≡ resolve (c ∷ cs) ++ resolve path
unfolding resolve
resolve-join c cs path e =
    let rooted = is_rooted (c ∷ cs) in
    let stack = push_all rooted [] (split b'/' (c ∷ cs)) in
    let (not_rooted, names) = resolve-names path e in
    let cleaned : clean path ≡ or_dot (join_parts (resolve path)) =
      (unfold clean in ap (λ b. render b (resolve path)) not_rooted) in
    ap (λ l. reverse (push_all rooted [] l)) (split-append b'/' (c ∷ cs) (clean path))
    ∙ ap reverse (push_all-append rooted (split b'/' (c ∷ cs)) (split b'/' (clean path)) [])
    ∙ ap (λ t. reverse (push_all rooted stack (split b'/' t))) cleaned
    ∙ ap reverse
        (push_all-clean rooted (resolve path) stack names ∙ reverse_aux-eq (resolve path) stack)
    ∙ reverse-append (reverse (resolve path)) stack
    ∙ ap (λ l. reverse stack ++ l) (reverse-reverse (resolve path))

-- Whatever name stands in a tarball, if the cleaned name passes the check of writeEntry, then the
-- file that is written has the path of the root followed by names, none of which is "..": it lies in
-- the root, below it or is it.
pub join-clean :
    (c : ℕ) (cs path : List ℕ)
    → is_unsafe (clean path) ≡ false
    → All IsName (resolve path)
      × (join (c ∷ cs) (clean path)
          ≡ render (is_rooted (c ∷ cs)) (resolve (c ∷ cs) ++ resolve path))
join-clean c cs path e = (
  (resolve-names path e).1,
  (unfold join in unfold clean in ap (render (is_rooted (c ∷ cs))) (resolve-join c cs path e)),
)
