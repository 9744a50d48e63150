-- ===== src/Server/Slug/Shape.antt =====
-- What slug makes is a safe file name, whatever the suite is called.
use mathlib.Core.List.{reverse, reverse_aux, map}
use ctf_koth_evals_template.Prelude.{
  ℕ, String, ◌≡◌, refl, Bool, true, false, ◌&&◌, ◌||◌, List, [], ◌∷◌, All, All-reverse,
  if◌then◌else◌, Bool-cases, arith, inl, inr, ◌≢◌,
}
use ctf_koth_evals_template.Go.Text.{codes, trim, trim_left}
use ctf_koth_evals_template.Server.Slug.{lower, is_alnum, dashed, is_dash, or_suite, slug}

-- A small letter, a digit or a dash.
abbrev pub IsSafe : ℕ → Type 0
IsSafe c = (is_alnum c || is_dash c) ≡ true

-- Not both are dashes.
abbrev pub Apart : ℕ → ℕ → Type 0
Apart a b = (is_dash a && is_dash b) ≡ false

-- No two dashes side by side.
abbrev pub IsCollapsed : List ℕ → Type 0
IsCollapsed [] = Unit
IsCollapsed (a ∷ []) = Unit
IsCollapsed (a ∷ b ∷ l) = Apart a b × IsCollapsed (b ∷ l)

abbrev pub NotFirst : List ℕ → Type 0
NotFirst [] = Unit
NotFirst (a ∷ l) = is_dash a ≡ false

abbrev pub NotLast : List ℕ → Type 0
NotLast [] = Unit
NotLast (a ∷ []) = is_dash a ≡ false
NotLast (a ∷ b ∷ l) = NotLast (b ∷ l)

-- The heads of two lists are apart.
abbrev Meet : List ℕ → List ℕ → Type 0
Meet [] ys = Unit
Meet (x ∷ xs) [] = Unit
Meet (x ∷ xs) (y ∷ ys) = Apart x y

Apart-sym : (a b : ℕ) → Apart a b → Apart b a
Apart-sym a b h = ground arith

IsCollapsed-cons :
    (x : ℕ) (ys : List ℕ) (xs : List ℕ) → Meet (x ∷ xs) ys → IsCollapsed ys → IsCollapsed (x ∷ ys)
IsCollapsed-cons x [] xs m h = tt
IsCollapsed-cons x (y ∷ ys) xs m h = (m, h)

reverse_aux-IsCollapsed :
    (xs ys : List ℕ)
    → IsCollapsed xs
    → IsCollapsed ys
    → Meet xs ys
    → IsCollapsed (reverse_aux xs ys)
reverse_aux-IsCollapsed [] ys h k m = k
reverse_aux-IsCollapsed (x ∷ []) ys h k m = IsCollapsed-cons x ys [] m k
reverse_aux-IsCollapsed (x ∷ y ∷ xs) ys h k m =
    reverse_aux-IsCollapsed (y ∷ xs) (x ∷ ys) h.1 (IsCollapsed-cons x ys (y ∷ xs) m k)
      (Apart-sym x y h.0)

Meet-nil : (xs : List ℕ) → Meet xs []
Meet-nil [] = tt
Meet-nil (x ∷ xs) = tt

reverse-IsCollapsed : (xs : List ℕ) → IsCollapsed xs → IsCollapsed (reverse xs)
reverse-IsCollapsed xs h = reverse_aux-IsCollapsed xs [] h tt (Meet-nil xs)

-- Behind a list that is not empty.
reverse_aux-NotLast :
    (xs : List ℕ) (y : ℕ) (ys : List ℕ) → NotLast (y ∷ ys) → NotLast (reverse_aux xs (y ∷ ys))
reverse_aux-NotLast [] y ys h = h
reverse_aux-NotLast (x ∷ xs) y ys h = reverse_aux-NotLast xs x (y ∷ ys) h

reverse-NotLast : (xs : List ℕ) → NotFirst xs → NotLast (reverse xs)
reverse-NotLast [] h = tt
reverse-NotLast (x ∷ xs) h = reverse_aux-NotLast xs x [] h

reverse_aux-NotFirst :
    (x : ℕ) (xs ys : List ℕ) → NotLast (x ∷ xs) → NotFirst (reverse_aux (x ∷ xs) ys)
reverse_aux-NotFirst x [] ys h = h
reverse_aux-NotFirst x (y ∷ xs) ys h = reverse_aux-NotFirst y xs (x ∷ ys) h

reverse-NotFirst : (xs : List ℕ) → NotLast xs → NotFirst (reverse xs)
reverse-NotFirst [] h = tt
reverse-NotFirst (x ∷ xs) h = reverse_aux-NotFirst x xs [] h

module _ (P : List ℕ → Type 0) (tail : (x : ℕ) (xs : List ℕ) → P (x ∷ xs) → P xs) where
  -- What holds of every list's tail holds after the cut.
  trim_left_keeps : (cut : ℕ → Bool) (xs : List ℕ) → P xs → P (trim_left cut xs)
  unfolding trim_left
  trim_left_keeps cut [] h = h
  trim_left_keeps cut (x ∷ xs) h = elim (Bool-cases (cut x)) [
    | inl e ↦ rw e (trim_left_keeps cut xs (tail x xs h))
    | inr e ↦ rw e h
  ]

IsCollapsed-tail : (x : ℕ) (xs : List ℕ) → IsCollapsed (x ∷ xs) → IsCollapsed xs
IsCollapsed-tail x [] h = tt
IsCollapsed-tail x (y ∷ xs) h = h.1

NotLast-tail : (x : ℕ) (xs : List ℕ) → NotLast (x ∷ xs) → NotLast xs
NotLast-tail x [] h = tt
NotLast-tail x (y ∷ xs) h = h

trim_left-NotFirst : (xs : List ℕ) → NotFirst (trim_left is_dash xs)
unfolding trim_left
trim_left-NotFirst [] = tt
trim_left-NotFirst (x ∷ xs) = elim (Bool-cases (is_dash x)) [
  | inl e ↦ rw e (trim_left-NotFirst xs)
  | inr e ↦ rw e e
]

alnum_not_dash : (c : ℕ) → is_alnum c ≡ true → is_dash c ≡ false
alnum_not_dash c h = ground arith

dashed-NotFirst : (cs : List ℕ) → NotFirst (dashed true cs)
unfolding dashed
dashed-NotFirst [] = tt
dashed-NotFirst (c ∷ cs) = elim (Bool-cases (is_alnum c)) [
  | inl e ↦ rw e (alnum_not_dash c e)
  | inr e ↦ rw e (dashed-NotFirst cs)
]

dashed-All : (prev : Bool) (cs : List ℕ) → All IsSafe (dashed prev cs)
unfolding dashed
dashed-All prev [] = tt
dashed-All prev (c ∷ cs) = elim (Bool-cases (is_alnum c)) [
  | inl e ↦ rw e ((rw e refl), dashed-All false cs)
  | inr e ↦ rw e (kept prev (dashed-All true cs))
]
  where
    kept :
        (b : Bool)
        → All IsSafe (dashed true cs)
        → All IsSafe (if b then dashed true cs else b'-' ∷ dashed true cs)
    kept true h = h
    kept false h = (refl, h)

kept_then : (c : ℕ) (l : List ℕ) → is_dash c ≡ false → IsCollapsed l → IsCollapsed (c ∷ l)
kept_then c [] e h = tt
kept_then c (x ∷ l) e h = (rw e refl, h)

dash_then : (l : List ℕ) → NotFirst l → IsCollapsed l → IsCollapsed (b'-' ∷ l)
dash_then [] e h = tt
dash_then (x ∷ l) e h = (rw e refl, h)

dashed-IsCollapsed : (prev : Bool) (cs : List ℕ) → IsCollapsed (dashed prev cs)
unfolding dashed
dashed-IsCollapsed prev [] = tt
dashed-IsCollapsed prev (c ∷ cs) = elim (Bool-cases (is_alnum c)) [
  | inl e ↦ rw e (kept_then c (dashed false cs) (alnum_not_dash c e) (dashed-IsCollapsed false cs))
  | inr e ↦ rw e (kept prev (dashed-IsCollapsed true cs))
]
  where
    kept :
        (b : Bool)
        → IsCollapsed (dashed true cs)
        → IsCollapsed (if b then dashed true cs else b'-' ∷ dashed true cs)
    kept true h = h
    kept false h = dash_then (dashed true cs) (dashed-NotFirst cs) h

pub record IsSlug (s : List ℕ) : Type 0 where
  pub not_empty : s ≢ []
  pub safe : All IsSafe s
  pub collapsed : IsCollapsed s
  pub not_first : NotFirst s
  pub not_last : NotLast s

or_suite-IsSlug :
    (s : List ℕ) → All IsSafe s → IsCollapsed s → NotFirst s → NotLast s → IsSlug (or_suite s)
or_suite-IsSlug [] h k m n = record {
  not_empty = λ e. cc;
  safe = (refl, (refl, (refl, (refl, (refl, tt)))));
  collapsed = (refl, (refl, (refl, (refl, tt))));
  not_first = refl;
  not_last = refl;
}
or_suite-IsSlug (c ∷ cs) h k m n = record {
  not_empty = λ e. cc;
  safe = h;
  collapsed = k;
  not_first = m;
  not_last = n;
}

-- The slug of any name is not empty, holds small letters, digits and dashes only, has no two
-- dashes side by side, and neither begins nor ends with one.
pub slug-IsSlug : (name : String) → IsSlug (slug name)
unfolding slug trim
slug-IsSlug name =
    let lowered : List ℕ = map lower (codes name) in
    let text : List ℕ = dashed false lowered in
    let front = trim_left is_dash text in
    let back = trim_left is_dash (reverse front) in
    or_suite-IsSlug (reverse back)
      (All-reverse IsSafe back (
        trim_left_keeps (All IsSafe) (λ x xs h. h.1) is_dash (reverse front)
          (All-reverse IsSafe front (
            trim_left_keeps (All IsSafe) (λ x xs h. h.1) is_dash text (dashed-All false lowered)))))
      (reverse-IsCollapsed back (
        trim_left_keeps IsCollapsed IsCollapsed-tail is_dash (reverse front) (
          reverse-IsCollapsed front (
            trim_left_keeps IsCollapsed IsCollapsed-tail is_dash text
              (dashed-IsCollapsed false lowered)))))
      (reverse-NotFirst back (
        trim_left_keeps NotLast NotLast-tail is_dash (reverse front)
          (reverse-NotLast front (trim_left-NotFirst text))))
      (reverse-NotLast back (trim_left-NotFirst (reverse front)))
