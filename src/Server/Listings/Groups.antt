-- ===== src/Server/Listings/Groups.antt =====
-- The groups of the query of listSubmissions: their sums over a class of runs, and the map of counts
-- that is made of them.
use mathlib.Core.List.Permᴰ.{Permᴰ}
use ctf_koth_evals_template.Prelude.{
  ℕ, ◌+◌, ◌≡◌, refl, ap, ◌∙◌, Bool, true, false, ◌&&◌, List, [], ◌∷◌, ◌==◌, if◌then◌else◌, tally,
  Bool-cases, arith, inl, inr,
}
use ctf_koth_evals_template.Ent.Status.{Status, status_eq, status_eq_sound}
use ctf_koth_evals_template.Ent.Schema.{Run}
use ctf_koth_evals_template.Wireapi.{RunCounts}
use ctf_koth_evals_template.Server.Counts.{no_counts, add_count}
use ctf_koth_evals_template.Server.Listings.{CountRow, same_group, count_in, group_counts, add_row}

-- A class of runs: by their submission and status.
abbrev pub Class : Type 0
Class = ℕ → Status → Bool

abbrev pub sum_by : Class → List CountRow → ℕ
sum_by q [] = 0
sum_by q (c ∷ cs) = (if q c.submission c.status then c.n else 0) + sum_by q cs

abbrev pub of_class : Class → Run → Bool
of_class q r = q r.submission r.status

one_more :
    (b c : Bool) (n rest : ℕ)
    → b ≡ c
    → (if b then n + 1 else 0) + rest ≡ (if c then 1 else 0) + ((if b then n else 0) + rest)
one_more true c n rest e = rw (← e) (omega arith)
one_more false c n rest e = rw (← e) (omega arith)

same_class : (q : Class) (a b : ℕ) (s t : Status) → (a == b && status_eq s t) ≡ true → q a s ≡ q b t
same_class q a b s t h =
    let same_key : a ≡ b = ground arith in
    let same_status : s ≡ t = status_eq_sound s t (ground arith) in
    ap (λ n. q n s) same_key ∙ ap (q b) same_status

sum_by-count_in :
    (q : Class) (r : Run) (cs : List CountRow)
    → sum_by q (count_in r cs) ≡ (if of_class q r then 1 else 0) + sum_by q cs
unfolding count_in
sum_by-count_in q r [] = omega arith
sum_by-count_in q r (c ∷ cs) = elim (Bool-cases (same_group r c)) [
  | inl e ↦ rw e (
      one_more (q c.submission c.status) (q r.submission r.status) c.n (sum_by q cs)
        (same_class q c.submission r.submission c.status r.status e))
  | inr e ↦ rw e (omega (arith, sum_by-count_in q r cs))
]

pub sum_by-group_counts :
    (q : Class) (rs : List Run) → sum_by q (group_counts rs) ≡ tally (of_class q) rs
unfolding group_counts
sum_by-group_counts q [] = refl
sum_by-group_counts q (r ∷ rs) =
    omega (arith, sum_by-count_in q r (group_counts rs), sum_by-group_counts q rs)

pub sum_by-Permᴰ : {xs ys : List CountRow} (q : Class) → Permᴰ xs ys → sum_by q xs ≡ sum_by q ys
sum_by-Permᴰ q Permᴰ.nil = refl
sum_by-Permᴰ q (Permᴰ.cons {a} {b} e p) =
    omega
      (arith, ap (λ (c : CountRow). if q c.submission c.status then c.n else 0) e, sum_by-Permᴰ q p)
sum_by-Permᴰ q (Permᴰ.swap e f) = omega (
  arith,
  ap (λ (c : CountRow). if q c.submission c.status then c.n else 0) e,
  ap (λ (c : CountRow). if q c.submission c.status then c.n else 0) f,
)
sum_by-Permᴰ q (Permᴰ.trans p r) = sum_by-Permᴰ q p ∙ sum_by-Permᴰ q r

-- The count of a key, none for one that is not in the map.
abbrev pub count_at : ℕ → List (ℕ × RunCounts) → RunCounts
count_at k [] = no_counts
count_at k ((id, rc) ∷ rest) = if id == k then rc else count_at k rest

abbrev pub add_if : Bool → Status → ℕ → RunCounts → RunCounts
add_if true s n rc = add_count s n rc
add_if false s n rc = rc

pub count_at-add_row :
    (k : ℕ) (c : CountRow) (m : List (ℕ × RunCounts))
    → count_at k (add_row c m) ≡ add_if (c.submission == k) c.status c.n (count_at k m)
unfolding add_row
count_at-add_row k c [] = elim (Bool-cases (c.submission == k)) [ inl e ↦ rw e | inr e ↦ rw e ]
count_at-add_row k c ((id, rc) ∷ m) = elim (Bool-cases (id == c.submission)) [
  | inl e ↦
      let same : c.submission ≡ id = ground arith in
      elim (Bool-cases (id == k)) [
        | inl t ↦ rw (e, t, ap (λ n. n == k) same ∙ t)
        | inr t ↦ rw (e, t, ap (λ n. n == k) same ∙ t)
      ]
  | inr e ↦ elim (Bool-cases (id == k)) [
    | inl t ↦ let other : (c.submission == k) ≡ false = ground arith in rw (e, t, other)
    | inr t ↦ rw (e, t) (count_at-add_row k c m)
  ]
]
