-- ===== src/Server/Lifecycle/Rows.antt =====
-- Tables of runs under the client's updates: what evolves, and what the invariant gives.
use ctf_koth_evals_template.Prelude.{
  ℕ, ◌==◌, ◌+◌, ◌≤◌, ◌≡◌, ◌⊎◌, refl, sym, ap, ◌∙◌, inl, inr, subst, Bool, true, false, List, [],
  ◌∷◌, ◌++◌, arith, All, In, select, Bool-cases, if◌then◌else◌,
}
use ctf_koth_evals_template.Ent.Schema.{Run, Db}
use ctf_koth_evals_template.Ent.Store.{ok, err, not_found, only, rewrite}
use ctf_koth_evals_template.Server.Lifecycle.{
  Move, stay, IsValid, Keyed, Inv, IsNew, Evolves, Catalogue, Evolution, Reach, here, next,
}
use ctf_koth_evals_template.Server.Lifecycle.Moves.{Move-IsValid, IsNew-IsValid}

pub Evolves-refl : (rs : List Run) → Evolves rs rs
Evolves-refl [] = tt
Evolves-refl (r ∷ rs) = (stay, Evolves-refl rs)

-- A step that leaves the table of runs alone.
pub runs_kept-Evolution :
    (a b : Db) → a.runs ≡ b.runs → a.next_run ≡ b.next_run → Catalogue a b → Inv a → Evolution a b
runs_kept-Evolution a b runs counter others i = record {
  rows = subst (Evolves a.runs) runs (Evolves-refl a.runs);
  keys = subst (λ n. Keyed 0 n b.runs) counter (subst (Keyed 0 a.next_run) runs i.keyed);
  catalogue = others;
}

-- A bulk update evolves the table if it is a move on each row that it rewrites.
pub rewrite-Evolves :
    (p : Run → Bool) (f : Run → Run) (rs : List Run)
    → ((r : Run) → In r rs → p r ≡ true → Move r (f r))
    → Evolves rs (rewrite p f rs)
unfolding rewrite
rewrite-Evolves p f [] h = tt
rewrite-Evolves p f (r ∷ rs) h = (rewritten (p r) refl, rewrite-Evolves p f rs (λ q m. h q (inr m)))
  where
    rewritten : (b : Bool) → p r ≡ b → Move r (if b then f r else r)
    rewritten true e = h r (inl refl) e
    rewritten false e = stay

-- Keys under a bulk update that keeps them.
pub rewrite-Keyed :
    (p : Run → Bool) (f : Run → Run) (lo hi : ℕ) (rs : List Run)
    → ((r : Run) → (f r).id ≡ r.id)
    → Keyed lo hi rs
    → Keyed lo hi (rewrite p f rs)
unfolding rewrite
rewrite-Keyed p f lo hi [] same k = k
rewrite-Keyed p f lo hi (r ∷ rs) same k = rw kept (k.0, rewrite-Keyed p f (r.id + 1) hi rs same k.1)
  where
    kept : (if p r then f r else r).id ≡ r.id
    kept = elim (Bool-cases (p r)) [ inl e ↦ rw e (same r) | inr e ↦ rw e ]

Keyed-lo : (lo hi : ℕ) (rs : List Run) (q : Run) → Keyed lo hi rs → In q rs → lo ≤ q.id
Keyed-lo lo hi [] q k m = elim m [ ]
Keyed-lo lo hi (r ∷ rs) q k (inl e) = subst (λ (x : Run). lo ≤ x.id) e k.0
Keyed-lo lo hi (r ∷ rs) q k (inr m) = omega (arith, Keyed-lo (r.id + 1) hi rs q k.1 m)

-- A key names one row.
pub Keyed-unique :
    (lo hi : ℕ) (rs : List Run) (p q : Run)
    → Keyed lo hi rs
    → In p rs
    → In q rs
    → p.id ≡ q.id
    → p ≡ q
Keyed-unique lo hi [] p q k m n e = elim m [ ]
Keyed-unique lo hi (r ∷ rs) p q k (inl a) (inl b) e = sym a ∙ b
Keyed-unique lo hi (r ∷ rs) p q k (inl a) (inr n) e =
    let above = Keyed-lo (r.id + 1) hi rs q k.1 n in
    absurd (omega (arith, ap (λ (x : Run). x.id) a))
Keyed-unique lo hi (r ∷ rs) p q k (inr m) (inl b) e =
    let above = Keyed-lo (r.id + 1) hi rs p k.1 m in
    absurd (omega (arith, ap (λ (x : Run). x.id) b))
Keyed-unique lo hi (r ∷ rs) p q k (inr m) (inr n) e = Keyed-unique (r.id + 1) hi rs p q k.1 m n e

pub Keyed-append :
    (lo hi : ℕ) (rs : List Run) (q : Run)
    → q.id ≡ hi
    → Keyed lo hi rs
    → Keyed lo (hi + 1) (rs ++ q ∷ [])
Keyed-append lo hi [] q e k = (omega arith, omega arith)
Keyed-append lo hi (r ∷ rs) q e k = (k.0, Keyed-append (r.id + 1) hi rs q e k.1)

pub append-Evolves : (rs : List Run) (q : Run) → IsNew q → Evolves rs (rs ++ q ∷ [])
append-Evolves [] q n = (n, tt)
append-Evolves (r ∷ rs) q n = (stay, append-Evolves rs q n)

pub Evolves-IsValid : (rs qs : List Run) → Evolves rs qs → All IsValid rs → All IsValid qs
Evolves-IsValid [] [] e v = tt
Evolves-IsValid [] (q ∷ qs) e v = (IsNew-IsValid q e.0, Evolves-IsValid [] qs e.1 v)
Evolves-IsValid (r ∷ rs) [] e v = elim e [ ]
Evolves-IsValid (r ∷ rs) (q ∷ qs) e v = (Move-IsValid e.0 v.0, Evolves-IsValid rs qs e.1 v.1)

pub Evolution-Inv : {a b : Db} → Evolution a b → Inv a → Inv b
Evolution-Inv {a} {b} e i = record {
  keyed = e.keys;
  valid = Evolves-IsValid a.runs b.runs e.rows i.valid;
  submission_keys = e.catalogue.keys;
}

pub Reach-Inv : {a b : Db} → Reach a b → Inv a → Inv b
Reach-Inv here i = i
Reach-Inv (next r e) i = Evolution-Inv e (Reach-Inv r i)

pub Reach-trans : {a b c : Db} → Reach a b → Reach b c → Reach a c
Reach-trans r here = r
Reach-trans r (next s e) = next (Reach-trans r s) e

pub select-In :
    {A : Type 0} (p : A → Bool) (rs : List A) (q : A) → In q (select p rs) → In q rs × (p q ≡ true)
select-In p [] q m = elim m [ ]
select-In {A} p (r ∷ rs) q m = split (select-In p rs q) (p r) refl m
  where
    split :
        (In q (select p rs) → In q rs × (p q ≡ true))
        → (b : Bool) → p r ≡ b
        → In q (if b then r ∷ select p rs else select p rs)
        → In q (r ∷ rs) × (p q ≡ true)
    split rest true e (inl h) = (inl h, subst (λ x. p x ≡ true) h e)
    split rest true e (inr h) = (inr (rest h).0, (rest h).1)
    split rest false e h = (inr (rest h).0, (rest h).1)

pub only-In :
    {A : Type 0} (p : A → Bool) (rs : List A) (q : A) → only p rs ≡ ok q → In q rs × (p q ≡ true)
unfolding only
only-In p [] q e = absurd (cc)
only-In {A} p (r ∷ rs) q e = split (only-In p rs q) (p r) refl e
  where
    split :
        (only p rs ≡ ok q → In q rs × (p q ≡ true))
        → (b : Bool) → p r ≡ b
        → (if b then ok r else only p rs) ≡ ok q
        → In q (r ∷ rs) × (p q ≡ true)
    split rest true h k = let same : r ≡ q = cc in (inl same, subst (λ x. p x ≡ true) same h)
    split rest false h k = (inr (rest k).0, (rest k).1)

only-found :
    (p : Run → Bool) (rs : List Run) (q : Run)
    → In q rs
    → p q ≡ true
    → (r : Run) × (only p rs ≡ ok r)
unfolding only
only-found p [] q m h = elim m [ ]
only-found p (r ∷ rs) q (inl e) h = (r, rw (ap p e ∙ h))
only-found p (r ∷ rs) q (inr m) h = elim (Bool-cases (p r)) [
  | inl t ↦ (r, rw t)
  | inr f ↦ rw f (only-found p rs q m h)
]

pub only-id :
    (db : Db) (q : Run) → Inv db → In q db.runs → only (λ (x : Run). x.id == q.id) db.runs ≡ ok q
only-id db q i m =
    let (r, e) = only-found (λ x. x.id == q.id) db.runs q m (ground arith) in
    let found = only-In (λ (x : Run). x.id == q.id) db.runs r e in
    e ∙ ap ok (Keyed-unique 0 db.next_run db.runs r q i.keyed found.0 m (ground (arith, found.1)))

pub only-cases :
    {A : Type 0} (p : A → Bool) (rs : List A)
    → ((r : A) × In r rs × (p r ≡ true) × (only p rs ≡ ok r))
      ⊎ (((r : A) → In r rs → p r ≡ false) × (only p rs ≡ err not_found))
unfolding only
only-cases p [] = inr (λ r m. elim m [ ], refl)
only-cases {A} p (x ∷ rs) = elim (Bool-cases (p x)) [
  | inl t ↦ inl (x, inl refl, t, rw t)
  | inr f ↦ elim (only-cases p rs) [
    | inl (r, m, h, e) ↦ inl (r, inr m, h, rw f e)
    | inr (h, e) ↦ inr (none_of f h, rw f e)
  ]
]
  where
    none_of :
        p x ≡ false → ((r : A) → In r rs → p r ≡ false) → (r : A) → In r (x ∷ rs) → p r ≡ false
    none_of f h r (inl e) = sym (ap p e) ∙ f
    none_of f h r (inr m) = h r m
