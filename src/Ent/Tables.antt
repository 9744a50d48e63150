-- ===== src/Ent/Tables.antt =====
-- What the calls of Ent/Store do to one row of a table.
use ctf_koth_evals_template.Prelude.{
  ℕ, zero, suc, ◌≡◌, refl, subst, ap, ◌∙◌, inl, inr, Bool, true, some, List, [], ◌∷◌, In, All,
  select, any, find_first, false, get_elem?, map, Bool-cases, if◌then◌else◌,
}
use ctf_koth_evals_template.Ent.Store.{rewrite}

module _ {A : Type 0} (p : A → Bool) where
  pub In-select : (rs : List A) (q : A) → In q rs → p q ≡ true → In q (select p rs)
  In-select [] q m h = elim m [ ]
  In-select (r ∷ rs) q (inl e) h = rw (ap p e ∙ h) (inl e)
  In-select (r ∷ rs) q (inr m) h = elim (Bool-cases (p r)) [
    | inl t ↦ rw t (inr (In-select rs q m h))
    | inr f ↦ rw f (In-select rs q m h)
  ]

  -- Where a row that passes the test stands, the rewritten table has the rewritten row.
  pub get_elem?-rewrite :
      (f : A → A) (rs : List A) (k : ℕ) (r : A)
      → get_elem? rs k ≡ some r
      → get_elem? (rewrite p f rs) k ≡ some (if p r then f r else r)
  unfolding rewrite
  get_elem?-rewrite f [] k r e = absurd (cc)
  get_elem?-rewrite f (x ∷ rs) zero r e =
      let same : x ≡ r = cc in ap (λ y. some (if p y then f y else y)) same
  get_elem?-rewrite f (x ∷ rs) (suc k) r e = get_elem?-rewrite f rs k r e

  pub any-In : (xs : List A) → any p xs ≡ true → (a : A) × In a xs × (p a ≡ true)
  any-In [] e = absurd (cc)
  any-In (x ∷ xs) e = elim (Bool-cases (p x)) [
    | inl t ↦ (x, inl refl, t)
    | inr f ↦
        let (a, m, h) = any-In xs (subst (λ b. (if b then true else any p xs) ≡ true) f e) in
        (a, inr m, h)
  ]

  pub In-any : (xs : List A) (a : A) → In a xs → p a ≡ true → any p xs ≡ true
  In-any [] a m h = elim m [ ]
  In-any (x ∷ xs) a (inl e) h = rw (ap p e ∙ h)
  In-any (x ∷ xs) a (inr m) h = elim (Bool-cases (p x)) [
    | inl t ↦ rw t
    | inr f ↦ rw f (In-any xs a m h)
  ]

pub find_first-In :
    {A : Type 0} (p : A → Bool) (xs : List A) (a : A)
    → find_first p xs ≡ some a
    → In a xs × (p a ≡ true)
find_first-In p [] a e = absurd (cc)
find_first-In {A} p (x ∷ xs) a e = found (find_first-In p xs a) (p x) refl e
  where
    found :
        (find_first p xs ≡ some a → In a xs × (p a ≡ true))
        → (b : Bool) → p x ≡ b
        → (if b then some x else find_first p xs) ≡ some a
        → In a (x ∷ xs) × (p a ≡ true)
    found rest true t h = let same : x ≡ a = cc in (inl same, subst (λ y. p y ≡ true) same t)
    found rest false t h = (inr (rest h).0, (rest h).1)

pub map-In :
    {A B : Type 0} (f : A → B) (xs : List A) (b : B)
    → In b (map f xs)
    → (a : A) × In a xs × (f a ≡ b)
map-In f [] b m = elim m [ ]
map-In f (x ∷ xs) b (inl e) = (x, inl refl, e)
map-In f (x ∷ xs) b (inr m) = let (a, n, e) = map-In f xs b m in (a, inr n, e)

pub In-map : {A B : Type 0} (f : A → B) (xs : List A) (a : A) → In a xs → In (f a) (map f xs)
In-map f [] a m = elim m [ ]
In-map f (x ∷ xs) a (inl e) = inl (ap f e)
In-map f (x ∷ xs) a (inr m) = inr (In-map f xs a m)

pub get_elem?-All :
    {A : Type 0} (P : A → Type 0) (xs : List A) (k : ℕ) (a : A)
    → All P xs
    → get_elem? xs k ≡ some a
    → P a
get_elem?-All P [] k a h e = absurd (cc)
get_elem?-All P (x ∷ xs) zero a h e = let same : x ≡ a = cc in subst P same h.0
get_elem?-All P (x ∷ xs) (suc k) a h e = get_elem?-All P xs k a h.1 e

pub get_elem?-In : {A : Type 0} (xs : List A) (k : ℕ) (a : A) → get_elem? xs k ≡ some a → In a xs
get_elem?-In [] k a e = absurd (cc)
get_elem?-In (x ∷ xs) zero a e = inl (cc)
get_elem?-In (x ∷ xs) (suc k) a e = inr (get_elem?-In xs k a e)

module _ {A : Type 0} (p : A → Bool) (f : A → A) where
  -- The rewritten table has the rewritten rows and no others.
  pub In-rewrite : (rs : List A) (r : A) → In r rs → In (if p r then f r else r) (rewrite p f rs)
  unfolding rewrite
  In-rewrite [] r m = elim m [ ]
  In-rewrite (x ∷ rs) r (inl e) = inl (ap (λ y. if p y then f y else y) e)
  In-rewrite (x ∷ rs) r (inr m) = inr (In-rewrite rs r m)

  pub rewrite-In :
      (rs : List A) (q : A)
      → In q (rewrite p f rs)
      → (r : A) × In r rs × ((if p r then f r else r) ≡ q)
  unfolding rewrite
  rewrite-In [] q m = elim m [ ]
  rewrite-In (x ∷ rs) q (inl e) = (x, inl refl, e)
  rewrite-In (x ∷ rs) q (inr m) = let (r, n, e) = rewrite-In rs q m in (r, inr n, e)
