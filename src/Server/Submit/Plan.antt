-- ===== src/Server/Submit/Plan.antt =====
-- What a fan-out adds, whatever the database does: every planned run, or the answer is an error.
use mathlib.Core.List.{append-nil, append_assoc}
use ctf_koth_evals_template.Prelude.{
  In-append, ◌≤◌, ℕ, String, ◌≡◌, refl, sym, ap, ◌∙◌, subst, ◌⊎◌, inl, inr, Bool, true, false, List,
  [], ◌∷◌, ◌++◌, map, All, All-append, In, Bool-cases, arith, ◌==◌, if◌then◌else◌,
}
use ctf_koth_evals_template.Ent.Schema.{Suite, Run, Db}
use ctf_koth_evals_template.Ent.Store.{Fail, ok, rewrite, with_run, new_run, create_run, seal_suite}
use ctf_koth_evals_template.Ent.Tables.{rewrite-In}
use ctf_koth_evals_template.Server.Action.{World, pure, update}
use ctf_koth_evals_template.Server.Outcomes.{Ends, Fails, bind-Ends, pure-Ends, update-Ends}
use ctf_koth_evals_template.Server.Submit.{Wrap, fan_seeds, sealed_db, seal, fan_out}
use ctf_koth_evals_template.Server.Lifecycle.{IsNew}
use ctf_koth_evals_template.Server.Lifecycle.FanOut.{new_run-IsNew}

-- Every seed of every suite.
abbrev pub planned : List Suite → List (ℕ × String)
planned [] = []
planned (s ∷ suites) = map (λ (seed : String). (s.id, seed)) s.seeds ++ planned suites

abbrev pub place : Run → ℕ × String
place r = (r.suite, r.seed)

-- A suite of the later table is one of the earlier table, sealed if it is one of `suites`.
abbrev pub Seals : List Suite → List Suite → List Suite → Type 0
Seals suites before after =
    (x : Suite)
    → In x after
    → (y : Suite) × In y before
      × ((x ≡ y) ⊎ (x ≡ record y { sealed = true }))
      × (In y suites → x.sealed ≡ true)

-- The table of runs has grown by `runs`: one for each entry of `plan`, in its order, all new and
-- of this submission. The suites are sealed, the submissions are what they were.
pub record Fanned (submission : ℕ) (suites : List Suite) (plan : List (ℕ × String)) (before : Db)
    (runs : List Run) (after : Db) : Type 0 where
  pub appended : after.runs ≡ before.runs ++ runs
  pub in_place : map place runs ≡ plan
  pub fresh : All (λ r. IsNew r × (r.submission ≡ submission)) runs
  pub submissions : after.submissions ≡ before.submissions
  pub seals : Seals suites before.suites after.suites

place-append : (xs ys : List Run) → map place (xs ++ ys) ≡ map place xs ++ map place ys
place-append [] ys = refl
place-append (x ∷ xs) ys = ap (λ l. place x ∷ l) (place-append xs ys)

still_sealed :
    (x y : Suite) → (x ≡ y) ⊎ (x ≡ record y { sealed = true }) → y.sealed ≡ true → x.sealed ≡ true
still_sealed x y (inl e) h = ap (λ (s : Suite). s.sealed) e ∙ h
still_sealed x y (inr e) h = ap (λ (s : Suite). s.sealed) e

Seals-refl : (xs : List Suite) → Seals [] xs xs
Seals-refl xs x m = (x, m, inl refl, λ n. elim n [ ])

Seals-append : (s t xs ys zs : List Suite) → Seals s xs ys → Seals t ys zs → Seals (s ++ t) xs zs
Seals-append s t xs ys zs f g z m =
    let (y, my, zy, ty) = g z m in
    let (x, mx, yx, sx) = f y my in
    (
      x,
      mx,
      through zy yx,
      λ n. elim (In-append s t x n) [
        | inl n' ↦ still_sealed z y zy (sx n')
        | inr n' ↦ elim yx [
          | inl e ↦ ty (subst (λ (a : Suite). In a t) (sym e) n')
          | inr e ↦ still_sealed z y zy (ap (λ (a : Suite). a.sealed) e)
        ]
      ],
    )
  where
    through :
        {x y z : Suite}
        → (z ≡ y) ⊎ (z ≡ record y { sealed = true })
        → (y ≡ x) ⊎ (y ≡ record x { sealed = true })
        → (z ≡ x) ⊎ (z ≡ record x { sealed = true })
    through (inl e) (inl h) = inl (e ∙ h)
    through (inl e) (inr h) = inr (e ∙ h)
    through (inr e) (inl h) = inr (e ∙ ap (λ (a : Suite). record a { sealed = true }) h)
    through (inr e) (inr h) = inr (e ∙ ap (λ (a : Suite). record a { sealed = true }) h)

Fanned-append :
    {submission : ℕ} {s t : List Suite} {p q : List (ℕ × String)} {a b c : Db} {rs us : List Run}
    → Fanned submission s p a rs b
    → Fanned submission t q b us c
    → Fanned submission (s ++ t) (p ++ q) a (rs ++ us) c
Fanned-append {submission} {s} {t} {p} {q} {a} {b} {c} {rs} {us} f g = record {
  appended = g.appended ∙ ap (λ x. x ++ us) f.appended ∙ append_assoc a.runs rs us;
  in_place =
      place-append rs us ∙ ap (λ l. l ++ map place us) f.in_place ∙ ap (λ l. p ++ l) g.in_place;
  fresh = All-append (λ r. IsNew r × (r.submission ≡ submission)) rs us f.fresh g.fresh;
  submissions = g.submissions ∙ f.submissions;
  seals = Seals-append s t a.suites b.suites c.suites f.seals g.seals;
}

create_run-Fanned :
    (now suite submission : ℕ) (seed : String) (q : Run) (db db' : Db)
    → create_run now seed suite submission db ≡ ok (db', q)
    → Fanned submission [] ((suite, seed) ∷ []) db (q ∷ []) db'
unfolding create_run
create_run-Fanned now suite submission seed q db db' e =
    subst (λ (p : Db × Run). Fanned submission [] ((suite, seed) ∷ []) db (p.1 ∷ []) p.0) made
      (record {
        appended = refl;
        in_place = refl;
        fresh = ((new_run-IsNew now seed suite submission db.next_run, refl), tt);
        submissions = refl;
        seals = Seals-refl db.suites;
      })
  where
    made :
        ◌≡◌ {A = Db × Run}
          (
            with_run (new_run now seed suite submission db.next_run) db,
            new_run now seed suite submission db.next_run,
          )
          (db', q)
    made = ground arith

sealed_row :
    (s : Suite) (rows : List Suite)
    → Seals
        (s ∷ [])
        rows
        (rewrite (λ (x : Suite). x.id == s.id) (λ x. record x { sealed = true }) rows)
sealed_row s rows x m =
    let (y, my, e) =
      rewrite-In (λ (x : Suite). x.id == s.id) (λ x. record x { sealed = true }) rows x m in
    elim (Bool-cases (y.id == s.id)) [
      | inl hit ↦
          let same : record y { sealed = true } ≡ x =
            subst (λ b. (if b then record y { sealed = true } else y) ≡ x) hit e in
          (y, my, inr (sym same), λ n. sym (ap (λ (a : Suite). a.sealed) same))
      | inr miss ↦
          let same : y ≡ x =
            subst (λ b. (if b then record y { sealed = true } else y) ≡ x) miss e in
          (
            y,
            my,
            inl (sym same),
            λ n. elim n [
              | inl h ↦ absurd (ground (arith, ap (λ (a : Suite). a.id) h))
              | inr h ↦ elim h [ ]
            ],
          )
    ]

seal-Fanned :
    (s : Suite) (submission : ℕ) (db db' : Db) (u : Unit {0})
    → sealed_db (seal_suite s.id db) ≡ ok (db', u)
    → Fanned submission (s ∷ []) [] db [] db'
unfolding seal_suite
seal-Fanned s submission db db' u e = subst (Fanned submission (s ∷ []) [] db []) made (record {
  appended = sym (append-nil db.runs);
  in_place = refl;
  fresh = tt;
  submissions = refl;
  seals = sealed_row s db.suites;
})
  where
    made :
        record db {
          suites =
              rewrite (λ (x : Suite). x.id == s.id) (λ x. record x { sealed = true }) db.suites;
        }
        ≡ db'
    made = ground arith

already_sealed :
    (s : Suite) (submission : ℕ) (db : Db)
    → s.sealed ≡ true
    → Fanned submission (s ∷ []) [] db [] db
already_sealed s submission db h = record {
  appended = sym (append-nil db.runs);
  in_place = refl;
  fresh = tt;
  submissions = refl;
  seals = λ x m. (
    x,
    m,
    inl refl,
    λ n. elim n [ inl e ↦ sym (ap (λ (a : Suite). a.sealed) e) ∙ h | inr e ↦ elim e [ ] ],
  );
}

nothing_planned : (submission : ℕ) (db : Db) → Fanned submission [] [] db [] db
nothing_planned submission db = record {
  appended = sym (append-nil db.runs);
  in_place = refl;
  fresh = tt;
  submissions = refl;
  seals = Seals-refl db.suites;
}

-- Every error of a step is answered as an error.
abbrev pub IsFailing : Wrap → Type 0
IsFailing wrap = (step : String) (e : Fail) → 400 ≤ (wrap step e).code

fan_seeds-Ends :
    (wrap : Wrap)
    → IsFailing wrap
    → (now suite submission : ℕ) (seeds : List String) (w : World)
    → Ends
        (fan_seeds wrap now suite submission seeds)
        w
        (λ rs db. Fanned submission [] (map (λ (seed : String). (suite, seed)) seeds) w.db rs db)
        Fails
unfolding fan_seeds
fan_seeds-Ends wrap bad now suite submission [] w =
    pure-Ends w _ _ [] (nothing_planned submission w.db)
fan_seeds-Ends wrap bad now suite submission (seed ∷ seeds) w =
    bind-Ends _ (λ q db. Fanned submission [] ((suite, seed) ∷ []) w.db (q ∷ []) db) _ _ _ w
      (update-Ends w _ _ _ _ (bad _)
        λ q db e. create_run-Fanned now suite submission seed q w.db db e)
      λ q v f.
        bind-Ends _
          (λ rs db. Fanned submission [] (map (λ (s : String). (suite, s)) seeds) v.db rs db) _ _ _
          v (fan_seeds-Ends wrap bad now suite submission seeds v)
          λ rs u g. pure-Ends u _ _ (q ∷ rs) (Fanned-append f g)

seal-Ends :
    (wrap : Wrap)
    → IsFailing wrap
    → (s : Suite) (submission : ℕ) (w : World)
    → Ends (seal wrap s) w (λ u db. Fanned submission (s ∷ []) [] w.db [] db) Fails
unfolding seal
seal-Ends wrap bad s submission w = go s.sealed refl
  where
    go :
        (b : Bool)
        → s.sealed ≡ b
        → Ends
            (if b
              then pure tt
              else update (wrap "seal suite: %v") (λ db. sealed_db (seal_suite s.id db)))
            w
            (λ u db. Fanned submission (s ∷ []) [] w.db [] db)
            Fails
    go true e = pure-Ends w _ _ tt (already_sealed s submission w.db e)
    go false e = update-Ends w _ _ _ _ (bad _) λ u db h. seal-Fanned s submission w.db db u h

pub fan_out-Ends :
    (wrap : Wrap)
    → IsFailing wrap
    → (now submission : ℕ) (suites : List Suite) (w : World)
    → Ends
        (fan_out wrap now submission suites)
        w
        (λ rs db. Fanned submission suites (planned suites) w.db rs db)
        Fails
unfolding fan_out
fan_out-Ends wrap bad now submission [] w = pure-Ends w _ _ [] (nothing_planned submission w.db)
fan_out-Ends wrap bad now submission (s ∷ suites) w =
    bind-Ends _
      (λ rs db. Fanned submission [] (map (λ (seed : String). (s.id, seed)) s.seeds) w.db rs db) _ _
      _ w (fan_seeds-Ends wrap bad now s.id submission s.seeds w)
      λ rs v f.
        bind-Ends _ (λ u db. Fanned submission (s ∷ []) [] v.db [] db) _ _ _ v
          (seal-Ends wrap bad s submission v)
          λ u x g.
            bind-Ends _ (λ more db. Fanned submission suites (planned suites) x.db more db) _ _ _ x
              (fan_out-Ends wrap bad now submission suites x)
              λ more y h. pure-Ends y _ _ (rs ++ more) (Fanned-append f (Fanned-append g h))
