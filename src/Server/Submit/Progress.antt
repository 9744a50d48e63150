-- ===== src/Server/Submit/Progress.antt =====
-- A submission that asks for nothing wrong is created, on a database that does not fail.
use Prim.Native.String.{len}
use ctf_koth_evals_template.Prelude.{
  ℕ, ◌+◌, ◌*◌, ◌≤◌, String, ◌≡◌, ◌≢◌, refl, sym, ap, ◌∙◌, subst, inl, inr, Bool, true, false, some,
  List, [], ◌∷◌, ◌++◌, All, In, arith, ◌==◌, ltb, not, length, any, select, str_eq, eq_iff,
  if◌then◌else◌, Bool-cases,
}
use ctf_koth_evals_template.Ent.Schema.{Suite, Submission, Db}
use ctf_koth_evals_template.Ent.Store.{
  Fail, Result, ok, err, rewrite, with_run, new_run, create_run,
  create_submission as insert_submission, seal_suite,
}
use ctf_koth_evals_template.Ent.Tables.{In-rewrite}
use ctf_koth_evals_template.Server.Response.{Response}
use ctf_koth_evals_template.Server.Action.{World, value, pure, query, update, serve, reliable}
use ctf_koth_evals_template.Server.Lifecycle.Rows.{only-cases, select-In}
use ctf_koth_evals_template.Server.Request.{decoded}
use ctf_koth_evals_template.Server.SuiteIds.{ids, parse_suite_ids}
use ctf_koth_evals_template.Server.Submit.{
  Wrap, Form, Artifact, fan_seeds, sealed_db, seal, fan_out, persist_submission, persist_error,
  suites_in, create_submission,
}
use ctf_koth_evals_template.Server.Progress.{
  Runs, answered, bind-Runs, then-Runs, pure-Runs, update-Runs, transaction-Runs, notify-Runs,
}
use ctf_koth_evals_template.Server.Submit.Atomic.{Created, submission_is_atomic}

lookup_lem :
    (h : Fail → Response) (f : Db → List Suite) (w : World)
    → query h (λ db. ok (f db)) (reliable w) ≡ (value (f w.db), reliable w)
unfolding query
lookup_lem h f w = refl

-- A suite with this key is there.
abbrev Has : ℕ → Db → Type 0
Has id db = (x : Suite) × In x db.suites × (x.id ≡ id)

abbrev Keeps : Db → Db → Type 0
Keeps a b = (id : ℕ) → Has id a → Has id b

text_differs : (a b : String) → a ≢ b → str_eq a b ≡ false
text_differs a b h = ground (arith, eq_iff a b)

create_run_lem :
    (now : ℕ) (seed : String) (suite submission : ℕ) (db : Db)
    → seed ≢ ""
    → create_run now seed suite submission db
      ≡ ok (
        with_run (new_run now seed suite submission db.next_run) db,
        new_run now seed suite submission db.next_run,
      )
unfolding create_run
create_run_lem now seed suite submission db h = rw (text_differs seed "" h)

seal_suite_lem :
    (id : ℕ) (db : Db)
    → Has id db
    → seal_suite id db
      ≡ ok (record db {
        suites = rewrite (λ (s : Suite). s.id == id) (λ s. record s { sealed = true }) db.suites;
      })
unfolding seal_suite
seal_suite_lem id db (x, m, e) = elim (only-cases (λ (s : Suite). s.id == id) db.suites) [
  | inl (r, n, h, found) ↦
      ap
        (λ (o : Result Suite). elim o as (λ x. Result Db) [
          | ok s ↦ ok (record db {
            suites =
                rewrite (λ (s : Suite). s.id == id) (λ s. record s { sealed = true }) db.suites;
          })
          | err e ↦ err e
        ])
        found
  | inr (none_has, missing) ↦ absurd (let no = none_has x m in ground arith)
]

sealed-Keeps :
    (id : ℕ) (db : Db)
    → Keeps db (record db {
      suites = rewrite (λ (s : Suite). s.id == id) (λ s. record s { sealed = true }) db.suites;
    })
sealed-Keeps id db key (x, m, e) = (
  if x.id == id then record x { sealed = true } else x,
  In-rewrite (λ (s : Suite). s.id == id) (λ s. record s { sealed = true }) db.suites x m,
  elim (Bool-cases (x.id == id)) [ inl t ↦ rw t e | inr f ↦ rw f e ],
)

fan_seeds-Runs :
    (wrap : Wrap) (now suite submission : ℕ) (seeds : List String) (w : World)
    → All (λ (s : String). s ≢ "") seeds
    → w.faults ≡ []
    → Runs (fan_seeds wrap now suite submission seeds) w (λ rs db. db.suites ≡ w.db.suites)
unfolding fan_seeds
fan_seeds-Runs wrap now suite submission [] w h c = pure-Runs [] w _ c refl
fan_seeds-Runs wrap now suite submission (seed ∷ seeds) w h c =
    bind-Runs _ _ w (λ q db. db.suites ≡ w.db.suites) _
      (update-Runs _ _ w _ _ _ c (create_run_lem now seed suite submission w.db h.0) refl)
      λ q v c1 e1.
        bind-Runs _ _ v (λ rs db. db.suites ≡ v.db.suites) _
          (fan_seeds-Runs wrap now suite submission seeds v h.1 c1)
          λ rs u c2 e2. pure-Runs (q ∷ rs) u _ c2 (e2 ∙ e1)

seal-Runs :
    (wrap : Wrap) (s : Suite) (w : World)
    → Has s.id w.db
    → w.faults ≡ []
    → Runs (seal wrap s) w (λ u db. Keeps w.db db)
unfolding seal
seal-Runs wrap s w h c = go s.sealed
  where
    go :
        (b : Bool)
        → Runs
            (if b
              then pure tt
              else update (wrap "seal suite: %v") (λ db. sealed_db (seal_suite s.id db)))
            w
            (λ u db. Keeps w.db db)
    go true = pure-Runs tt w _ c (λ id k. k)
    go false =
        update-Runs _ _ w _ tt _ c (ap sealed_db (seal_suite_lem s.id w.db h))
          (sealed-Keeps s.id w.db)

-- What the fan-out over a suite asks for.
abbrev Ready : Db → Suite → Type 0
Ready db s = All (λ (seed : String). seed ≢ "") s.seeds × Has s.id db

still-Ready :
    (a b : Db) (suites : List Suite) → Keeps a b → All (Ready a) suites → All (Ready b) suites
still-Ready a b [] k h = tt
still-Ready a b (s ∷ suites) k h = ((h.0.0, k s.id h.0.1), still-Ready a b suites k h.1)

same_suites : (a b : Db) → b.suites ≡ a.suites → Keeps a b
same_suites a b e id (x, m, h) = (x, subst (In x) (sym e) m, h)

fan_out-Runs :
    (wrap : Wrap) (now submission : ℕ) (suites : List Suite) (w : World)
    → All (Ready w.db) suites
    → w.faults ≡ []
    → Runs (fan_out wrap now submission suites) w (λ rs db. Unit)
unfolding fan_out
fan_out-Runs wrap now submission [] w h c = pure-Runs [] w _ c tt
fan_out-Runs wrap now submission (s ∷ suites) w h c =
    bind-Runs _ _ w (λ rs db. db.suites ≡ w.db.suites) _
      (fan_seeds-Runs wrap now s.id submission s.seeds w h.0.0 c)
      λ rs v c1 e1.
        let same = same_suites w.db v.db e1 in
        bind-Runs _ _ v (λ u db. Keeps v.db db) _ (seal-Runs wrap s v (same s.id h.0.1) c1)
          λ u x c2 k.
            bind-Runs _ _ x (λ more db. Unit) _
              (fan_out-Runs wrap now submission suites x
                (still-Ready v.db x.db suites k (still-Ready w.db v.db suites same h.1)) c2)
              λ more y c3 d. pure-Runs (rs ++ more) y _ c3 tt

abbrev with_submission : (ℕ → Submission) → Db → Db
with_submission build db = record db {
  submissions = db.submissions ++ build db.next_submission ∷ [];
  next_submission = db.next_submission + 1;
}

insert_ok :
    (build : ℕ → Submission) (db : Db)
    → (build db.next_submission).artifact_name ≢ ""
    → len (build db.next_submission).artifact_sha256 ≤ 64
    → insert_submission build db ≡ ok (with_submission build db, build db.next_submission)
unfolding insert_submission
insert_ok build db named short =
    rw (text_differs (build db.next_submission).artifact_name "" named, fits) refl
  where
    fits : ltb 64 (len (build db.next_submission).artifact_sha256) ≡ false
    fits = ground (arith, short)

persist_submission-Runs :
    (suites : List Suite) (build : ℕ → Submission) (now : ℕ) (w : World)
    → (build w.db.next_submission).artifact_name ≢ ""
    → len (build w.db.next_submission).artifact_sha256 ≤ 64
    → All (Ready w.db) suites
    → w.faults ≡ []
    → Runs (persist_submission suites build now) w (λ p db. Unit)
unfolding persist_submission
persist_submission-Runs suites build now w named short h c = transaction-Runs _ _ _ w _ c (
    bind-Runs _ _ _ (λ s db. Keeps w.db db) _
      (update-Runs _ _ _ _ (build w.db.next_submission) (with_submission build w.db) refl
        (insert_ok build w.db named short) (λ id k. k))
      λ s v c1 k.
        bind-Runs _ _ v (λ rs db. Unit) _
          (fan_out-Runs persist_error now s.id suites v (still-Ready w.db v.db suites k h) c1)
          λ rs u c2 d. pure-Runs (s, rs) u _ c2 tt)

-- The suites that a list of ids names are there.
chosen_there :
    (wanted : List ℕ) (db : Db)
    → ((s : Suite) → In s db.suites → All (λ (seed : String). seed ≢ "") s.seeds)
    → All (Ready db) (suites_in wanted db)
unfolding suites_in
chosen_there wanted db h =
    ready (select (λ (s : Suite). any (λ n. n == s.id) wanted) db.suites)
      (λ s m. (select-In (λ (s : Suite). any (λ n. n == s.id) wanted) db.suites s m).0)
  where
    ready : (ss : List Suite) → ((s : Suite) → In s ss → In s db.suites) → All (Ready db) ss
    ready [] k = tt
    ready (s ∷ ss) k =
        ((h s (k s (inl refl)), (s, k s (inl refl), refl)), ready ss (λ x m. k x (inr m)))

module _ (digest : List ℕ → String) (max_upload_mb now : ℕ) (form : Form) (wanted : List ℕ)
    (artifact : Artifact) (bytes : List ℕ) (w : World)
    (parsed : parse_suite_ids form.suite_ids ≡ ids wanted)
    (uploaded : form.artifact ≡ some artifact) (within : artifact.size ≤ max_upload_mb * 1_048_576)
    (read : artifact.content ≡ decoded bytes) (named : artifact.filename ≢ "")
    (short : len (digest bytes) ≤ 64) (there : length (suites_in wanted w.db) ≡ length wanted)
    (seeded : (s : Suite) → In s w.db.suites → All (λ (seed : String). seed ≢ "") s.seeds) where
  create_submission-Runs :
      Runs
        (create_submission digest max_upload_mb (decoded form) now)
        (reliable w)
        (λ r db. r.code ≡ 201)
  unfolding create_submission pure
  create_submission-Runs = then-Runs _ _ _ _ form refl (
      then-Runs _ _ _ _ wanted (rw parsed refl) (
        then-Runs _ _ _ _ artifact (rw uploaded refl) (
          then-Runs _ _ _ _ tt (rw small refl) (
            then-Runs _ _ _ _ bytes (rw read refl) (
              then-Runs _ _ _ _ (suites_in wanted w.db) (lookup_lem _ (suites_in wanted) w) (
                then-Runs _ _ _ _ tt (rw all_there refl) (
                  bind-Runs _ _ _ (λ p db. Unit) _
                    (persist_submission-Runs (suites_in wanted w.db) _ now (reliable w) named short
                      (chosen_there wanted w.db seeded) refl)
                    λ made v c h.
                      bind-Runs _ _ v (λ u db. Unit) _ (notify-Runs "runs" v c)
                        λ u x c' h'. pure-Runs _ x _ c' refl)))))))
    where
      small : not (ltb (max_upload_mb * 1_048_576) artifact.size) ≡ true
      small = ground (arith, within)

      all_there : (length (suites_in wanted w.db) == length wanted) ≡ true
      all_there = ground (arith, there)

  -- On a database that does not fail, a submission is created: where its form holds a named file
  -- within the limit, whose digest has 64 characters at most, and ids of suites that are all
  -- there, and no suite has an empty seed.
  pub submission_succeeds :
      Created digest max_upload_mb
        (decoded form)
        now
        w.db
        (serve (create_submission digest max_upload_mb (decoded form) now) (reliable w)).0
        (serve (create_submission digest max_upload_mb (decoded form) now) (reliable w)).1.db
  submission_succeeds =
      elim (submission_is_atomic digest max_upload_mb (decoded form) now (reliable w)) [
        | inl h ↦
            let good =
              ap (λ (r : Response). r.code) (answered create_submission-Runs)
              ∙ create_submission-Runs.holds in
            absurd (omega arith)
        | inr made ↦ made
      ]
