-- ===== src/Worker/Execute/Preparation.antt =====
-- What must go well before the wrapper is started, said without the functions of the worker.
use ctf_koth_evals_template.Prelude.{
  ℕ, String, ◌≡◌, refl, sym, ap, ◌∙◌, subst, true, List, [], ◌∷◌, In, ◌⊎◌, inl, inr, Bool-cases,
  str_eq, eq_iff, arith,
}
use ctf_koth_evals_template.Go.Text.{codes}
use ctf_koth_evals_template.Wireapi.{ClaimResponse}
use ctf_koth_evals_template.Server.Request.{decoded}
use ctf_koth_evals_template.Worker.Manifest.{submission_filename}
use ctf_koth_evals_template.Worker.Execute.{
  Done, FileOp, make_dir, write_file, BundleSteps, ensure_bundle, run_ops, layout_ops,
  layout_workdir, Steps, Codecs,
}
use ctf_koth_evals_template.Worker.Execute.Filenames.{
  IsFilename, IsFilename-unique, submission_filename-IsFilename,
}
use ctf_koth_evals_template.Worker.Execute.Branches.{IsPrepared, decoded_cases}

-- The bundle is in the cache, or was fetched, has the version as its digest, and was extracted.
abbrev pub HasBundle : (List ℕ → String) → String → BundleSteps → Type 0
HasBundle hash version s =
    (s.cached ≡ true)
    ⊎ ((bytes : List ℕ) × (s.fetched ≡ decoded bytes)
        × (hash bytes ≡ version)
        × (s.extracted bytes ≡ decoded tt))

abbrev pub workdirs : List String
workdirs = "submission" ∷ "inputs" ∷ "artifacts" ∷ "logs" ∷ []

-- Every step up to the start of the wrapper went well: the working directory holds the submission,
-- under its name, and the seed.
pub record IsReady (c : Codecs) (claim : ClaimResponse) (s : Steps) : Type 0 where
  pub bundle : HasBundle c.hash claim.challenge.version s.bundle
  pub bytes : List ℕ
  pub artifact : s.artifact ≡ decoded bytes
  pub cleaned : s.cleaned ≡ decoded tt
  pub name : String
  pub is_name : IsFilename claim.challenge.manifest claim.submission.artifact_name name
  pub directories : (sub : String) → In sub workdirs → s.files (make_dir (sub ∷ [])) ≡ decoded tt
  pub placed : s.files (write_file ("submission" ∷ name ∷ []) bytes) ≡ decoded tt
  pub seeded : s.files (write_file ("inputs" ∷ "seed.txt" ∷ []) (codes claim.seed)) ≡ decoded tt
  pub wrapper_found : s.wrapper_found ≡ decoded tt
  pub started : s.started ≡ decoded tt

has_bundle :
    (hash : List ℕ → String) (version : String) (s : BundleSteps)
    → ensure_bundle hash version s ≡ decoded tt
    → HasBundle hash version s
unfolding ensure_bundle
has_bundle hash version s e = elim (Bool-cases s.cached) [
  | inl h ↦ inl h
  | inr h ↦ elim (decoded_cases s.fetched) [
    | inl (t, f) ↦ absurd (let bad = rw (h, f) at e in cc)
    | inr (bytes, f) ↦ elim (Bool-cases (str_eq (hash bytes) version)) [
      | inl g ↦ inr (bytes, f, ground (arith, eq_iff (hash bytes) version), rw (h, f, g) at e)
      | inr g ↦ absurd (let bad = rw (h, f, g) at e in cc)
    ]
  ]
]

ensured :
    (hash : List ℕ → String) (version : String) (s : BundleSteps)
    → HasBundle hash version s
    → ensure_bundle hash version s ≡ decoded tt
unfolding ensure_bundle
ensured hash version s (inl h) = rw h refl
ensured hash version s (inr (bytes, f, g, x)) = elim (Bool-cases s.cached) [
  | inl h ↦ rw h refl
  | inr h ↦
      let same : str_eq (hash bytes) version ≡ true = ground (arith, eq_iff (hash bytes) version) in
      rw (h, f, same) x
]

-- The calls end well together if and only if each does.
run_ops-each :
    (does : FileOp → Done) (ops : List FileOp)
    → run_ops does ops ≡ decoded tt
    → (op : FileOp) → In op ops
    → does op ≡ decoded tt
unfolding run_ops
run_ops-each does [] e op m = elim m [ ]
run_ops-each does (o ∷ ops) e op m = elim (decoded_cases (does o)) [
  | inl (x, f) ↦ absurd (let bad = rw f at e in cc)
  | inr (u, f) ↦ elim m [
    | inl same ↦ subst (λ x. does x ≡ decoded tt) same f
    | inr n ↦ run_ops-each does ops (rw f at e) op n
  ]
]

each-run_ops :
    (does : FileOp → Done) (ops : List FileOp)
    → ((op : FileOp) → In op ops → does op ≡ decoded tt)
    → run_ops does ops ≡ decoded tt
unfolding run_ops
each-run_ops does [] h = refl
each-run_ops does (o ∷ ops) h = rw (h o (inl refl)) (each-run_ops does ops (λ op m. h op (inr m)))

pub IsReady-IsPrepared :
    (c : Codecs) (claim : ClaimResponse) (s : Steps) → IsReady c claim s → IsPrepared c claim s
unfolding layout_workdir
IsReady-IsPrepared c claim s r = record {
  bundle = ensured c.hash claim.challenge.version s.bundle r.bundle;
  bytes = r.bytes;
  artifact = r.artifact;
  cleaned = r.cleaned;
  laid_out =
      each-run_ops s.files
        (layout_ops (submission_filename claim.challenge.manifest claim.submission.artifact_name)
          r.bytes claim.seed)
        call_of;
  wrapper_found = r.wrapper_found;
  started = r.started;
}
  where
    name : String
    name = submission_filename claim.challenge.manifest claim.submission.artifact_name

    same : r.name ≡ name
    same =
        IsFilename-unique r.is_name
          (submission_filename-IsFilename claim.challenge.manifest claim.submission.artifact_name)

    call_of : (op : FileOp) → In op (layout_ops name r.bytes claim.seed) → s.files op ≡ decoded tt
    call_of op (inl e) = ap s.files (sym e) ∙ r.directories "submission" (inl refl)
    call_of op (inr (inl e)) = ap s.files (sym e) ∙ r.directories "inputs" (inr (inl refl))
    call_of op (inr (inr (inl e))) =
        ap s.files (sym e) ∙ r.directories "artifacts" (inr (inr (inl refl)))
    call_of op (inr (inr (inr (inl e)))) =
        ap s.files (sym e) ∙ r.directories "logs" (inr (inr (inr (inl refl))))
    call_of op (inr (inr (inr (inr (inl e))))) =
        ap s.files (sym e)
        ∙ ap (λ n. s.files (write_file ("submission" ∷ n ∷ []) r.bytes)) (sym same)
        ∙ r.placed
    call_of op (inr (inr (inr (inr (inr (inl e)))))) = ap s.files (sym e) ∙ r.seeded
    call_of op (inr (inr (inr (inr (inr (inr m)))))) = elim m [ ]

pub IsPrepared-IsReady :
    (c : Codecs) (claim : ClaimResponse) (s : Steps) → IsPrepared c claim s → IsReady c claim s
unfolding layout_workdir
IsPrepared-IsReady c claim s p = record {
  bundle = has_bundle c.hash claim.challenge.version s.bundle p.bundle;
  bytes = p.bytes;
  artifact = p.artifact;
  cleaned = p.cleaned;
  name = name;
  is_name = submission_filename-IsFilename claim.challenge.manifest claim.submission.artifact_name;
  directories = made;
  placed = each _ (inr (inr (inr (inr (inl refl)))));
  seeded = each _ (inr (inr (inr (inr (inr (inl refl))))));
  wrapper_found = p.wrapper_found;
  started = p.started;
}
  where
    name : String
    name = submission_filename claim.challenge.manifest claim.submission.artifact_name

    each : (op : FileOp) → In op (layout_ops name p.bytes claim.seed) → s.files op ≡ decoded tt
    each = run_ops-each s.files (layout_ops name p.bytes claim.seed) p.laid_out

    made : (sub : String) → In sub workdirs → s.files (make_dir (sub ∷ [])) ≡ decoded tt
    made sub (inl e) = each _ (inl (ap (λ d. make_dir (d ∷ [])) e))
    made sub (inr (inl e)) = each _ (inr (inl (ap (λ d. make_dir (d ∷ [])) e)))
    made sub (inr (inr (inl e))) = each _ (inr (inr (inl (ap (λ d. make_dir (d ∷ [])) e))))
    made sub (inr (inr (inr (inl e)))) =
        each _ (inr (inr (inr (inl (ap (λ d. make_dir (d ∷ [])) e)))))
    made sub (inr (inr (inr (inr m)))) = elim m [ ]
