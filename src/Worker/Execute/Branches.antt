-- ===== src/Worker/Execute/Branches.antt =====
-- The branches of execute, each under what its own steps give.
use ctf_koth_evals_template.Prelude.{
  ℕ, String, ◌≡◌, refl, sym, ap, ◌∙◌, true, false, Option, none, some, List, ◌⊎◌, inl, inr,
  Bool-cases,
}
use ctf_koth_evals_template.Go.Float.{Float}
use ctf_koth_evals_template.Go.Any.{Fields}
use ctf_koth_evals_template.Wireapi.{ClaimResponse, ResultRequest}
use ctf_koth_evals_template.Server.Request.{Decoded, decoded, malformed}
use ctf_koth_evals_template.Worker.Manifest.{submission_filename}
use ctf_koth_evals_template.Worker.Execute.{
  Done, ensure_bundle, layout_workdir, read_result, watched, Ended, Steps, Codecs, timeout_of,
  failure, tail_text, report_ended, execute,
}

-- Every step up to the start of the wrapper went well.
pub record IsPrepared (c : Codecs) (claim : ClaimResponse) (s : Steps) : Type 0 where
  pub bundle : ensure_bundle c.hash claim.challenge.version s.bundle ≡ decoded tt
  pub bytes : List ℕ
  pub artifact : s.artifact ≡ decoded bytes
  pub cleaned : s.cleaned ≡ decoded tt
  pub laid_out :
      layout_workdir s.files
        (submission_filename claim.challenge.manifest claim.submission.artifact_name)
        bytes
        claim.seed
      ≡ decoded tt
  pub wrapper_found : s.wrapper_found ≡ decoded tt
  pub started : s.started ≡ decoded tt

-- The process ended by itself, and left a result with a score that is a number.
pub record HasScore (c : Codecs) (s : Steps) (e : Ended) (fields : Fields) (score : Float)
    : Type 0 where
  pub waited : e.waited ≡ decoded tt
  pub read : read_result c.json s.result_file ≡ decoded (fields, score)

-- The process of the wrapper, under the timeout of the suite.
abbrev pub process_of : ClaimResponse → Steps → Ended
process_of claim s = s.process (timeout_of claim.suite.timeout_seconds)

pub data Branch (c : Codecs) (claim : ClaimResponse) (s : Steps) : ResultRequest → Type 0 where
  not_started :
      (cause : String) (started : Option ℕ)
      → (IsPrepared c claim s → ⊥)
      → Branch c claim s (failure cause started "" "")
  was_cancelled :
      IsPrepared c claim s
      → watched (process_of claim s).polls ≡ true
      → Branch c claim s
          (record (failure "run cancelled by operator"
            (some s.started_at)
            (tail_text c (process_of claim s).stdout)
            (tail_text c (process_of claim s).stderr)) { status = "cancelled" })
  ran_out :
      IsPrepared c claim s
      → watched (process_of claim s).polls ≡ false
      → (process_of claim s).deadline_passed ≡ true
      → Branch c claim s
          (record (failure "wrapper exceeded suite timeout"
            (some s.started_at)
            (tail_text c (process_of claim s).stdout)
            (tail_text c (process_of claim s).stderr)) { status = "timed_out" })
  broke :
      (cause : String)
      → IsPrepared c claim s
      → watched (process_of claim s).polls ≡ false
      → (process_of claim s).deadline_passed ≡ false
      → ((fields : Fields) (score : Float) → HasScore c s (process_of claim s) fields score → ⊥)
      → Branch c claim s (
          failure cause
            (some s.started_at)
            (tail_text c (process_of claim s).stdout)
            (tail_text c (process_of claim s).stderr))
  scored :
      (fields : Fields) (score : Float)
      → IsPrepared c claim s
      → watched (process_of claim s).polls ≡ false
      → (process_of claim s).deadline_passed ≡ false
      → HasScore c s (process_of claim s) fields score
      → Branch c claim s (record {
        status = "succeeded";
        score = some score;
        result = some fields;
        error = "";
        started_at = some s.started_at;
        stdout = tail_text c (process_of claim s).stdout;
        stderr = tail_text c (process_of claim s).stderr;
      })

pub decoded_cases :
    {A : Type 0} (d : Decoded A) → ((e : String) × (d ≡ malformed e)) ⊎ ((a : A) × (d ≡ decoded a))
decoded_cases (malformed e) = inl (e, refl)
decoded_cases (decoded a) = inr (a, refl)

pub differ : {A : Type 0} {d : Decoded A} {e : String} {a : A} → d ≡ malformed e → d ≡ decoded a → ⊥
differ h k = absurd (let bad = sym h ∙ k in cc)

module _ (c : Codecs) (claim : ClaimResponse) (s : Steps) where
  ended_branch : IsPrepared c claim s → Branch c claim s (report_ended c s (process_of claim s))
  unfolding report_ended
  ended_branch p = elim (Bool-cases (watched (process_of claim s).polls)) [
    | inl w ↦ rw w (was_cancelled p w)
    | inr w ↦ elim (Bool-cases (process_of claim s).deadline_passed) [
      | inl d ↦ rw (w, d) (ran_out p w d)
      | inr d ↦ elim (decoded_cases (process_of claim s).waited) [
        | inl (e, f) ↦ rw (w, d, f) (broke _ p w d λ fields score h. differ f h.waited)
        | inr (u, f) ↦ elim (decoded_cases (read_result c.json s.result_file)) [
          | inl (e, g) ↦ rw (w, d, f, g) (broke _ p w d λ fields score h. differ g h.read)
          | inr ((fields, score), g) ↦
              rw (w, d, f, g) (scored fields score p w d (record { waited = f; read = g }))
        ]
      ]
    ]
  ]

  abbrev lays : List ℕ → Done
  lays bytes =
      layout_workdir s.files
        (submission_filename claim.challenge.manifest claim.submission.artifact_name) bytes
        claim.seed

  not_laid :
      (bytes : List ℕ) (e : String)
      → s.artifact ≡ decoded bytes
      → lays bytes ≡ malformed e
      → IsPrepared c claim s
      → ⊥
  not_laid bytes e got bad p =
      let same : bytes ≡ p.bytes = (let h = sym got ∙ p.artifact in cc) in
      differ bad (ap lays same ∙ p.laid_out)

  -- Every branch.
  pub execute-Branch : Branch c claim s (execute c claim s)
  unfolding execute
  execute-Branch = elim (decoded_cases (ensure_bundle c.hash claim.challenge.version s.bundle)) [
    | inl (e, b) ↦ simp b (not_started _ none λ p. differ b p.bundle)
    | inr (u, b) ↦ elim (decoded_cases s.artifact) [
      | inl (e, a) ↦ simp (b, a) (not_started _ none λ p. differ a p.artifact)
      | inr (bytes, a) ↦ elim (decoded_cases s.cleaned) [
        | inl (e, k) ↦ simp (b, a, k) (not_started _ none λ p. differ k p.cleaned)
        | inr (v, k) ↦ elim (decoded_cases (lays bytes)) [
          | inl (e, l) ↦ simp (b, a, k, l) (not_started _ none (not_laid bytes e a l))
          | inr (x, l) ↦ elim (decoded_cases s.wrapper_found) [
            | inl (e, f) ↦ simp (b, a, k, l, f) (not_started _ none λ p. differ f p.wrapper_found)
            | inr (y, f) ↦ elim (decoded_cases s.started) [
              | inl (e, g) ↦
                  simp (b, a, k, l, f, g)
                    (not_started _ (some s.started_at) λ p. differ g p.started)
              | inr (z, g) ↦
                  simp (b, a, k, l, f, g)
                    (ended_branch (record {
                      bundle = b;
                      bytes = bytes;
                      artifact = a;
                      cleaned = k;
                      laid_out = l;
                      wrapper_found = f;
                      started = g;
                    }))
            ]
          ]
        ]
      ]
    ]
  ]
