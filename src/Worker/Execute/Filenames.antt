-- ===== src/Worker/Execute/Filenames.antt =====
-- The name of the uploaded file, said without submissionFilename of internal/worker/worker.go.
use ctf_koth_evals_template.Prelude.{
  String, ◌≡◌, ◌≢◌, refl, sym, ap, ◌∙◌, Option, none, some, inl, inr, Bool-cases, Option-cases,
  str_eq, eq_iff, arith,
}
use ctf_koth_evals_template.Go.Any.{Any, Fields, get, as_text, object, text}
use ctf_koth_evals_template.Worker.Manifest.{as_object, submission_filename}

-- The manifest's submission.file, if that is a text and not empty, or the name of the upload.
pub data IsFilename (manifest : Fields) (uploaded : String) : String → Type 0 where
  declared :
      (sub : Fields) (f : String)
      → get manifest "submission" ≡ some (object sub)
      → get sub "file" ≡ some (text f)
      → f ≢ ""
      → IsFilename manifest uploaded f
  undeclared :
      ((sub : Fields) (f : String)
        → get manifest "submission" ≡ some (object sub)
        → get sub "file" ≡ some (text f)
        → f ≢ ""
        → ⊥)
      → IsFilename manifest uploaded uploaded

pub IsFilename-unique : {m : Fields} {u n k : String} → IsFilename m u n → IsFilename m u k → n ≡ k
IsFilename-unique (declared sub f a b d) (declared sub' f' a' b' d') =
    let same : sub ≡ sub' = (let h = sym a ∙ a' in cc) in
    let h = sym b ∙ ap (λ (x : Fields). get x "file") same ∙ b' in cc
IsFilename-unique (declared sub f a b d) (undeclared h) = absurd (h sub f a b d)
IsFilename-unique (undeclared h) (declared sub f a b d) = absurd (h sub f a b d)
IsFilename-unique (undeclared h) (undeclared k) = refl

object_of :
    (m : Fields) (v : Option Any) (sub : Fields) → as_object v ≡ some sub → v ≡ some (object sub)
object_of m none sub e = absurd (cc)
object_of m (some (object fields)) sub e =
    let same : fields ≡ sub = cc in ap (λ f. some (object f)) same
object_of m (some Any.null) sub e = absurd (cc)
object_of m (some (Any.bool b)) sub e = absurd (cc)
object_of m (some (Any.number n)) sub e = absurd (cc)
object_of m (some (text t)) sub e = absurd (cc)
object_of m (some (Any.array i)) sub e = absurd (cc)

text_of : (v : Option Any) (t : String) → as_text v ≡ some t → v ≡ some (text t)
unfolding as_text
text_of none t e = absurd (cc)
text_of (some (object fields)) t e = absurd (cc)
text_of (some Any.null) t e = absurd (cc)
text_of (some (Any.bool b)) t e = absurd (cc)
text_of (some (Any.number n)) t e = absurd (cc)
text_of (some (text s)) t e = let same : s ≡ t = cc in ap (λ x. some (text x)) same
text_of (some (Any.array i)) t e = absurd (cc)

pub submission_filename-IsFilename :
    (m : Fields) (u : String) → IsFilename m u (submission_filename m u)
unfolding submission_filename
submission_filename-IsFilename m u = elim (Option-cases (as_object (get m "submission"))) [
  | inl n ↦ rw n (undeclared λ sub f a b d. let h = ap as_object (sym a) ∙ n in absurd (cc))
  | inr (sub, o) ↦
      let there = object_of m (get m "submission") sub o in
      elim (Option-cases (as_text (get sub "file"))) [
        | inl n ↦
            rw (o, n)
              (undeclared λ sub' f a b d.
                let same : sub ≡ sub' = (let h = sym there ∙ a in cc) in
                let h = ap as_text (sym (ap (λ (x : Fields). get x "file") same ∙ b)) ∙ n in
                absurd (unfold as_text in cc))
        | inr (f, t) ↦ elim (Bool-cases (str_eq f "")) [
          | inl empty ↦
              rw (o, t, empty)
                (undeclared λ sub' g a b d.
                  let same : sub ≡ sub' = (let h = sym there ∙ a in cc) in
                  let other : f ≡ g =
                    (let h = sym (text_of _ f t) ∙ ap (λ (x : Fields). get x "file") same ∙ b in
                      cc) in
                  d (sym other ∙ ground (arith, eq_iff f "")))
          | inr full ↦
              rw (o, t, full)
                (declared sub f there (text_of _ f t) λ e. ground (arith, eq_iff f ""))
        ]
      ]
]
