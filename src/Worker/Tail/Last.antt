-- ===== src/Worker/Tail/Last.antt =====
-- The tail of a stream, however it is cut into writes, is its last bytes.
use mathlib.Core.List.{append_assoc, append-nil}
use ctf_koth_evals_template.Prelude.{
  ℕ, zero, suc, ◌+◌, ◌-◌, ◌≤◌, ◌≡◌, refl, sym, ap, ◌∙◌, List, [], ◌∷◌, ◌++◌, length, drop,
  length-append, arith, Bool-cases, ltb, inl, inr,
}
use ctf_koth_evals_template.Worker.Tail.{TailWriter, new_tail, cut, write, write_all}

-- The last `n` bytes of all that was written, or all of it where it is shorter.
abbrev pub last_bytes : ℕ → List ℕ → List ℕ
last_bytes n xs = drop (length xs - n) xs

abbrev pub joined : List (List ℕ) → List ℕ
joined [] = []
joined (p ∷ ps) = p ++ joined ps

length-drop : (n : ℕ) (xs : List ℕ) → length (drop n xs) ≡ length xs - n
length-drop zero xs = omega arith
length-drop (suc n) [] = omega arith
length-drop (suc n) (x ∷ xs) = omega (arith, length-drop n xs)

drop-nil : (n : ℕ) → drop {A = ℕ} n [] ≡ []
drop-nil zero = refl
drop-nil (suc n) = refl

drop-drop : (m n : ℕ) (xs : List ℕ) → drop n (drop m xs) ≡ drop (m + n) xs
drop-drop zero n xs = ap (λ k. drop k xs) (omega arith)
drop-drop (suc m) n [] = drop-nil n ∙ sym (drop-nil (suc m + n))
drop-drop (suc m) n (x ∷ xs) =
    let e : suc (m + n) ≡ suc m + n = omega arith in drop-drop m n xs ∙ ap (λ k. drop k (x ∷ xs)) e

drop-append : (m : ℕ) (xs ys : List ℕ) → m ≤ length xs → drop m (xs ++ ys) ≡ drop m xs ++ ys
drop-append zero xs ys h = refl
drop-append (suc m) [] ys h = absurd (omega arith)
drop-append (suc m) (x ∷ xs) ys h = drop-append m xs ys (omega arith)

-- The test before the cut does not matter.
cut-last_bytes : (limit : ℕ) (xs : List ℕ) → cut limit xs ≡ last_bytes limit xs
cut-last_bytes limit xs = elim (Bool-cases (ltb limit (length xs))) [
  | inl e ↦ rw e
  | inr e ↦ let none_over : length xs - limit ≡ zero = ground arith in rw (e, none_over) refl
]

last_bytes-append :
    (n : ℕ) (xs ys : List ℕ) → last_bytes n (last_bytes n xs ++ ys) ≡ last_bytes n (xs ++ ys)
last_bytes-append n xs ys =
    ap (λ l. drop (length (last_bytes n xs ++ ys) - n) l)
      (sym (drop-append (length xs - n) xs ys (omega arith)))
    ∙ drop-drop (length xs - n) (length (last_bytes n xs ++ ys) - n) (xs ++ ys)
    ∙ ap (λ k. drop k (xs ++ ys))
        (omega (
          arith,
          length-append (last_bytes n xs) ys,
          length-append xs ys,
          length-drop (length xs - n) xs,
        ))

written_after :
    (ps : List (List ℕ)) (t : TailWriter) (before : List ℕ)
    → t.buf ≡ last_bytes t.limit before
    → (write_all ps t).buf ≡ last_bytes t.limit (before ++ joined ps)
unfolding write_all write
written_after [] t before e = e ∙ ap (last_bytes t.limit) (sym (append-nil before))
written_after (p ∷ ps) t before e =
    written_after ps (write p t).0 (before ++ p) (
      cut-last_bytes t.limit (t.buf ++ p)
      ∙ ap (λ b. last_bytes t.limit (b ++ p)) e
      ∙ last_bytes-append t.limit before p)
    ∙ ap (last_bytes t.limit) (append_assoc before p (joined ps))

-- However a process cuts its output into writes, the tail holds the last `limit` bytes of it, or
-- all of it where it is shorter.
pub write_all-last_bytes :
    (limit : ℕ) (ps : List (List ℕ))
    → (write_all ps (new_tail limit)).buf ≡ last_bytes limit (joined ps)
write_all-last_bytes limit ps = written_after ps (new_tail limit) [] (sym (drop-nil (0 - limit)))
