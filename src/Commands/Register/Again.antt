-- ===== src/Commands/Register/Again.antt =====
-- Registering twice is registering once.
use ctf_koth_evals_template.Prelude.{
  ℕ, String, ◌≡◌, refl, Bool, true, false, List, [], ◌∷◌, ◌++◌, str_eq, Bool-cases, inl, inr, any,
  arith, ◌⊎◌, ◌&&◌, eq_iff,
}
use ctf_koth_evals_template.Go.Any.{Fields}
use ctf_koth_evals_template.Ent.Store.{ok, err, not_found, only, same_key, create_challenge}
use ctf_koth_evals_template.Server.Request.{Decoded, decoded, malformed}
use ctf_koth_evals_template.Server.Action.{
  World, Outcome, value, reply, reliable, ◌>>=◌, pure, call, save,
}
use ctf_koth_evals_template.Commands.Register.{
  Registration, already, registered, refused, text_at, new_challenge, look_up, register_challenge,
}

-- What a second call prints.
abbrev pub again : Registration → Registration
again (registered ch) = already ch
again (already ch) = already ch
again (refused e) = refused e

abbrev pub again_of : Outcome Registration → Outcome Registration
again_of (value r) = value (again r)
again_of (reply r) = reply r

only_appended :
    {A : Type 0} (p : A → Bool) (xs : List A) (x : A)
    → only p xs ≡ err not_found
    → p x ≡ true
    → only p (xs ++ x ∷ []) ≡ ok x
unfolding only
only_appended p [] x e t = rw t refl
only_appended p (y ∷ ys) x e t = elim (Bool-cases (p y)) [
  | inl h ↦ absurd (let bad = rw h at e in cc)
  | inr h ↦ rw h (only_appended p ys x (rw h at e) t)
]

only_cases :
    {A : Type 0} (p : A → Bool) (xs : List A)
    → (only p xs ≡ err not_found) ⊎ ((x : A) × (only p xs ≡ ok x))
unfolding only
only_cases p [] = inl refl
only_cases p (x ∷ xs) = elim (Bool-cases (p x)) [
  | inl h ↦ inr (x, rw h refl)
  | inr h ↦ elim (only_cases p xs) [ inl e ↦ inl (rw h e) | inr (y, e) ↦ inr (y, rw h e) ]
]

same_key_refl : (name version : String) → (str_eq name name && str_eq version version) ≡ true
same_key_refl name version = ground (arith, eq_iff name name, eq_iff version version)

module _ (m : Fields) (bundle : List ℕ) (version : String) (now later : ℕ) (w : World) where
  abbrev first : Outcome Registration × World
  first = look_up m bundle version now (reliable w)

  look_up_twice :
      look_up m bundle version later (reliable first.1) ≡ (again_of first.0, reliable first.1)
  unfolding ◌>>=◌ pure call save create_challenge
  look_up_twice =
      let name = text_at m "name" in
      elim (only_cases (same_key name version) w.db.challenges) [
        | inr (ch, found) ↦ simp found
        | inl missing ↦ elim (Bool-cases (str_eq name "")) [
          | inl n ↦ simp (missing, n)
          | inr n ↦ elim (Bool-cases (str_eq version "")) [
            | inl v ↦ simp (missing, n, v)
            | inr v ↦ elim (Bool-cases (any (same_key name version) w.db.challenges)) [
              | inl a ↦ simp (missing, n, v, a)
              | inr a ↦
                  let there =
                    only_appended (same_key name version) w.db.challenges
                      (new_challenge m bundle version now w.db.next_challenge) missing
                      (same_key_refl name version) in
                  simp (missing, n, v, a, there)
            ]
          ]
        ]
      ]

-- On a database that does not fail, the command run again on the same directory, at whatever time,
-- leaves the tables as the first run left them: it answers with the row that the first one stored
-- or found, or with the same error.
pub register_challenge_twice :
    (manifest : Decoded Fields) (packed : Decoded (List ℕ × String)) (now later : ℕ) (w : World)
    → register_challenge manifest packed later
        (reliable (register_challenge manifest packed now (reliable w)).1)
      ≡ (
        again_of (register_challenge manifest packed now (reliable w)).0,
        reliable (register_challenge manifest packed now (reliable w)).1,
      )
unfolding register_challenge pure
register_challenge_twice (malformed e) packed now later w = refl
register_challenge_twice (decoded m) packed now later w =
    elim (Bool-cases (str_eq (text_at m "name") "")) [ inl n ↦ rw n refl | inr n ↦ named packed n ]
  where
    named :
        (p : Decoded (List ℕ × String))
        → str_eq (text_at m "name") "" ≡ false
        → register_challenge
            (decoded m)
            p
            later
            (reliable (register_challenge (decoded m) p now (reliable w)).1)
          ≡ (
            again_of (register_challenge (decoded m) p now (reliable w)).0,
            reliable (register_challenge (decoded m) p now (reliable w)).1,
          )
    named (malformed e) n = rw n refl
    named (decoded (bundle, version)) n = rw n (look_up_twice m bundle version now later w)
