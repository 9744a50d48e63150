-- ===== src/Server/Auth/Access.antt =====
-- Who gets in: the bearer token of the workers, the password of the operators.
use ctf_koth_evals_template.Prelude.{
  ℕ, zero, suc, ◌≡◌, ◌≢◌, ◌↔◌, refl, sym, ap, ◌∙◌, subst, Bool, true, false, Option, none, some,
  List, [], ◌∷◌, ◌++◌, ◌==◌, ltb, if◌then◌else◌, length, take, drop, arith, length-append,
}
use ctf_koth_evals_template.Server.Response.{Response}
use ctf_koth_evals_template.Server.Auth.{
  bytes_eq, bytes_eq_sound, bytes_eq_refl, bearer_prefix, bearer_auth, creds_from_query,
}

take-drop : (n : ℕ) (xs : List ℕ) → take n xs ++ drop n xs ≡ xs
take-drop zero xs = refl
take-drop (suc n) [] = refl
take-drop (suc n) (x ∷ xs) = ap (λ l. x ∷ l) (take-drop n xs)

take-append : (xs ys : List ℕ) → take (length xs) (xs ++ ys) ≡ xs
take-append [] ys = refl
take-append (x ∷ xs) ys = ap (λ l. x ∷ l) (take-append xs ys)

drop-append : (xs ys : List ℕ) → drop (length xs) (xs ++ ys) ≡ ys
drop-append [] ys = refl
drop-append (x ∷ xs) ys = drop-append xs ys

-- Four tests in a row, of which one outcome lets the request through.
gate :
    (a b c d : Bool) (x y z t : Response)
    → (if a
        then some x
        else if b
        then some y
        else if c
        then (if d then none else some z)
        else some t)
      ≡ none
    → (a ≡ false) × (c ≡ true) × (d ≡ true)
gate a b c d x y z t e = ground arith

accepted_is_token :
    (expected auth : List ℕ)
    → bearer_auth expected auth ≡ none
    → (expected ≢ []) × (auth ≡ bearer_prefix ++ expected)
unfolding bearer_auth
accepted_is_token expected auth e =
    let (configured, prefixed, same) =
      gate (length expected == 0) (ltb (length auth) (length bearer_prefix))
        (bytes_eq (take (length bearer_prefix) auth) bearer_prefix)
        (bytes_eq (drop (length bearer_prefix) auth) expected) _ _ _ _ e in
    (
      λ nil. absurd (let none_left = ap (λ (l : List ℕ). length l == 0) nil in cc),
      sym (take-drop (length bearer_prefix) auth)
          ∙ ap (λ l. l ++ drop (length bearer_prefix) auth) (bytes_eq_sound _ _ prefixed)
          ∙ ap (λ l. bearer_prefix ++ l) (bytes_eq_sound _ _ same),
    )

not_empty : (xs : List ℕ) → xs ≢ [] → (length xs == 0) ≡ false
not_empty [] e = absurd (e refl)
not_empty (x ∷ xs) e = ground arith

long_enough : (xs ys : List ℕ) → ltb (length (xs ++ ys)) (length xs) ≡ false
long_enough xs ys = ground (arith, length-append xs ys)

token_is_accepted :
    (expected : List ℕ) → expected ≢ [] → bearer_auth expected (bearer_prefix ++ expected) ≡ none
unfolding bearer_auth
token_is_accepted expected e =
    rw (not_empty expected e, long_enough bearer_prefix expected, bytes_eq_refl expected)

-- The worker's middleware lets a request through if and only if a token is configured and the
-- Authorization header is `Bearer ` and that token.
pub bearer_auth-accepts :
    (expected auth : List ℕ)
    → (bearer_auth expected auth ≡ none) ↔ ((expected ≢ []) × (auth ≡ bearer_prefix ++ expected))
bearer_auth-accepts expected auth = (
  accepted_is_token expected auth,
  λ (set, same).
      subst (λ a. bearer_auth expected a ≡ none) (sym same) (token_is_accepted expected set),
)

-- A password that the request offers: that of the Authorization header, which comes first, or what
-- follows the first colon of the decoded ?auth= parameter.
abbrev pub Offers : (List ℕ → Option (List ℕ)) → Option (List ℕ) → List ℕ → List ℕ → Type 0
Offers decode (some got) raw password = got ≡ password
Offers decode none raw password = creds_from_query decode raw ≡ some password
