-- ===== src/Server/Auth.antt =====
-- bearerAuth of internal/server/internal_api.go, basicAuth and credsFromQuery of server.go.
-- Headers, tokens and passwords are byte strings.
pub mod Access
use ctf_koth_evals_template.Prelude.{
  ℕ, ◌≡◌, Bool, true, false, ◌&&◌, Option, none, some, List, [], ◌∷◌, ◌==◌, ltb, if◌then◌else◌,
  length, drop, take, arith,
}
use ctf_koth_evals_template.Go.Text.{codes}
use ctf_koth_evals_template.Server.Response.{Response, message}

-- subtle.ConstantTimeCompare(x, y) == 1, and `==` on strings.
unfoldable pub bytes_eq : List ℕ → List ℕ → Bool
bytes_eq [] [] = true
bytes_eq (x ∷ xs) (y ∷ ys) = (x == y) && bytes_eq xs ys
bytes_eq _ _ = false

-- "Bearer "
abbrev pub bearer_prefix : List ℕ
bearer_prefix = codes "Bearer "

abbrev pub refused : ℕ → Response
refused code = record { code = code; body = message "unauthorized" }

-- What the middleware answers itself; `none` where it calls the next handler.
unfoldable pub bearer_auth : List ℕ → List ℕ → Option Response
unfolding bytes_eq
bearer_auth expected auth =
    if length expected == 0
    then some (record { code = 503; body = message "worker token not configured" })
    else if ltb (length auth) (length bearer_prefix)
    then some (record { code = 401; body = message "missing bearer token" })
    else if bytes_eq (take (length bearer_prefix) auth) bearer_prefix
    then (if bytes_eq (drop (length bearer_prefix) auth) expected then none else some (refused 401))
    else some (record { code = 401; body = message "missing bearer token" })

-- strings.Cut(s, ":"), the part behind the separator.
unfoldable pub cut_after : ℕ → List ℕ → Option (List ℕ)
cut_after sep [] = none
cut_after sep (c ∷ cs) = if c == sep then some cs else cut_after sep cs

abbrev pub password_of : Option (List ℕ) → Option (List ℕ)
password_of none = none
password_of (some decoded) = cut_after b':' decoded

-- `decode` is base64.StdEncoding.DecodeString, `raw` the ?auth= parameter.
unfoldable pub creds_from_query : (List ℕ → Option (List ℕ)) → List ℕ → Option (List ℕ)
unfolding cut_after
creds_from_query decode raw = if length raw == 0 then none else password_of (decode raw)

-- `header` is the password that req.BasicAuth() found.
abbrev pub offered : Option (List ℕ) → Option (List ℕ) → Option (List ℕ)
offered (some got) from_query = some got
offered none from_query = from_query

abbrev pub check_password : List ℕ → Option (List ℕ) → Option Response
check_password expected none = some (refused 401)
check_password expected (some got) = if bytes_eq got expected then none else some (refused 401)

unfoldable pub basic_auth :
    (List ℕ → Option (List ℕ)) → List ℕ → Option (List ℕ) → List ℕ → Option Response
unfolding creds_from_query bytes_eq
basic_auth decode expected header raw =
    check_password expected (offered header (creds_from_query decode raw))

pub bytes_eq_sound : (xs ys : List ℕ) → bytes_eq xs ys ≡ true → xs ≡ ys
unfolding bytes_eq
bytes_eq_sound [] [] h = ground arith
bytes_eq_sound (x ∷ xs) (y ∷ ys) h = ground (arith, bytes_eq_sound xs ys)
bytes_eq_sound [] (y ∷ ys) h = cc
bytes_eq_sound (x ∷ xs) [] h = cc

pub bytes_eq_refl : (xs : List ℕ) → bytes_eq xs xs ≡ true
unfolding bytes_eq
bytes_eq_refl [] = ground arith
bytes_eq_refl (x ∷ xs) = ground (arith, bytes_eq_refl xs)
