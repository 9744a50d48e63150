-- ===== src/Worker/Execute/Polls.antt =====
-- What the watchdog of execute does: a poll that cancels, and the timeout of the process.
use ctf_koth_evals_template.Prelude.{
  ℕ, ◌*◌, ◌^◌, ◌≤◌, ◌<◌, ◌+◌, ◌≡◌, refl, sym, ap, ◌∙◌, subst, true, false, List, [], ◌∷◌, In, inl,
  inr, Bool-cases, eq_iff, arith, ◌==◌,
}
use ctf_koth_evals_template.Go.Int.{ℤ, pos, negsuc}
use ctf_koth_evals_template.Server.Request.{decoded, malformed}
use ctf_koth_evals_template.Server.Response.{Body, status}
use ctf_koth_evals_template.Worker.Client.{Answer, is_cancelled, run_cancelled}
use ctf_koth_evals_template.Worker.Execute.{says_cancelled, watched, nanoseconds, timeout_of}

-- A poll that is answered with 200 and the status `cancelled`.
abbrev pub Cancels : Answer → Type 0
Cancels a = a ≡ decoded (record { code = 200; body = status "cancelled" })

is_cancelled_lem : (b : Body) → says_cancelled (is_cancelled b) ≡ true → b ≡ status "cancelled"
is_cancelled_lem (status s) e = ap status (ground (arith, eq_iff s "cancelled"))
is_cancelled_lem _ e = absurd (cc)

says-Cancels : (a : Answer) → says_cancelled (run_cancelled a) ≡ true → Cancels a
unfolding run_cancelled
says-Cancels (malformed e) h = absurd (cc)
says-Cancels (decoded r) h = elim (Bool-cases (r.code == 200)) [
  | inl k ↦
      let told : r.body ≡ status "cancelled" = is_cancelled_lem r.body (rw k at h) in
      let code : r.code ≡ 200 = ground arith in
      (λ i. decoded (record { code = code i; body = told i }))
  | inr k ↦ absurd (let bad = rw k at h in cc)
]

Cancels-says : (a : Answer) → Cancels a → says_cancelled (run_cancelled a) ≡ true
unfolding run_cancelled
Cancels-says a e =
    subst (λ x. says_cancelled (run_cancelled x) ≡ true) (sym e)
      (ground (arith, eq_iff "cancelled" "cancelled"))

pub watched-Cancels :
    (polls : List Answer) → watched polls ≡ true → (a : Answer) × In a polls × Cancels a
unfolding watched
watched-Cancels [] e = absurd (cc)
watched-Cancels (a ∷ polls) e = elim (Bool-cases (says_cancelled (run_cancelled a))) [
  | inl h ↦ (a, inl refl, says-Cancels a h)
  | inr h ↦ let (b, m, c) = watched-Cancels polls (rw h at e) in (b, inr m, c)
]

pub unwatched-Cancels :
    (polls : List Answer) → watched polls ≡ false → (a : Answer) → In a polls → Cancels a → ⊥
unfolding watched
unwatched-Cancels [] e a m c = elim m [ ]
unwatched-Cancels (b ∷ polls) e a m c = elim (Bool-cases (says_cancelled (run_cancelled b))) [
  | inl h ↦ absurd (let bad = rw h at e in cc)
  | inr h ↦ elim m [
    | inl same ↦ absurd (let yes = Cancels-says b (same ∙ c) in cc)
    | inr n ↦ unwatched-Cancels polls (rw h at e) a n c
  ]
]

-- A minute in nanoseconds.
abbrev pub minute : ℕ
minute = 60_000_000_000

-- The timeout of a process is positive and fits into 63 bits. It is that of the suite where that is
-- positive and its nanoseconds fit into 63 bits too, and a minute where it is not positive and its
-- nanoseconds fit into 64.
abbrev pub IsTimeout : ℤ → ℕ → Type 0
IsTimeout (pos n) t =
    (0 < t)
    × (t < 2 ^ 63)
    × (0 < n → n * 1_000_000_000 < 2 ^ 63 → t ≡ n * 1_000_000_000)
    × (n ≡ 0 → t ≡ minute)
IsTimeout (negsuc n) t = (0 < t) × (t < 2 ^ 63) × ((n + 1) * 1_000_000_000 ≤ 2 ^ 63 → t ≡ minute)

pub timeout_of-IsTimeout : (seconds : ℤ) → IsTimeout seconds (timeout_of seconds)
unfolding timeout_of nanoseconds
timeout_of-IsTimeout (pos n) = (ground arith, ground arith, λ h k. ground arith, λ h. ground arith)
timeout_of-IsTimeout (negsuc n) = (ground arith, ground arith, λ h. ground arith)
