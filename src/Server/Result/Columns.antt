-- ===== src/Server/Result/Columns.antt =====
-- The columns of a run that a report sets, and the texts that name a status.
use ctf_koth_evals_template.Prelude.{
  ℕ, zero, suc, get_elem?, String, ◌≡◌, ◌≢◌, refl, subst, inl, inr, Bool, true, Option, none, some,
  List, [], ◌∷◌, Bool-cases, str_eq, eq_iff, if◌then◌else◌, arith,
}
use ctf_koth_evals_template.Ent.Status.{
  Status, pending, claimed, running, succeeded, failed, timed_out, cancelled, to_text,
}
use ctf_koth_evals_template.Ent.Schema.{Run}
use ctf_koth_evals_template.Ent.Store.{rewrite}
use ctf_koth_evals_template.Wireapi.{ResultRequest}
use ctf_koth_evals_template.Server.Result.{
  parse_terminal_status, with_result, or_keep, or_keep_text,
}

-- A status that a run ends in.
abbrev pub IsFinal : Status → Type 0
IsFinal succeeded = Unit
IsFinal failed = Unit
IsFinal timed_out = Unit
IsFinal cancelled = Unit
IsFinal _ = ⊥

-- The text of a report names a final status.
abbrev pub Names : String → Status → Type 0
Names text t = (text ≡ to_text t) × IsFinal t

-- A column that a report may leave out: it holds what the report says, or what it held before.
abbrev pub Updates : {A : Type 0} → Option A → Option A → Option A → Type 0
Updates {A} said old new = ((a : A) → said ≡ some a → new ≡ some a) × (said ≡ none → new ≡ old)

abbrev pub UpdatesText : String → String → String → Type 0
UpdatesText said old new = (said ≢ "" → new ≡ said) × (said ≡ "" → new ≡ old)

-- The report stands in the row `q` that was `r`: it has ended, and the other columns are what they
-- were.
pub record HoldsReport (status : Status) (body : ResultRequest) (now : ℕ) (r q : Run) : Type 0 where
  pub ended : q.status ≡ status
  pub at : q.finished_at ≡ some now
  pub score : Updates body.score r.score q.score
  pub result : Updates body.result r.result q.result
  pub started : Updates body.started_at r.started_at q.started_at
  pub error : UpdatesText body.error r.error q.error
  pub stdout : UpdatesText body.stdout r.stdout q.stdout
  pub stderr : UpdatesText body.stderr r.stderr q.stderr
  pub id : q.id ≡ r.id
  pub seed : q.seed ≡ r.seed
  pub priority : q.priority ≡ r.priority
  pub worker : q.worker_id ≡ r.worker_id
  pub claimed_at : q.claimed_at ≡ r.claimed_at
  pub created_at : q.created_at ≡ r.created_at
  pub submission : q.submission ≡ r.submission
  pub suite : q.suite ≡ r.suite

-- Two tables row by row.
abbrev pub Rowwise : {A : Type 0} → (A → A → Type 0) → List A → List A → Type 0
Rowwise R [] [] = Unit
Rowwise R [] (y ∷ ys) = ⊥
Rowwise R (x ∷ xs) [] = ⊥
Rowwise R (x ∷ xs) (y ∷ ys) = R x y × Rowwise R xs ys

pub parse_none : (s : String) → parse_terminal_status s ≡ none → (t : Status) → Names s t → ⊥
unfolding parse_terminal_status to_text
parse_none s e succeeded (h, f) =
    absurd (let bad = subst (λ x. parse_terminal_status x ≡ none) h e in cc)
parse_none s e failed (h, f) =
    absurd (let bad = subst (λ x. parse_terminal_status x ≡ none) h e in cc)
parse_none s e timed_out (h, f) =
    absurd (let bad = subst (λ x. parse_terminal_status x ≡ none) h e in cc)
parse_none s e cancelled (h, f) =
    absurd (let bad = subst (λ x. parse_terminal_status x ≡ none) h e in cc)
parse_none s e pending (h, f) = f
parse_none s e claimed (h, f) = f
parse_none s e running (h, f) = f

pub parse_some : (s : String) (t : Status) → parse_terminal_status s ≡ some t → Names s t
unfolding parse_terminal_status to_text
parse_some s t e = elim (Bool-cases (str_eq s "succeeded")) [
  | inl a ↦ subst (Names s) (named (rw a at e)) (text a, tt)
  | inr a ↦ elim (Bool-cases (str_eq s "failed")) [
    | inl b ↦ subst (Names s) (named (rw (a, b) at e)) (text b, tt)
    | inr b ↦ elim (Bool-cases (str_eq s "timed_out")) [
      | inl c ↦ subst (Names s) (named (rw (a, b, c) at e)) (text c, tt)
      | inr c ↦ elim (Bool-cases (str_eq s "cancelled")) [
        | inl d ↦ subst (Names s) (named (rw (a, b, c, d) at e)) (text d, tt)
        | inr d ↦ absurd (let bad = rw (a, b, c, d) at e in cc)
      ]
    ]
  ]
]
  where
    named : {u : Status} → ◌≡◌ {A = Option Status} (some u) (some t) → u ≡ t
    named h = cc

    text : {name : String} → str_eq s name ≡ true → s ≡ name
    text {name} h = ground (arith, eq_iff s name)

or_keep-Updates : {A : Type 0} (said old : Option A) → Updates said old (or_keep said old)
or_keep-Updates none old = (λ a e. absurd (cc), λ e. refl)
or_keep-Updates (some b) old = (λ a e. e, λ e. absurd (cc))

or_keep_text-Updates : (said old : String) → UpdatesText said old (or_keep_text said old)
or_keep_text-Updates said old = elim (Bool-cases (str_eq said "")) [
  | inl e ↦ rw e (λ other. absurd (other (ground (arith, eq_iff said ""))), λ same. refl)
  | inr e ↦ rw e (λ other. refl, λ same. absurd (ground (arith, eq_iff said "")))
]

pub with_result-HoldsReport :
    (status : Status) (body : ResultRequest) (now : ℕ) (r : Run)
    → HoldsReport status body now r (with_result status body now r)
unfolding with_result
with_result-HoldsReport status body now r = record {
  ended = refl;
  at = refl;
  score = or_keep-Updates body.score r.score;
  result = or_keep-Updates body.result r.result;
  started = or_keep-Updates body.started_at r.started_at;
  error = or_keep_text-Updates body.error r.error;
  stdout = or_keep_text-Updates body.stdout r.stdout;
  stderr = or_keep_text-Updates body.stderr r.stderr;
  id = refl;
  seed = refl;
  priority = refl;
  worker = refl;
  claimed_at = refl;
  created_at = refl;
  submission = refl;
  suite = refl;
}

pub rewrite-Rowwise :
    {A : Type 0} (R : A → A → Type 0) (p : A → Bool) (f : A → A) (xs : List A)
    → ((x : A) → R x (if p x then f x else x))
    → Rowwise R xs (rewrite p f xs)
unfolding rewrite
rewrite-Rowwise R p f [] h = tt
rewrite-Rowwise R p f (x ∷ xs) h = (h x, rewrite-Rowwise R p f xs h)

pub Rowwise-refl :
    {A : Type 0} (R : A → A → Type 0) (xs : List A) → ((x : A) → R x x) → Rowwise R xs xs
Rowwise-refl R [] h = tt
Rowwise-refl R (x ∷ xs) h = (h x, Rowwise-refl R xs h)

pub get_elem?-Rowwise :
    {A : Type 0} (R : A → A → Type 0) (xs ys : List A) (k : ℕ) (x : A)
    → Rowwise R xs ys
    → get_elem? xs k ≡ some x
    → (y : A) × (get_elem? ys k ≡ some y) × R x y
get_elem?-Rowwise R [] [] k x h e = absurd (cc)
get_elem?-Rowwise R [] (y ∷ ys) k x h e = absurd h
get_elem?-Rowwise R (z ∷ xs) [] k x h e = absurd h
get_elem?-Rowwise R (z ∷ xs) (y ∷ ys) zero x h e =
    let same : z ≡ x = cc in (y, refl, subst (λ v. R v y) same h.0)
get_elem?-Rowwise R (z ∷ xs) (y ∷ ys) (suc k) x h e = get_elem?-Rowwise R xs ys k x h.1 e
