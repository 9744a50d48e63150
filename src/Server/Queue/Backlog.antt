-- ===== src/Server/Queue/Backlog.antt =====
-- The entries of getQueue against one count and one mean for each suite.
use mathlib.Core.List.{append_assoc, append-nil}
use ctf_koth_evals_template.Prelude.{
  ℕ, ◌+◌, ◌≡◌, refl, sym, ap, ◌∙◌, Bool, true, ◌&&◌, Option, none, some, List, [], ◌∷◌, ◌++◌, ◌==◌,
  ltb, if◌then◌else◌, length, find_first, select, tally, In, inl, inr, Bool-cases, arith,
}
use ctf_koth_evals_template.Go.Float.{Float, Arith, float_eq, zero_float}
use ctf_koth_evals_template.Ent.Tables.{find_first-In}
use ctf_koth_evals_template.Ent.Schema.{Suite, Run, Db}
use ctf_koth_evals_template.Wireapi.{QueueSuiteEntry, QueueStatus}
use ctf_koth_evals_template.Server.Response.{Body, write_json}
use ctf_koth_evals_template.Server.Action.{World, value, reliable, serve, ◌>>=◌, query, pure}
use ctf_koth_evals_template.Server.Sweeper.{is_fresh}
use ctf_koth_evals_template.Server.Queue.Means.{
  is_open, is_unfinished_lem, durations, mean_of, mean_ms-select,
}
use ctf_koth_evals_template.Server.Queue.{
  is_unfinished, suite_of, with_suites, increment, number_at, add_loaded, pending_by_suite,
  suite_entries, is_recent, queue_status, get_queue,
}

-- A run of the suite that waits or is executed.
abbrev pub waits_for : ℕ → Run → Bool
waits_for k r = is_open r.status && r.suite == k

-- What there is to say of a suite: how many of its runs are not finished, and how long one takes.
abbrev pub entry_of : Arith → Db → Suite → QueueSuiteEntry
entry_of ar db su = record {
  suite_id = su.id;
  name = su.name;
  pending = tally (waits_for su.id) db.runs;
  mean_duration_ms = mean_of ar (durations su.id db.runs);
}

abbrev pub is_idle : QueueSuiteEntry → Bool
is_idle e = e.pending == 0 && float_eq e.mean_duration_ms zero_float

abbrev pub backlog : Arith → Db → List Suite → List QueueSuiteEntry
backlog ar db [] = []
backlog ar db (su ∷ suites) =
    if is_idle (entry_of ar db su)
    then backlog ar db suites
    else entry_of ar db su ∷ backlog ar db suites

length-with_suites : (db : Db) (rs : List Run) → length (with_suites db rs) ≡ length rs
length-with_suites db [] = refl
length-with_suites db (r ∷ rs) = omega (arith, length-with_suites db rs)

length-select : {A : Type 0} (p : A → Bool) (rs : List A) → length (select p rs) ≡ tally p rs
length-select p [] = refl
length-select p (r ∷ rs) = elim (Bool-cases (p r)) [
  | inl e ↦ rw e (omega (arith, length-select p rs))
  | inr e ↦ rw e (omega (arith, length-select p rs))
]

tally-is_unfinished : (rs : List Run) → tally is_unfinished rs ≡ tally (λ r. is_open r.status) rs
tally-is_unfinished [] = refl
tally-is_unfinished (r ∷ rs) =
    rw (is_unfinished_lem r)
      (ap (λ n. (if is_open r.status then 1 else 0) + n) (tally-is_unfinished rs))

number_at-increment :
    (k j : ℕ) (m : List (ℕ × ℕ))
    → number_at k (increment j m) ≡ number_at k m + (if j == k then 1 else 0)
unfolding number_at increment
number_at-increment k j [] = ground arith
number_at-increment k j ((i, n) ∷ m) = elim (Bool-cases (i == j)) [
  | inl e ↦ rw e (ground arith)
  | inr e ↦ let later = number_at-increment k j m in rw e (ground arith)
]

-- The suite with the key, where one is there.
found_suite :
    (k : ℕ) (suites : List Suite) (su : Suite)
    → In su suites
    → su.id ≡ k
    → (s : Suite) × (find_first (λ (x : Suite). x.id == k) suites ≡ some s) × (s.id ≡ k)
found_suite k [] su m e = elim m [ ]
found_suite k (x ∷ suites) su m e = elim (Bool-cases (x.id == k)) [
  | inl t ↦ rw t (x, refl, ground arith)
  | inr t ↦ rw t (elim m [
    | inl h ↦ absurd (let same : x.id ≡ k = ap (λ (s : Suite). s.id) h ∙ e in ground arith)
    | inr n ↦ found_suite k suites su n e
  ])
]

module _ (db : Db) (k : ℕ) (su : Suite) (is_su : su.id ≡ k) (stands : In su db.suites) where
  -- What a run whose suite is loaded, or is not there, adds to the count of the suite.
  number_at-add_loaded :
      (r : Run) (found : Option Suite) (m : List (ℕ × ℕ))
      → suite_of db r ≡ found
      → number_at k (add_loaded found m) ≡ number_at k m + (if r.suite == k then 1 else 0)
  number_at-add_loaded r none m e = elim (Bool-cases (r.suite == k)) [
    | inl t ↦
        let own : su.id ≡ r.suite = ground arith in
        let (s, there, key) = found_suite r.suite db.suites su stands own in
        absurd (let bad = sym e ∙ there in cc)
    | inr t ↦ rw t (omega arith)
  ]
  number_at-add_loaded r (some s) m e =
      let key : (s.id == r.suite) ≡ true =
        (find_first-In (λ (x : Suite). x.id == r.suite) db.suites s e).1 in
      let counted = number_at-increment k s.id m in
      let same : s.id ≡ r.suite = ground arith in
      counted ∙ ap (λ i. number_at k m + (if i == k then 1 else 0)) same

  number_at-pending_by_suite :
      (rs : List Run) (m : List (ℕ × ℕ))
      → number_at k (pending_by_suite (with_suites db (select is_unfinished rs)) m)
        ≡ number_at k m + tally (waits_for k) rs
  unfolding pending_by_suite
  number_at-pending_by_suite [] m = omega arith
  number_at-pending_by_suite (r ∷ rs) m = elim (Bool-cases (is_unfinished r)) [
    | inl e ↦
        let later = number_at-pending_by_suite rs (add_loaded (suite_of db r) m) in
        let first = number_at-add_loaded r (suite_of db r) m refl in
        let same = sym (is_unfinished_lem r) ∙ e in rw (e, same) (omega (arith, later, first))
    | inr e ↦
        let later = number_at-pending_by_suite rs m in
        let same = sym (is_unfinished_lem r) ∙ e in rw (e, same) (omega (arith, later))
  ]

module _ (ar : Arith) (w : World) (m : List (ℕ × ℕ)) where
  -- What the loop over the suites makes of a count that is right for each of them.
  suite_entries-backlog :
      (suites : List Suite) (acc : List QueueSuiteEntry × Float)
      → ((su : Suite) → In su suites → number_at su.id m ≡ tally (waits_for su.id) w.db.runs)
      → (work : Float) × (suite_entries ar m suites acc (reliable w)
          ≡ (value (acc.0 ++ backlog ar w.db suites, work), reliable w))
  unfolding suite_entries ◌>>=◌ query pure
  suite_entries-backlog [] acc right =
      (acc.1, ap (λ l. (value (l, acc.1), reliable w)) (sym (append-nil acc.0)))
  suite_entries-backlog (su ∷ suites) (entries, work) right =
      let here = right su (inl refl) in
      let e : QueueSuiteEntry = entry_of ar w.db su in
      elim (Bool-cases (is_idle e)) [
        | inl t ↦
            let rest = suite_entries-backlog suites (entries, work) (λ s n. right s (inr n)) in
            rw (here, mean_ms-select ar su.id w.db.runs, t) rest
        | inr t ↦
            let more : Float =
              ar.add work
                (ar.div (ar.mul (ar.of_int e.pending) e.mean_duration_ms) (ar.of_int 1000)) in
            let (sum, runs) =
              suite_entries-backlog suites (entries ++ e ∷ [], more) (λ s n. right s (inr n)) in
            let told =
              runs
              ∙ ap (λ l. (value (l, sum), reliable w))
                  (append_assoc entries (e ∷ []) (backlog ar w.db suites)) in
            rw (here, mean_ms-select ar su.id w.db.runs, t) (sum, told)
      ]

module _ (ar : Arith) where
  -- On a database that does not fail, the answer is 200 with the number of all runs that are
  -- pending, claimed or running, the number of workers last seen less than the timeout ago, and an
  -- entry for every suite that has such runs or a mean duration other than zero, in the order of
  -- the suites: each with the suite's key and name, the number of its own such runs, and the sum
  -- of the whole milliseconds of its own succeeded runs that have both times over their number.
  pub get_queue-backlog :
      (timeout now later latest : ℕ) (w : World)
      → (q : QueueStatus) × ((serve (get_queue ar timeout now later latest) (reliable w)).0
          ≡ write_json 200 (Body.queue q))
        × (q.pending_total ≡ tally (λ r. is_open r.status) w.db.runs)
        × (q.active_workers ≡ tally (λ v. ltb latest (v.last_seen + timeout)) w.db.workers)
        × (q.by_suite ≡ backlog ar w.db w.db.suites)
  unfolding get_queue serve ◌>>=◌ query pure is_fresh
  get_queue-backlog timeout now later latest w =
      let waiting = with_suites w.db (select is_unfinished w.db.runs) in
      let active = length (select (is_fresh latest timeout) w.db.workers) in
      let (work, runs) =
        suite_entries-backlog ar w (pending_by_suite waiting []) w.db.suites ([], zero_float)
          (λ su stands.
            number_at-pending_by_suite w.db su.id su refl stands w.db.runs []
            ∙ (unfold number_at in omega arith)) in
      (
        queue_status ar later (length waiting) active (backlog ar w.db w.db.suites, work)
            (select (is_recent now) w.db.runs),
        rw runs refl,
        length-with_suites w.db (select is_unfinished w.db.runs)
            ∙ length-select is_unfinished w.db.runs
            ∙ tally-is_unfinished w.db.runs,
        length-select (is_fresh latest timeout) w.db.workers,
        refl,
      )
