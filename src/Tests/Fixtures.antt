-- ===== src/Tests/Fixtures.antt =====
-- A database with one challenge, one suite, one submission and four runs, and an environment:
-- a LIMIT 1 that scans the rows from the front.
use ctf_koth_evals_template.Prelude.{
  String, ◌≡◌, ◌≢◌, eq_iff, refl, subst, inl, inr, Bool, true, false, Option, none, some, List, [],
  ◌∷◌, arith, In, if◌then◌else◌,
}
use ctf_koth_evals_template.Go.Int.{pos}
use ctf_koth_evals_template.Go.Any.{Fields}
use ctf_koth_evals_template.Ent.Status.{claimed, succeeded}
use ctf_koth_evals_template.Ent.Schema.{Challenge, Suite, Submission, Run, Worker, Db}
use ctf_koth_evals_template.Ent.Store.{new_run}
use ctf_koth_evals_template.Server.Action.{World}
use ctf_koth_evals_template.Server.Claim.{claims_before, IsFirst}
use ctf_koth_evals_template.Server.Service.{Env}
use ctf_koth_evals_template.Server.Lifecycle.{Inv, IsUnfinished}

scan : Run → List Run → Run
scan best [] = best
scan best (r ∷ rs) = scan (if claims_before r best then r else best) rs

unfoldable pub scan_first : List Run → Option Run
unfolding scan
scan_first [] = none
scan_first (r ∷ rs) = some (scan r rs)

scan-In : (b : Run) (rs : List Run) → In (scan b rs) (b ∷ rs)
unfolding scan
scan-In b [] = inl refl
scan-In b (r ∷ rs) =
    deeper (scan (if claims_before r b then r else b) rs)
      (scan-In (if claims_before r b then r else b) rs)
  where
    step : Run
    step = if claims_before r b then r else b

    chosen : (t : Bool) → claims_before r b ≡ t → (q : Run) → step ≡ q → In q (b ∷ r ∷ rs)
    chosen true e q h = inr (inl (subst (λ x. (if x then r else b) ≡ q) e h))
    chosen false e q h = inl (subst (λ x. (if x then r else b) ≡ q) e h)

    deeper : (q : Run) → In q (step ∷ rs) → In q (b ∷ r ∷ rs)
    deeper q (inr m) = inr (inr m)
    deeper q (inl h) = chosen (claims_before r b) refl q h

before_trans :
    (a b c : Run) → claims_before a b ≡ true → claims_before b c ≡ true → claims_before a c ≡ true
unfolding claims_before
before_trans a b c h k = ground arith

before_asym : (a b : Run) → claims_before a b ≡ true → claims_before b a ≡ false
unfolding claims_before
before_asym a b h = ground arith

before_irrefl : (a : Run) → claims_before a a ≡ false
unfolding claims_before
before_irrefl a = ground arith

-- Nothing that is not before `b` is before what the scan ends with.
scan_keeps :
    (b : Run) (rs : List Run) (x : Run)
    → claims_before x b ≡ false
    → claims_before x (scan b rs) ≡ false
unfolding scan
scan_keeps b [] x h = h
scan_keeps b (r ∷ rs) x h =
    scan_keeps (if claims_before r b then r else b) rs x
      (kept (claims_before r b) (claims_before x r) refl refl)
  where
    kept :
        (t u : Bool)
        → claims_before r b ≡ t
        → claims_before x r ≡ u
        → claims_before x (if claims_before r b then r else b) ≡ false
    kept true true e f = absurd (let bad = before_trans x r b f e in cc)
    kept true false e f = rw e f
    kept false u e f = rw e h

scan_best :
    (b : Run) (rs : List Run) (x : Run) → In x (b ∷ rs) → claims_before x (scan b rs) ≡ false
unfolding scan
scan_best b rs x (inl e) =
    scan_keeps b rs x (subst (λ y. claims_before y b ≡ false) e (before_irrefl b))
scan_best b [] x (inr m) = elim m [ ]
scan_best b (r ∷ rs) x (inr (inl e)) =
    subst (λ y. claims_before y (scan b (r ∷ rs)) ≡ false) e
      (scan_keeps (if claims_before r b then r else b) rs r (now (claims_before r b) refl))
  where
    now :
        (t : Bool)
        → claims_before r b ≡ t
        → claims_before r (if claims_before r b then r else b) ≡ false
    now true h = rw h (before_irrefl r)
    now false h = rw h h
scan_best b (r ∷ rs) x (inr (inr m)) = scan_best (if claims_before r b then r else b) rs x (inr m)

pub scan_first-IsFirst : IsFirst scan_first
unfolding scan_first
scan_first-IsFirst = record {
  first_cons = λ r rs. (scan r rs, refl);
  first_in = found;
  first_best = best;
}
  where
    found : (rs : List Run) (q : Run) → scan_first rs ≡ some q → In q rs
    found [] q e = absurd (cc)
    found (r ∷ rs) q e =
        let same : scan r rs ≡ q = cc in subst (λ x. In x (r ∷ rs)) same (scan-In r rs)

    best :
        (rs : List Run) (q r : Run) → scan_first rs ≡ some q → In r rs → claims_before r q ≡ false
    best [] q r e m = elim m [ ]
    best (x ∷ rs) q r e m =
        let same : scan x rs ≡ q = cc in
        subst (λ y. claims_before r y ≡ false) same (scan_best x rs r m)

abbrev pub env : Env
env = record { first = scan_first; digest = λ bytes. "00"; worker_timeout = 30; max_upload_mb = 16 }

abbrev pub challenge : Challenge
challenge = record {
  id = 1;
  name = "regex-count";
  version = "ab12";
  description = "";
  manifest = Fields.end;
  bundle = 7 ∷ [];
  bundle_size = 1;
  created_at = 1;
}

abbrev pub suite : Suite
suite = record {
  id = 1;
  name = "qualifier";
  description = "";
  parameters = none;
  seeds = "s1" ∷ "s2" ∷ [];
  timeout_seconds = pos 60;
  scoring = none;
  sealed = true;
  created_at = 2;
  challenge = 1;
  parent = none;
}

abbrev pub submission : Submission
submission = record {
  id = 1;
  name = "first";
  submitter = "eve";
  artifact_name = "p.txt";
  artifact = 1 ∷ [];
  artifact_size = 1;
  artifact_sha256 = "00";
  created_at = 3;
}

abbrev pub finished_run : Run
finished_run = record (new_run 10 "s1" 1 1 1) {
  status = succeeded;
  score = some (record { bits = 1 });
  worker_id = some "w";
  claimed_at = some 11;
  started_at = some 12;
  finished_at = some 13;
}

abbrev pub claimed_run : Run
claimed_run = record (new_run 10 "s2" 1 1 2) {
  status = claimed;
  worker_id = some "w";
  claimed_at = some 14;
}

abbrev pub waiting_run : Run
waiting_run = new_run 20 "s1" 1 1 3

abbrev pub urgent_run : Run
urgent_run = record (new_run 21 "s2" 1 1 4) { priority = 9 }

abbrev pub worker : Worker
worker = record { id = 1; name = "w"; last_seen = 14; runs_handled = 1; created_at = 5 }

abbrev pub db : Db
db = record {
  challenges = challenge ∷ [];
  suites = suite ∷ [];
  submissions = submission ∷ [];
  runs = finished_run ∷ claimed_run ∷ waiting_run ∷ urgent_run ∷ [];
  workers = worker ∷ [];
  next_challenge = 2;
  next_suite = 2;
  next_submission = 2;
  next_run = 5;
  next_worker = 2;
}

abbrev pub world : World
world = record { db = db; hub = none; hb_cache = []; faults = [] }

w_named : ◌≢◌ {A = String} "w" ""
w_named = ground (arith, eq_iff "w" "")

untouched :
    (r : Run)
    → r.score ≡ none
    → r.result ≡ none
    → r.error ≡ ""
    → r.started_at ≡ none
    → r.finished_at ≡ none
    → IsUnfinished r
untouched r a b c d e = record {
  no_score = a;
  no_result = b;
  no_error = c;
  not_started = d;
  not_finished = e;
}

pub db-Inv : Inv db
db-Inv = record {
  keyed = omega arith;
  submission_keys = (omega arith, tt);
  valid = (
    (13, refl),
    (
      (untouched claimed_run refl refl refl refl refl, (14, refl), ("w", refl, w_named)),
      (
        (untouched waiting_run refl refl refl refl refl, refl, inl refl),
        ((untouched urgent_run refl refl refl refl refl, refl, inl refl), tt),
      ),
    ),
  );
}
