-- ===== src/Worker/Execute/Verdict.antt =====
-- Which report an execution ends with: its conditions, for every way that the steps can end.
use ctf_koth_evals_template.Prelude.{
  ℕ, String, ◌≡◌, refl, sym, ap, ◌∙◌, subst, true, false, Option, none, some, List, In, inl, inr,
}
use ctf_koth_evals_template.Go.Float.{Float}
use ctf_koth_evals_template.Go.Any.{Fields, Any, number, get}
use ctf_koth_evals_template.Wireapi.{ClaimResponse, ResultRequest}
use ctf_koth_evals_template.Server.Request.{decoded}
use ctf_koth_evals_template.Worker.Client.{Answer}
use ctf_koth_evals_template.Worker.Tail.Last.{last_bytes, joined, write_all-last_bytes}
use ctf_koth_evals_template.Worker.Execute.{
  read_result, to_float, Ended, Steps, Codecs, timeout_of, tail_text, execute,
}
use ctf_koth_evals_template.Worker.Execute.Branches.{
  HasScore, Branch, execute-Branch, decoded_cases,
}
use ctf_koth_evals_template.Worker.Execute.Preparation.{
  IsReady, IsReady-IsPrepared, IsPrepared-IsReady,
}
use ctf_koth_evals_template.Worker.Execute.Polls.{
  Cancels, IsTimeout, watched-Cancels, unwatched-Cancels, timeout_of-IsTimeout,
}

-- What is told of a run: the outputs are the texts of the last 32 KiB of each stream.
abbrev pub told :
    Codecs → String → Option Float → Option Fields → String → ℕ → Ended → ResultRequest
told c status score result cause started e = record {
  status = status;
  score = score;
  result = result;
  error = cause;
  started_at = some started;
  stdout = c.as_string (last_bytes 32768 (joined e.stdout));
  stderr = c.as_string (last_bytes 32768 (joined e.stderr));
}

-- The process ended well, and left a file that is JSON and whose score is a number.
pub record LeavesScore (c : Codecs) (s : Steps) (e : Ended) (fields : Fields) (score : Float)
    : Type 0 where
  pub waited : e.waited ≡ decoded tt
  pub raw : List ℕ
  pub left : s.result_file ≡ decoded raw
  pub parsed : c.json raw ≡ decoded fields
  pub is_number : get fields "score" ≡ some (number score)

-- `e` is how the process ended.
pub data Verdict (c : Codecs) (claim : ClaimResponse) (s : Steps) (e : Ended)
    : ResultRequest → Type 0 where
  not_started :
      (cause : String) (started : Option ℕ)
      → (IsReady c claim s → ⊥)
      → Verdict c claim s e (record {
        status = "failed";
        score = none;
        result = none;
        error = cause;
        started_at = started;
        stdout = "";
        stderr = "";
      })
  was_cancelled :
      IsReady c claim s
      → (a : Answer) → In a e.polls
      → Cancels a
      → Verdict c claim s e
          (told c "cancelled" none none "run cancelled by operator" s.started_at e)
  ran_out :
      IsReady c claim s
      → ((a : Answer) → In a e.polls → Cancels a → ⊥)
      → e.deadline_passed ≡ true
      → Verdict c claim s e
          (told c "timed_out" none none "wrapper exceeded suite timeout" s.started_at e)
  broke :
      (cause : String)
      → IsReady c claim s
      → ((a : Answer) → In a e.polls → Cancels a → ⊥)
      → e.deadline_passed ≡ false
      → ((fields : Fields) (score : Float) → LeavesScore c s e fields score → ⊥)
      → Verdict c claim s e (told c "failed" none none cause s.started_at e)
  scored :
      (fields : Fields) (score : Float)
      → IsReady c claim s
      → ((a : Answer) → In a e.polls → Cancels a → ⊥)
      → e.deadline_passed ≡ false
      → LeavesScore c s e fields score
      → Verdict c claim s e (told c "succeeded" (some score) (some fields) "" s.started_at e)

to_float-number : (v : Option Any) (f : Float) → to_float v ≡ decoded f → v ≡ some (number f)
to_float-number (some (number g)) f e = let same : g ≡ f = cc in ap (λ x. some (number x)) same
to_float-number none f e = absurd (cc)
to_float-number (some other) f e = absurd (cc)

scored_left :
    (c : Codecs) (s : Steps) (e : Ended) (fields : Fields) (score : Float)
    → HasScore c s e fields score
    → LeavesScore c s e fields score
unfolding read_result
scored_left c s e fields score h = elim (decoded_cases s.result_file) [
  | inl (x, f) ↦ absurd (let bad = rw f at h.read in cc)
  | inr (raw, f) ↦ elim (decoded_cases (c.json raw)) [
    | inl (x, p) ↦ absurd (let bad = rw (f, p) at h.read in cc)
    | inr (parsed, p) ↦ elim (decoded_cases (to_float (get parsed "score"))) [
      | inl (x, n) ↦ absurd (let bad = rw (f, p, n) at h.read in cc)
      | inr (g, n) ↦
          let read = rw (f, p, n) at h.read in
          let same : parsed ≡ fields = cc in
          let value : g ≡ score = cc in
          record {
            waited = h.waited;
            raw = raw;
            left = f;
            parsed = p ∙ ap decoded same;
            is_number =
                ap (λ x. get x "score") (sym same)
                ∙ to_float-number (get parsed "score") g n
                ∙ ap (λ x. some (number x)) value;
          }
    ]
  ]
]

left_scored :
    (c : Codecs) (s : Steps) (e : Ended) (fields : Fields) (score : Float)
    → LeavesScore c s e fields score
    → HasScore c s e fields score
unfolding read_result
left_scored c s e fields score h = record {
  waited = h.waited;
  read = rw (h.left, h.parsed, h.is_number) refl;
}

-- The same with the outputs as execute takes them.
abbrev taken : Codecs → String → Option Float → Option Fields → String → ℕ → Ended → ResultRequest
taken c status score result cause started e = record {
  status = status;
  score = score;
  result = result;
  error = cause;
  started_at = some started;
  stdout = tail_text c e.stdout;
  stderr = tail_text c e.stderr;
}

told-taken :
    (c : Codecs) (status : String) (score : Option Float) (result : Option Fields) (cause : String)
    (started : ℕ) (e : Ended)
    → told c status score result cause started e ≡ taken c status score result cause started e
told-taken c status score result cause started e = λ i. record {
  status = status;
  score = score;
  result = result;
  error = cause;
  started_at = some started;
  stdout = c.as_string (sym (write_all-last_bytes 32768 e.stdout) i);
  stderr = c.as_string (sym (write_all-last_bytes 32768 e.stderr) i);
}

module _ (c : Codecs) (claim : ClaimResponse) (s : Steps) where
  abbrev ended : Ended
  ended = s.process (timeout_of claim.suite.timeout_seconds)

  branch-Verdict : (r : ResultRequest) → Branch c claim s r → Verdict c claim s ended r
  branch-Verdict _ (Branch.not_started cause started n) =
      not_started cause started λ r. n (IsReady-IsPrepared c claim s r)
  branch-Verdict _ (Branch.was_cancelled p w) =
      let (a, m, says) = watched-Cancels ended.polls w in
      subst (Verdict c claim s ended) (told-taken c _ _ _ _ s.started_at ended)
        (was_cancelled (IsPrepared-IsReady c claim s p) a m says)
  branch-Verdict _ (Branch.ran_out p w d) =
      subst (Verdict c claim s ended) (told-taken c _ _ _ _ s.started_at ended)
        (ran_out (IsPrepared-IsReady c claim s p) (unwatched-Cancels ended.polls w) d)
  branch-Verdict _ (Branch.broke cause p w d n) =
      subst (Verdict c claim s ended) (told-taken c _ _ _ _ s.started_at ended) (
        broke cause (IsPrepared-IsReady c claim s p) (unwatched-Cancels ended.polls w) d
          λ fields score h. n fields score (left_scored c s ended fields score h))
  branch-Verdict _ (Branch.scored fields score p w d h) =
      subst (Verdict c claim s ended) (told-taken c _ _ _ _ s.started_at ended) (
        scored fields score (IsPrepared-IsReady c claim s p) (unwatched-Cancels ended.polls w) d
          (scored_left c s ended fields score h))

  -- What is reported of a run, over every way in which the steps of its execution can end. Where
  -- the bundle is not at hand with the right digest, the working directory not laid out with the
  -- submission under its declared name and the seed, or the wrapper not started: `failed`, without
  -- output. Otherwise, with the last 32 KiB of each stream: `cancelled` if a poll was answered
  -- with 200 and that status, whatever else happened; if not, `timed_out` if the deadline had
  -- passed, which the timeout of the suite sets; if not, `succeeded`, with the score and the
  -- result file, if the process ended well and left JSON whose score is a number; and `failed` if
  -- not.
  pub execute-Verdict :
      (t : ℕ) × IsTimeout claim.suite.timeout_seconds t
      × Verdict c claim s (s.process t) (execute c claim s)
  execute-Verdict = (
    timeout_of claim.suite.timeout_seconds,
    timeout_of-IsTimeout claim.suite.timeout_seconds,
    branch-Verdict (execute c claim s) (execute-Branch c claim s),
  )
