-- ===== src/Server/Cancel/Rerun.antt =====
-- What a retry and a priority do, and how the next claim answers to the priority, on a database
-- that does not fail.
use ctf_koth_evals_template.Prelude.{
  ℕ, ◌<◌, ◌≤◌, String, ◌≡◌, ◌≢◌, refl, sym, ap, subst, ◌∙◌, ◌⊎◌, inl, inr, true, false, Option,
  none, some, List, [], ◌∷◌, arith, In, Bool-cases, get_elem?, if◌then◌else◌,
}
use ctf_koth_evals_template.Go.Int.{pos, equals}
use ctf_koth_evals_template.Go.Text.{codes, atoi}
use ctf_koth_evals_template.Ent.Status.{
  Status, pending, claimed, running, succeeded, failed, timed_out, cancelled, status_in, status_eq,
}
use ctf_koth_evals_template.Ent.Schema.{Run, Db}
use ctf_koth_evals_template.Ent.Store.{rewrite, update_runs}
use ctf_koth_evals_template.Ent.Tables.{get_elem?-rewrite, In-rewrite, rewrite-In}
use ctf_koth_evals_template.Server.Action.{World, serve, reliable}
use ctf_koth_evals_template.Server.Claim.{IsFirst, claims_before, claiming_worker, handle_claim}
use ctf_koth_evals_template.Server.Claim.Choice.{after_claim, claim_takes_first}
use ctf_koth_evals_template.Server.Cancel.{
  of_submission, requeued, prioritized, retryable, retry_submission, prioritize_submission,
}
use ctf_koth_evals_template.Server.Cancel.Effects.{bulk_update_lem}
use ctf_koth_evals_template.Server.Lifecycle.{Inv, IsUnfinished}
use ctf_koth_evals_template.Server.Lifecycle.Rules.{serve-Inv}
use ctf_koth_evals_template.Server.Lifecycle.Moves.{SameRun}
use ctf_koth_evals_template.Server.Lifecycle.Bulk.{prioritize_submission-Refines}

-- A retry takes the runs that ended without success.
abbrev pub MayRetry : Status → Type 0
MayRetry failed = Unit
MayRetry timed_out = Unit
MayRetry cancelled = Unit
MayRetry _ = ⊥

retryable_lem :
    (t : Status)
    → ((status_in retryable t ≡ true) × MayRetry t)
      ⊎ ((status_in retryable t ≡ false) × (MayRetry t → ⊥))
unfolding status_in status_eq
retryable_lem pending = inr (refl, λ h. h)
retryable_lem claimed = inr (refl, λ h. h)
retryable_lem running = inr (refl, λ h. h)
retryable_lem succeeded = inr (refl, λ h. h)
retryable_lem failed = inl (refl, tt)
retryable_lem timed_out = inl (refl, tt)
retryable_lem cancelled = inl (refl, tt)

-- The run waits for a worker again: it has no owner, no times, no score, no result and no error. Its
-- priority and the output of its last execution are kept.
pub record WaitsAnew (r q : Run) : Type 0 where
  pub priority : q.priority ≡ r.priority
  pub stdout : q.stdout ≡ r.stdout
  pub stderr : q.stderr ≡ r.stderr
  pub waits : q.status ≡ pending
  pub unfinished : IsUnfinished q
  pub unclaimed : q.claimed_at ≡ none
  pub unowned : q.worker_id ≡ some ""
  pub same : SameRun r q

module _ (w : World) (param : String) (id : ℕ) (found : atoi (codes param) ≡ some (pos id)) where
  module _ (k : ℕ) (r : Run) (at : get_elem? w.db.runs k ≡ some r) where
    retried_row :
        get_elem? (serve (retry_submission param) (reliable w)).1.db.runs k
        ≡ some (if of_submission retryable (pos id) r then requeued r else r)
    unfolding retry_submission update_runs
    retried_row =
        ap (λ (d : Db). get_elem? d.runs k)
          (bulk_update_lem "retry: %v" "retried" (of_submission retryable) requeued param (pos id) w
            found).0
        ∙ get_elem?-rewrite (of_submission retryable (pos id)) requeued w.db.runs k r at

    -- On a database that does not fail, a retry of a submission makes its failed, timed out and
    -- cancelled runs wait again, without owner, times, score, result and error, but with the
    -- output of their last execution; every other run is the same row.
    pub retry_effect :
        (q : Run) × (get_elem? (serve (retry_submission param) (reliable w)).1.db.runs k ≡ some q)
        × ((r.submission ≡ id → MayRetry r.status → WaitsAnew r q))
        × ((r.submission ≢ id → q ≡ r))
        × (((MayRetry r.status → ⊥) → q ≡ r))
    unfolding requeued of_submission equals
    retry_effect = elim (Bool-cases (of_submission retryable (pos id) r)) [
      | inl hit ↦ (
        requeued r,
        retried_row ∙ ap (λ b. some (if b then requeued r else r)) hit,
        λ e s. record {
          priority = refl;
          stdout = refl;
          stderr = refl;
          waits = refl;
          unfinished = record {
            no_score = refl;
            no_result = refl;
            no_error = refl;
            not_started = refl;
            not_finished = refl;
          };
          unclaimed = refl;
          unowned = refl;
          same = record {
            id = refl;
            seed = refl;
            submission = refl;
            suite = refl;
            created_at = refl;
          };
        },
        λ other. absurd (ground arith),
        λ s. elim (retryable_lem r.status) [
          | inl (hit, may) ↦ absurd (s may)
          | inr (no_retry, never) ↦ absurd (ground arith)
        ],
      )
      | inr miss ↦ (
        r,
        retried_row ∙ ap (λ b. some (if b then requeued r else r)) miss,
        λ e s. elim (retryable_lem r.status) [
          | inl (hit, may) ↦ absurd (ground arith)
          | inr (no_retry, never) ↦ absurd (never s)
        ],
        λ other. refl,
        λ s. refl,
      )
    ]

  prioritized-priority :
      {now : ℕ} (p q : Run) → p.priority ≡ now → claims_before p q ≡ false → now ≤ q.priority
  unfolding claims_before
  prioritized-priority p q e h = ground arith

  module _ (i : Inv w.db) (now : ℕ) (lower : (r : Run) → In r w.db.runs → r.priority < now)
      (first : List Run → Option Run) (law : IsFirst first) (header : String) (later : ℕ) where
    prioritized_runs :
        (serve (prioritize_submission param now) (reliable w)).1.db.runs
        ≡ rewrite (of_submission (pending ∷ []) (pos id)) (prioritized now) w.db.runs
    unfolding prioritize_submission update_runs
    prioritized_runs =
        ap (λ (d : Db). d.runs)
          (bulk_update_lem "prioritize: %v" "prioritized" (of_submission (pending ∷ []))
            (prioritized now) param (pos id) w found).0

    raised_row :
        (r : Run)
        → In r w.db.runs
        → r.status ≡ pending
        → r.submission ≡ id
        → (p : Run) × In p (serve (prioritize_submission param now) (reliable w)).1.db.runs
          × (p.priority ≡ now)
          × (p.status ≡ pending)
    unfolding prioritized of_submission equals status_in
    raised_row r m waits mine =
        let hit : of_submission (pending ∷ []) (pos id) r ≡ true =
          rw (waits, mine) (ground arith) in
        (
          prioritized now r,
          subst (In (prioritized now r)) (sym prioritized_runs) (
              subst
                (λ b.
                  In (if b then prioritized now r else r)
                    (rewrite (of_submission (pending ∷ []) (pos id)) (prioritized now) w.db.runs))
                hit
                (In-rewrite (of_submission (pending ∷ []) (pos id)) (prioritized now) w.db.runs r
                  m)),
          refl,
          waits,
        )

    of_its-submission :
        (r : Run) → of_submission (pending ∷ []) (pos id) r ≡ true → r.submission ≡ id
    unfolding of_submission equals
    of_its-submission r h = ground arith

    -- A row that no run of priority `now` stands before is one that was raised.
    outranked :
        (q : Run)
        → In q (serve (prioritize_submission param now) (reliable w)).1.db.runs
        → now ≤ q.priority
        → q.submission ≡ id
    unfolding prioritized of_submission equals
    outranked q m high =
        let (r, stands, e) =
          rewrite-In (of_submission (pending ∷ []) (pos id)) (prioritized now) w.db.runs q
            (subst (In q) prioritized_runs m) in
        elim (Bool-cases (of_submission (pending ∷ []) (pos id) r)) [
          | inl hit ↦
              let same : prioritized now r ≡ q =
                subst (λ b. (if b then prioritized now r else r) ≡ q) hit e in
              sym (ap (λ (x : Run). x.submission) same) ∙ of_its-submission r hit
          | inr miss ↦
              let same : r ≡ q = subst (λ b. (if b then prioritized now r else r) ≡ q) miss e in
              let low = lower r stands in absurd (omega (arith, ap (λ (x : Run). x.priority) same))
        ]

    -- On a database that does not fail and where the invariant holds, once a submission with a
    -- pending run is prioritized at a time above every priority so far, the next claim takes one
    -- of its pending runs.
    pub prioritized_is_next :
        (r : Run)
        → In r w.db.runs
        → r.status ≡ pending
        → r.submission ≡ id
        → (q : Run) × In q (serve (prioritize_submission param now) (reliable w)).1.db.runs
          × (q.status ≡ pending)
          × (q.submission ≡ id)
          × ((serve
                (handle_claim first header later)
                (reliable (serve (prioritize_submission param now) (reliable w)).1)).1.db
              ≡ after_claim
                  (claiming_worker header)
                  later
                  q
                  (serve (prioritize_submission param now) (reliable w)).1.db)
    prioritized_is_next r m waits mine =
        let v = (serve (prioritize_submission param now) (reliable w)).1 in
        let (raised, is_raised, top, still) = raised_row r m waits mine in
        let kept =
          serve-Inv (prioritize_submission param now) (reliable w)
            (prioritize_submission-Refines param now (reliable w)) i in
        let (q, m', waits', best, effect, answer) =
          claim_takes_first first law header later v kept raised is_raised still in
        (
          q,
          m',
          waits',
          outranked q m' (prioritized-priority raised q top (best raised is_raised still)),
          effect,
        )
