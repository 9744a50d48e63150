-- ===== src/Server/Lifecycle/Moves.antt =====
-- Every move keeps the shape of a row and its key, and leaves a succeeded row alone.
use ctf_koth_evals_template.Prelude.{ℕ, String, ◌≡◌, ◌≢◌, refl, sym, inl, inr, subst, some, arith}
use ctf_koth_evals_template.Ent.Status.{
  Status, pending, claimed, running, succeeded, failed, timed_out, cancelled, status_in,
}
use ctf_koth_evals_template.Ent.Schema.{Run}
use ctf_koth_evals_template.Wireapi.{ResultRequest}
use ctf_koth_evals_template.Server.Claim.{claimed_by}
use ctf_koth_evals_template.Server.Sweeper.{reclaimed}
use ctf_koth_evals_template.Server.Result.Lateness.{IsOver, after_success}
use ctf_koth_evals_template.Server.Result.{with_result, parse_terminal_status}
use ctf_koth_evals_template.Server.Cancel.{cancelled_at, requeued, prioritized}
use ctf_koth_evals_template.Server.Lifecycle.{
  Move, stay, claim, reclaim, cancel, finish, requeue, prioritize, IsUnfinished, Shape, IsValid,
  IsNew,
}

abbrev pub IsTerminal : Status → Type 0
IsTerminal pending = ⊥
IsTerminal claimed = ⊥
IsTerminal running = ⊥
IsTerminal _ = Unit

pub parsed-IsTerminal :
    (text : String) (s : Status) → parse_terminal_status text ≡ some s → IsTerminal s
unfolding parse_terminal_status
parsed-IsTerminal text pending h = ground arith
parsed-IsTerminal text claimed h = ground arith
parsed-IsTerminal text running h = ground arith
parsed-IsTerminal text _ h = tt

finished-IsValid :
    (s : Status) (body : ResultRequest) (now : ℕ) (r : Run)
    → IsTerminal s
    → IsValid (with_result s body now r)
unfolding with_result
finished-IsValid pending body now r h = elim h [ ]
finished-IsValid claimed body now r h = elim h [ ]
finished-IsValid running body now r h = elim h [ ]
finished-IsValid succeeded body now r h = (now, refl)
finished-IsValid failed body now r h = (now, refl)
finished-IsValid timed_out body now r h = (now, refl)
finished-IsValid cancelled body now r h = (now, refl)

columns-IsUnfinished :
    (r q : Run)
    → IsUnfinished r
    → q.score ≡ r.score
    → q.result ≡ r.result
    → q.error ≡ r.error
    → q.started_at ≡ r.started_at
    → q.finished_at ≡ r.finished_at
    → IsUnfinished q
columns-IsUnfinished r q u a b c d e = record {
  no_score = cc (u.no_score);
  no_result = cc (u.no_result);
  no_error = cc (u.no_error);
  not_started = cc (u.not_started);
  not_finished = cc (u.not_finished);
}

claimed-IsValid :
    (worker : String) (now : ℕ) (r : Run)
    → r.status ≡ pending
    → worker ≢ ""
    → IsValid r
    → IsValid (claimed_by worker now r)
claimed-IsValid worker now r e h v =
    let u = (subst (λ s. Shape s r) e v).0 in
    (
      columns-IsUnfinished r (claimed_by worker now r) u refl refl refl refl refl,
      (now, refl),
      (worker, refl, h),
    )

reclaimed-IsValid : (r : Run) → r.status ≡ claimed → IsValid r → IsValid (reclaimed r)
unfolding reclaimed
reclaimed-IsValid r e v =
    let u = (subst (λ s. Shape s r) e v).0 in
    (columns-IsUnfinished r (reclaimed r) u refl refl refl refl refl, refl, inr refl)

prioritized-IsValid :
    (now : ℕ) (r : Run) → r.status ≡ pending → IsValid r → IsValid (prioritized now r)
unfolding prioritized
prioritized-IsValid now r e v =
    let p = subst (λ s. Shape s r) e v in
    subst (λ s. Shape s (prioritized now r)) (sym e)
      (columns-IsUnfinished r (prioritized now r) p.0 refl refl refl refl refl, p.1, p.2)

-- A row of the right shape has it after every move.
pub Move-IsValid : {r q : Run} → Move r q → IsValid r → IsValid q
unfolding cancelled_at requeued
Move-IsValid {r} stay v = v
Move-IsValid {r} (claim worker now e h) v = claimed-IsValid worker now r e h v
Move-IsValid {r} (reclaim e) v = reclaimed-IsValid r e v
Move-IsValid {r} (cancel now e) v = (now, refl)
Move-IsValid {r} (finish s body now parsed e) v =
    finished-IsValid s body now r (parsed-IsTerminal body.status s parsed)
Move-IsValid {r} (requeue e) v = (
  record {
    no_score = refl;
    no_result = refl;
    no_error = refl;
    not_started = refl;
    not_finished = refl;
  },
  refl,
  inr refl,
)
Move-IsValid {r} (prioritize now e) v = prioritized-IsValid now r e v

-- What a run is about never changes.
pub record SameRun (r q : Run) : Type 0 where
  pub id : q.id ≡ r.id
  pub seed : q.seed ≡ r.seed
  pub submission : q.submission ≡ r.submission
  pub suite : q.suite ≡ r.suite
  pub created_at : q.created_at ≡ r.created_at

pub Move-SameRun : {r q : Run} → Move r q → SameRun r q
unfolding cancelled_at requeued reclaimed prioritized with_result
Move-SameRun stay = record {
  id = refl;
  seed = refl;
  submission = refl;
  suite = refl;
  created_at = refl;
}
Move-SameRun (claim _ _ _ _) = record {
  id = refl;
  seed = refl;
  submission = refl;
  suite = refl;
  created_at = refl;
}
Move-SameRun (reclaim _) = record {
  id = refl;
  seed = refl;
  submission = refl;
  suite = refl;
  created_at = refl;
}
Move-SameRun (cancel _ _) = record {
  id = refl;
  seed = refl;
  submission = refl;
  suite = refl;
  created_at = refl;
}
Move-SameRun (finish _ _ _ _ _) = record {
  id = refl;
  seed = refl;
  submission = refl;
  suite = refl;
  created_at = refl;
}
Move-SameRun (requeue _) = record {
  id = refl;
  seed = refl;
  submission = refl;
  suite = refl;
  created_at = refl;
}
Move-SameRun (prioritize _ _) = record {
  id = refl;
  seed = refl;
  submission = refl;
  suite = refl;
  created_at = refl;
}

-- A succeeded row is final: its score, its result and everything else stay.
pub Move-succeeded : {r q : Run} → Move r q → r.status ≡ succeeded → q ≡ r
unfolding status_in
Move-succeeded stay s = refl
Move-succeeded (claim _ _ e _) s = cc
Move-succeeded (reclaim e) s = cc
Move-succeeded (cancel now e) s = absurd (ground arith)
Move-succeeded (finish st body now parsed e) s =
    absurd (e (subst (λ x. IsOver x st) (sym s) after_success))
Move-succeeded (requeue e) s = absurd (ground arith)
Move-succeeded (prioritize now e) s = cc

pub IsNew-IsValid : (r : Run) → IsNew r → IsValid r
IsNew-IsValid r n = subst (λ s. Shape s r) (sym n.waits) (n.unfinished, n.unclaimed, inl n.unowned)
