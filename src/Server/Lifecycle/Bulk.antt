-- ===== src/Server/Lifecycle/Bulk.antt =====
-- The bulk updates of the operator, and the sweeper, keep to the lifecycle.
use ctf_koth_evals_template.Prelude.{
  ℕ, String, ◌≡◌, refl, subst, inl, inr, Bool, true, List, [], ◌∷◌, arith, ltb, Bool-cases,
}
use ctf_koth_evals_template.Go.Int.{ℤ}
use ctf_koth_evals_template.Ent.Status.{Status, pending, claimed, status_eq_sound, status_in}
use ctf_koth_evals_template.Ent.Schema.{Run, Db}
use ctf_koth_evals_template.Ent.Store.{Result, ok, err, update_runs}
use ctf_koth_evals_template.Server.Action.{World, call, save}
use ctf_koth_evals_template.Server.Sweeper.{
  is_orphan, reclaimed, sweep, sweeper_tick, report_sweep, or_fail,
}
use ctf_koth_evals_template.Server.Cancel.{
  bulk_update, of_submission, of_run, cancelled_at, requeued, prioritized, in_flight, retryable,
  cancel_submission, cancel_run, retry_submission, prioritize_submission,
}
use ctf_koth_evals_template.Server.Lifecycle.{
  Move, reclaim, cancel, requeue, prioritize, Reach, here,
}
use ctf_koth_evals_template.Server.Lifecycle.Rules.{
  Refines, bind-Refines, update-Refines, save-Refines, notify-Refines, pure-Refines,
}
use ctf_koth_evals_template.Server.Lifecycle.Updates.{update_runs-Reach, path_id-Refines}

bulk_update-Refines :
    (format key : String) (p : ℤ → Run → Bool) (f : Run → Run) (param : String) (w : World)
    → ((r : Run) → (f r).id ≡ r.id)
    → ((id : ℤ) (r : Run) → p id r ≡ true → Move r (f r))
    → Refines (bulk_update format key p f param) w
unfolding bulk_update update_runs
bulk_update-Refines format key p f param w same moves =
    bind-Refines _ _ w (path_id-Refines param w) λ id w1 _.
      bind-Refines _ _ w1
        (update-Refines _ _ w1 λ db n e i.
          subst (Reach w1.db) (cc e)
            (update_runs-Reach (p id) f w1.db same (λ r _ t. moves id r t) i))
        λ n w2 _. bind-Refines _ _ w2 (notify-Refines "runs" w2) λ u w3 _. pure-Refines _ w3

selected :
    (allowed : List Status) (id : ℤ) (r : Run)
    → of_submission allowed id r ≡ true
    → status_in allowed r.status ≡ true
unfolding of_submission
selected allowed id r h = ground arith

selected_run :
    (allowed : List Status) (id : ℤ) (r : Run)
    → of_run allowed id r ≡ true
    → status_in allowed r.status ≡ true
unfolding of_run
selected_run allowed id r h = ground arith

only_pending : (s : Status) → status_in (pending ∷ []) s ≡ true → s ≡ pending
unfolding status_in
only_pending s h = ground arith

pub cancel_submission-Refines :
    (param : String) (now : ℕ) (w : World) → Refines (cancel_submission param now) w
unfolding cancel_submission
cancel_submission-Refines param now w =
    bulk_update-Refines _ _ _ _ param w (λ r. unfold cancelled_at in refl)
      (λ id r t. cancel now (selected in_flight id r t))

pub cancel_run-Refines : (param : String) (now : ℕ) (w : World) → Refines (cancel_run param now) w
unfolding cancel_run
cancel_run-Refines param now w =
    bulk_update-Refines _ _ _ _ param w (λ r. unfold cancelled_at in refl)
      (λ id r t. cancel now (selected_run in_flight id r t))

pub retry_submission-Refines : (param : String) (w : World) → Refines (retry_submission param) w
unfolding retry_submission
retry_submission-Refines param w =
    bulk_update-Refines _ _ _ _ param w (λ r. unfold requeued in refl)
      (λ id r t. requeue (selected retryable id r t))

pub prioritize_submission-Refines :
    (param : String) (now : ℕ) (w : World) → Refines (prioritize_submission param now) w
unfolding prioritize_submission
prioritize_submission-Refines param now w =
    bulk_update-Refines _ _ _ _ param w (λ r. unfold prioritized in refl)
      (λ id r t. prioritize now (only_pending r.status (selected (pending ∷ []) id r t)))

orphan_claimed : (names : List String) (r : Run) → is_orphan names r ≡ true → r.status ≡ claimed
unfolding is_orphan
orphan_claimed names r h = status_eq_sound r.status claimed (ground arith)

swept-Refines :
    (fresh : Result (List String)) (w : World)
    → Refines
        (or_fail fresh (λ names. save (λ db. ok (update_runs (is_orphan names) reclaimed db))))
        w
unfolding update_runs
swept-Refines (err e) w = pure-Refines _ w
swept-Refines (ok names) w = save-Refines _ w λ db n e i. subst (Reach w.db) (cc e) (
    update_runs-Reach (is_orphan names) reclaimed w.db (λ r. unfold reclaimed in refl)
      (λ r _ t. reclaim (orphan_claimed names r t)) i)

call-Refines : {A : Type 0} (g : Db → Result A) (w : World) → Refines (call g) w
unfolding call
call-Refines g w = record { at = λ i. here }

reported-Refines : (n : Result ℕ) (w : World) → Refines (report_sweep n) w
reported-Refines (err e) w = pure-Refines tt w
reported-Refines (ok n) w = elim (Bool-cases (ltb 0 n)) [
  | inl e ↦ rw e (notify-Refines "runs" w)
  | inr e ↦ rw e (pure-Refines tt w)
]

pub sweeper_tick-Refines : (timeout now : ℕ) (w : World) → Refines (sweeper_tick timeout now) w
unfolding sweeper_tick sweep
sweeper_tick-Refines timeout now w =
    bind-Refines _ _ w (bind-Refines _ _ w (call-Refines _ w) λ fresh w1 _. swept-Refines fresh w1)
      λ n w2 _. reported-Refines n w2
