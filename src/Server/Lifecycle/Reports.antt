-- ===== src/Server/Lifecycle/Reports.antt =====
-- handleResult keeps to the lifecycle.
use ctf_koth_evals_template.Prelude.{
  ℕ, String, ◌≡◌, refl, ap, subst, ◌∙◌, inl, inr, Bool, true, false, Option, none, some, In, str_eq,
  if◌then◌else◌, Bool-cases,
}
use ctf_koth_evals_template.Go.Int.{ℤ, equals}
use ctf_koth_evals_template.Ent.Status.{Status, status_eq, succeeded}
use ctf_koth_evals_template.Ent.Schema.{Run, Db}
use ctf_koth_evals_template.Ent.Store.{Result, ok}
use ctf_koth_evals_template.Wireapi.{ResultRequest}
use ctf_koth_evals_template.Server.Response.{no_content, missing_or, http_not_found}
use ctf_koth_evals_template.Server.Action.{World, ◌>>=◌, pure, query}
use ctf_koth_evals_template.Server.Request.{Decoded, decoded, malformed}
use ctf_koth_evals_template.Server.Result.Lateness.{in_time}
use ctf_koth_evals_template.Server.Result.{
  too_late, with_result, parse_terminal_status, terminal_or_reply, count_handled, bump_runs_handled,
  record_result, handle_result, run_by_id,
}
use ctf_koth_evals_template.Server.Lifecycle.{finish, Inv, Evolution, here, next}
use ctf_koth_evals_template.Server.Lifecycle.Rows.{only-In, runs_kept-Evolution}
use ctf_koth_evals_template.Server.Lifecycle.References.{Catalogue-refl}
use ctf_koth_evals_template.Server.Lifecycle.Rules.{
  Refines, after_call, bind-Refines, query-Refines, update-Refines, save-Refines, notify-Refines,
  pure-Refines, stop_then-Refines,
}
use ctf_koth_evals_template.Server.Lifecycle.Updates.{update_run-Reach, path_id-Refines}

module _ (worker : String) (now : ℕ) where
  bump-Refines : (w : World) → Refines (bump_runs_handled worker now) w
  unfolding bump_runs_handled count_handled
  bump-Refines w = elim (Bool-cases (str_eq worker "")) [
    | inl e ↦ rw e (pure-Refines tt w)
    | inr e ↦ rw e (
        bind-Refines _ _ w (save-Refines _ w λ db a same i. next here (unchanged db a same i))
          (λ r w' _. pure-Refines tt w'))
  ]
    where
      unchanged :
          (db : Db) (a : Unit {0})
          → ◌≡◌ {A = Result (Db × Unit {0})} (ok (count_handled worker now w.db, tt)) (ok (db, a))
          → Inv w.db
          → Evolution w.db db
      unchanged db a same i =
          let counted : count_handled worker now w.db ≡ db = cc in
          subst (Evolution w.db) counted
            (runs_kept-Evolution w.db _ refl refl (Catalogue-refl _ _ refl refl refl refl i) i)

  bump_if-Refines :
      (b : Bool) (w : World) → Refines (if b then bump_runs_handled worker now else pure tt) w
  bump_if-Refines true w = bump-Refines w
  bump_if-Refines false w = pure-Refines tt w

  record_result-Refines :
      (s : Status) (body : ResultRequest) (r : Run) (w : World)
      → parse_terminal_status body.status ≡ some s
      → too_late r.status s ≡ false
      → In r w.db.runs
      → Refines (record_result s body worker now r.id) w
  unfolding record_result
  record_result-Refines s body r w parsed early m =
      bind-Refines _ _ w
        (update-Refines _ _ w λ db q e i.
          update_run-Reach (with_result s body now) w.db db r q (λ x. unfold with_result in refl) m
            (finish s body now parsed (in_time r.status s early)) e i)
        λ q w1 _.
          bind-Refines _ _ w1 (bump_if-Refines (status_eq s succeeded) w1)
            λ u w2 _. bind-Refines _ _ w2 (notify-Refines "run" w2) λ v w3 _. pure-Refines _ w3

  guarded-Refines :
      (b : Bool) (s : Status) (body : ResultRequest) (r : Run) (w : World)
      → too_late r.status s ≡ b
      → parse_terminal_status body.status ≡ some s
      → In r w.db.runs
      → Refines (if b then pure no_content else record_result s body worker now r.id) w
  guarded-Refines true s body r w late parsed m = pure-Refines _ w
  guarded-Refines false s body r w early parsed m = record_result-Refines s body r w parsed early m

  reported-Refines :
      (id : ℤ) (body : ResultRequest) (o : Option Status) (w : World)
      → parse_terminal_status body.status ≡ o
      → Refines
          (do
            status ← terminal_or_reply o
            current ← query (missing_or http_not_found "load run: %v") (run_by_id id)
            if too_late current.status status
                then pure no_content
                else record_result status body worker now current.id)
          w
  reported-Refines id body none w parsed = stop_then-Refines _ _ w
  reported-Refines id body (some s) w parsed = bind-Refines _ _ w (pure-Refines s w) λ s' w' e.
      let same : s ≡ s' = (unfold pure in cc e) in
      query-Refines _ _ _ w' λ r found.
        guarded-Refines (too_late r.status s') s' body r (after_call w') refl
          (parsed ∙ ap some same) (only-In (λ (x : Run). equals id x.id) w'.db.runs r found).0

  pub handle_result-Refines :
      (param : String) (request : Decoded ResultRequest) (w : World)
      → Refines (handle_result param request worker now) w
  unfolding handle_result
  handle_result-Refines param (malformed t) w =
      bind-Refines _ _ w (path_id-Refines param w) λ id w1 _. stop_then-Refines _ _ w1
  handle_result-Refines param (decoded body) w =
      bind-Refines _ _ w (path_id-Refines param w) λ id w1 _.
        bind-Refines _ _ w1 (pure-Refines body w1)
          λ b w2 e. reported-Refines id b (parse_terminal_status b.status) w2 refl
