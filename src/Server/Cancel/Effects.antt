-- ===== src/Server/Cancel/Effects.antt =====
-- What the bulk updates of the operator do, on a database that does not fail, and how they meet
-- the reports and the claims of the workers.
use ctf_koth_evals_template.Prelude.{
  ℕ, String, ◌≡◌, ◌≢◌, refl, sym, ap, subst, ◌∙◌, inl, inr, Bool, true, false, some, arith,
  Bool-cases, get_elem?, tally, if◌then◌else◌, ◌==◌, str_eq,
}
use ctf_koth_evals_template.Go.Int.{ℤ, pos, equals}
use ctf_koth_evals_template.Go.Text.{codes, atoi}
use ctf_koth_evals_template.Ent.Status.{Status, cancelled, status_in, succeeded, status_eq}
use ctf_koth_evals_template.Ent.Schema.{Run, Db}
use ctf_koth_evals_template.Ent.Store.{rewrite, update_runs}
use ctf_koth_evals_template.Ent.Tables.{get_elem?-rewrite, get_elem?-In}
use ctf_koth_evals_template.Wireapi.{ResultRequest}
use ctf_koth_evals_template.Server.Response.{Response, Body, write_json}
use ctf_koth_evals_template.Server.Action.{World, ◌>>=◌, update, save, notify, serve, reliable}
use ctf_koth_evals_template.Server.Request.{decoded, path_id}
use ctf_koth_evals_template.Server.Result.{
  parse_terminal_status, handle_result, count_handled, with_result,
}
use ctf_koth_evals_template.Server.Result.Stored.{
  Handling, bad_id, bad_json, bad_status, missing, late, recorded, with_report,
  handle_result-Handling,
}
use ctf_koth_evals_template.Server.Result.Lateness.{IsOver, after_cancel}
use ctf_koth_evals_template.Server.Cancel.{bulk_update, of_run, cancelled_at, in_flight, cancel_run}
use ctf_koth_evals_template.Server.Lifecycle.{Inv}
use ctf_koth_evals_template.Server.Lifecycle.Rows.{Keyed-unique}
use ctf_koth_evals_template.Server.Lifecycle.Rules.{serve-Inv}
use ctf_koth_evals_template.Server.Lifecycle.Bulk.{cancel_run-Refines}

module _ (format key : String) (p : ℤ → Run → Bool) (f : Run → Run) (param : String) (id : ℤ)
    (w : World) where
  pub bulk_update_lem :
      atoi (codes param) ≡ some id
      → (serve (bulk_update format key p f param) (reliable w)).1.db ≡ (update_runs (p id) f w.db).0
        × ((serve (bulk_update format key p f param) (reliable w)).0
            ≡ write_json 200 (Body.count key (tally (p id) w.db.runs)))
  unfolding serve bulk_update ◌>>=◌ path_id update save notify update_runs
  bulk_update_lem e = rw e (refl, refl)

with_report-runs :
    (s : Status) (body : ResultRequest) (worker : String) (now : ℕ) (r : Run) (db : Db) (k : ℕ)
    (x : Run)
    → get_elem? db.runs k ≡ some x
    → x.id ≢ r.id
    → get_elem? (with_report s body worker now r db).runs k ≡ some x
unfolding count_handled
with_report-runs s body worker now r db k x at other =
    ap (λ rs. get_elem? rs k) rows
    ∙ get_elem?-rewrite (λ (y : Run). y.id == r.id) (with_result s body now) db.runs k x at
    ∙ ap (λ b. some (if b then with_result s body now x else x)) apart
  where
    rows :
        (with_report s body worker now r db).runs
        ≡ rewrite (λ (y : Run). y.id == r.id) (with_result s body now) db.runs
    rows = elim (Bool-cases (status_eq s succeeded)) [
      | inl won ↦ elim (Bool-cases (str_eq worker "")) [
        | inl nameless ↦ rw (won, nameless)
        | inr named ↦ rw (won, named)
      ]
      | inr lost ↦ rw lost
    ]

    apart : (x.id == r.id) ≡ false
    apart = ground arith

kept_cancelled :
    (param : String) (body : ResultRequest) (worker : String) (now : ℕ) (db after : Db)
    (answer : Response) (k : ℕ) (x : Run)
    → Inv db
    → get_elem? db.runs k ≡ some x
    → x.status ≡ cancelled
    → parse_terminal_status body.status ≢ some cancelled
    → Handling param (decoded body) worker now db after answer
    → get_elem? after.runs k ≡ some x
kept_cancelled param body worker now db after answer k x i at c other (bad_id e) = at
kept_cancelled param body worker now db after answer k x i at c other (bad_json t e) = at
kept_cancelled param body worker now db after answer k x i at c other (bad_status b e f) = at
kept_cancelled param body worker now db after answer k x i at c other (missing id e h) = at
kept_cancelled param body worker now db after answer k x i at c other
      (late id b s r e d parsed m has over) =
    at
kept_cancelled param body worker now db after answer k x i at c other
      (recorded id b s r e d parsed m has early) =
    with_report-runs s b worker now r db k x at λ same.
      let row =
        Keyed-unique 0 db.next_run db.runs x r i.keyed (get_elem?-In db.runs k x at) m same in
      let read : b ≡ body = cc in
      early (
        subst (λ status. IsOver status s) (sym c ∙ ap (λ (y : Run). y.status) row)
          (after_cancel λ t. other (
            ap (λ (y : ResultRequest). parse_terminal_status y.status) (sym read)
            ∙ parsed
            ∙ ap some t)))

module _ (w : World) (i : Inv w.db) (k : ℕ) (r : Run) (at : get_elem? w.db.runs k ≡ some r)
    (param : String) (found : atoi (codes param) ≡ some (pos r.id)) (now : ℕ)
    (open' : status_in in_flight r.status ≡ true) where
  cancelled_row :
      get_elem? (serve (cancel_run param now) (reliable w)).1.db.runs k ≡ some (cancelled_at now r)
  unfolding cancel_run update_runs of_run equals
  cancelled_row =
      ap (λ (d : Db). get_elem? d.runs k)
        (bulk_update_lem "cancel: %v" "cancelled" (of_run in_flight) (cancelled_at now) param
          (pos r.id) w found).0
      ∙ get_elem?-rewrite (of_run in_flight (pos r.id)) (cancelled_at now) w.db.runs k r at
      ∙ ap (λ b. some (if b then cancelled_at now r else r)) hit
    where
      hit : of_run in_flight (pos r.id) r ≡ true
      hit = ground arith

  cancelled_Inv : Inv (serve (cancel_run param now) (reliable w)).1.db
  cancelled_Inv =
      serve-Inv (cancel_run param now) (reliable w) (cancel_run-Refines param now (reliable w)) i

  -- On a database that does not fail and where the invariant holds, a run that waits or executes
  -- and is cancelled stays cancelled, the same row, whichever report of success, failure or
  -- timeout comes next.
  pub cancel_sticks :
      (report : String) (body : ResultRequest) (worker : String) (later : ℕ)
      → parse_terminal_status body.status ≢ some cancelled
      → get_elem?
          (serve
            (handle_result report (decoded body) worker later)
            (reliable (serve (cancel_run param now) (reliable w)).1)).1.db.runs
          k
        ≡ some (cancelled_at now r)
  cancel_sticks report body worker later other =
      kept_cancelled report body worker later _ _ _ k (cancelled_at now r) cancelled_Inv
        cancelled_row (unfold cancelled_at in refl) other
        (handle_result-Handling worker later (serve (cancel_run param now) (reliable w)).1
          cancelled_Inv report (decoded body))
