-- ===== src/Worker/Execute/Delivery.antt =====
-- The worker and the server together: a report of execute always lands.
use ctf_koth_evals_template.Prelude.{
  ℕ, String, ◌≡◌, refl, sym, ap, ◌∙◌, subst, true, false, some, In, arith, get_elem?,
}
use ctf_koth_evals_template.Go.Int.{ℤ, pos, equals}
use ctf_koth_evals_template.Go.Text.{codes, atoi}
use ctf_koth_evals_template.Ent.Status.{
  Status, succeeded, failed, timed_out, cancelled, claimed, to_text,
}
use ctf_koth_evals_template.Ent.Schema.{Run, Db}
use ctf_koth_evals_template.Ent.Tables.{get_elem?-In}
use ctf_koth_evals_template.Wireapi.{ClaimResponse, ResultRequest}
use ctf_koth_evals_template.Server.Request.{decoded}
use ctf_koth_evals_template.Server.Response.{Response}
use ctf_koth_evals_template.Server.Action.{World, serve, reliable}
use ctf_koth_evals_template.Server.Result.{handle_result}
use ctf_koth_evals_template.Server.Result.Lateness.{IsOver}
use ctf_koth_evals_template.Server.Result.Columns.{Names, HoldsReport, get_elem?-Rowwise}
use ctf_koth_evals_template.Server.Result.Reports.{
  ReportedRow, Reported, bad_id, bad_json, bad_status, missing, late, recorded, report_outcome,
}
use ctf_koth_evals_template.Server.Lifecycle.{Inv}
use ctf_koth_evals_template.Server.Lifecycle.Rows.{Keyed-unique}
use ctf_koth_evals_template.Worker.Client.{report_result}
use ctf_koth_evals_template.Worker.Execute.{Steps, Ended, Codecs, execute}
use ctf_koth_evals_template.Worker.Execute.Verdict.{
  Verdict, not_started, was_cancelled, ran_out, broke, scored, execute-Verdict,
}

verdict-Names :
    (c : Codecs) (claim : ClaimResponse) (s : Steps) (e : Ended) (r : ResultRequest)
    → Verdict c claim s e r
    → (t : Status) × Names r.status t
unfolding to_text
verdict-Names c claim s e _ (not_started cause started p) = (failed, (refl, tt))
verdict-Names c claim s e _ (was_cancelled p a m says) = (cancelled, (refl, tt))
verdict-Names c claim s e _ (ran_out p w d) = (timed_out, (refl, tt))
verdict-Names c claim s e _ (broke cause p w d h) = (failed, (refl, tt))
verdict-Names c claim s e _ (scored fields score p w d h) = (succeeded, (refl, tt))

not_over : {t : Status} → IsOver claimed t → ⊥
not_over h = elim h [ ]

module _ (c : Codecs) (claim : ClaimResponse) (s : Steps) (worker : String) (now : ℕ) (w : World)
    (i : Inv w.db) (k : ℕ) (r : Run) (at : get_elem? w.db.runs k ≡ some r)
    (busy : r.status ≡ claimed) (param : String) (id : atoi (codes param) ≡ some (pos r.id)) where
  abbrev pub Landed : Db → Response → Type 0
  Landed after answer =
      (status : Status) × Names (execute c claim s).status status
      × (report_result (decoded answer) ≡ decoded tt)
      × (q : Run) × (get_elem? after.runs k ≡ some q)
      × HoldsReport status (execute c claim s) now r q

  same_run :
      (n : ℤ) (q : Run)
      → atoi (codes param) ≡ some n
      → In q w.db.runs
      → equals n q.id ≡ true
      → q ≡ r
  unfolding equals
  same_run n q a m e =
      let same : n ≡ pos r.id = (let h = sym a ∙ id in cc) in
      let key : q.id ≡ r.id =
        (let h = subst (λ z. equals z q.id ≡ true) same e in ground (arith, h)) in
      Keyed-unique 0 w.db.next_run w.db.runs q r i.keyed m (get_elem?-In w.db.runs k r at) key

  here : (n : ℤ) → atoi (codes param) ≡ some n → equals n r.id ≡ false → ⊥
  unfolding equals
  here n a e =
      let same : n ≡ pos r.id = (let h = sym a ∙ id in cc) in
      let h = subst (λ z. equals z r.id ≡ false) same e in absurd (ground (arith, h))

  landed :
      (after : Db) (answer : Response)
      → Reported param (decoded (execute c claim s)) worker now w.db after answer
      → Landed after answer
  unfolding report_result
  landed _ _ (bad_id e) = absurd (let h = sym e ∙ id in cc)
  landed _ _ (bad_json t e) = absurd (cc)
  landed _ _ (bad_status body e unknown) =
      let same : execute c claim s ≡ body = cc in
      let (t, timely, verdict) = execute-Verdict c claim s in
      let (status, names) = verdict-Names c claim s (s.process t) (execute c claim s) verdict in
      absurd (unknown status (subst (λ (b : ResultRequest). Names b.status status) same names))
  landed _ _ (missing n e none_has) = absurd (here n e (none_has r (get_elem?-In w.db.runs k r at)))
  landed _ _ (late n body status q e d p m h over) =
      let same = same_run n q e m h in
      absurd (not_over (subst (λ t. IsOver t status) (ap (λ (x : Run). x.status) same ∙ busy) over))
  landed _ _ (recorded n body status q after e d p m h early kept) =
      let same = same_run n q e m h in
      let told : body ≡ execute c claim s = (let h = sym d in cc) in
      let (x, there, row) =
        get_elem?-Rowwise (ReportedRow status body now q.id) w.db.runs after.runs k r kept.rows
          at in
      (
        status,
        subst (λ (b : ResultRequest). Names b.status status) told p,
        refl,
        x,
        there,
        subst (λ b. HoldsReport status b now r x) told (row.0 (ap (λ (y : Run). y.id) (sym same))),
      )

  -- On a database that does not fail, where the invariant holds and a run is claimed, the server
  -- takes whatever report the execution of that run ends with: the client that posts it is
  -- answered with no error, and the row of the run has then ended in the final status that the
  -- report names, now, holds the score, result, error, start time and outputs that the report
  -- gives, and is otherwise what it was.
  pub report_lands :
      Landed
        (serve (handle_result param (decoded (execute c claim s)) worker now) (reliable w)).1.db
        (serve (handle_result param (decoded (execute c claim s)) worker now) (reliable w)).0
  report_lands = landed _ _ (report_outcome worker now w i param (decoded (execute c claim s)))
