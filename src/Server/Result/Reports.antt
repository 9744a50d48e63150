-- ===== src/Server/Result/Reports.antt =====
-- What a worker's report does, on a database that does not fail: row by row.
use ctf_koth_evals_template.Prelude.{
  ℕ, ◌+◌, String, ◌≡◌, ◌≢◌, ◌⊎◌, refl, subst, inl, inr, true, false, none, some, List, In,
  Bool-cases, str_eq, eq_iff, if◌then◌else◌, ◌==◌, arith,
}
use ctf_koth_evals_template.Go.Int.{ℤ, equals}
use ctf_koth_evals_template.Go.Text.{codes, atoi}
use ctf_koth_evals_template.Ent.Status.{
  Status, succeeded, status_eq, status_eq_sound, status_eq_refl,
}
use ctf_koth_evals_template.Ent.Schema.{Run, Worker, Db}
use ctf_koth_evals_template.Wireapi.{ResultRequest}
use ctf_koth_evals_template.Server.Response.{
  Response, bad_request, no_content, http_not_found, Body,
}
use ctf_koth_evals_template.Server.Action.{World, serve, reliable}
use ctf_koth_evals_template.Server.Request.{Decoded, decoded, malformed}
use ctf_koth_evals_template.Server.Result.{with_result, count_handled, handle_result}
use ctf_koth_evals_template.Server.Result.Lateness.{IsOver}
use ctf_koth_evals_template.Server.Result.Stored.{Handling, with_report, handle_result-Handling}
use ctf_koth_evals_template.Server.Lifecycle.{Inv}
use ctf_koth_evals_template.Server.Result.Columns.{
  Names, Rowwise, HoldsReport, parse_none, parse_some, with_result-HoldsReport, rewrite-Rowwise,
  Rowwise-refl,
}

-- The row of the run holds the report, every other row is the same.
abbrev pub ReportedRow : Status → ResultRequest → ℕ → ℕ → Run → Run → Type 0
ReportedRow status body now id x y =
    (x.id ≡ id → HoldsReport status body now x y) × (x.id ≢ id → y ≡ x)

-- A success is one more for the worker of that name, who is seen now; no other row changes.
abbrev pub CountedRow : Status → String → ℕ → Worker → Worker → Type 0
CountedRow status name now v u =
    (status ≡ succeeded
      → name ≢ ""
      → v.name ≡ name
      → u ≡ record v { runs_handled = v.runs_handled + 1; last_seen = now })
    × (((status ≢ succeeded) ⊎ ((name ≡ "") ⊎ (v.name ≢ name))) → u ≡ v)

pub record ReportStored (status : Status) (body : ResultRequest) (name : String) (now id : ℕ)
    (before after : Db) : Type 0 where
  pub rows : Rowwise (ReportedRow status body now id) before.runs after.runs
  pub workers : Rowwise (CountedRow status name now) before.workers after.workers
  pub others : after ≡ record before { runs = after.runs; workers = after.workers }

-- The tables and the answer after a report.
pub data Reported (param : String) (request : Decoded ResultRequest) (worker : String) (now : ℕ)
    (db : Db) : Db → Response → Type 0 where
  bad_id :
      atoi (codes param) ≡ none → Reported param request worker now db db (bad_request "bad id")
  bad_json :
      (e : String)
      → request ≡ malformed e
      → Reported param request worker now db db
          (record { code = 400; body = Body.formatted "bad json: " e })
  bad_status :
      (body : ResultRequest)
      → request ≡ decoded body
      → ((t : Status) → Names body.status t → ⊥)
      → Reported param request worker now db db
          (bad_request "status must be one of succeeded|failed|timed_out|cancelled")
  missing :
      (id : ℤ)
      → atoi (codes param) ≡ some id
      → ((r : Run) → In r db.runs → equals id r.id ≡ false)
      → Reported param request worker now db db http_not_found
  late :
      (id : ℤ) (body : ResultRequest) (status : Status) (r : Run)
      → atoi (codes param) ≡ some id
      → request ≡ decoded body
      → Names body.status status
      → In r db.runs
      → equals id r.id ≡ true
      → IsOver r.status status
      → Reported param request worker now db db no_content
  recorded :
      (id : ℤ) (body : ResultRequest) (status : Status) (r : Run) (after : Db)
      → atoi (codes param) ≡ some id
      → request ≡ decoded body
      → Names body.status status
      → In r db.runs
      → equals id r.id ≡ true
      → (IsOver r.status status → ⊥)
      → ReportStored status body worker now r.id db after
      → Reported param request worker now db after no_content

reported_row :
    (status : Status) (body : ResultRequest) (now id : ℕ) (x : Run)
    → ReportedRow status body now id x (if x.id == id then with_result status body now x else x)
reported_row status body now id x = elim (Bool-cases (x.id == id)) [
  | inl e ↦ rw e (λ same. with_result-HoldsReport status body now x, λ other. absurd (ground arith))
  | inr e ↦ rw e (λ same. absurd (ground arith), λ other. refl)
]

counted_row :
    (status : Status) (name : String) (now : ℕ) (v : Worker)
    → status ≡ succeeded
    → str_eq name "" ≡ false
    → CountedRow status name now v (
        if str_eq v.name name
        then record v { runs_handled = v.runs_handled + 1; last_seen = now }
        else v)
counted_row status name now v won named = elim (Bool-cases (str_eq v.name name)) [
  | inl e ↦
      let same : v.name ≡ name = ground (arith, eq_iff v.name name) in
      rw e (
        λ a b d. refl,
        λ o. absurd (elim o [
          | inl lost ↦ lost won
          | inr (inl nameless) ↦ ground (arith, eq_iff name "")
          | inr (inr other) ↦ other same
        ]),
      )
  | inr e ↦ rw e (λ a b d. absurd (ground (arith, eq_iff v.name name)), λ o. refl)
]

uncounted :
    (status : Status) (name : String) (now : ℕ) (vs : List Worker)
    → ((status ≢ succeeded) ⊎ (name ≡ ""))
    → Rowwise (CountedRow status name now) vs vs
uncounted status name now vs h =
    Rowwise-refl _ vs λ v. (λ a b d. absurd (elim h [ inl n ↦ n a | inr n ↦ b n ]), λ o. refl)

with_report-ReportStored :
    (status : Status) (body : ResultRequest) (name : String) (now : ℕ) (r : Run) (db : Db)
    → ReportStored status body name now r.id db (with_report status body name now r db)
unfolding count_handled
with_report-ReportStored status body name now r db =
    let rows =
      rewrite-Rowwise (ReportedRow status body now r.id) (λ (x : Run). x.id == r.id)
        (with_result status body now) db.runs (reported_row status body now r.id) in
    elim (Bool-cases (status_eq status succeeded)) [
      | inl won ↦
          let is_won : status ≡ succeeded = status_eq_sound status succeeded won in
          elim (Bool-cases (str_eq name "")) [
            | inl nameless ↦
                rw (won, nameless)
                  (record {
                    rows = rows;
                    workers =
                        uncounted status name now db.workers (inr (ground (arith, eq_iff name "")));
                    others = refl;
                  })
            | inr named ↦
                rw (won, named)
                  (record {
                    rows = rows;
                    workers =
                        rewrite-Rowwise (CountedRow status name now)
                          (λ (v : Worker). str_eq v.name name)
                          (λ v. record v { runs_handled = v.runs_handled + 1; last_seen = now })
                          db.workers (λ v. counted_row status name now v is_won named);
                    others = refl;
                  })
          ]
      | inr lost ↦ rw lost (record {
        rows = rows;
        workers = uncounted status name now db.workers (
            inl λ e. absurd (
              let bad = subst (λ t. status_eq t succeeded ≡ false) e lost in
              let good = status_eq_refl succeeded in cc));
        others = refl;
      })
    ]

reported :
    {param : String} {request : Decoded ResultRequest} {worker : String} {now : ℕ} {db after : Db}
    {answer : Response}
    → Handling param request worker now db after answer
    → Reported param request worker now db after answer
reported (Handling.bad_id e) = Reported.bad_id e
reported (Handling.bad_json t e) = Reported.bad_json t e
reported (Handling.bad_status body e unknown) =
    Reported.bad_status body e (parse_none body.status unknown)
reported (Handling.missing id e none_has) = Reported.missing id e none_has
reported (Handling.late id body status r e d p m h over) =
    Reported.late id body status r e d (parse_some body.status status p) m h over
reported {worker = worker} {now = now} {db = db}
      (Handling.recorded id body status r e d p m h early) =
    Reported.recorded id body status r _ e d (parse_some body.status status p) m h early
      (with_report-ReportStored status body worker now r db)

-- On a database that does not fail and where the invariant holds, the report of a worker leaves
-- the tables as they are and is answered with 400 for a bad id, a bad body or a status that is not
-- final, with 404 where no run has the id, and with 204 where the run has ended (a cancelled one
-- may still be reported cancelled). Otherwise the answer is 204, the row of the run holds the
-- report and its time, column by column, a column that the report leaves out is kept, as is every
-- other row, and a success counts one more run for the worker that named itself.
pub report_outcome :
    (worker : String) (now : ℕ) (w : World) (i : Inv w.db) (param : String)
    (request : Decoded ResultRequest)
    → Reported param request worker now w.db
        (serve (handle_result param request worker now) (reliable w)).1.db
        (serve (handle_result param request worker now) (reliable w)).0
report_outcome worker now w i param request =
    reported (handle_result-Handling worker now w i param request)
