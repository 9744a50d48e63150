-- ===== src/Server/Result/Stored.antt =====
-- What handleResult computes, branch by branch, on a database that does not fail.
use ctf_koth_evals_template.Prelude.{
  ℕ, String, ◌≡◌, ◌⊎◌, refl, inl, inr, true, false, none, some, In, Bool-cases, Option-cases,
  str_eq, if◌then◌else◌, ◌==◌,
}
use ctf_koth_evals_template.Go.Int.{ℤ, equals}
use ctf_koth_evals_template.Go.Text.{codes, atoi}
use ctf_koth_evals_template.Ent.Status.{Status, succeeded, status_eq}
use ctf_koth_evals_template.Ent.Schema.{Run, Db}
use ctf_koth_evals_template.Ent.Store.{rewrite, update_run}
use ctf_koth_evals_template.Wireapi.{ResultRequest}
use ctf_koth_evals_template.Server.Response.{
  Response, bad_request, no_content, http_not_found, Body,
}
use ctf_koth_evals_template.Server.Action.{
  World, ◌>>=◌, query, update, save, notify, serve, reliable,
}
use ctf_koth_evals_template.Server.Request.{Decoded, decoded, malformed, path_id}
use ctf_koth_evals_template.Server.Result.{
  parse_terminal_status, too_late, with_result, count_handled, bump_runs_handled, record_result,
  handle_result,
}
use ctf_koth_evals_template.Server.Result.Lateness.{IsOver, too_late-IsOver, in_time}
use ctf_koth_evals_template.Server.Lifecycle.{Inv}
use ctf_koth_evals_template.Server.Lifecycle.Rows.{only-cases, only-id}

-- The tables with a report in the row of `r`, and the run counted for its worker if it succeeded
-- and the worker gave a name.
abbrev pub with_report : Status → ResultRequest → String → ℕ → Run → Db → Db
with_report status body worker now r db =
    let stored = record db {
      runs = rewrite (λ (x : Run). x.id == r.id) (with_result status body now) db.runs;
    } in
    if status_eq status succeeded
    then (if str_eq worker "" then stored else count_handled worker now stored)
    else stored

-- The tables and the answer after a report.
pub data Handling (param : String) (request : Decoded ResultRequest) (worker : String) (now : ℕ)
    (db : Db) : Db → Response → Type 0 where
  bad_id :
      atoi (codes param) ≡ none → Handling param request worker now db db (bad_request "bad id")
  bad_json :
      (e : String)
      → request ≡ malformed e
      → Handling param request worker now db db
          (record { code = 400; body = Body.formatted "bad json: " e })
  bad_status :
      (body : ResultRequest)
      → request ≡ decoded body
      → parse_terminal_status body.status ≡ none
      → Handling param request worker now db db
          (bad_request "status must be one of succeeded|failed|timed_out|cancelled")
  missing :
      (id : ℤ)
      → atoi (codes param) ≡ some id
      → ((r : Run) → In r db.runs → equals id r.id ≡ false)
      → Handling param request worker now db db http_not_found
  late :
      (id : ℤ) (body : ResultRequest) (status : Status) (r : Run)
      → atoi (codes param) ≡ some id
      → request ≡ decoded body
      → parse_terminal_status body.status ≡ some status
      → In r db.runs
      → equals id r.id ≡ true
      → IsOver r.status status
      → Handling param request worker now db db no_content
  recorded :
      (id : ℤ) (body : ResultRequest) (status : Status) (r : Run)
      → atoi (codes param) ≡ some id
      → request ≡ decoded body
      → parse_terminal_status body.status ≡ some status
      → In r db.runs
      → equals id r.id ≡ true
      → (IsOver r.status status → ⊥)
      → Handling param request worker now db (with_report status body worker now r db) no_content

decoded_cases :
    {A : Type 0} (d : Decoded A) → ((e : String) × (d ≡ malformed e)) ⊎ ((a : A) × (d ≡ decoded a))
decoded_cases (malformed e) = inl (e, refl)
decoded_cases (decoded a) = inr (a, refl)

module _ (worker : String) (now : ℕ) (w : World) (i : Inv w.db) where
  record_result-db :
      (s : Status) (body : ResultRequest) (r : Run)
      → In r w.db.runs
      → ((serve (record_result s body worker now r.id) (reliable w)).1.db
          ≡ with_report s body worker now r w.db)
        × ((serve (record_result s body worker now r.id) (reliable w)).0 ≡ no_content)
  unfolding serve record_result update save ◌>>=◌ update_run bump_runs_handled notify
  record_result-db s body r m = elim (Bool-cases (status_eq s succeeded)) [
    | inl won ↦ elim (Bool-cases (str_eq worker "")) [
      | inl nameless ↦ rw (only-id w.db r i m, won, nameless) (refl, refl)
      | inr named ↦ rw (only-id w.db r i m, won, named) (refl, refl)
    ]
    | inr lost ↦ rw (only-id w.db r i m, lost) (refl, refl)
  ]

  -- Every branch of the handler.
  pub handle_result-Handling :
      (param : String) (request : Decoded ResultRequest)
      → Handling param request worker now w.db
          (serve (handle_result param request worker now) (reliable w)).1.db
          (serve (handle_result param request worker now) (reliable w)).0
  unfolding serve handle_result path_id ◌>>=◌ query
  handle_result-Handling param request = elim (Option-cases (atoi (codes param))) [
    | inl e ↦ rw e (bad_id e)
    | inr (id, e) ↦ elim (decoded_cases request) [
      | inl (t, malf) ↦ rw (e, malf) (bad_json t refl)
      | inr (body, dec) ↦ elim (Option-cases (parse_terminal_status body.status)) [
        | inl unknown ↦ rw (e, dec, unknown) (bad_status body refl unknown)
        | inr (s, parsed) ↦ elim (only-cases (λ (r : Run). equals id r.id) w.db.runs) [
          | inr (none_has, gone) ↦ rw (e, dec, parsed, gone) (missing id e none_has)
          | inl (r, m, has, found) ↦ elim (Bool-cases (too_late r.status s)) [
            | inl over ↦
                rw (e, dec, parsed, found, over)
                  (late id body s r e refl parsed m has (too_late-IsOver r.status s over))
            | inr early ↦
                let row = record_result-db s body r m in
                let fits : Handling param (decoded body) worker now w.db
                    (with_report s body worker now r w.db) no_content =
                  recorded id body s r e refl parsed m has (in_time r.status s early) in
                rw (e, dec, parsed, found, early, row.0, row.1) fits
          ]
        ]
      ]
    ]
  ]
