-- ===== src/Server/Lifecycle.antt =====
-- The life of a run: which changes of its row the server makes, and what holds of every row.
-- The specification that the handlers of internal/server are held to.
pub mod References
pub mod Rows
pub mod Moves
pub mod Rules
pub mod Updates
pub mod Heartbeats
pub mod Claims
pub mod Reports
pub mod Bulk
pub mod FanOut
pub mod Submissions
use ctf_koth_evals_template.Prelude.{
  ℕ, ◌+◌, ◌≤◌, ◌<◌, String, ◌≡◌, ◌≢◌, ◌⊎◌, Bool, true, false, Option, none, some, List, [], ◌∷◌,
  ◌++◌, All,
}
use ctf_koth_evals_template.Ent.Status.{
  Status, pending, claimed, running, succeeded, failed, timed_out, cancelled, status_in,
}
use ctf_koth_evals_template.Ent.Schema.{Suite, Submission, Run, Db}
use ctf_koth_evals_template.Wireapi.{ResultRequest}
use ctf_koth_evals_template.Server.Claim.{claimed_by}
use ctf_koth_evals_template.Server.Sweeper.{reclaimed}
use ctf_koth_evals_template.Server.Result.{with_result, parse_terminal_status}
use ctf_koth_evals_template.Server.Result.Lateness.{IsOver}
use ctf_koth_evals_template.Server.Cancel.{
  cancelled_at, requeued, prioritized, in_flight, retryable,
}

-- What the server may make of a row.
pub data Move (r : Run) : Run → Type 0 where
  stay : Move r r
  claim :
      (worker : String) (now : ℕ)
      → r.status ≡ pending
      → worker ≢ ""
      → Move r (claimed_by worker now r)
  reclaim : r.status ≡ claimed → Move r (reclaimed r)
  cancel : (now : ℕ) → status_in in_flight r.status ≡ true → Move r (cancelled_at now r)
  finish :
      (status : Status) (body : ResultRequest) (now : ℕ)
      → parse_terminal_status body.status ≡ some status
      → (IsOver r.status status → ⊥)
      → Move r (with_result status body now r)
  requeue : status_in retryable r.status ≡ true → Move r (requeued r)
  prioritize : (now : ℕ) → r.status ≡ pending → Move r (prioritized now r)

-- No start, end, score, result or error of an execution stands in the row. Its output may: a run
-- that is retried keeps stdout and stderr.
pub record IsUnfinished (r : Run) : Type 0 where
  pub no_score : r.score ≡ none
  pub no_result : r.result ≡ none
  pub no_error : r.error ≡ ""
  pub not_started : r.started_at ≡ none
  pub not_finished : r.finished_at ≡ none

abbrev pub Shape : Status → Run → Type 0
Shape pending r =
    IsUnfinished r × (r.claimed_at ≡ none) × ((r.worker_id ≡ none) ⊎ (r.worker_id ≡ some ""))
Shape claimed r =
    IsUnfinished r
    × ((t : ℕ) × (r.claimed_at ≡ some t))
    × ((worker : String) × (r.worker_id ≡ some worker) × (worker ≢ ""))
Shape running r = ⊥
Shape succeeded r = (t : ℕ) × (r.finished_at ≡ some t)
Shape failed r = (t : ℕ) × (r.finished_at ≡ some t)
Shape timed_out r = (t : ℕ) × (r.finished_at ≡ some t)
Shape cancelled r = (t : ℕ) × (r.finished_at ≡ some t)

abbrev pub IsValid : Run → Type 0
IsValid r = Shape r.status r

-- Keys rise along the table, from `lo` on, and stay below the next one.
abbrev pub Keyed : ℕ → ℕ → List Run → Type 0
Keyed lo hi [] = lo ≤ hi
Keyed lo hi (r ∷ rs) = (lo ≤ r.id) × Keyed (r.id + 1) hi rs

-- The keys of the submissions are below the next one.
abbrev pub HasKeys : Db → Type 0
HasKeys db = All (λ (s : Submission). s.id < db.next_submission) db.submissions

pub record Inv (db : Db) : Type 0 where
  pub keyed : Keyed 0 db.next_run db.runs
  pub valid : All IsValid db.runs
  pub submission_keys : HasKeys db

-- A new row is pending and has not been touched.
pub record IsNew (r : Run) : Type 0 where
  pub waits : r.status ≡ pending
  pub unfinished : IsUnfinished r
  pub unclaimed : r.claimed_at ≡ none
  pub unowned : r.worker_id ≡ none

-- Every row of the first table moved, and what stands behind is new: no row is lost or reordered.
abbrev pub Evolves : List Run → List Run → Type 0
Evolves [] qs = All IsNew qs
Evolves (r ∷ rs) [] = ⊥
Evolves (r ∷ rs) (q ∷ qs) = Move r q × Evolves rs qs

-- What may become of a suite: it is sealed, and nothing else of it changes.
pub data SuiteMove (s : Suite) : Suite → Type 0 where
  as_it_was : SuiteMove s s
  sealing : SuiteMove s (record s { sealed = true })

-- Every suite stays in its place, and what stands behind is new and not sealed.
abbrev pub SuitesEvolve : List Suite → List Suite → Type 0
SuitesEvolve [] ts = All (λ (t : Suite). t.sealed ≡ false) ts
SuitesEvolve (s ∷ ss) [] = ⊥
SuitesEvolve (s ∷ ss) (t ∷ ts) = SuiteMove s t × SuitesEvolve ss ts

-- The first table is the front of the second.
abbrev pub Extends : {A : Type 0} → List A → List A → Type 0
Extends [] ys = Unit
Extends (x ∷ xs) [] = ⊥
Extends (x ∷ xs) (y ∷ ys) = (x ≡ y) × Extends xs ys

-- The tables that runs refer to: rows are added, and a suite may be sealed.
pub record Catalogue (a b : Db) : Type 0 where
  pub suites : SuitesEvolve a.suites b.suites
  pub submissions : Extends a.submissions b.submissions
  pub keys : HasKeys b
  pub challenges : Extends a.challenges b.challenges

pub record Evolution (a b : Db) : Type 0 where
  pub rows : Evolves a.runs b.runs
  pub keys : Keyed 0 b.next_run b.runs
  pub catalogue : Catalogue a b

-- Any number of such changes.
pub data Reach (a : Db) : Db → Type 0 where
  here : Reach a a
  next : {b c : Db} → Reach a b → Evolution b c → Reach a c
