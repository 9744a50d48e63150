-- ===== src/Server/Lifecycle/Submissions.antt =====
-- createSubmission and reevaluateSubmission keep to the lifecycle.
use ctf_koth_evals_template.Prelude.{
  ℕ, ◌+◌, ◌<◌, String, ◌≡◌, refl, subst, Bool, true, false, Option, none, some, List, [], ◌∷◌, ◌++◌,
  All, arith,
}
use ctf_koth_evals_template.Go.Int.{ℤ}
use ctf_koth_evals_template.Ent.Schema.{Suite, Submission, Db}
use ctf_koth_evals_template.Ent.Store.{ok, create_submission as insert_submission}
use ctf_koth_evals_template.Server.Response.{Response}
use ctf_koth_evals_template.Server.Action.{World}
use ctf_koth_evals_template.Server.Request.{Decoded, decoded, malformed, json_body, require}
use ctf_koth_evals_template.Server.Lifecycle.{Inv, SuitesEvolve, Extends, Evolution, here, next}
use ctf_koth_evals_template.Server.Lifecycle.Rows.{runs_kept-Evolution}
use ctf_koth_evals_template.Server.Lifecycle.References.{
  SuitesEvolve-refl, Extends-refl, Extends-append, keys-append,
}
use ctf_koth_evals_template.Server.Lifecycle.Rules.{
  Refines, after_call, bind-Refines, query-Refines, update-Refines, notify-Refines,
  transaction-Refines, pure-Refines, stop-Refines,
}
use ctf_koth_evals_template.Server.Lifecycle.Updates.{path_id-Refines}
use ctf_koth_evals_template.Server.SuiteIds.{
  Parsed, ids, no_field, no_id, bad_part, parse_suite_ids,
}
use ctf_koth_evals_template.Server.Submit.{
  Form, Artifact, form_or_reply, ids_or_reply, artifact_or_reply, content_or_reply,
  persist_submission, create_submission, reevaluate_submission,
}
use ctf_koth_evals_template.Server.Lifecycle.FanOut.{fan_out-Refines}

decoded_ids-Refines : (p : Parsed) (w : World) → Refines (ids_or_reply p) w
decoded_ids-Refines (ids ns) w = pure-Refines ns w
decoded_ids-Refines no_field w = stop-Refines _ w
decoded_ids-Refines no_id w = stop-Refines _ w
decoded_ids-Refines (bad_part p) w = stop-Refines _ w

form-Refines : (f : Decoded Form) (w : World) → Refines (form_or_reply f) w
form-Refines (decoded f) w = pure-Refines f w
form-Refines (malformed e) w = stop-Refines _ w

artifact-Refines : (a : Option Artifact) (w : World) → Refines (artifact_or_reply a) w
artifact-Refines (some a) w = pure-Refines a w
artifact-Refines none w = stop-Refines _ w

content-Refines : (c : Decoded (List ℕ)) (w : World) → Refines (content_or_reply c) w
content-Refines (decoded c) w = pure-Refines c w
content-Refines (malformed e) w = stop-Refines _ w

pub json-Refines : {A : Type 0} (d : Decoded A) (w : World) → Refines (json_body d) w
json-Refines (decoded a) w = pure-Refines a w
json-Refines (malformed e) w = stop-Refines _ w

pub require-Refines : (b : Bool) (s : Response) (w : World) → Refines (require b s) w
require-Refines true s w = pure-Refines tt w
require-Refines false s w = stop-Refines s w

insert-Evolution :
    (build : ℕ → Submission)
    → ((n : ℕ) → (build n).id ≡ n)
    → (db db' : Db) (s : Submission) → insert_submission build db ≡ ok (db', s)
    → Inv db
    → Evolution db db'
unfolding insert_submission
insert-Evolution build named db db' s e i =
    runs_kept-Evolution db db' (ground arith) (ground arith)
      (record {
        suites = subst (SuitesEvolve db.suites) (ground arith) (SuitesEvolve-refl db.suites);
        submissions =
            subst (Extends db.submissions) inserted
              (Extends-append db.submissions (build db.next_submission ∷ []));
        keys =
            subst (λ n. All (λ (x : Submission). x.id < n) db'.submissions) (ground arith)
              (subst (All (λ (x : Submission). x.id < db.next_submission + 1)) inserted (
                keys-append db.next_submission db.submissions (build db.next_submission)
                  (named db.next_submission) i.submission_keys));
        challenges = subst (Extends db.challenges) (ground arith) (Extends-refl db.challenges);
      })
      i
  where
    inserted : db.submissions ++ build db.next_submission ∷ [] ≡ db'.submissions
    inserted = ground arith

persist-Refines :
    (suites : List Suite) (build : ℕ → Submission) (now : ℕ) (w : World)
    → ((n : ℕ) → (build n).id ≡ n)
    → Refines (persist_submission suites build now) w
unfolding persist_submission
persist-Refines suites build now w named = transaction-Refines _ _ _ w (
    bind-Refines _ _ (after_call w)
      (update-Refines _ _ (after_call w)
        λ db s e i. next here (insert-Evolution build named w.db db s e i))
      λ s w1 _.
        bind-Refines _ _ w1 (fan_out-Refines _ now s.id suites w1) λ rs w2 _. pure-Refines _ w2)

pub create_submission-Refines :
    (digest : List ℕ → String) (max_upload_mb : ℕ) (request : Decoded Form) (now : ℕ) (w : World)
    → Refines (create_submission digest max_upload_mb request now) w
unfolding create_submission
create_submission-Refines digest max_upload_mb request now w =
    bind-Refines _ _ w (form-Refines request w) λ form w1 _.
      bind-Refines _ _ w1 (decoded_ids-Refines (parse_suite_ids form.suite_ids) w1) λ wanted w2 _.
        bind-Refines _ _ w2 (artifact-Refines form.artifact w2) λ a w3 _.
          bind-Refines _ _ w3 (require-Refines _ _ w3) λ u w4 _.
            bind-Refines _ _ w4 (content-Refines a.content w4) λ bytes w5 _.
              query-Refines _ _ _ w5 λ suites _.
                bind-Refines _ _ (after_call w5) (require-Refines _ _ (after_call w5)) λ v w6 _.
                  bind-Refines _ _ w6 (persist-Refines suites _ now w6 (λ n. refl)) λ c w7 _.
                    bind-Refines _ _ w7 (notify-Refines "runs" w7) λ x w8 _. pure-Refines _ w8

pub reevaluate_submission-Refines :
    (param : String) (request : Decoded (List ℤ)) (now : ℕ) (w : World)
    → Refines (reevaluate_submission param request now) w
unfolding reevaluate_submission
reevaluate_submission-Refines param request now w =
    bind-Refines _ _ w (path_id-Refines param w) λ id w1 _.
      bind-Refines _ _ w1 (json-Refines request w1) λ wanted w2 _.
        bind-Refines _ _ w2 (require-Refines _ _ w2) λ u w3 _. query-Refines _ _ _ w3 λ s _.
          query-Refines _ _ _ (after_call w3) λ suites _.
            bind-Refines _ _ (after_call (after_call w3)) (require-Refines _ _ _) λ v w4 _.
              bind-Refines _ _ w4
                (transaction-Refines _ _ _ w4 (fan_out-Refines _ now s.id suites (after_call w4)))
                λ c w5 _. bind-Refines _ _ w5 (notify-Refines "runs" w5) λ x w6 _. pure-Refines _ w6
