-- ===== src/Tests/Execution.antt =====
-- A worker with two slots, a run of it, and its report to the sample server.
use ctf_koth_evals_template.Prelude.{
  ℕ, ◌+◌, ◌≤◌, ◌≡◌, ◌⊎◌, refl, true, false, none, some, List, [], ◌∷◌, length,
}
use ctf_koth_evals_template.Go.Int.{pos}
use ctf_koth_evals_template.Go.Text.{codes, atoi}
use ctf_koth_evals_template.Go.Any.{end, field, number}
use ctf_koth_evals_template.Wireapi.{ClaimResponse}
use ctf_koth_evals_template.Server.Request.{decoded}
use ctf_koth_evals_template.Server.Response.{claim, no_content, write_json}
use ctf_koth_evals_template.Server.Action.{serve, reliable}
use ctf_koth_evals_template.Server.Result.{handle_result}
use ctf_koth_evals_template.Worker.Tail.{write, write_all, new_tail}
use ctf_koth_evals_template.Worker.Tail.Last.{last_bytes, joined, write_all-last_bytes}
use ctf_koth_evals_template.Worker.Client.{claim_run}
use ctf_koth_evals_template.Worker.Execute.{Steps, Codecs, Ended, execute}
use ctf_koth_evals_template.Worker.Execute.Verdict.{Verdict, execute-Verdict}
use ctf_koth_evals_template.Worker.Execute.Polls.{IsTimeout}
use ctf_koth_evals_template.Worker.Execute.Delivery.{Landed, report_lands}
use ctf_koth_evals_template.Worker.Pool.{
  Pool, Event, ticks, tries_slot, answers, is_cancelled, takes_back, finishes, returns, draining,
  returned, new_pool, remove_at, step, run_events,
}
use ctf_koth_evals_template.Worker.Pool.Slots.{runs_within_capacity}
use ctf_koth_evals_template.Worker.Pool.Drain.{left, GoesOn, drain_ends}
use ctf_koth_evals_template.Tests.Fixtures.{world, db-Inv, claimed_run}
use ctf_koth_evals_template.Tests.Values.{low}

abbrev writes : List (List ℕ)
writes = codes "ab" ∷ codes "cde" ∷ []

cut_to_three : (write_all writes (new_tail 3)).buf ≡ codes "cde"
unfolding write_all write
cut_to_three = refl

write_all-last_bytes_example : (write_all writes (new_tail 3)).buf ≡ last_bytes 3 (joined writes)
write_all-last_bytes_example = write_all-last_bytes 3 writes

abbrev job : ClaimResponse
job = record {
  id = 2;
  seed = "s2";
  suite = record { id = 1; timeout_seconds = pos 60; parameters = none };
  challenge = record { id = 1; name = "regex-count"; version = "ab12"; manifest = end };
  submission = record { id = 1; artifact_name = "p.txt" };
}

abbrev codecs : Codecs
codecs = record {
  hash = λ bytes. "ab12";
  json = λ bytes. decoded (field "score" (number low) end);
  as_string = λ bytes. "";
}

abbrev ended : Ended
ended = record {
  polls = [];
  deadline_passed = false;
  waited = decoded tt;
  stdout = writes;
  stderr = [];
}

abbrev steps : Steps
steps = record {
  bundle = record { cached = true; fetched = decoded []; extracted = λ bytes. decoded tt };
  artifact = decoded (1 ∷ []);
  cleaned = decoded tt;
  files = λ op. decoded tt;
  wrapper_found = decoded tt;
  started = decoded tt;
  started_at = 15;
  process = λ timeout. ended;
  result_file = decoded (codes "{}");
}

execute-Verdict_example :
    (t : ℕ) × IsTimeout (pos 60) t
    × Verdict codecs job steps (steps.process t) (execute codecs job steps)
execute-Verdict_example = execute-Verdict codecs job steps

row_two : atoi (codes "2") ≡ some (pos 2)
unfolding atoi
row_two = refl

report_lands_example :
    Landed codecs job steps "w" 70 world db-Inv 1 claimed_run refl refl "2" row_two
      (serve (handle_result "2" (decoded (execute codecs job steps)) "w" 70) (reliable world)).1.db
      (serve (handle_result "2" (decoded (execute codecs job steps)) "w" 70) (reliable world)).0
report_lands_example =
    report_lands codecs job steps "w" 70 world db-Inv 1 claimed_run refl refl "2" row_two

-- One claim is answered, then the context ends.
abbrev day : List Event
day =
    ticks
    ∷ tries_slot
    ∷ answers (decoded (write_json 200 (claim job)))
    ∷ tries_slot
    ∷ answers (decoded no_content)
    ∷ is_cancelled
    ∷ []

abbrev evening : Pool
evening = record { capacity = 2; held = 1; running = job ∷ []; phase = draining 0 }

day_ends : run_events day (new_pool 2) ≡ some evening
unfolding run_events step claim_run
day_ends = refl

runs_within_capacity_example :
    (length evening.running ≤ 2) × (evening.phase ≡ returned → evening.running ≡ [])
runs_within_capacity_example = runs_within_capacity 2 day evening day_ends

abbrev shutdown : List Event
shutdown = takes_back ∷ finishes 0 ∷ takes_back ∷ returns ∷ []

abbrev night : Pool
night = record { capacity = 2; held = 2; running = []; phase = returned }

shut_down : run_events shutdown evening ≡ some night
unfolding run_events step remove_at
shut_down = refl

drain_ends_example :
    (length shutdown + left night ≡ left evening) × ((night.phase ≡ returned) ⊎ GoesOn night)
drain_ends_example = drain_ends 2 day shutdown evening night day_ends tt shut_down
