-- ===== src/Ent/Status.antt =====
-- The `status` enum of a run: ent/run/run.go, lines 118 to 147.
use ctf_koth_evals_template.Prelude.{String, ◌≡◌, Bool, true, false, arith, List, any}

pub data Status : Type 0 where
  pending claimed running succeeded failed timed_out cancelled : Status

-- The string that the Go constant stands for.
unfoldable pub to_text : Status → String
to_text pending = "pending"
to_text claimed = "claimed"
to_text running = "running"
to_text succeeded = "succeeded"
to_text failed = "failed"
to_text timed_out = "timed_out"
to_text cancelled = "cancelled"

unfoldable pub status_eq : Status → Status → Bool
status_eq pending pending = true
status_eq claimed claimed = true
status_eq running running = true
status_eq succeeded succeeded = true
status_eq failed failed = true
status_eq timed_out timed_out = true
status_eq cancelled cancelled = true
status_eq _ _ = false

-- run.StatusIn(...): the status is one of the list.
unfoldable pub status_in : List Status → Status → Bool
unfolding status_eq
status_in allowed s = any (status_eq s) allowed

pub status_eq_sound : (s t : Status) → status_eq s t ≡ true → s ≡ t
unfolding status_eq
status_eq_sound s t h = ground arith

pub status_eq_refl : (s : Status) → status_eq s s ≡ true
unfolding status_eq
status_eq_refl s = ground arith
