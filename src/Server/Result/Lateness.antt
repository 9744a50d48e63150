-- ===== src/Server/Result/Lateness.antt =====
-- Which reports come too late: the sticky-cancel guard of handleResult in
-- internal/server/internal_api.go, case by case.
use ctf_koth_evals_template.Prelude.{◌≡◌, ◌≢◌, subst, true, false, arith}
use ctf_koth_evals_template.Ent.Status.{
  Status, pending, claimed, running, succeeded, failed, timed_out, cancelled, status_eq,
  status_eq_sound,
}
use ctf_koth_evals_template.Server.Result.{too_late}

-- A report comes too late for a run that has ended, unless it only confirms a cancellation.
pub data IsOver : Status → Status → Type 0 where
  after_success : {reported : Status} → IsOver succeeded reported
  after_failure : {reported : Status} → IsOver failed reported
  after_timeout : {reported : Status} → IsOver timed_out reported
  after_cancel : {reported : Status} → reported ≢ cancelled → IsOver cancelled reported

pub too_late-IsOver : (s reported : Status) → too_late s reported ≡ true → IsOver s reported
unfolding too_late status_eq
too_late-IsOver succeeded reported e = after_success
too_late-IsOver failed reported e = after_failure
too_late-IsOver timed_out reported e = after_timeout
too_late-IsOver cancelled reported e =
    after_cancel λ same. absurd (let h = subst (λ x. too_late cancelled x ≡ true) same e in cc)
too_late-IsOver pending reported e = absurd (cc)
too_late-IsOver claimed reported e = absurd (cc)
too_late-IsOver running reported e = absurd (cc)

pub in_time : (s reported : Status) → too_late s reported ≡ false → IsOver s reported → ⊥
unfolding too_late status_eq
in_time _ reported e after_success = absurd (cc)
in_time _ reported e after_failure = absurd (cc)
in_time _ reported e after_timeout = absurd (cc)
in_time _ reported e (after_cancel other) =
    other (status_eq_sound reported cancelled (ground arith))
