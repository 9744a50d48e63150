-- ===== src/Worker/Pool.antt =====
-- Run and pull of internal/worker/worker.go: the loop, and the semaphore that bounds the runs that
-- execute side by side. A schedule is the list of what happens, one thing after another.
pub mod Moves
pub mod Slots
pub mod Drain
use ctf_koth_evals_template.Prelude.{
  ℕ, zero, suc, ◌+◌, ◌-◌, Bool, Option, none, some, List, [], ◌∷◌, ◌++◌, ltb, ◌==◌, if◌then◌else◌,
  length,
}
use ctf_koth_evals_template.Wireapi.{ClaimResponse}
use ctf_koth_evals_template.Server.Request.{Decoded, decoded, malformed}
use ctf_koth_evals_template.Worker.Client.{Answer, claim_run}

-- Where the loop stands: in the select of Run, at the top of the loop of pull, in a call of Claim
-- with a slot taken, in the loop that takes every slot back (and how many it has), or returned.
pub data Phase : Type 0 where
  waiting pulling claiming : Phase
  draining : ℕ → Phase
  returned : Phase

-- `held` is the number of values in the channel `sem`, `running` the claims whose goroutine has not
-- ended.
pub record Pool : Type 0 where
  pub capacity : ℕ
  pub held : ℕ
  pub running : List ClaimResponse
  pub phase : Phase

pub data Event : Type 0 where
  ticks : Event
  tries_slot : Event
  answers : Answer → Event
  finishes : ℕ → Event
  is_cancelled : Event
  takes_back : Event
  returns : Event

abbrev pub new_pool : ℕ → Pool
new_pool capacity = record { capacity = capacity; held = 0; running = []; phase = waiting }

-- The claims without the one at a place.
unfoldable pub remove_at : List ClaimResponse → ℕ → Option (List ClaimResponse)
remove_at [] k = none
remove_at (c ∷ cs) zero = some cs
remove_at (c ∷ cs) (suc k) = elim (remove_at cs k) [ none ↦ none | some rest ↦ some (c ∷ rest) ]

-- `select { case sem <- struct{}{}: default: return }`
abbrev pub try_slot : Pool → Pool
try_slot p =
    if ltb p.held p.capacity
    then record p { held = p.held + 1; phase = claiming }
    else record p { phase = waiting }

-- What pull does with the result of Claim: an error and no work release the slot and end it.
abbrev pub after_claim : Decoded (Option ClaimResponse) → Pool → Pool
after_claim (malformed e) p = record p { held = p.held - 1; phase = waiting }
after_claim (decoded none) p = record p { held = p.held - 1; phase = waiting }
after_claim (decoded (some c)) p = record p { running = p.running ++ c ∷ []; phase = pulling }

-- The goroutine's deferred `<-sem`.
abbrev pub without_run : Option (List ClaimResponse) → Pool → Option Pool
without_run none p = none
without_run (some rest) p = some (record p { held = p.held - 1; running = rest })

-- `sem <- struct{}{}`, which blocks where the channel is full, as often as the channel is long.
abbrev pub take_back : ℕ → Pool → Option Pool
take_back n p =
    if ltb n p.capacity
    then (if ltb p.held p.capacity
        then some (record p { held = p.held + 1; phase = draining (n + 1) })
        else none)
    else none

abbrev pub return_if : Bool → Pool → Option Pool
return_if b p = if b then some (record p { phase = returned }) else none

-- `none`: this cannot happen here.
unfoldable pub step : Phase → Event → Pool → Option Pool
unfolding remove_at claim_run
step waiting ticks p = some (record p { phase = pulling })
step waiting is_cancelled p = some (record p { phase = draining 0 })
step pulling tries_slot p = some (try_slot p)
step claiming (answers a) p = some (after_claim (claim_run a) p)
step (draining n) takes_back p = take_back n p
step (draining n) returns p = return_if (n == p.capacity) p
step phase (finishes k) p = without_run (remove_at p.running k) p
step phase event p = none

unfoldable pub run_events : List Event → Pool → Option Pool
unfolding step
run_events [] p = some p
run_events (e ∷ es) p = elim (step p.phase e p) [ none ↦ none | some q ↦ run_events es q ]
