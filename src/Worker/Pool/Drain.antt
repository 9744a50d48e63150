-- ===== src/Worker/Pool/Drain.antt =====
-- A worker that is told to stop does stop.
use ctf_koth_evals_template.Prelude.{
  ℕ, suc, ◌+◌, ◌-◌, ◌≤◌, ◌<◌, ◌≡◌, ◌≢◌, refl, ap, ◌∙◌, subst, true, ◌⊎◌, some, List, [], ◌∷◌, ltb,
  ◌==◌, length, arith, Bool-cases, inl, inr,
}
use ctf_koth_evals_template.Wireapi.{ClaimResponse}
use ctf_koth_evals_template.Worker.Pool.{
  Phase, waiting, pulling, claiming, draining, returned, Pool, Event, finishes, takes_back, returns,
  new_pool, remove_at, without_run, step, run_events,
}
use ctf_koth_evals_template.Worker.Pool.Moves.{
  Move, tick, full, slot, release, spawn, finish, stop, take, leave, run_events-Move,
}
use ctf_koth_evals_template.Worker.Pool.Slots.{
  IsSlotted, own_slots, length-remove_at, run_events-IsSlotted,
}

-- What is left to do: the runs that execute, the slots to take back, and the return.
abbrev left_of : Phase → ℕ → ℕ
left_of (draining n) capacity = suc (capacity - n)
left_of returned capacity = 0
left_of other capacity = 0

abbrev pub left : Pool → ℕ
left p = length p.running + left_of p.phase p.capacity

-- It has been told to stop.
abbrev pub IsStopping : Phase → Type 0
IsStopping (draining n) = Unit
IsStopping returned = Unit
IsStopping _ = ⊥

not_stopping : {ph other : Phase} → ph ≡ other → (IsStopping other → ⊥) → IsStopping ph → ⊥
not_stopping e no_other s = no_other (subst IsStopping e s)

-- Each thing that happens then is one less to do.
Move-left :
    {p q : Pool} {e : Event}
    → Move p e q
    → IsStopping p.phase
    → (left p ≡ suc (left q)) × IsStopping q.phase
Move-left (tick ph) s = absurd (not_stopping ph (λ x. x) s)
Move-left (full ph) s = absurd (not_stopping ph (λ x. x) s)
Move-left (slot ph free) s = absurd (not_stopping ph (λ x. x) s)
Move-left (release a ph) s = absurd (not_stopping ph (λ x. x) s)
Move-left (spawn a c ph) s = absurd (not_stopping ph (λ x. x) s)
Move-left {p} (finish k rest r) s = (omega (arith, length-remove_at p.running rest k r), s)
Move-left (stop ph) s = absurd (not_stopping ph (λ x. x) s)
Move-left {p} (take n ph below free) s = (omega (arith, ap (λ f. left_of f p.capacity) ph), tt)
Move-left {p} (leave n ph all) s = (omega (arith, ap (λ f. left_of f p.capacity) ph), tt)

run_events-left :
    (es : List Event) (p q : Pool)
    → run_events es p ≡ some q
    → IsStopping p.phase
    → (length es + left q ≡ left p) × IsStopping q.phase
unfolding run_events
run_events-left [] p q e s =
    let same : p ≡ q = cc in
    subst (λ x. (length {A = Event} [] + left x ≡ left p) × IsStopping x.phase) same
      (omega arith, s)
run_events-left (v ∷ es) p q e s =
    let (r, m, later) = run_events-Move v es p q e in
    let (less, t) = Move-left m s in
    let (rest, u) = run_events-left es r q later t in (omega arith, u)

abbrev pub GoesOn : Pool → Type 0
GoesOn q = (e : Event) × (r : Pool) × (step q.phase e q ≡ some r)

draining-GoesOn : (q : Pool) (n : ℕ) → q.phase ≡ draining n → IsSlotted q → GoesOn q
unfolding step remove_at
draining-GoesOn q n ph i = elim (Bool-cases (n == q.capacity)) [
  | inl e ↦ (returns, record q { phase = returned }, rw (ph, e) refl)
  | inr e ↦ elim (Bool-cases (ltb q.held q.capacity)) [
    | inl f ↦
        let below : ltb n q.capacity ≡ true =
          (let own = ap (λ f. own_slots f q.capacity) ph in ground (arith, i.owned, i.within)) in
        (
          takes_back,
          record q { held = q.held + 1; phase = draining (n + 1) },
          rw (ph, below, f) refl,
        )
    | inr f ↦
        let own = ap (λ f. own_slots f q.capacity) ph in
        let full : q.capacity ≤ q.held = ground arith in
        let short : n ≢ q.capacity = ground arith in
        busy q.running refl (omega (arith, i.owned, i.within))
  ]
]
  where
    busy : (cs : List ClaimResponse) → q.running ≡ cs → 0 < length cs → GoesOn q
    busy [] e h = absurd (omega arith)
    busy (c ∷ cs) e h = (
      finishes 0,
      record q { held = q.held - 1; running = cs },
      ap (λ f. step f (finishes 0) q) ph ∙ ap (λ l. without_run (remove_at l 0) q) e,
    )

stopping-GoesOn :
    (q : Pool) (phase : Phase)
    → q.phase ≡ phase
    → IsStopping phase
    → IsSlotted q
    → (q.phase ≡ returned) ⊎ GoesOn q
stopping-GoesOn q waiting ph s i = absurd s
stopping-GoesOn q pulling ph s i = absurd s
stopping-GoesOn q claiming ph s i = absurd s
stopping-GoesOn q (draining n) ph s i = inr (draining-GoesOn q n ph i)
stopping-GoesOn q returned ph s i = inl ph

-- Once the loop of a worker has taken the end of its context, everything that happens is an end of
-- a run, a slot taken back or the return, and each is one less of the number of runs that execute,
-- the slots that are not taken back and the return together: so there are at most that many. And
-- until the worker has returned, one of these can still happen.
pub drain_ends :
    (capacity : ℕ) (es later : List Event) (p q : Pool)
    → run_events es (new_pool capacity) ≡ some p
    → IsStopping p.phase
    → run_events later p ≡ some q
    → (length later + left q ≡ left p) × ((q.phase ≡ returned) ⊎ GoesOn q)
drain_ends capacity es later p q e s l =
    let (i, same) =
      run_events-IsSlotted es (new_pool capacity) p e
        (record { owned = refl; within = omega arith }) in
    let (j, kept) = run_events-IsSlotted later p q l i in
    let (count, t) = run_events-left later p q l s in (count, stopping-GoesOn q q.phase refl t j)
