-- ===== src/Worker/Pool/Slots.antt =====
-- A worker executes no more runs side by side than it is told to.
use ctf_koth_evals_template.Prelude.{
  ℕ, zero, suc, ◌+◌, ◌≤◌, ◌≡◌, refl, ap, ◌∙◌, subst, some, List, [], ◌∷◌, length, length-append,
  arith, Option-cases, inl, inr,
}
use ctf_koth_evals_template.Wireapi.{ClaimResponse}
use ctf_koth_evals_template.Worker.Pool.Moves.{
  Move, tick, full, slot, release, spawn, finish, stop, take, leave, run_events-Move,
}
use ctf_koth_evals_template.Worker.Pool.{
  Phase, waiting, pulling, claiming, draining, returned, Pool, Event, new_pool, remove_at,
  run_events,
}

-- The slots that the loop itself holds.
abbrev pub own_slots : Phase → ℕ → ℕ
own_slots waiting capacity = 0
own_slots pulling capacity = 0
own_slots claiming capacity = 1
own_slots (draining n) capacity = n
own_slots returned capacity = capacity

-- Every slot that is held belongs to a run or to the loop.
pub record IsSlotted (p : Pool) : Type 0 where
  pub owned : p.held ≡ length p.running + own_slots p.phase p.capacity
  pub within : p.held ≤ p.capacity

pub length-remove_at :
    (cs rest : List ClaimResponse) (k : ℕ)
    → remove_at cs k ≡ some rest
    → length cs ≡ suc (length rest)
unfolding remove_at
length-remove_at [] rest k e = absurd (cc)
length-remove_at (c ∷ cs) rest zero e = let same : cs ≡ rest = cc in ap (λ l. suc (length l)) same
length-remove_at (c ∷ cs) rest (suc k) e = elim (Option-cases (remove_at cs k)) [
  | inl n ↦ absurd (let bad = rw n at e in cc)
  | inr (more, m) ↦
      let same : c ∷ more ≡ rest = (let f = rw m at e in cc) in
      ap suc (length-remove_at cs more k m) ∙ ap (λ l. suc (length l)) same
]

pub Move-IsSlotted : {p q : Pool} {e : Event} → Move p e q → IsSlotted p → IsSlotted q
Move-IsSlotted {p} (tick ph) i = record {
  owned = i.owned ∙ ap (λ f. length p.running + own_slots f p.capacity) ph;
  within = i.within;
}
Move-IsSlotted {p} (full ph) i = record {
  owned = i.owned ∙ ap (λ f. length p.running + own_slots f p.capacity) ph;
  within = i.within;
}
Move-IsSlotted {p} (slot ph free) i =
    let had = ap (λ f. own_slots f p.capacity) ph in
    record { owned = omega (arith, i.owned, had); within = omega arith }
Move-IsSlotted {p} (release a ph) i =
    let had = ap (λ f. own_slots f p.capacity) ph in
    record { owned = omega (arith, i.owned, had); within = omega (arith, i.within) }
Move-IsSlotted {p} (spawn a c ph) i =
    let had = ap (λ f. own_slots f p.capacity) ph in
    record {
      owned = omega (arith, i.owned, had, length-append p.running (c ∷ []));
      within = i.within;
    }
Move-IsSlotted {p} (finish k rest r) i =
    let one_less = length-remove_at p.running rest k r in
    record { owned = omega (arith, i.owned); within = omega (arith, i.within) }
Move-IsSlotted {p} (stop ph) i = record {
  owned = i.owned ∙ ap (λ f. length p.running + own_slots f p.capacity) ph;
  within = i.within;
}
Move-IsSlotted {p} (take n ph below free) i =
    let had = ap (λ f. own_slots f p.capacity) ph in
    record { owned = omega (arith, i.owned, had); within = omega arith }
Move-IsSlotted {p} (leave n ph all) i =
    let had = ap (λ f. own_slots f p.capacity) ph in
    record { owned = omega (arith, i.owned, had); within = i.within }

Move-capacity : {p q : Pool} {e : Event} → Move p e q → q.capacity ≡ p.capacity
Move-capacity (tick ph) = refl
Move-capacity (full ph) = refl
Move-capacity (slot ph free) = refl
Move-capacity (release a ph) = refl
Move-capacity (spawn a c ph) = refl
Move-capacity (finish k rest r) = refl
Move-capacity (stop ph) = refl
Move-capacity (take n ph below free) = refl
Move-capacity (leave n ph all) = refl

empty_of : (cs : List ClaimResponse) → length cs ≡ 0 → cs ≡ []
empty_of [] e = refl
empty_of (c ∷ cs) e = absurd (omega arith)

pub run_events-IsSlotted :
    (es : List Event) (p q : Pool)
    → run_events es p ≡ some q
    → IsSlotted p
    → IsSlotted q × (q.capacity ≡ p.capacity)
unfolding run_events
run_events-IsSlotted [] p q e i =
    let same : p ≡ q = cc in subst (λ x. IsSlotted x × (x.capacity ≡ p.capacity)) same (i, refl)
run_events-IsSlotted (v ∷ es) p q e i =
    let (r, m, later) = run_events-Move v es p q e in
    let (j, same) = run_events-IsSlotted es r q later (Move-IsSlotted m i) in
    (j, same ∙ Move-capacity m)

-- In whichever order ticks, answers, ends of runs and the end of the context come, a worker with
-- `capacity` slots never executes more than `capacity` runs side by side, and once it has returned
-- it executes none.
pub runs_within_capacity :
    (capacity : ℕ) (es : List Event) (p : Pool)
    → run_events es (new_pool capacity) ≡ some p
    → (length p.running ≤ capacity) × (p.phase ≡ returned → p.running ≡ [])
runs_within_capacity capacity es p e =
    let (i, same) =
      run_events-IsSlotted es (new_pool capacity) p e
        (record { owned = refl; within = omega arith }) in
    (
      omega (arith, i.owned, i.within),
      λ back.
          empty_of p.running
            (omega (arith, i.owned, i.within, ap (λ f. own_slots f p.capacity) back)),
    )
