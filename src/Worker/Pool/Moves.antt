-- ===== src/Worker/Pool/Moves.antt =====
-- The steps of the worker's loop as a relation: what can happen, and what it makes of the pool.
use ctf_koth_evals_template.Prelude.{
  ℕ, ◌+◌, ◌-◌, ◌<◌, ◌≡◌, refl, subst, Option, none, some, List, [], ◌∷◌, ◌++◌, ltb, ◌==◌, arith,
  Bool-cases, inl, inr,
}
use ctf_koth_evals_template.Wireapi.{ClaimResponse}
use ctf_koth_evals_template.Server.Request.{Decoded, decoded, malformed}
use ctf_koth_evals_template.Worker.Client.{Answer, claim_run}
use ctf_koth_evals_template.Worker.Pool.{
  Phase, waiting, pulling, claiming, draining, returned, Pool, Event, ticks, tries_slot, answers,
  finishes, is_cancelled, takes_back, returns, remove_at, try_slot, after_claim, without_run,
  take_back, return_if, step, run_events,
}

pub data Move (p : Pool) : Event → Pool → Type 0 where
  tick : p.phase ≡ waiting → Move p ticks (record p { phase = pulling })
  full : p.phase ≡ pulling → Move p tries_slot (record p { phase = waiting })
  slot :
      p.phase ≡ pulling
      → p.held < p.capacity
      → Move p tries_slot (record p { held = p.held + 1; phase = claiming })
  release :
      (a : Answer)
      → p.phase ≡ claiming
      → Move p (answers a) (record p { held = p.held - 1; phase = waiting })
  spawn :
      (a : Answer) (c : ClaimResponse)
      → p.phase ≡ claiming
      → Move p (answers a) (record p { running = p.running ++ c ∷ []; phase = pulling })
  finish :
      (k : ℕ) (rest : List ClaimResponse)
      → remove_at p.running k ≡ some rest
      → Move p (finishes k) (record p { held = p.held - 1; running = rest })
  stop : p.phase ≡ waiting → Move p is_cancelled (record p { phase = draining 0 })
  take :
      (n : ℕ)
      → p.phase ≡ draining n
      → n < p.capacity
      → p.held < p.capacity
      → Move p takes_back (record p { held = p.held + 1; phase = draining (n + 1) })
  leave :
      (n : ℕ)
      → p.phase ≡ draining n
      → n ≡ p.capacity
      → Move p returns (record p { phase = returned })

slotted : (p : Pool) → p.phase ≡ pulling → Move p tries_slot (try_slot p)
slotted p ph = elim (Bool-cases (ltb p.held p.capacity)) [
  | inl e ↦ rw e (slot ph (ground arith))
  | inr e ↦ rw e (full ph)
]

claimed :
    (p : Pool) (a : Answer)
    → p.phase ≡ claiming
    → (d : Decoded (Option ClaimResponse)) → Move p (answers a) (after_claim d p)
claimed p a ph (malformed e) = release a ph
claimed p a ph (decoded none) = release a ph
claimed p a ph (decoded (some c)) = spawn a c ph

finished :
    (p q : Pool) (k : ℕ) (o : Option (List ClaimResponse))
    → remove_at p.running k ≡ o
    → without_run o p ≡ some q
    → Move p (finishes k) q
finished p q k none r e = absurd (cc)
finished p q k (some rest) r e = subst (Move p (finishes k)) (cc) (finish k rest r)

taken : (p q : Pool) (n : ℕ) → p.phase ≡ draining n → take_back n p ≡ some q → Move p takes_back q
taken p q n ph e = elim (Bool-cases (ltb n p.capacity)) [
  | inl a ↦ elim (Bool-cases (ltb p.held p.capacity)) [
    | inl b ↦
        let same : record p { held = p.held + 1; phase = draining (n + 1) } ≡ q =
          (let f = rw (a, b) at e in cc) in
        subst (Move p takes_back) same (take n ph (ground arith) (ground arith))
    | inr b ↦ absurd (let f = rw (a, b) at e in cc)
  ]
  | inr a ↦ absurd (let f = rw a at e in cc)
]

gone :
    (p q : Pool) (n : ℕ)
    → p.phase ≡ draining n
    → return_if (n == p.capacity) p ≡ some q
    → Move p returns q
gone p q n ph e = elim (Bool-cases (n == p.capacity)) [
  | inl a ↦
      let same : record p { phase = returned } ≡ q = (let f = rw a at e in cc) in
      subst (Move p returns) same (leave n ph (ground arith))
  | inr a ↦ absurd (let f = rw a at e in cc)
]

-- Whatever a step makes of a pool is one of the moves.
pub step-Move :
    (p q : Pool) (phase : Phase) (event : Event)
    → p.phase ≡ phase
    → step phase event p ≡ some q
    → Move p event q
unfolding step
step-Move p q waiting ticks ph e = subst (Move p ticks) (cc) (tick ph)
step-Move p q waiting tries_slot ph e = absurd (cc)
step-Move p q waiting (answers a) ph e = absurd (cc)
step-Move p q waiting (finishes k) ph e = finished p q k (remove_at p.running k) refl e
step-Move p q waiting is_cancelled ph e = subst (Move p is_cancelled) (cc) (stop ph)
step-Move p q waiting takes_back ph e = absurd (cc)
step-Move p q waiting returns ph e = absurd (cc)
step-Move p q pulling ticks ph e = absurd (cc)
step-Move p q pulling tries_slot ph e = subst (Move p tries_slot) (cc) (slotted p ph)
step-Move p q pulling (answers a) ph e = absurd (cc)
step-Move p q pulling (finishes k) ph e = finished p q k (remove_at p.running k) refl e
step-Move p q pulling is_cancelled ph e = absurd (cc)
step-Move p q pulling takes_back ph e = absurd (cc)
step-Move p q pulling returns ph e = absurd (cc)
step-Move p q claiming ticks ph e = absurd (cc)
step-Move p q claiming tries_slot ph e = absurd (cc)
step-Move p q claiming (answers a) ph e =
    subst (Move p (answers a)) (cc) (claimed p a ph (claim_run a))
step-Move p q claiming (finishes k) ph e = finished p q k (remove_at p.running k) refl e
step-Move p q claiming is_cancelled ph e = absurd (cc)
step-Move p q claiming takes_back ph e = absurd (cc)
step-Move p q claiming returns ph e = absurd (cc)
step-Move p q (draining n) ticks ph e = absurd (cc)
step-Move p q (draining n) tries_slot ph e = absurd (cc)
step-Move p q (draining n) (answers a) ph e = absurd (cc)
step-Move p q (draining n) (finishes k) ph e = finished p q k (remove_at p.running k) refl e
step-Move p q (draining n) is_cancelled ph e = absurd (cc)
step-Move p q (draining n) takes_back ph e = taken p q n ph e
step-Move p q (draining n) returns ph e = gone p q n ph e
step-Move p q returned ticks ph e = absurd (cc)
step-Move p q returned tries_slot ph e = absurd (cc)
step-Move p q returned (answers a) ph e = absurd (cc)
step-Move p q returned (finishes k) ph e = finished p q k (remove_at p.running k) refl e
step-Move p q returned is_cancelled ph e = absurd (cc)
step-Move p q returned takes_back ph e = absurd (cc)
step-Move p q returned returns ph e = absurd (cc)

-- A schedule that can happen begins with a move.
pub run_events-Move :
    (e : Event) (es : List Event) (p q : Pool)
    → run_events (e ∷ es) p ≡ some q
    → (r : Pool) × Move p e r × (run_events es r ≡ some q)
unfolding run_events
run_events-Move e es p q = split (step p.phase e p) refl
  where
    split :
        (o : Option Pool)
        → step p.phase e p ≡ o
        → elim o [ none ↦ none | some r ↦ run_events es r ] ≡ some q
        → (r : Pool) × Move p e r × (run_events es r ≡ some q)
    split none s h = absurd (cc)
    split (some r) s h = (r, step-Move p r p.phase e refl s, h)
