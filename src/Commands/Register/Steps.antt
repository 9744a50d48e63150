-- ===== src/Commands/Register/Steps.antt =====
-- registerChallenge keeps to the lifecycle: it adds a challenge at most.
use ctf_koth_evals_template.Prelude.{
  ℕ, ◌+◌, String, ◌<>◌, ◌≡◌, refl, subst, List, [], ◌∷◌, ◌++◌, str_eq, arith, Bool-cases, inl, inr,
}
use ctf_koth_evals_template.Go.Any.{Fields}
use ctf_koth_evals_template.Ent.Schema.{Challenge, Db}
use ctf_koth_evals_template.Ent.Store.{Result, ok, err, not_found, failed, create_challenge}
use ctf_koth_evals_template.Server.Request.{Decoded, decoded, malformed}
use ctf_koth_evals_template.Server.Action.{World, call, pure}
use ctf_koth_evals_template.Server.Lifecycle.{Inv, Evolution, here, next}
use ctf_koth_evals_template.Server.Lifecycle.Rows.{runs_kept-Evolution}
use ctf_koth_evals_template.Server.Lifecycle.References.{
  SuitesEvolve-refl, Extends-refl, Extends-append,
}
use ctf_koth_evals_template.Server.Lifecycle.Rules.{
  Refines, bind-Refines, save-Refines, pure-Refines,
}
use ctf_koth_evals_template.Worker.Execute.{or_give}
use ctf_koth_evals_template.Commands.Register.{
  text_at, refused, after_lookup, look_up, register_challenge,
}

call-Refines : {A : Type 0} (g : Db → Result A) (w : World) → Refines (call g) w
unfolding call
call-Refines g w = record { at = λ i. here }

abbrev added : Challenge → Db → Db
added row db = record db {
  challenges = db.challenges ++ row ∷ [];
  next_challenge = db.next_challenge + 1;
}

added-Evolution : (row : Challenge) (db : Db) → Inv db → Evolution db (added row db)
added-Evolution row db i =
    runs_kept-Evolution db (added row db) refl refl
      (record {
        suites = SuitesEvolve-refl db.suites;
        submissions = Extends-refl db.submissions;
        keys = i.submission_keys;
        challenges = Extends-append db.challenges (row ∷ []);
      })
      i

insert-Evolution :
    (build : ℕ → Challenge) (db db' : Db) (ch : Challenge)
    → create_challenge build db ≡ ok (db', ch)
    → Inv db
    → Evolution db db'
unfolding create_challenge
insert-Evolution build db db' ch e i =
    let row : Challenge = build db.next_challenge in
    let same : added row db ≡ db' = ground arith in
    subst (Evolution db) same (added-Evolution row db i)

lookup-Refines :
    (build : ℕ → Challenge) (found : Result Challenge) (w : World)
    → Refines (after_lookup build found) w
lookup-Refines build (ok ch) w = pure-Refines _ w
lookup-Refines build (err (failed e)) w = pure-Refines _ w
lookup-Refines build (err not_found) w =
    bind-Refines _ _ w
      (save-Refines _ w λ db ch e i. next here (insert-Evolution build w.db db ch e i))
      λ created w1 _. pure-Refines _ w1

pub register_challenge-Refines :
    (manifest : Decoded Fields) (packed : Decoded (List ℕ × String)) (now : ℕ) (w : World)
    → Refines (register_challenge manifest packed now) w
unfolding register_challenge
register_challenge-Refines (malformed e) packed now w = pure-Refines _ w
register_challenge-Refines (decoded m) packed now w =
    elim (Bool-cases (str_eq (text_at m "name") "")) [
      | inl n ↦ rw n (pure-Refines _ w)
      | inr n ↦ rw n (named packed)
    ]
  where
    named :
        (p : Decoded (List ℕ × String))
        → Refines (or_give p (λ e. pure (refused ("pack: " <> e))) λ q. look_up m q.0 q.1 now) w
    named (malformed e) = pure-Refines _ w
    named (decoded p) =
        bind-Refines _ _ w (call-Refines _ w) λ found w1 _. lookup-Refines _ found w1
