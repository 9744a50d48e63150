-- ===== src/Server/Sweeper/Reclaim.antt =====
-- Which runs a sweep takes back, on a database that does not fail.
use ctf_koth_evals_template.Prelude.{
  ℕ, ◌+◌, ◌≤◌, ◌<◌, String, ◌≡◌, refl, sym, ap, subst, ◌∙◌, ◌&&◌, inl, inr, Bool, true, false, some,
  List, [], ◌∷◌, arith, In, select, tally, any, get_elem?, Bool-cases, str_eq, eq_iff, ltb, ltb→lt,
  lt→ltb, if◌then◌else◌,
}
use ctf_koth_evals_template.Ent.Status.{claimed, status_eq, status_eq_sound, status_eq_refl}
use ctf_koth_evals_template.Ent.Schema.{Run, Worker, Db}
use ctf_koth_evals_template.Ent.Store.{update_runs}
use ctf_koth_evals_template.Ent.Tables.{
  In-select, get_elem?-rewrite, any-In, In-any, map-In, In-map, get_elem?-All,
}
use ctf_koth_evals_template.Server.Action.{World, ◌>>=◌, call, save, notify, reliable}
use ctf_koth_evals_template.Server.Sweeper.{
  is_fresh, fresh_names, not_in_fresh, is_orphan, reclaimed, sweep, sweeper_tick,
}
use ctf_koth_evals_template.Server.Lifecycle.{Shape, IsValid, Inv}
use ctf_koth_evals_template.Server.Lifecycle.Rows.{select-In}

-- A claimed run whose worker has not been seen within the timeout: no row of that name has.
pub record IsAbandoned (now timeout : ℕ) (db : Db) (r : Run) : Type 0 where
  pub is_claimed : r.status ≡ claimed
  pub unseen :
      (v : Worker) → In v db.workers → r.worker_id ≡ some v.name → v.last_seen + timeout ≤ now

not_true : (b : Bool) → (b ≡ true → ⊥) → b ≡ false
not_true true h = absurd (h refl)
not_true false h = refl

both : (a b : Bool) → (a && b) ≡ true → (a ≡ true) × (b ≡ true)
both a b h = ground arith

text_eq_sound : (a b : String) → str_eq a b ≡ true → a ≡ b
text_eq_sound a b h = ground (arith, eq_iff a b)

text_eq_refl : (a : String) → str_eq a a ≡ true
text_eq_refl a = ground (arith, eq_iff a a)

unlisted_sound :
    (names : List String) (n : String) → not_in_fresh names (some n) ≡ true → In n names → ⊥
unlisted_sound [] n e m = m
unlisted_sound (x ∷ xs) n e m =
    let found = In-any (str_eq n) (x ∷ xs) n m (text_eq_refl n) in ground arith

unlisted_complete :
    (names : List String) (n : String) → (In n names → ⊥) → not_in_fresh names (some n) ≡ true
unlisted_complete [] n out = refl
unlisted_complete (x ∷ xs) n out = elim (Bool-cases (any (str_eq n) (x ∷ xs))) [
  | inl e ↦
      let (a, m, same) = any-In (str_eq n) (x ∷ xs) e in
      absurd (out (subst (λ b. In b (x ∷ xs)) (sym (text_eq_sound n a same)) m))
  | inr e ↦ ground arith
]

module _ (now timeout : ℕ) (db : Db) where
  fresh-In :
      (v : Worker)
      → In v db.workers
      → now < v.last_seen + timeout
      → In v.name (fresh_names now timeout db)
  unfolding fresh_names is_fresh
  fresh-In v m late =
      In-map (λ (x : Worker). x.name) (select (is_fresh now timeout) db.workers) v
        (In-select (is_fresh now timeout) db.workers v m (lt→ltb now (v.last_seen + timeout) late))

  In-fresh :
      (n : String)
      → In n (fresh_names now timeout db)
      → (v : Worker) × In v db.workers × (now < v.last_seen + timeout) × (v.name ≡ n)
  unfolding fresh_names is_fresh
  In-fresh n m =
      let (v, s, e) =
        map-In (λ (x : Worker). x.name) (select (is_fresh now timeout) db.workers) n m in
      let (stands, late) = select-In (is_fresh now timeout) db.workers v s in
      (v, stands, ltb→lt now (v.last_seen + timeout) late, e)

  orphan-IsAbandoned :
      (r : Run) → is_orphan (fresh_names now timeout db) r ≡ true → IsAbandoned now timeout db r
  unfolding is_orphan
  orphan-IsAbandoned r e =
      let (c, out) = both (status_eq r.status claimed) _ e in
      record {
        is_claimed = status_eq_sound r.status claimed c;
        unseen = λ v m name. elim (Bool-cases (ltb now (v.last_seen + timeout))) [
          | inl late ↦ absurd (
              unlisted_sound (fresh_names now timeout db) v.name
                (subst (λ x. not_in_fresh (fresh_names now timeout db) x ≡ true) name out)
                (fresh-In v m (ltb→lt now (v.last_seen + timeout) late)))
          | inr early ↦ ground arith
        ];
      }

  abandoned_orphan :
      (r : Run)
      → IsValid r
      → IsAbandoned now timeout db r
      → is_orphan (fresh_names now timeout db) r ≡ true
  unfolding is_orphan
  abandoned_orphan r v a =
      let (unfinished, time, (n, owned, named)) = subst (λ s. Shape s r) a.is_claimed v in
      let out : not_in_fresh (fresh_names now timeout db) (some n) ≡ true =
        unlisted_complete (fresh_names now timeout db) n λ m.
          let (v, stands, late, e) = In-fresh n m in
          let gone = a.unseen v stands (owned ∙ ap some (sym e)) in absurd (omega arith) in
      rw (a.is_claimed, owned, out, status_eq_refl claimed)

module _ (now timeout : ℕ) (w : World) (i : Inv w.db) where
  sweep_tables :
      (sweeper_tick timeout now (reliable w)).1.db
      ≡ (update_runs (is_orphan (fresh_names now timeout w.db)) reclaimed w.db).0
  unfolding sweeper_tick sweep update_runs ◌>>=◌ call save notify
  sweep_tables =
      elim (Bool-cases (ltb 0 (tally (is_orphan (fresh_names now timeout w.db)) w.db.runs))) [
        | inl e ↦ rw e
        | inr e ↦ rw e
      ]

  -- On a database that does not fail and where the invariant holds, a tick of the sweeper takes
  -- back exactly the abandoned runs, those claimed by a worker that has not been seen within the
  -- timeout; every other run is the same row.
  pub sweep_exact :
      (k : ℕ) (r : Run)
      → get_elem? w.db.runs k ≡ some r
      → ((IsAbandoned now timeout w.db r)
          → get_elem? (sweeper_tick timeout now (reliable w)).1.db.runs k ≡ some (reclaimed r))
        × ((IsAbandoned now timeout w.db r → ⊥)
            → get_elem? (sweeper_tick timeout now (reliable w)).1.db.runs k ≡ some r)
  unfolding update_runs
  sweep_exact k r at =
      let names = fresh_names now timeout w.db in
      let row =
        ap (λ (d : Db). get_elem? d.runs k) sweep_tables
        ∙ get_elem?-rewrite (is_orphan names) reclaimed w.db.runs k r at in
      (
        λ a.
            row
            ∙ ap (λ b. some (if b then reclaimed r else r))
                (abandoned_orphan now timeout w.db r
                  (get_elem?-All IsValid w.db.runs k r i.valid at) a),
        λ a.
            row
            ∙ ap (λ b. some (if b then reclaimed r else r))
                (not_true _ λ e. a (orphan-IsAbandoned now timeout w.db r e)),
      )
