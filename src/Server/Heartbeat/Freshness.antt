-- ===== src/Server/Heartbeat/Freshness.antt =====
-- A worker that calls is seen, although most calls write nothing.
use ctf_koth_evals_template.Prelude.{
  ℕ, ◌+◌, ◌≤◌, ◌<◌, String, ◌≡◌, ◌≢◌, refl, sym, ap, ◌∙◌, subst, inl, inr, true, false, Option,
  none, some, List, [], ◌∷◌, ◌++◌, In, any, arith, str_eq, eq_iff, ltb→lt, if◌then◌else◌,
  Bool-cases,
}
use ctf_koth_evals_template.Ent.Schema.{Worker, Db}
use ctf_koth_evals_template.Ent.Store.{rewrite}
use ctf_koth_evals_template.Ent.Tables.{any-In, In-rewrite}
use ctf_koth_evals_template.Server.Action.{World, ◌>>=◌, pure, save, reliable}
use ctf_koth_evals_template.Server.Heartbeat.{
  heartbeat_ttl, cached, remember, is_recent, should_heartbeat, is_named, upsert_worker, heartbeat,
}

-- What the cache says was written is in the table.
pub record IsCached (w : World) : Type 0 where
  pub written :
      (id : String) (t : ℕ)
      → cached id w.hb_cache ≡ some t
      → (v : Worker) × In v w.db.workers × (v.name ≡ id) × (t ≤ v.last_seen)

same_text : (a b : String) → str_eq a b ≡ true → a ≡ b
same_text a b h = ground (arith, eq_iff a b)

text_refl : (a : String) → str_eq a a ≡ true
text_refl a = ground (arith, eq_iff a a)

cached-remember :
    (id : String) (now : ℕ) (c : List (String × ℕ)) → cached id (remember id now c) ≡ some now
unfolding cached remember
cached-remember id now [] = rw (text_refl id)
cached-remember id now ((name, t) ∷ rest) = elim (Bool-cases (str_eq name id)) [
  | inl e ↦ rw (e, e)
  | inr e ↦ rw (e, e) (cached-remember id now rest)
]

cached-remember_other :
    (id other : String) (now : ℕ) (c : List (String × ℕ))
    → str_eq id other ≡ false
    → cached other (remember id now c) ≡ cached other c
unfolding cached remember
cached-remember_other id other now [] h = rw h
cached-remember_other id other now ((name, t) ∷ rest) h = elim (Bool-cases (str_eq name id)) [
  | inl e ↦ let same = same_text name id e in rw (e, same, h)
  | inr e ↦ rw e (
      ap (λ o. if str_eq name other then some t else o) (cached-remember_other id other now rest h))
]

In-last : {A : Type 0} (xs : List A) (a : A) → In a (xs ++ a ∷ [])
In-last [] a = inl refl
In-last (x ∷ xs) a = inr (In-last xs a)

In-front : {A : Type 0} (xs ys : List A) (a : A) → In a xs → In a (xs ++ ys)
In-front [] ys a m = elim m [ ]
In-front (x ∷ xs) ys a (inl e) = inl e
In-front (x ∷ xs) ys a (inr m) = inr (In-front xs ys a m)

module _ (id : String) (now : ℕ) (db : Db) where
  upsert-seen :
      (v : Worker) × In v (upsert_worker id now db).workers × (v.name ≡ id) × (v.last_seen ≡ now)
  unfolding upsert_worker
  upsert-seen = elim (Bool-cases (any (is_named id) db.workers)) [
    | inl e ↦
        rw e
          let (x, m, h) = any-In (is_named id) db.workers e in
            (
              record x { last_seen = now },
              subst
                  (λ b.
                    In (if b then record x { last_seen = now } else x)
                      (rewrite (is_named id) (λ v. record v { last_seen = now }) db.workers))
                  h (In-rewrite (is_named id) (λ v. record v { last_seen = now }) db.workers x m),
              same_text x.name id h,
              refl,
            )
    | inr e ↦ rw e (_, In-last db.workers _, refl, refl)
  ]

  upsert-others :
      (v : Worker)
      → In v db.workers
      → str_eq v.name id ≡ false
      → In v (upsert_worker id now db).workers
  unfolding upsert_worker
  upsert-others v m h = elim (Bool-cases (any (is_named id) db.workers)) [
    | inl e ↦ rw e (
        subst
          (λ b.
            In (if b then record v { last_seen = now } else v)
              (rewrite (is_named id) (λ v. record v { last_seen = now }) db.workers))
          h (In-rewrite (is_named id) (λ v. record v { last_seen = now }) db.workers v m))
    | inr e ↦ rw e (In-front db.workers _ v m)
  ]

upsert_keeps_runs :
    (id : String) (now : ℕ) (db : Db)
    → ((upsert_worker id now db).runs ≡ db.runs)
      × ((upsert_worker id now db).next_run ≡ db.next_run)
unfolding upsert_worker
upsert_keeps_runs id now db = elim (Bool-cases (any (is_named id) db.workers)) [
  | inl e ↦ rw e (refl, refl)
  | inr e ↦ rw e (refl, refl)
]

-- The worker that calls at `now` is seen within the last five seconds.
abbrev pub IsSeen : String → ℕ → World → Type 0
IsSeen id now w =
    (v : Worker) × In v w.db.workers × (v.name ≡ id) × (now < v.last_seen + heartbeat_ttl)

apart : (name id other : String) → name ≡ other → str_eq id other ≡ false → str_eq name id ≡ false
apart name id other e h = elim (Bool-cases (str_eq name id)) [
  | inl t ↦
      let same : id ≡ other = sym (same_text name id t) ∙ e in
      let yes : str_eq id other ≡ true = subst (λ x. str_eq id x ≡ true) same (text_refl id) in
      absurd (cc)
  | inr f ↦ f
]

after_beat : (id : String) (now : ℕ) (w : World) → World
after_beat id now w = record w {
  db = upsert_worker id now w.db;
  hb_cache = remember id now w.hb_cache;
  faults = [];
}

beaten-IsCached : (id : String) (now : ℕ) (w : World) → IsCached w → IsCached (after_beat id now w)
unfolding after_beat
beaten-IsCached id now w c = record {
  written = λ other t e. elim (Bool-cases (str_eq id other)) [
    | inl h ↦
        let same = same_text id other h in
        let (v, m, n, s) = upsert-seen id now w.db in
        let time : some now ≡ some t =
          sym (cached-remember id now w.hb_cache)
          ∙ ap (λ x. cached x (remember id now w.hb_cache)) same
          ∙ e in
        let now_is_t : now ≡ t = cc in (v, m, n ∙ same, omega (arith, now_is_t, s))
    | inr h ↦
        let (v, m, n, s) =
          c.written other t (sym (cached-remember_other id other now w.hb_cache h) ∙ e) in
        (v, upsert-others id now w.db v m (apart v.name id other n h), n, s)
  ];
}

beaten-IsSeen : (id : String) (now : ℕ) (w : World) → IsSeen id now (after_beat id now w)
unfolding after_beat
beaten-IsSeen id now w = let (v, m, n, s) = upsert-seen id now w.db in (v, m, n, omega (arith, s))

skipped :
    (id : String) (now : ℕ) (w : World)
    → is_recent now (cached id w.hb_cache) ≡ true
    → (heartbeat id now (reliable w)).1 ≡ reliable w
unfolding heartbeat should_heartbeat
skipped id now w e = elim (Bool-cases (str_eq id "")) [ inl h ↦ rw h | inr h ↦ rw (h, e) ]

beaten :
    (id : String) (now : ℕ) (w : World)
    → id ≢ ""
    → is_recent now (cached id w.hb_cache) ≡ false
    → (heartbeat id now (reliable w)).1 ≡ after_beat id now w
unfolding heartbeat should_heartbeat after_beat ◌>>=◌ save pure
beaten id now w named e = elim (Bool-cases (str_eq id "")) [
  | inl h ↦ absurd (named (same_text id "" h))
  | inr h ↦ rw (h, e)
]

-- On a database that does not fail, and where the table holds what the cache says was written, a
-- worker that calls under a name has a row that is less than five seconds old, although the call
-- may have written nothing; and the table still holds what the cache says.
pub heartbeat-IsSeen :
    (id : String) (now : ℕ) (w : World)
    → id ≢ ""
    → IsCached w
    → IsCached (heartbeat id now (reliable w)).1 × IsSeen id now (heartbeat id now (reliable w)).1
heartbeat-IsSeen id now w named c = elim (Bool-cases (is_recent now (cached id w.hb_cache))) [
  | inl e ↦
      subst (λ v. IsCached v × IsSeen id now v) (sym (skipped id now w e))
        (record { written = c.written }, recent-IsSeen (cached id w.hb_cache) refl e)
  | inr e ↦
      subst (λ v. IsCached v × IsSeen id now v) (sym (beaten id now w named e))
        (beaten-IsCached id now w c, beaten-IsSeen id now w)
]
  where
    recent-IsSeen :
        (o : Option ℕ) → cached id w.hb_cache ≡ o → is_recent now o ≡ true → IsSeen id now w
    recent-IsSeen none h e = absurd (cc)
    recent-IsSeen (some t) h e =
        let (v, m, n, s) = c.written id t h in
        (v, m, n, omega (arith, s, ltb→lt now (t + heartbeat_ttl) e))

-- A heartbeat writes to the table of workers alone.
pub heartbeat_keeps_runs :
    (id : String) (now : ℕ) (w : World)
    → id ≢ ""
    → ((heartbeat id now (reliable w)).1.db.runs ≡ w.db.runs)
      × ((heartbeat id now (reliable w)).1.db.next_run ≡ w.db.next_run)
unfolding after_beat
heartbeat_keeps_runs id now w named = elim (Bool-cases (is_recent now (cached id w.hb_cache))) [
  | inl e ↦ (
    ap (λ (v : World). v.db.runs) (skipped id now w e),
    ap (λ (v : World). v.db.next_run) (skipped id now w e),
  )
  | inr e ↦
      let kept = upsert_keeps_runs id now w.db in
      (
        ap (λ (v : World). v.db.runs) (beaten id now w named e) ∙ kept.0,
        ap (λ (v : World). v.db.next_run) (beaten id now w named e) ∙ kept.1,
      )
]
