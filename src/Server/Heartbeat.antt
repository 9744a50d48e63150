-- ===== src/Server/Heartbeat.antt =====
-- shouldHeartbeat, upsertWorker and the middleware of internal/server/heartbeat.go.
pub mod Freshness
use ctf_koth_evals_template.Prelude.{
  ℕ, ◌+◌, String, Bool, true, false, Option, none, some, List, [], ◌∷◌, ◌++◌, str_eq, ltb,
  if◌then◌else◌, any,
}
use ctf_koth_evals_template.Ent.Schema.{Worker, Db}
use ctf_koth_evals_template.Ent.Store.{ok, rewrite}
use ctf_koth_evals_template.Server.Action.{Action, value, ◌>>=◌, pure, save}

-- 5 * time.Second
abbrev pub heartbeat_ttl : ℕ
heartbeat_ttl = 5_000_000_000

unfoldable pub cached : String → List (String × ℕ) → Option ℕ
cached id [] = none
cached id ((name, t) ∷ rest) = if str_eq name id then some t else cached id rest

unfoldable pub remember : String → ℕ → List (String × ℕ) → List (String × ℕ)
remember id now [] = (id, now) ∷ []
remember id now ((name, t) ∷ rest) =
    if str_eq name id then (name, now) ∷ rest else (name, t) ∷ remember id now rest

-- `last, ok := hbCache[id]; ok && now.Sub(last) < heartbeatTTL`, the subtraction moved over.
abbrev pub is_recent : ℕ → Option ℕ → Bool
is_recent now none = false
is_recent now (some last) = ltb now (last + heartbeat_ttl)

unfoldable pub should_heartbeat : String → ℕ → List (String × ℕ) → List (String × ℕ) × Bool
unfolding cached remember
should_heartbeat id now cache =
    if is_recent now (cached id cache) then (cache, false) else (remember id now cache, true)

abbrev pub is_named : String → Worker → Bool
is_named name v = str_eq v.name name

-- INSERT ... ON CONFLICT (name) DO UPDATE SET last_seen.
unfoldable pub upsert_worker : String → ℕ → Db → Db
unfolding rewrite
upsert_worker name now db =
    if any (is_named name) db.workers
    then record db {
      workers = rewrite (is_named name) (λ v. record v { last_seen = now }) db.workers;
    }
    else record db {
      workers =
          db.workers
          ++ record {
            id = db.next_worker;
            name = name;
            last_seen = now;
            runs_handled = 0;
            created_at = now;
          }
            ∷ [];
      next_worker = db.next_worker + 1;
    }

abbrev pub beat_if : Bool → String → ℕ → Action (Unit {0})
beat_if false id now w = (value tt, w)
beat_if true id now w = (do done ← save (λ db. ok (upsert_worker id now db, tt)); pure tt) w

-- What the middleware does before it calls the next handler; a failed write is only logged.
unfoldable pub heartbeat : String → ℕ → Action (Unit {0})
heartbeat id now w =
    if str_eq id ""
    then (value tt, w)
    else let (cache, due) = should_heartbeat id now w.hb_cache in
      beat_if due id now (record w { hb_cache = cache })
