-- ===== src/Worker/Tail.antt =====
-- tailWriter of internal/worker/worker.go.
pub mod Last
use ctf_koth_evals_template.Prelude.{
  ℕ, ◌*◌, ◌-◌, Bool, List, [], ◌∷◌, ◌++◌, ltb, if◌then◌else◌, length, drop,
}

pub record TailWriter : Type 0 where
  pub buf : List ℕ
  pub limit : ℕ

-- logTailLimit
abbrev pub log_tail_limit : ℕ
log_tail_limit = 32 * 1024

abbrev pub new_tail : ℕ → TailWriter
new_tail limit = record { buf = []; limit = limit }

-- t.buf[len(t.buf)-t.limit:] where the buffer is too long.
abbrev pub cut : ℕ → List ℕ → List ℕ
cut limit buf = if ltb limit (length buf) then drop (length buf - limit) buf else buf

-- The number of bytes that it reports is that of all of `p`.
unfoldable pub write : List ℕ → TailWriter → TailWriter × ℕ
write p t = (record t { buf = cut t.limit (t.buf ++ p) }, length p)

-- The writes of a process, one after another.
unfoldable pub write_all : List (List ℕ) → TailWriter → TailWriter
unfolding write
write_all [] t = t
write_all (p ∷ ps) t = write_all ps (write p t).0
