-- ===== src/Go/Int.antt =====
-- Go's int, where a request or a suite can hold a negative one. Within 64 bits.
use ctf_koth_evals_template.Prelude.{ℕ, Bool, false, ◌==◌, ltb}

-- `negsuc n` is -(n + 1).
pub data ℤ : Type 0 where
  pos : ℕ → ℤ
  negsuc : ℕ → ℤ

-- n == k, for k from the database.
unfoldable pub equals : ℤ → ℕ → Bool
equals (pos n) k = n == k
equals (negsuc n) k = false

-- n > 0
unfoldable pub is_positive : ℤ → Bool
is_positive (pos n) = ltb 0 n
is_positive (negsuc n) = false
