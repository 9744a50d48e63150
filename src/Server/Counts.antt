-- ===== src/Server/Counts.antt =====
-- The counting of runs by status, in listSubmissions and getLeaderboard of
-- internal/server/public_api.go.
use ctf_koth_evals_template.Prelude.{ℕ, ◌+◌, ◌≡◌}
use ctf_koth_evals_template.Ent.Status.{
  Status, pending, claimed, running, succeeded, failed, timed_out, cancelled,
}
use ctf_koth_evals_template.Wireapi.{RunCounts}

abbrev pub no_counts : RunCounts
no_counts = record {
  total = 0;
  succeeded = 0;
  failed = 0;
  timed_out = 0;
  pending = 0;
  cancelled = 0;
}

-- rc.Total += n, and the class of the status.
unfoldable pub add_count : Status → ℕ → RunCounts → RunCounts
add_count succeeded n c = record c { total = c.total + n; succeeded = c.succeeded + n }
add_count failed n c = record c { total = c.total + n; failed = c.failed + n }
add_count timed_out n c = record c { total = c.total + n; timed_out = c.timed_out + n }
add_count cancelled n c = record c { total = c.total + n; cancelled = c.cancelled + n }
add_count pending n c = record c { total = c.total + n; pending = c.pending + n }
add_count claimed n c = record c { total = c.total + n; pending = c.pending + n }
add_count running n c = record c { total = c.total + n; pending = c.pending + n }

-- Every run is in one class.
pub record IsBalanced (c : RunCounts) : Type 0 where
  pub classes : c.succeeded + c.failed + c.timed_out + c.cancelled + c.pending ≡ c.total
