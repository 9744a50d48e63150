-- ===== src/Server/Listings/Tallies.antt =====
-- The one grouped query of listSubmissions counts what a query for each submission would count.
use mathlib.Core.List.Permᴰ.{Permᴰ}
use ctf_koth_evals_template.Prelude.{
  ℕ, ◌+◌, ◌≡◌, refl, ap, ◌∙◌, Bool, ◌&&◌, List, [], ◌∷◌, map, ◌==◌, if◌then◌else◌, tally,
  Bool-cases, arith, inl, inr,
}
use ctf_koth_evals_template.Ent.Status.{
  Status, pending, claimed, running, succeeded, failed, timed_out, cancelled, status_eq, status_in,
}
use ctf_koth_evals_template.Ent.Schema.{Submission, Run}
use ctf_koth_evals_template.Wireapi.{RunCounts, SubmissionSummary}
use ctf_koth_evals_template.Server.Response.{Body, write_json}
use ctf_koth_evals_template.Server.Action.{World, reliable, serve, ◌>>=◌, query, pure}
use ctf_koth_evals_template.Server.Counts.{no_counts, add_count}
use ctf_koth_evals_template.Server.Submit.{submission_summary}
use ctf_koth_evals_template.Server.Listings.Groups.{
  Class, sum_by, of_class, sum_by-group_counts, sum_by-Permᴰ, count_at, add_if, count_at-add_row,
}
use ctf_koth_evals_template.Server.Listings.{
  CountRow, group_counts, add_row, by_id, counts_of, with_counts, summary_with, list_submissions,
}

module _ (k : ℕ) (q : Class) (field : RunCounts → ℕ)
    (law : (a : ℕ) (s : Status) (n : ℕ) (rc : RunCounts)
      → field (add_if (a == k) s n rc) ≡ field rc + (if q a s then n else 0)) where
  field-by_id :
      (cs : List CountRow) (m : List (ℕ × RunCounts))
      → field (count_at k (by_id cs m)) ≡ field (count_at k m) + sum_by q cs
  unfolding by_id
  field-by_id [] m = omega arith
  field-by_id (c ∷ cs) m = omega (
    arith,
    field-by_id cs (add_row c m),
    ap field (count_at-add_row k c m),
    law c.submission c.status c.n (count_at k m),
  )

  -- A field of the counts of a submission is the number of its runs in the field's class.
  field_lem :
      (arrange : List CountRow → List CountRow)
      → ((cs : List CountRow) → Permᴰ (arrange cs) cs)
      → field no_counts ≡ 0
      → (rs : List Run)
      → field (count_at k (by_id (arrange (group_counts rs)) [])) ≡ tally (of_class q) rs
  field_lem arrange perm none_yet rs = omega (
    arith,
    field-by_id (arrange (group_counts rs)) [],
    sum_by-Permᴰ q (perm (group_counts rs)),
    sum_by-group_counts q rs,
  )

-- What each field of a submission's counts is a count of.
abbrev pub is_of : ℕ → ℕ → Status → Bool
is_of k a s = a == k

abbrev pub has_status : Status → ℕ → ℕ → Status → Bool
has_status t k a s = a == k && status_eq s t

abbrev pub is_unfinished : ℕ → ℕ → Status → Bool
is_unfinished k a s = a == k && status_in (pending ∷ claimed ∷ running ∷ []) s

abbrev pub tallies : ℕ → List Run → RunCounts
tallies k rs = record {
  total = tally (λ r. is_of k r.submission r.status) rs;
  succeeded = tally (λ r. has_status succeeded k r.submission r.status) rs;
  failed = tally (λ r. has_status failed k r.submission r.status) rs;
  timed_out = tally (λ r. has_status timed_out k r.submission r.status) rs;
  pending = tally (λ r. is_unfinished k r.submission r.status) rs;
  cancelled = tally (λ r. has_status cancelled k r.submission r.status) rs;
}

total_law :
    (k a : ℕ) (s : Status) (n : ℕ) (rc : RunCounts)
    → (add_if (a == k) s n rc).total ≡ rc.total + (if is_of k a s then n else 0)
unfolding add_count
total_law k a s n rc = ground arith

succeeded_law :
    (k a : ℕ) (s : Status) (n : ℕ) (rc : RunCounts)
    → (add_if (a == k) s n rc).succeeded
      ≡ rc.succeeded + (if has_status succeeded k a s then n else 0)
unfolding add_count status_eq
succeeded_law k a s n rc = ground arith

failed_law :
    (k a : ℕ) (s : Status) (n : ℕ) (rc : RunCounts)
    → (add_if (a == k) s n rc).failed ≡ rc.failed + (if has_status failed k a s then n else 0)
unfolding add_count status_eq
failed_law k a s n rc = ground arith

timed_out_law :
    (k a : ℕ) (s : Status) (n : ℕ) (rc : RunCounts)
    → (add_if (a == k) s n rc).timed_out
      ≡ rc.timed_out + (if has_status timed_out k a s then n else 0)
unfolding add_count status_eq
timed_out_law k a s n rc = ground arith

cancelled_law :
    (k a : ℕ) (s : Status) (n : ℕ) (rc : RunCounts)
    → (add_if (a == k) s n rc).cancelled
      ≡ rc.cancelled + (if has_status cancelled k a s then n else 0)
unfolding add_count status_eq
cancelled_law k a s n rc = ground arith

pending_law :
    (k a : ℕ) (s : Status) (n : ℕ) (rc : RunCounts)
    → (add_if (a == k) s n rc).pending ≡ rc.pending + (if is_unfinished k a s then n else 0)
unfolding add_count status_eq status_in
pending_law k a s n rc = ground arith

module _ (arrange : List CountRow → List CountRow)
    (perm : (cs : List CountRow) → Permᴰ (arrange cs) cs) where
  count_at-tallies :
      (k : ℕ) (rs : List Run) → count_at k (by_id (arrange (group_counts rs)) []) ≡ tallies k rs
  count_at-tallies k rs i = record {
    total = field_lem k (is_of k) (λ rc. rc.total) (total_law k) arrange perm refl rs i;
    succeeded =
        field_lem k (has_status succeeded k) (λ rc. rc.succeeded) (succeeded_law k) arrange perm
          refl rs i;
    failed =
        field_lem k (has_status failed k) (λ rc. rc.failed) (failed_law k) arrange perm refl rs i;
    timed_out =
        field_lem k (has_status timed_out k) (λ rc. rc.timed_out) (timed_out_law k) arrange perm
          refl rs i;
    pending =
        field_lem k (is_unfinished k) (λ rc. rc.pending) (pending_law k) arrange perm refl rs i;
    cancelled =
        field_lem k (has_status cancelled k) (λ rc. rc.cancelled) (cancelled_law k) arrange perm
          refl rs i;
  }

  counted :
      (k : ℕ) (m : List (ℕ × RunCounts)) (sm : SubmissionSummary)
      → sm.runs ≡ no_counts
      → with_counts (counts_of k m) sm ≡ record sm { runs = count_at k m }
  unfolding counts_of
  counted k [] sm e = λ i. record sm { runs = e i }
  counted k ((id, rc) ∷ m) sm e = elim (Bool-cases (id == k)) [
    | inl t ↦ rw t
    | inr t ↦ rw t (counted k m sm e)
  ]

  listed :
      (rs : List Run) (ss : List Submission)
      → map (summary_with (by_id (arrange (group_counts rs)) [])) ss
        ≡ map (λ (s : Submission). record (submission_summary s) { runs = tallies s.id rs }) ss
  unfolding summary_with
  listed rs [] = refl
  listed rs (s ∷ ss) = λ i.
      (counted s.id (by_id (arrange (group_counts rs)) []) (submission_summary s)
            (unfold submission_summary in refl)
          ∙ ap (λ c. record (submission_summary s) { runs = c }) (count_at-tallies s.id rs))
        i
      ∷ listed rs ss i

  -- On a database that does not fail, and in whichever order it gives the groups of the query, the
  -- listing answers 200 with every submission, each with the numbers of its own runs in all, in
  -- each final status, and not finished: what one count for each of them would give.
  pub list_submissions-tallies :
      (order : List Submission → List Submission) (w : World)
      → (serve (list_submissions order arrange) (reliable w)).0
        ≡ write_json 200 (
            Body.submissions (
              map
                (λ (s : Submission). record (submission_summary s) {
                  runs = tallies s.id w.db.runs;
                })
                (order w.db.submissions)))
  unfolding list_submissions serve ◌>>=◌ query pure
  list_submissions-tallies order w =
      ap (λ l. write_json 200 (Body.submissions l)) (listed w.db.runs (order w.db.submissions))
