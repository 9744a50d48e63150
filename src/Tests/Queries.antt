-- ===== src/Tests/Queries.antt =====
-- Listings, distributions and slugs of the sample database.
use mathlib.Core.List.Permᴰ
use ctf_koth_evals_template.Prelude.{◌≡◌, ltb, ◌+◌, refl, some, List, map, tally}
use ctf_koth_evals_template.Go.Int.{pos, equals}
use ctf_koth_evals_template.Go.Text.{codes, atoi}
use ctf_koth_evals_template.Ent.Schema.{Suite, Submission}
use ctf_koth_evals_template.Ent.Store.{ok, only}
use ctf_koth_evals_template.Wireapi.{SubmissionDistribution, QueueStatus}
use ctf_koth_evals_template.Server.Response.{Body, write_json}
use ctf_koth_evals_template.Server.Action.{reliable, serve}
use ctf_koth_evals_template.Server.Submit.{submission_summary}
use ctf_koth_evals_template.Server.Listings.{list_submissions}
use ctf_koth_evals_template.Server.Listings.Tallies.{tallies, list_submissions-tallies}
use ctf_koth_evals_template.Server.Slug.{slug, lower, dashed}
use ctf_koth_evals_template.Server.Slug.Shape.{IsSlug, slug-IsSlug}
use ctf_koth_evals_template.Server.Analytics.{get_distributions}
use ctf_koth_evals_template.Server.Analytics.Distributions.{
  Distributed, distributions_are_own_scores,
}
use ctf_koth_evals_template.Server.Queue.{get_queue}
use ctf_koth_evals_template.Server.Queue.Means.{is_open}
use ctf_koth_evals_template.Server.Queue.Backlog.{backlog, get_queue-backlog}
use ctf_koth_evals_template.Tests.Fixtures.{world, db, suite}
use ctf_koth_evals_template.Tests.Values.{flat, in_order}

list_submissions-tallies_example :
    (serve (list_submissions (λ ss. ss) (λ cs. cs)) (reliable world)).0
    ≡ write_json 200 (
        Body.submissions (
          map
            (λ (s : Submission). record (submission_summary s) { runs = tallies s.id db.runs })
            db.submissions))
list_submissions-tallies_example =
    list_submissions-tallies (λ cs. cs) (λ cs. Permᴰ.refl cs) (λ ss. ss) world

slugged : slug "  Qualifier #2!" ≡ codes "qualifier-2"
unfolding slug lower dashed
slugged = refl

slug-IsSlug_example : IsSlug (slug "  Qualifier #2!")
slug-IsSlug_example = slug-IsSlug "  Qualifier #2!"

text_one : atoi (codes "1") ≡ some (pos 1)
unfolding atoi
text_one = refl

stored : only (λ (s : Suite). equals (pos 1) s.id) db.suites ≡ ok suite
unfolding only equals
stored = refl

distributions_are_own_scores_example :
    (ds : List SubmissionDistribution) × ((serve
        (get_distributions flat (λ ds. ds) (λ less ds. ds) in_order "1")
        (reliable world)).0
      ≡ write_json 200 (Body.distributions ds))
    × Distributed db 1 ds
distributions_are_own_scores_example =
    distributions_are_own_scores flat (λ ds. ds) (λ less ds. ds) (λ ds. Permᴰ.refl ds)
      (λ less ds. Permᴰ.refl ds) in_order "1" (pos 1) suite world text_one stored

get_queue-backlog_example :
    (q : QueueStatus) × ((serve (get_queue flat 30 40 41 42) (reliable world)).0
      ≡ write_json 200 (Body.queue q))
    × (q.pending_total ≡ tally (λ r. is_open r.status) db.runs)
    × (q.active_workers ≡ tally (λ v. ltb 42 (v.last_seen + 30)) db.workers)
    × (q.by_suite ≡ backlog flat db db.suites)
get_queue-backlog_example = get_queue-backlog flat 30 40 41 42 world

three_wait : tally (λ r. is_open r.status) db.runs ≡ 3
three_wait = refl
