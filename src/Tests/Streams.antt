-- ===== src/Tests/Streams.antt =====
-- Two streams, one of which does not read.
use ctf_koth_evals_template.Prelude.{◌≡◌, refl, List, [], ◌∷◌, All}
use ctf_koth_evals_template.Server.Hub.{
  Channel, new_hub, subscribe, unsubscribe, delete, offer, broadcast, receive, Change, subscribes,
  unsubscribes, broadcasts, receives, taken, change, change_all,
}
use ctf_koth_evals_template.Server.Hub.Nudges.{Fits, Wakes, keys_of, broadcast-Wakes}

abbrev changes : List Change
changes =
    subscribes
    ∷ subscribes
    ∷ broadcasts "run"
    ∷ receives 0
    ∷ broadcasts "runs"
    ∷ subscribes
    ∷ unsubscribes 2
    ∷ broadcasts "claim"
    ∷ []

buffered :
    (change_all changes new_hub).subs
    ≡ record { key = 0; buffer = "runs" ∷ "claim" ∷ [] }
      ∷ record { key = 1; buffer = "run" ∷ "runs" ∷ "claim" ∷ [] }
      ∷ []
unfolding change_all change subscribe unsubscribe delete broadcast offer taken receive new_hub
buffered = refl

broadcast-Wakes_example :
    (keys_of (broadcast "run" (change_all changes new_hub)).subs
      ≡ keys_of (change_all changes new_hub).subs)
    × All (λ (c : Channel). Fits c × Wakes c) (broadcast "run" (change_all changes new_hub)).subs
broadcast-Wakes_example = broadcast-Wakes changes "run"
