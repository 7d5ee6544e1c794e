-- ===== src/Health/Tests.antt =====
-- The health store on concrete runs.
use embervm.Prelude.{
  ℕ, Option, none, some, List, [], ◌∷◌, ◌++◌, get, put, last_n, get_last?, ◌≡◌, refl,
}
use embervm.Health.{
  HealthSample, capacity, subscribed, answered, step, run, loaded, answer, blank, health_of,
}
use embervm.Health.Ring.{answers, reports, is_failure, snapshot-answers}

abbrev sample : ℕ → Option (HealthSample ℕ)
sample n = some (record { at = n; health = n })

abbrev polls : List (Option (HealthSample ℕ))
polls = sample 1 ∷ none ∷ sample 2 ∷ []

snapshot-answers_example :
    ((answer none (answers blank polls)).snapshot.samples
      ≡ last_n capacity (reports (polls ++ none ∷ [])))
    × ((answer none (answers blank polls)).snapshot.latest
        ≡ get_last? (last_n capacity (reports (polls ++ none ∷ []))))
    × ((answer none (answers blank polls)).snapshot.unreachable ≡ is_failure {H = ℕ} none)
snapshot-answers_example = snapshot-answers polls none

shared_feed :
    (health_of
      (run (loaded {H = ℕ}) (subscribed "a" 1 ∷ subscribed "a" 2 ∷ answered 0 (sample 7) ∷ []))
      "a").latest
    ≡ sample 7
unfolding step health_of get put
shared_feed = refl
