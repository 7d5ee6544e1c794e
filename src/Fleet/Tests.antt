-- ===== src/Fleet/Tests.antt =====
-- The list of sandboxes on concrete sandboxes.
use embervm.Prelude.{
  ℕ, String, Bool, List, [], ◌∷◌, codes, keep, length, ◌≤◌, ◌↔◌, ◌≡◌, refl, map, sort,
}
use embervm.Term.{SandboxState, running, paused_hot}
use embervm.Api.{Sandbox}
use embervm.Api.Samples.{elastic}
use embervm.Fleet.{
  SortState, by_headroom, ascending, descending, in_state, all, autoscale, rows, matches, le_key,
  le_in, counts, chips, autoscale_count, toggle_sort, headroom, includes,
}
use embervm.Fleet.Described.{IsOrdered, PrecedesIn, IsIn, IsPassing, IsFound}
use embervm.Fleet.Ranked.{rows-IsOrdered}
use embervm.Fleet.Chips.{chips-rows, sum}

abbrev fleet : List Sandbox
fleet =
    elastic 512
    ∷ record (elastic 2048) { id = "sb2"; state = paused_hot }
    ∷ record (elastic 1024) { id = "sb3" }
    ∷ []

abbrev fullest : SortState
fullest = record { key = by_headroom; dir = ascending }

-- Every text was created at once.
abbrev time : String → ℕ
time at = 0

fullest_first :
    map (λ sb. sb.memory_mib) (rows time codes fleet [] all fullest) ≡ 2048 ∷ 1024 ∷ 512 ∷ []
unfolding rows matches le_in le_key headroom sort
fullest_first = refl

by_id : map (λ sb. sb.memory_mib) (rows time codes fleet (codes "b3") all fullest) ≡ 1024 ∷ []
unfolding rows matches includes le_in le_key headroom sort
by_id = refl

toggled : (toggle_sort fullest by_headroom).dir ≡ descending
unfolding toggle_sort
toggled = refl

rows-IsOrdered_example :
    let shown = rows time codes fleet [] (in_state running) fullest in
    IsOrdered (PrecedesIn time ascending by_headroom) shown
    × ((sb : Sandbox)
        → IsIn sb shown ↔ (IsIn sb fleet × (IsPassing (in_state running) sb × IsFound codes [] sb)))
    × ((p : Sandbox → Bool) → length (keep p shown) ≤ length (keep p fleet))
rows-IsOrdered_example = rows-IsOrdered time codes fleet [] (in_state running) fullest

chips-rows_example :
    ((t : SandboxState) → counts fleet t ≡ length (rows time codes fleet [] (in_state t) fullest))
    × (autoscale_count fleet ≡ length (rows time codes fleet [] autoscale fullest))
    × (sum (counts fleet) (chips fleet) ≡ 3)
chips-rows_example = chips-rows time codes fleet fullest
