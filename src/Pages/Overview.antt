-- ===== src/Pages/Overview.antt =====
-- The fleet on the overview, web/src/pages/Overview.tsx: the legend with its counts, the filter and the
-- grid of sandboxes.
use embervm.Prelude.{
  Bool, true, false, Option, none, some, List, [], ◌∷◌, keep, length, if◌then◌else◌, ◌≡◌, refl, ap,
  fun_ext, arith, ◌∙◌, ◌==◌, ==_iff,
}
use embervm.Term.{SandboxState, running, paused_hot, paused_warm, archived_cold, recycled, failed}
use embervm.Lifecycle.{state_eq, agree}
use embervm.Api.{Sandbox}
use embervm.Fleet.{counts}
use embervm.Fleet.Chips.{sum, sum-add, sum-zero, one_at, in_list, in_list-cons, counts-list}

-- `LEGEND`
abbrev pub legend : List SandboxState
legend = running ∷ paused_hot ∷ paused_warm ∷ archived_cold ∷ recycled ∷ failed ∷ []

-- The click on an entry of the legend, and on `all`.
unfoldable pub press_legend : Option SandboxState → SandboxState → Option SandboxState
press_legend none s = some s
press_legend (some f) s = if state_eq f s then none else some s

unfoldable pub press_all : Option SandboxState → Option SandboxState
press_all filter = none

-- `shown`
unfoldable pub shown : List Sandbox → Option SandboxState → List Sandbox
shown sandboxes none = sandboxes
shown sandboxes (some s) = keep (λ (sb : Sandbox). state_eq sb.state s) sandboxes

-- `FleetGrid`: the invitation to create a sandbox, the note that none is in the state, or the links.
pub data Grid : Type 0 where
  no_sandboxes : Grid
  none_in : Option SandboxState → Grid
  links : List Sandbox → Grid

abbrev is_empty : List Sandbox → Bool
is_empty [] = true
is_empty (sb ∷ sbs) = false

unfoldable pub fleet_grid : List Sandbox → Option SandboxState → Grid
unfolding shown
fleet_grid sandboxes filter =
    if is_empty sandboxes
    then no_sandboxes
    else if is_empty (shown sandboxes filter)
    then none_in filter
    else links (shown sandboxes filter)

abbrev is_one_of : List SandboxState → SandboxState → Bool
is_one_of [] s = false
is_one_of (t ∷ ts) s = if state_eq s t then true else is_one_of ts s

abbrev pub in_legend : SandboxState → Bool
in_legend s = is_one_of legend s

-- A state of the legend is listed there once.
listed_once : (s : SandboxState) → sum (one_at s) legend ≡ (if in_legend s then 1 else 0)
listed_once s =
    (==_iff _ _).0
      (agree (λ s. sum (one_at s) legend == (if in_legend s then 1 else 0)) (λ s. true) refl s)

sum-in_list :
    (sbs : List Sandbox)
    → sum (in_list sbs) legend ≡ length (keep (λ (sb : Sandbox). in_legend sb.state) sbs)
sum-in_list [] = sum-zero legend
sum-in_list (sb ∷ sbs) = ground (
  arith,
  sum-add (in_list (sb ∷ sbs)) (one_at sb.state) (in_list sbs) (in_list-cons sb sbs) legend,
  listed_once sb.state,
  sum-in_list sbs,
)

-- The number at an entry of the legend is how many links its filter leaves, and the numbers add up to how
-- many sandboxes are in one of the legend's states.
pub counts-shown :
    (sandboxes : List Sandbox) (s : SandboxState)
    → (counts sandboxes s ≡ length (shown sandboxes (some s)))
      × (sum (counts sandboxes) legend
          ≡ length (keep (λ (sb : Sandbox). in_legend sb.state) sandboxes))
unfolding shown
counts-shown sandboxes s = (
  counts-list sandboxes s,
  ap (λ f. sum f legend) (fun_ext (counts-list sandboxes)) ∙ sum-in_list sandboxes,
)
