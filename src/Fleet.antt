-- ===== src/Fleet.antt =====
-- The list of sandboxes, web/src/pages/Sandboxes.tsx: its filter, its order and the chips with their
-- counts. `time` is the time that `Date` reads from a text, `lower` a text in lower case, as code units,
-- and `q` the trimmed query in lower case.
pub mod Order
pub mod Described
pub mod Ranked
pub mod Chips
pub mod Tests
use embervm.Prelude.{
  ℕ, suc, ◌+◌, ◌*◌, String, Bool, true, false, not, ◌&&◌, ◌||◌, Option, none, some, List, [], ◌∷◌,
  Text, ltb, leb, ◌==◌, if◌then◌else◌, keep, length, sort, has_prefix, str_eq, is_some,
}
use embervm.Term.{
  SandboxState, pending, starting, running, pausing, paused_hot, paused_warm, archived_cold,
  resuming, stopping, stopped, recycled, failed,
}
use embervm.Lifecycle.{state_eq}
use embervm.Api.{Sandbox}

pub data SortKey : Type 0 where
  by_state by_memory by_age by_headroom : SortKey

-- `dir`: 1 and -1.
pub data Dir : Type 0 where
  ascending descending : Dir

pub record SortState : Type 0 where
  pub key : SortKey
  pub dir : Dir

pub data Filter : Type 0 where
  all autoscale : Filter
  in_state : SandboxState → Filter

abbrev pub state_ranks : List SandboxState
state_ranks =
    running ∷ starting ∷ resuming ∷ pending ∷ pausing ∷ paused_hot ∷ paused_warm ∷ archived_cold
    ∷ stopping ∷ stopped ∷ recycled ∷ failed ∷ []

-- `STATE_RANK.indexOf(s)`, of a state that is in the list.
abbrev pub index_of : List SandboxState → SandboxState → ℕ
index_of [] s = 0
index_of (t ∷ ts) s = if state_eq t s then 0 else suc (index_of ts s)

abbrev pub or_zero : Option ℕ → ℕ
or_zero none = 0
or_zero (some n) = n

-- `headroom`, as a quotient.
unfoldable pub headroom : Sandbox → ℕ × ℕ
headroom sb =
    let max = or_zero sb.max_memory_mib in if ltb 0 max then (sb.memory_mib, max) else (1, 1)

abbrev pub is_autoscaled : Sandbox → Bool
is_autoscaled sb = elim sb.autoscale [ none ↦ false | some b ↦ b ]

-- `s.includes(q)`
unfoldable pub includes : Text → Text → Bool
includes q [] = has_prefix q []
includes q (c ∷ s) = has_prefix q (c ∷ s) || includes q s

abbrev pub node_of : Sandbox → String
node_of sb = elim sb.node_id [ none ↦ "" | some id ↦ id ]

abbrev is_empty : Text → Bool
is_empty [] = true
is_empty (c ∷ s) = false

abbrev passes : Filter → Sandbox → Bool
passes all sb = true
passes autoscale sb = is_autoscaled sb
passes (in_state s) sb = state_eq sb.state s

module _ (lower : String → Text) where
  -- The callback of `all.filter`.
  unfoldable pub matches : Text → Filter → Sandbox → Bool
  unfolding includes
  matches q filter sb =
      if not (passes filter sb)
      then false
      else if is_empty q
      then true
      else includes q (lower sb.id)
        || includes q (lower sb.template_id)
        || includes q (lower (node_of sb))

module _ (time : String → ℕ) where
  -- Whether `c` is not positive, for the comparison of the key alone.
  unfoldable pub le_key : SortKey → Sandbox → Sandbox → Bool
  unfolding headroom
  le_key by_state a b = leb (index_of state_ranks a.state) (index_of state_ranks b.state)
  le_key by_memory a b = leb a.memory_mib b.memory_mib
  le_key by_headroom a b = leb ((headroom b).0 * (headroom a).1) ((headroom a).0 * (headroom b).1)
  le_key by_age a b = leb (time a.created_at) (time b.created_at)

  -- Whether `c * sort.dir` is not positive.
  unfoldable pub le_in : Dir → SortKey → Sandbox → Sandbox → Bool
  unfolding le_key
  le_in ascending key a b = le_key key a b
  le_in descending key a b = le_key key b a

  abbrev pub le : SortState → Sandbox → Sandbox → Bool
  le s a b = le_in s.dir s.key a b

  unfoldable pub rows : (String → Text) → List Sandbox → Text → Filter → SortState → List Sandbox
  unfolding matches
  rows lower sandboxes q filter s = sort (le s) (keep (matches lower q filter) sandboxes)

abbrev same_key : SortKey → SortKey → Bool
same_key by_state by_state = true
same_key by_memory by_memory = true
same_key by_age by_age = true
same_key by_headroom by_headroom = true
same_key _ _ = false

abbrev flip : Dir → Dir
flip ascending = descending
flip descending = ascending

unfoldable pub toggle_sort : SortState → SortKey → SortState
toggle_sort s key =
    if same_key s.key key
    then record { key = key; dir = flip s.dir }
    else record { key = key; dir = ascending }

-- `counts`: one round of the loop for each sandbox.
abbrev pub count_one : (SandboxState → ℕ) → SandboxState → SandboxState → ℕ
count_one m s t = if state_eq s t then suc (m s) else m t

unfoldable pub counts_from : (SandboxState → ℕ) → List Sandbox → SandboxState → ℕ
counts_from m [] = m
counts_from m (sb ∷ sbs) = counts_from (count_one m sb.state) sbs

unfoldable pub counts : List Sandbox → SandboxState → ℕ
unfolding counts_from
counts sandboxes = counts_from (λ s. 0) sandboxes

unfoldable pub autoscale_count : List Sandbox → ℕ
autoscale_count sandboxes = length (keep is_autoscaled sandboxes)

-- The chips of states; the chip All goes before them.
unfoldable pub chips : List Sandbox → List SandboxState
unfolding counts
chips sandboxes = keep (λ s. ltb 0 (counts sandboxes s)) state_ranks

-- The click on the chip of autoscaling.
abbrev pub toggle_autoscale : Filter → Filter
toggle_autoscale autoscale = all
toggle_autoscale _ = autoscale
