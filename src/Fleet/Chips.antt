-- ===== src/Fleet/Chips.antt =====
-- The numbers on the chips against the rows that the chips show.
use embervm.Prelude.{
  ℕ, ◌+◌, String, Bool, true, List, [], ◌∷◌, Text, keep, length, length-sort, ltb, ◌≡◌, refl, sym,
  ap, ◌∙◌, arith, fun_ext, if◌then◌else◌, ◌==◌, ==_iff,
}
use embervm.Term.{SandboxState}
use embervm.Lifecycle.{state_eq, agree}
use embervm.Api.{Sandbox}
use embervm.Fleet.{
  SortState, Filter, in_state, autoscale, matches, rows, counts, counts_from, count_one, chips,
  state_ranks, autoscale_count, is_autoscaled, le,
}

abbrev pub sum : (SandboxState → ℕ) → List SandboxState → ℕ
sum f [] = 0
sum f (s ∷ ss) = f s + sum f ss

-- How many sandboxes of the list are in the state.
abbrev pub in_list : List Sandbox → SandboxState → ℕ
in_list sbs t = length (keep (λ sb. state_eq sb.state t) sbs)

counts_from-list :
    (m : SandboxState → ℕ) (sbs : List Sandbox) (t : SandboxState)
    → counts_from m sbs t ≡ m t + in_list sbs t
unfolding counts_from
counts_from-list m [] t = omega arith
counts_from-list m (sb ∷ sbs) t = counts_from-list (count_one m sb.state) sbs t ∙ ground arith

abbrev pub one_at : SandboxState → SandboxState → ℕ
one_at s t = if state_eq s t then 1 else 0

-- A state is listed once in the order of states.
listed_once : (s : SandboxState) → sum (one_at s) state_ranks ≡ 1
listed_once s = (==_iff _ 1).0 (agree (λ s. sum (one_at s) state_ranks == 1) (λ s. true) refl s)

pub in_list-cons :
    (sb : Sandbox) (sbs : List Sandbox) (t : SandboxState)
    → in_list (sb ∷ sbs) t ≡ one_at sb.state t + in_list sbs t
in_list-cons sb sbs t = ground arith

pub sum-zero : (ss : List SandboxState) → sum (λ s. 0) ss ≡ 0
sum-zero [] = refl
sum-zero (s ∷ ss) = omega (arith, sum-zero ss)

pub sum-add :
    (f g h : SandboxState → ℕ)
    → ((s : SandboxState) → f s ≡ g s + h s)
    → (ss : List SandboxState) → sum f ss ≡ sum g ss + sum h ss
sum-add f g h e [] = omega arith
sum-add f g h e (s ∷ ss) = omega (arith, e s, sum-add f g h e ss)

sum-in_list : (sbs : List Sandbox) → sum (in_list sbs) state_ranks ≡ length sbs
sum-in_list [] = sum-zero state_ranks
sum-in_list (sb ∷ sbs) = omega (
  arith,
  sum-add (in_list (sb ∷ sbs)) (one_at sb.state) (in_list sbs) (in_list-cons sb sbs) state_ranks,
  listed_once sb.state,
  sum-in_list sbs,
)

-- Leaving out what counts 0 does not change the sum.
sum-keep :
    (f : SandboxState → ℕ) (ss : List SandboxState) → sum f (keep (λ s. ltb 0 (f s)) ss) ≡ sum f ss
sum-keep f [] = refl
sum-keep f (s ∷ ss) = ground (arith, sum-keep f ss)

pub counts-list : (sbs : List Sandbox) (t : SandboxState) → counts sbs t ≡ in_list sbs t
unfolding counts
counts-list sbs t = omega (arith, counts_from-list (λ s. 0) sbs t)

sum-chips : (sbs : List Sandbox) → sum (counts sbs) (chips sbs) ≡ length sbs
unfolding chips
sum-chips sbs =
    sum-keep (counts sbs) state_ranks
    ∙ ap (λ f. sum f state_ranks) (fun_ext (counts-list sbs))
    ∙ sum-in_list sbs

keep_same :
    (p q : Sandbox → Bool)
    → ((sb : Sandbox) → p sb ≡ q sb)
    → (sbs : List Sandbox) → keep p sbs ≡ keep q sbs
keep_same p q e sbs = ap (λ r. keep r sbs) (fun_ext e)

module _ (time : String → ℕ) (lower : String → Text) where
  length-rows :
      (sandboxes : List Sandbox) (filter : Filter) (s : SortState) (p : Sandbox → Bool)
      → ((sb : Sandbox) → matches lower [] filter sb ≡ p sb)
      → length (rows time lower sandboxes [] filter s) ≡ length (keep p sandboxes)
  unfolding rows
  length-rows sandboxes filter s p e =
      length-sort (le time s) (keep (matches lower [] filter) sandboxes)
      ∙ ap (λ l. length l) (keep_same (matches lower [] filter) p e sandboxes)

  in_state-matches :
      (t : SandboxState) (sb : Sandbox) → matches lower [] (in_state t) sb ≡ state_eq sb.state t
  unfolding matches
  in_state-matches t sb = ground arith

  autoscale-matches : (sb : Sandbox) → matches lower [] autoscale sb ≡ is_autoscaled sb
  unfolding matches
  autoscale-matches sb = ground arith

  -- With an empty query, the chip of a state shows as many rows as the number on it says, the chip of
  -- autoscaling too, and the numbers on the chips of states add up to the number on the chip All.
  pub chips-rows :
      (sandboxes : List Sandbox) (s : SortState)
      → ((t : SandboxState)
          → counts sandboxes t ≡ length (rows time lower sandboxes [] (in_state t) s))
        × (autoscale_count sandboxes ≡ length (rows time lower sandboxes [] autoscale s))
        × (sum (counts sandboxes) (chips sandboxes) ≡ length sandboxes)
  unfolding autoscale_count
  chips-rows sandboxes s = (
    λ t.
        counts-list sandboxes t
        ∙ sym
            (length-rows sandboxes (in_state t) s (λ sb. state_eq sb.state t) (in_state-matches t)),
    sym (length-rows sandboxes autoscale s is_autoscaled autoscale-matches),
    sum-chips sandboxes,
  )
