-- ===== src/Workspace/Placement.antt =====
-- The card Placement of web/src/pages/workspace/SettingsTab.tsx, which migrates a sandbox to a node that is
-- chosen, and how migrateSandbox of pkg/controlplane/server.go picks the target.
use embervm.Prelude.{
  ℕ, leb, String, Bool, true, false, not, ◌&&◌, ◌||◌, Option, none, some, List, [], ◌∷◌, map, keep,
  length, str_eq, str_eq_iff, str_eq_refl, get_or_else, is_among, if◌then◌else◌, Bool-cases, inl,
  inr, ◌⊎◌, ◌≡◌, arith,
}
use embervm.Api.{Sandbox}
use embervm.Actions.{movable}
use embervm.Pages.Nodes.{NodeView}

abbrev is_node : Option String → String → Bool
is_node none id = false
is_node (some here) id = str_eq id here

-- `candidates`
unfoldable pub candidates : List NodeView → Option String → List NodeView
candidates nodes node_id = keep (λ (n : NodeView). n.up && not (is_node node_id n.id)) nodes

-- The values of the select's options: the scheduler's choice, and the candidates.
unfoldable pub option_values : List NodeView → Option String → List String
unfolding candidates
option_values nodes node_id = "" ∷ map (λ (n : NodeView). n.id) (candidates nodes node_id)

-- `target || undefined`
unfoldable pub migrate_body : (target : String) → Option String
migrate_body target = if str_eq target "" then none else some target

abbrev is_empty : List NodeView → Bool
is_empty [] = true
is_empty (n ∷ ns) = false

-- Whether the button Migrate is disabled.
unfoldable pub migrate_disabled : Sandbox → List NodeView → (target : String) → Bool
unfolding candidates movable
migrate_disabled sb nodes target =
    not (movable sb.state)
    || (is_empty (candidates nodes sb.node_id) && (str_eq target "" && leb (length nodes) 1))

pub data Pick : Type 0 where
  picked : String → Pick
  refused : ℕ → Pick

-- The target in `migrateSandbox`, with the scheduler's choice and whether the sandbox fits.
unfoldable pub pick_target :
    (node_id : String) (body : Option String) (placed : Option String) (fits : Bool) → Pick
pick_target node_id body placed fits =
    let target : String = get_or_else body "" in
    if str_eq target ""
    then elim placed [ none ↦ refused 503 | some t ↦ picked t ]
    else if str_eq target node_id
    then refused 409
    else if fits
    then picked target
    else refused 409

is_among-candidates :
    (nodes : List NodeView) (t here : String)
    → is_among (map (λ (n : NodeView). n.id) (candidates nodes (some here))) t ≡ true
    → str_eq t here ≡ false
unfolding candidates
is_among-candidates [] t here h = cc
is_among-candidates (n ∷ nodes) t here h =
    ground (arith, is_among-candidates nodes t here, h, str_eq_iff t n.id)

-- A node that the card offers is not refused for being the one that the sandbox is on.
pub pick_target-option_values :
    (nodes : List NodeView) (t here : String) (placed : Option String)
    → is_among (option_values nodes (some here)) t ≡ true
    → str_eq t "" ≡ false
    → pick_target here (migrate_body t) placed true ≡ picked t
unfolding pick_target migrate_body option_values
pick_target-option_values nodes t here placed h e =
    let away : str_eq t here ≡ false = is_among-candidates nodes t here (ground (arith, h, e)) in
    ground (arith, e, away)

-- When a sandbox has been migrated to the node that was chosen, the card still has that node as its
-- target although none of its options is that node any more; the button Migrate stays enabled where the
-- sandbox can be moved, and pressing it again is refused, whatever the scheduler would have placed.
pub chosen_target_stays :
    (nodes : List NodeView) (sb : Sandbox) (target : String) (placed : Option String) (fits : Bool)
    → str_eq target "" ≡ false
    → movable sb.state ≡ true
    → let moved = record sb { node_id = some target } in
      (is_among (option_values nodes moved.node_id) target ≡ false)
      × (migrate_disabled moved nodes target ≡ false)
      × (pick_target target (migrate_body target) placed fits ≡ refused 409)
unfolding option_values migrate_disabled pick_target migrate_body
chosen_target_stays nodes sb target placed fits e m = (
  gone (
      Bool-cases (is_among (map (λ (n : NodeView). n.id) (candidates nodes (some target))) target)),
  ground (arith, e, m),
  ground (arith, e, str_eq_refl target),
)
  where
    gone :
        (is_among (map (λ (n : NodeView). n.id) (candidates nodes (some target))) target ≡ true)
          ⊎ (is_among (map (λ (n : NodeView). n.id) (candidates nodes (some target))) target
              ≡ false)
        → is_among (option_values nodes (some target)) target ≡ false
    gone (inl h) = absurd (cc (is_among-candidates nodes target target h, str_eq_refl target))
    gone (inr h) = ground (arith, e, h)
