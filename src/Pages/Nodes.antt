-- ===== src/Pages/Nodes.antt =====
-- The nodes, web/src/pages/Nodes.tsx: the bars of a node, the node that is opened and its sandboxes; and
-- the totals of the nodes that web/src/pages/Overview.tsx shows.
use embervm.Prelude.{
  ℕ, ◌+◌, ltb, String, Bool, Option, none, some, List, [], ◌∷◌, map, keep, find, length, str_eq,
  if◌then◌else◌, ◌≡◌, refl, ◌∙◌, arith, weight_in, weight_among, sum_over, is_among, Distinct,
  sum_over-weight_in,
}
use embervm.Api.{Sandbox}
use embervm.Pages.Bars.{CapacityBar, OversellBar, capacity_bar, oversell_bar}

pub record NodeView : Type 0 where
  pub id : String
  pub up : Bool
  pub capacity_mib : ℕ
  pub cpu_cores : Option ℕ
  pub used_mib : ℕ
  pub used_vcpus : ℕ
  pub active_sandboxes : ℕ
  pub base_mib : Option ℕ
  pub base_vcpus : Option ℕ
  pub ceiling_mib : Option ℕ
  pub ceiling_vcpus : Option ℕ
  pub mem_budget_mib : Option ℕ
  pub vcpu_budget : Option ℕ

pub data Bar : Type 0 where
  plain : CapacityBar → Bar
  oversell : OversellBar → Bar

-- `x ?? 0`
abbrev or_zero : Option ℕ → ℕ
or_zero none = 0
or_zero (some n) = n

-- The choice of a bar by the sums of the bases and of the ceilings.
abbrev bar_of : (base ceiling : Option ℕ) (used capacity budget : ℕ) → Bar
bar_of (some base) (some ceiling) used capacity budget =
    oversell (oversell_bar base used ceiling capacity budget)
bar_of base ceiling used capacity budget = plain (capacity_bar used capacity)

unfoldable pub node_memory_bar : NodeView → Bar
node_memory_bar n =
    bar_of n.base_mib n.ceiling_mib n.used_mib n.capacity_mib (or_zero n.mem_budget_mib)

unfoldable pub node_cpu_bar : NodeView → Bar
node_cpu_bar n =
    bar_of n.base_vcpus n.ceiling_vcpus n.used_vcpus (or_zero n.cpu_cores) (or_zero n.vcpu_budget)

-- The node whose drawer is open.
unfoldable pub opened : List NodeView → Option String → Option NodeView
opened nodes none = none
opened nodes (some id) = find (λ (n : NodeView). str_eq n.id id) nodes

-- `sb.node_id || "local"`
abbrev pub node_of : Sandbox → String
node_of sb = elim sb.node_id [ none ↦ "local" | some id ↦ if str_eq id "" then "local" else id ]

-- `here`
unfoldable pub here : NodeView → List Sandbox → List Sandbox
here n sandboxes = keep (λ sb. str_eq (node_of sb) n.id) sandboxes

abbrev total : (NodeView → ℕ) → List NodeView → ℕ
total f [] = 0
total f (n ∷ ns) = f n + total f ns

-- The totals of the overview.
pub record Totals : Type 0 where
  pub nodes_up : ℕ
  pub cap_total : ℕ
  pub cap_used : ℕ
  pub base_sum : ℕ
  pub ceil_sum : ℕ

unfoldable pub totals : List NodeView → Totals
totals nodes = record {
  nodes_up = length (keep (λ (n : NodeView). n.up) nodes);
  cap_total = total (λ n. n.capacity_mib) nodes;
  cap_used = total (λ n. n.used_mib) nodes;
  base_sum = total (λ n. or_zero n.base_mib) nodes;
  ceil_sum = total (λ n. or_zero n.ceiling_mib) nodes;
}

-- What the card of the memory shows below its value.
pub data Sub : Type 0 where
  base_and_ceiling : ℕ → ℕ → Sub
  of_capacity : ℕ → Sub
  unbounded : Sub

unfoldable pub memory_sub : Totals → Sub
memory_sub s =
    if ltb 0 s.ceil_sum
    then base_and_ceiling s.base_sum s.ceil_sum
    else if ltb 0 s.cap_total
    then of_capacity s.cap_total
    else unbounded

length-here :
    (n : NodeView) (sandboxes : List Sandbox)
    → length (here n sandboxes) ≡ weight_in node_of (λ sb. 1) sandboxes n.id
unfolding here
length-here n [] = refl
length-here n (sb ∷ sandboxes) = ground (arith, length-here n sandboxes)

weight_among-length :
    (ids : List String) (sandboxes : List Sandbox)
    → weight_among node_of (λ sb. 1) ids sandboxes
      ≡ length (keep (λ sb. is_among ids (node_of sb)) sandboxes)
weight_among-length ids [] = refl
weight_among-length ids (sb ∷ sandboxes) = ground (arith, weight_among-length ids sandboxes)

total-here :
    (nodes : List NodeView) (sandboxes : List Sandbox)
    → total (λ n. length (here n sandboxes)) nodes
      ≡ sum_over (weight_in node_of (λ sb. 1) sandboxes) (map (λ (n : NodeView). n.id) nodes)
total-here [] sandboxes = refl
total-here (n ∷ nodes) sandboxes =
    omega (arith, length-here n sandboxes, total-here nodes sandboxes)

-- If the nodes have distinct ids, then their drawers together list each sandbox whose node is registered
-- once, and no other.
pub total-length-here :
    (nodes : List NodeView) (sandboxes : List Sandbox)
    → Distinct (map (λ (n : NodeView). n.id) nodes)
    → total (λ n. length (here n sandboxes)) nodes
      ≡ length (keep (λ sb. is_among (map (λ (n : NodeView). n.id) nodes) (node_of sb)) sandboxes)
total-length-here nodes sandboxes h =
    total-here nodes sandboxes
    ∙ sum_over-weight_in node_of (λ sb. 1) (map (λ (n : NodeView). n.id) nodes) sandboxes h
    ∙ weight_among-length (map (λ (n : NodeView). n.id) nodes) sandboxes
