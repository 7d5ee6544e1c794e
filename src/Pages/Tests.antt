-- ===== src/Pages/Tests.antt =====
-- The fleet pages on concrete data.
use embervm.Prelude.{ℕ, String, true, none, some, List, [], ◌∷◌, map, ◌≡◌, refl, get, put, sort}
use embervm.Term.{running, paused_hot}
use embervm.Api.{Sandbox}
use embervm.Api.Samples.{elastic}
use embervm.Fleet.{counts, counts_from}
use embervm.Pages.Storage.{StorageReport, stored, add_stored, by_tier, rows, le, toggle}
use embervm.Pages.Nodes.{NodeView, node_memory_bar, oversell}
use embervm.Pages.Templates.{
  Template, building, named, imaged, submitted, built, asked, confirmed, declined, initial, run,
  step, submit, confirm,
}
use embervm.Pages.Bars.{oversell_bar}

abbrev report : String → String → ℕ → StorageReport
report id tier stored_bytes = record {
  sandbox_id = id;
  tier = tier;
  logical_bytes = 100;
  stored_bytes = stored_bytes;
  stored_ratio = stored_bytes;
}

abbrev reports : List StorageReport
reports =
    report "a" "hot" 30 ∷ report "b" "cold" 50 ∷ report "c" "hot" 20 ∷ report "d" "none" 0 ∷ []

tiers : by_tier reports ≡ ("hot", 50) ∷ ("cold", 50) ∷ []
unfolding by_tier add_stored get put
tiers = refl

largest_first :
    map (λ (r : StorageReport). r.sandbox_id) (rows true stored reports)
    ≡ "b" ∷ "a" ∷ "c" ∷ "d" ∷ []
unfolding rows le sort
largest_first = refl

toggled : toggle (toggle (true, stored) stored) stored ≡ (true, stored)
unfolding toggle
toggled = refl

abbrev node : String → NodeView
node id = record {
  id = id;
  up = true;
  capacity_mib = 8192;
  cpu_cores = some 8;
  used_mib = 1024;
  used_vcpus = 2;
  active_sandboxes = 1;
  base_mib = some 512;
  base_vcpus = none;
  ceiling_mib = some 16384;
  ceiling_vcpus = none;
  mem_budget_mib = some 12288;
  vcpu_budget = none;
}

over_budget : node_memory_bar (node "n") ≡ oversell (oversell_bar 512 1024 16384 8192 12288)
unfolding node_memory_bar
over_budget = refl

marked : (oversell_bar 512 1024 16384 8192 12288).over_budget ≡ true
unfolding oversell_bar
marked = refl

abbrev alpine : Template
alpine = record { id = "t1"; name = "web"; image = "alpine:3.20"; state = building }

-- Texts without surrounding spaces.
abbrev trim : String → String
trim s = s

one_build_one_delete :
    let page = run trim initial (
      submitted
      ∷ named "web"
      ∷ imaged "alpine:3.20"
      ∷ submitted
      ∷ built
      ∷ asked alpine
      ∷ declined
      ∷ confirmed
      ∷ asked alpine
      ∷ confirmed
      ∷ []) in
    (page.builds ≡ ("web", "alpine:3.20") ∷ []) × (page.deletes ≡ "t1" ∷ [])
unfolding run step submit confirm
one_build_one_delete = (refl, refl)

abbrev fleet : List Sandbox
fleet = elastic 512 ∷ record (elastic 512) { state = paused_hot } ∷ elastic 1024 ∷ []

still-two : counts fleet running ≡ 2
unfolding counts counts_from
still-two = refl
