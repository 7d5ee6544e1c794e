-- ===== src/Workspace/Tests.antt =====
-- The workspace and the palette on concrete states.
use embervm.Workspace.TimeTravel.{
  Event, rollback_asked, rollback_closed, rollback_confirmed, mount, run, step,
}
use embervm.Workspace.TimeTravel.Rollbacks.{IsSublist, rollbacks, rollbacks-run-mount}
use embervm.Workspace.Composer.{submit, trim, split}
use embervm.Workspace.Composer.Join.{join, submit-join}
use embervm.Prelude.{
  Bool, ◌==◌, String, ℕ, true, false, none, some, List, [], ◌∷◌, codes, text_eq, ◌≡◌, refl,
}
use embervm.Term.{running}
use embervm.Api.Samples.{elastic}
use embervm.Api.Polling.{wire}
use embervm.Actions.{is_running, movable}
use embervm.Workspace.{tab_of, value, files, health_pill, level, transit, Confirm, ask, confirm}
use embervm.Pages.Nodes.{NodeView}
use embervm.Workspace.Placement.{option_values, candidates}
use embervm.Workspace.Palette.{
  items, actions, current, current_elastic, pause, resume, snapshot, set_autoscale, send, go,
  resize_this, terminal, settings, overview, sandboxes, nodes, templates, storage, create,
  keyboard_shortcuts, workspace,
}

deep_link : tab_of (some (codes "files/etc")) ≡ files
unfolding tab_of value text_eq
deep_link = refl

low_memory :
    health_pill running false (
      some (record {
        ok = true;
        mem_total_kib = some 1000;
        mem_available_kib = some 150;
        psi_mem_some10 = some 30;
        psi_cpu_some10 = none;
        seq = none;
        resumes = none;
      }))
    ≡ level transit
unfolding health_pill is_running wire text_eq
low_memory = refl

abbrev asked : Confirm ℕ
asked = ask (record { pending = none; calls = [] }) 7

runs_once : (confirm (confirm asked)).calls ≡ 7 ∷ []
unfolding ask confirm
runs_once = refl

for_the_workspace :
    actions (elastic 512 ∷ []) (some "sb1")
    ≡ send (pause "sb1")
      ∷ send (resume "sb1")
      ∷ send (snapshot "sb1")
      ∷ go (terminal "sb1")
      ∷ resize_this "sb1"
      ∷ send (set_autoscale "sb1" false)
      ∷ go (settings "sb1")
      ∷ []
unfolding actions current current_elastic
for_the_workspace = refl

no_actions :
    items none (elastic 512 ∷ [])
    ≡ go overview
      ∷ go sandboxes
      ∷ go nodes
      ∷ go templates
      ∷ go storage
      ∷ create
      ∷ keyboard_shortcuts
      ∷ go (workspace "sb1")
      ∷ []
unfolding items actions
no_actions = refl

abbrev node : String → NodeView
node id = record {
  id = id;
  up = true;
  capacity_mib = 8192;
  cpu_cores = some 8;
  used_mib = 1024;
  used_vcpus = 2;
  active_sandboxes = 1;
  base_mib = none;
  base_vcpus = none;
  ceiling_mib = none;
  ceiling_vcpus = none;
  mem_budget_mib = none;
  vcpu_budget = none;
}

two_options : option_values (node "n1" ∷ node "n2" ∷ []) (some "n1") ≡ "" ∷ "n2" ∷ []
unfolding option_values candidates
two_options = refl

elastic-movable : movable (elastic 512).state ≡ true
unfolding movable is_running wire text_eq
elastic-movable = refl

abbrev is_blank : ℕ → Bool
is_blank c = c == 32

sent_words :
    submit is_blank (codes "  python3 train.py   --step 7 ") true
    ≡ some (codes "python3" ∷ codes "train.py" ∷ codes "--step" ∷ codes "7" ∷ [])
unfolding submit trim split
sent_words = refl

nothing_sent : submit is_blank (codes "   ") true ≡ none
unfolding submit trim
nothing_sent = refl

submit-join_example :
    submit is_blank (join is_blank 32 (codes "ls" ∷ codes "-l" ∷ [])) true
    ≡ some (codes "ls" ∷ codes "-l" ∷ [])
submit-join_example = submit-join is_blank 32 (codes "ls") (codes "-l" ∷ []) refl (refl, (refl, tt))

-- The dialog is closed for the checkpoint b and confirmed for c.
abbrev second_thoughts : List (Event ℕ)
second_thoughts =
    rollback_asked (codes "b")
    ∷ rollback_closed
    ∷ rollback_asked (codes "c")
    ∷ rollback_confirmed
    ∷ []

rollbacks-run-mount_example :
    IsSublist
      (rollbacks (run (λ c. c == b' ') (λ r. none) (mount true) second_thoughts).effects)
      (codes "c" ∷ codes "b" ∷ [])
rollbacks-run-mount_example = rollbacks-run-mount (λ c. c == b' ') (λ r. none) true second_thoughts

rolled-back_to :
    rollbacks (run (λ c. c == b' ') (λ r. none) (mount true) second_thoughts).effects
    ≡ codes "c" ∷ []
unfolding run step
rolled-back_to = refl
