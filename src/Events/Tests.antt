-- ===== src/Events/Tests.antt =====
-- The lists of events on concrete events.
use embervm.Prelude.{
  ℕ, String, Option, none, some, List, [], ◌∷◌, get, sort, str_eq, if◌then◌else◌, ◌≡◌, refl,
}
use embervm.Term.{running}
use embervm.ResourceEvents.{ResourceEventDetail, parse_resource_event, parse_kind, is_resource_kind}
use embervm.Events.{
  SandboxEvent, Checkpoint, checkpoint, event, items, newer, last_scale, is_resource, feed,
  lifecycle,
}
use embervm.Events.LastScale.{get-last_scale}

abbrev grown : ResourceEventDetail
grown = record {
  kind = some "resize";
  actor = some "autoscale";
  reason = none;
  memory_mib = some (512, 1024);
  vcpus = none;
  from_node = none;
  to_node = none;
  psi_mem = none;
  avail_pct = none;
  enabled = none;
}

abbrev event_at : ℕ → String → Option ResourceEventDetail → SandboxEvent
event_at id at detail = record {
  id = id;
  sandbox_id = "sb1";
  from_state = "";
  to_state = running;
  at = at;
  detail = detail;
  note = none;
}

abbrev history : List SandboxEvent
history = event_at 3 "b" none ∷ event_at 2 "a" (some grown) ∷ event_at 1 "a" (some grown) ∷ []

abbrev anchor : Checkpoint
anchor = record { tag = "cp1"; layer = "p1"; seq = 1; created_at = "a" }

abbrev time : String → ℕ
time at = if str_eq at "b" then 1 else 0

checkpoint_first :
    items time (anchor ∷ []) history
    ≡ event (event_at 3 "b" none)
      ∷ checkpoint anchor
      ∷ event (event_at 2 "a" (some grown))
      ∷ event (event_at 1 "a" (some grown))
      ∷ []
unfolding items newer sort
checkpoint_first = refl

lifecycle_only : feed lifecycle history ≡ event_at 3 "b" none ∷ []
unfolding feed is_resource parse_resource_event parse_kind is_resource_kind
lifecycle_only = refl

get-last_scale_example : get "sb1" (last_scale history) ≡ some (event_at 2 "a" (some grown))
unfolding is_resource parse_resource_event parse_kind is_resource_kind
get-last_scale_example = get-last_scale history "sb1"
