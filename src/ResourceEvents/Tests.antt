-- ===== src/ResourceEvents/Tests.antt =====
-- The formatter on concrete events.
use embervm.Prelude.{ℕ, String, if◌then◌else◌, ◌==◌, none, some, List, [], ◌∷◌, ◌≡◌, refl}
use embervm.ResourceEvents.{
  ResourceEventDetail, describe_resource_event, describe_resize, pair_text, moved_text,
}

abbrev english : String → String → String
english en zh = en

abbrev mib : ℕ → List String
mib n = (if n == 512 then "512 MiB" else "1 GiB") ∷ []

abbrev cpus : ℕ → List String
cpus n = "vCPU" ∷ []

abbrev growth : ResourceEventDetail
growth = record {
  kind = some "resize";
  actor = some "autoscale";
  reason = some "pressure";
  memory_mib = some (512, 1024);
  vcpus = none;
  from_node = none;
  to_node = none;
  psi_mem = none;
  avail_pct = none;
  enabled = none;
}

text-growth :
    (describe_resource_event mib cpus english growth).text
    ≡ "Grew" ∷ " " ∷ "512 MiB" ∷ " → " ∷ "1 GiB" ∷ []
unfolding describe_resource_event describe_resize pair_text moved_text
text-growth = refl
