-- ===== src/Api/Samples.antt =====
-- A sandbox that the tests of several pages use.
use embervm.Prelude.{ℕ, true, none, some}
use embervm.Term.{running}
use embervm.Api.{Sandbox}

-- Elastic, between 512 MiB and 2 GiB, and 1 and 4 vCPUs.
abbrev pub elastic : ℕ → Sandbox
elastic memory_mib = record {
  id = "sb1";
  template_id = "t1";
  state = running;
  vcpus = 1;
  memory_mib = memory_mib;
  data_disk_gib = 15;
  netns = none;
  owner = none;
  failure = none;
  created_at = "";
  updated_at = "";
  paused_at = none;
  node_id = none;
  parent_id = none;
  forked_from = none;
  max_memory_mib = some 2048;
  max_vcpus = some 4;
  base_memory_mib = some 512;
  base_vcpus = some 1;
  autoscale = some true;
}
