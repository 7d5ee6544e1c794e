-- ===== src/Api.antt =====
-- The console's calls of the control plane, web/src/api: the client, the polling intervals, the
-- optimistic changes of the cached sandboxes and the routes. The wire types are those of
-- web/src/api/types.ts.
pub mod Polling
pub mod Optimistic
pub mod Client
pub mod Calls
pub mod Routes
pub mod Format
pub mod Token
pub mod Samples
pub mod Tests
use embervm.Prelude.{ℕ, ℤ, String, Bool, Option}
use embervm.Term.{SandboxState}

pub record Sandbox : Type 0 where
  pub id : String
  pub template_id : String
  pub state : SandboxState
  pub vcpus : ℕ
  pub memory_mib : ℕ
  pub data_disk_gib : ℕ
  pub netns : Option String
  pub owner : Option String
  pub failure : Option String
  pub created_at : String
  pub updated_at : String
  pub paused_at : Option String
  pub node_id : Option String
  pub parent_id : Option String
  pub forked_from : Option String
  pub max_memory_mib : Option ℕ
  pub max_vcpus : Option ℕ
  pub base_memory_mib : Option ℕ
  pub base_vcpus : Option ℕ
  pub autoscale : Option Bool
