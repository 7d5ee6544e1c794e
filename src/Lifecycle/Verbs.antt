-- ===== src/Lifecycle/Verbs.antt =====
-- Which states the verbs of pkg/controlplane/server.go accept: the guards of its handlers and, where the
-- handler leaves it to the node, the step of the machine in pkg/nodeagent/agent_linux.go that the verb
-- begins with. The node's machine is taken to be in the row's state.
use embervm.Prelude.{Bool, true, some, ◌==◌, ◌&&◌, ◌||◌}
use embervm.Term.{SandboxState, running, paused_hot, recycled, pausing}
use embervm.Lifecycle.{state_eq, to_state}
use embervm.Lifecycle.Writes.{Answers, Outcome, resume_sandbox, rollback_sandbox, migrate_sandbox}

pub data Verb : Type 0 where
  pause resume snapshot checkpoint fork fork_checkpoint migrate rollback resize : Verb
  restore_artifacts exec set_autoscale : Verb

-- Every call succeeds, and the agent brings the sandbox up.
abbrev granted : Answers
granted = record {
  admitted = true;
  known = true;
  claimed = true;
  placed = true;
  moved = true;
  acted = some running;
  recorded = true;
  noted = true;
  paused = true;
  pause_recorded = true;
  warm_claimed = true;
  released = true;
  target_known = true;
  resume_claimed = true;
}

abbrev ok : Outcome → Bool
ok r = r.0 == 200

-- `PauseSandbox` of the agent, with which `SnapshotSandbox` begins too.
unfoldable pub can_pause : SandboxState → Bool
unfolding to_state
can_pause s = (to_state s pausing).0

-- The guard of `forkSandbox`.
unfoldable pub hot_parent : SandboxState → Bool
hot_parent s = state_eq s running || state_eq s paused_hot

-- Neither `execSandbox` without a checkpoint nor `setAutoscale` looks at the state.
unfoldable pub accepts : Verb → SandboxState → Bool
unfolding can_pause hot_parent resume_sandbox rollback_sandbox migrate_sandbox
accepts pause s = can_pause s
accepts resume s = ok (resume_sandbox s granted)
accepts snapshot s = can_pause s
accepts checkpoint s = can_pause s
accepts fork s = hot_parent s && can_pause s
accepts fork_checkpoint s = hot_parent s
accepts migrate s = ok (migrate_sandbox s granted)
accepts rollback s = ok (rollback_sandbox s granted)
accepts resize s = state_eq s running
accepts restore_artifacts s = state_eq s recycled
accepts exec s = true
accepts set_autoscale s = true
