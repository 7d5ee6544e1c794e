-- ===== src/Lifecycle/Writes.antt =====
-- What the handlers of pkg/controlplane/server.go write to the state of a sandbox's row: `resumeSandbox`,
-- `rollbackSandbox`, `migrateSandbox`, `pauseSandbox` and `killSandbox`. The answers of the store, the
-- scheduler and the node agents are given; geometry, metrics and events other than transitions are not.
pub mod Legal
use embervm.Prelude.{
  ℕ, Bool, true, false, not, ◌&&◌, ◌||◌, Option, none, some, List, [], ◌∷◌, ◌++◌, if◌then◌else◌,
}
use embervm.Term.{
  SandboxState, running, pausing, paused_hot, paused_warm, archived_cold, resuming, stopped, failed,
}
use embervm.Lifecycle.{state_eq, validate}

-- A transition that the handler asks the store for, and whether the store carries it out: `guarded` for
-- `TransitionSandbox`, which compares the row's state with `from`, and not for `SetSandboxState`.
pub record Write : Type 0 where
  pub guarded : Bool
  pub from : SandboxState
  pub to : SandboxState
  pub done : Bool

-- What the calls of a handler answer, each as far as the handler comes to it. `acted` is the state that
-- the agent reports; `noted` is the answer to a write of FAILED, or of the state before, whose error the
-- handlers drop.
pub record Answers : Type 0 where
  pub admitted : Bool
  pub known : Bool
  pub claimed : Bool
  pub placed : Bool
  pub moved : Bool
  pub acted : Option SandboxState
  pub recorded : Bool
  pub noted : Bool
  pub paused : Bool
  pub pause_recorded : Bool
  pub warm_claimed : Bool
  pub released : Bool
  pub target_known : Bool
  pub resume_claimed : Bool

abbrev pub Outcome : Type 0
Outcome = ℕ × List Write

abbrev claim : SandboxState → SandboxState → Bool → Write
claim from to done = record { guarded = true; from = from; to = to; done = done }

abbrev set : SandboxState → SandboxState → Bool → Write
set from to done = record { guarded = false; from = from; to = to; done = done }

abbrev after : List Write → Outcome → Outcome
after ws r = (r.0, ws ++ r.1)

-- `storeStatus`: a guarded write that is not done has lost its race.
abbrev lost : ℕ
lost = 409

abbrev tiered : SandboxState → Bool
tiered s = state_eq s paused_warm || state_eq s archived_cold || state_eq s failed

-- What the agent answers in a resume: a tiered restore first records the node.
abbrev resume_answer : SandboxState → Answers → Option SandboxState
resume_answer s a =
    if not a.known then none else if tiered s then (if a.moved then a.acted else none) else a.acted

-- The end of a resume, with the agent's answer.
abbrev resume_end : Answers → Option SandboxState → Outcome
resume_end a none = (500, set resuming failed a.noted ∷ [])
resume_end a (some t) =
    if a.recorded
    then (200, set resuming t true ∷ [])
    else (500, set resuming t false ∷ set resuming failed a.noted ∷ [])

unfoldable pub resume_sandbox : SandboxState → Answers → Outcome
unfolding validate
resume_sandbox s a =
    if not (validate s resuming)
    then (409, [])
    else if not a.claimed
    then (lost, claim s resuming false ∷ [])
    else if tiered s && not a.placed
    then (503, claim s resuming true ∷ set resuming failed a.noted ∷ [])
    else after (claim s resuming true ∷ []) (resume_end a (resume_answer s a))

abbrev claim_of : SandboxState → SandboxState
claim_of s = if state_eq s paused_hot then resuming else pausing

abbrev rollback_end : Answers → SandboxState → Option SandboxState → Outcome
rollback_end a c none = (500, set c failed a.noted ∷ [])
rollback_end a c (some t) =
    if a.recorded then (200, set c t true ∷ []) else (500, set c t false ∷ [])

-- `admitted` is that the body names a checkpoint, which the store has, and that no live fork is newer.
unfoldable pub rollback_sandbox : SandboxState → Answers → Outcome
unfolding validate
rollback_sandbox s a =
    let c : SandboxState = claim_of s in
    if not a.admitted
    then (409, [])
    else if not (validate s c)
    then (409, [])
    else if not a.claimed
    then (lost, claim s c false ∷ [])
    else after (claim s c true ∷ []) (rollback_end a c (if a.known then a.acted else none))

-- The end of a migration of a running sandbox, which restores it on the target.
abbrev restore_end : Answers → Option SandboxState → Outcome
restore_end a none = (500, set resuming failed a.noted ∷ [])
restore_end a (some t) =
    if a.recorded then (200, set resuming t true ∷ []) else (500, set resuming t false ∷ [])

abbrev restore : Answers → Outcome
restore a =
    if not a.target_known
    then (503, [])
    else if not a.resume_claimed
    then (lost, claim paused_warm resuming false ∷ [])
    else after (claim paused_warm resuming true ∷ []) (restore_end a a.acted)

-- From the release of the local state on; `was_hot` where the sandbox was PAUSED_HOT from the start.
abbrev release : Bool → Answers → Outcome
release was_hot a =
    if not a.warm_claimed
    then (lost, claim paused_hot paused_warm false ∷ [])
    else if not a.released
    then (500, claim paused_hot paused_warm true ∷ set paused_warm failed a.noted ∷ [])
    else if not a.moved
    then (500, claim paused_hot paused_warm true ∷ [])
    else if was_hot
    then (200, claim paused_hot paused_warm true ∷ [])
    else after (claim paused_hot paused_warm true ∷ []) (restore a)

-- `admitted` is that the scheduler has a target, or that the given one is another node with room.
unfoldable pub migrate_sandbox : SandboxState → Answers → Outcome
migrate_sandbox s a =
    if not a.admitted
    then (503, [])
    else if not a.known
    then (503, [])
    else if state_eq s running
    then (if not a.claimed
        then (lost, claim running pausing false ∷ [])
        else if not a.paused
        then (500, claim running pausing true ∷ set pausing running a.noted ∷ [])
        else if not a.pause_recorded
        then (500, claim running pausing true ∷ set pausing paused_hot false ∷ [])
        else after (claim running pausing true ∷ set pausing paused_hot true ∷ [])
            (release false a))
    else if state_eq s paused_hot
    then release true a
    else (409, [])

-- `acted` is none where the agent refuses.
unfoldable pub pause_sandbox : SandboxState → Answers → Outcome
pause_sandbox s a =
    if not a.known
    then (503, [])
    else if not a.paused
    then (500, [])
    else if a.recorded
    then (200, set s paused_hot true ∷ [])
    else (500, set s paused_hot false ∷ [])

-- `admitted` is that the sandbox has no live forks, `released` that the agent stopped it.
unfoldable pub kill_sandbox : SandboxState → Answers → Outcome
kill_sandbox s a =
    if not a.admitted
    then (409, [])
    else if not a.known
    then (503, [])
    else if not a.released
    then (500, [])
    else if a.recorded
    then (204, set s stopped true ∷ [])
    else (500, set s stopped false ∷ [])
