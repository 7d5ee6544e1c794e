-- ===== src/Lifecycle/Writes/Legal.antt =====
-- The writes of the handlers against the legal transitions.
use embervm.Prelude.{
  All, Bool, true, not, ◌&&◌, ◌||◌, Option, none, some, List, [], ◌∷◌, if◌then◌else◌, ◌≡◌, ◌≢◌,
  refl, arith, if-intro, is_true,
}
use embervm.Term.{
  SandboxState, pending, starting, running, pausing, paused_hot, paused_warm, archived_cold,
  resuming, stopping, stopped, recycled, failed,
}
use embervm.Lifecycle.{state_eq, validate, transitions, is_active}
use embervm.Lifecycle.Writes.{
  Write, Answers, Outcome, resume_sandbox, rollback_sandbox, migrate_sandbox, pause_sandbox,
  kill_sandbox, resume_end, resume_answer, tiered,
}

-- Starting from the row's state, every write names the state that the row is in and a legal transition
-- from it; a write that is not done leaves the row as it is.
abbrev pub IsChained : SandboxState → List Write → Type 0
IsChained s [] = Unit
IsChained s (w ∷ ws) =
    (w.from ≡ s) × (validate w.from w.to ≡ true) × IsChained (if w.done then w.to else s) ws

-- The row's state after the writes.
abbrev pub final : SandboxState → List Write → SandboxState
final s [] = s
final s (w ∷ ws) = final (if w.done then w.to else s) ws

abbrev pub IsDone : List Write → Type 0
IsDone ws = All (λ w. w.done ≡ true) ws

-- The state is neither PAUSING nor RESUMING.
abbrev pub isnt_passing : SandboxState → Bool
isnt_passing s = not (state_eq s pausing || state_eq s resuming)

-- The handlers that claim a sandbox before they act on it.
pub data Verb : Type 0 where
  resume rollback migrate : Verb

unfoldable pub handle : Verb → SandboxState → Answers → Outcome
unfolding resume_sandbox rollback_sandbox migrate_sandbox
handle resume s a = resume_sandbox s a
handle rollback s a = rollback_sandbox s a
handle migrate s a = migrate_sandbox s a

-- The state that the agent reports, if it reports one, is RUNNING.
abbrev pub IsRunning : Option SandboxState → Type 0
IsRunning none = Unit
IsRunning (some t) = t ≡ running

module _ (a : Answers) (h : IsRunning a.acted) where
  resume_end-IsChained :
      (o : Option SandboxState) → IsRunning o → IsChained resuming (resume_end a o).1
  unfolding validate transitions is_active
  resume_end-IsChained none k = ground arith
  resume_end-IsChained (some t) k = ground arith

  resume_answer-IsRunning : (s : SandboxState) → IsRunning (resume_answer s a)
  resume_answer-IsRunning s = ground arith

  resume_sandbox-IsChained : (s : SandboxState) → IsChained s (resume_sandbox s a).1
  unfolding resume_sandbox validate transitions is_active
  resume_sandbox-IsChained s =
      if-intro (λ (r : Outcome). IsChained s r.1) (not (validate s resuming)) (λ _. tt)
        λ v.
          if-intro (λ (r : Outcome). IsChained s r.1) (not a.claimed) (λ c. (refl, is_true _ v, tt))
            λ c.
              if-intro (λ (r : Outcome). IsChained s r.1) (tiered s && not a.placed)
                (λ _. (refl, is_true _ v, (refl, refl, tt)))
                (λ _. (
                  refl,
                  is_true _ v,
                  resume_end-IsChained (resume_answer s a) (resume_answer-IsRunning s),
                ))

  migrate_sandbox-IsChained : (s : SandboxState) → IsChained s (migrate_sandbox s a).1
  unfolding migrate_sandbox validate transitions is_active
  migrate_sandbox-IsChained s = ground arith

  rollback_sandbox-IsChained : (s : SandboxState) → IsChained s (rollback_sandbox s a).1
  unfolding rollback_sandbox validate transitions is_active
  rollback_sandbox-IsChained s = ground arith

  -- Whatever the store, the scheduler and the agents answer, resume, rollback and migrate ask the store
  -- for legal transitions only, each from the state in which the writes before have left the row, if an
  -- agent that brings a sandbox up reports it as RUNNING.
  pub handle-IsChained : (v : Verb) (s : SandboxState) → IsChained s (handle v s a).1
  unfolding handle
  handle-IsChained resume s = resume_sandbox-IsChained s
  handle-IsChained rollback s = rollback_sandbox-IsChained s
  handle-IsChained migrate s = migrate_sandbox-IsChained s

  resume_sandbox-rests :
      (s : SandboxState)
      → isnt_passing s ≡ true
      → IsDone (resume_sandbox s a).1
      → isnt_passing (final s (resume_sandbox s a).1) ≡ true
  unfolding resume_sandbox validate transitions is_active
  resume_sandbox-rests s p d = ground arith

  rollback_sandbox-rests :
      (s : SandboxState)
      → isnt_passing s ≡ true
      → IsDone (rollback_sandbox s a).1
      → isnt_passing (final s (rollback_sandbox s a).1) ≡ true
  unfolding rollback_sandbox validate transitions is_active
  rollback_sandbox-rests s p d = ground arith

  migrate_sandbox-rests :
      (s : SandboxState)
      → isnt_passing s ≡ true
      → IsDone (migrate_sandbox s a).1
      → isnt_passing (final s (migrate_sandbox s a).1) ≡ true
  unfolding migrate_sandbox validate transitions is_active
  migrate_sandbox-rests s p d = ground arith

  -- If the row of a sandbox that is neither PAUSING nor RESUMING is resumed, rolled back or migrated, and
  -- the store carries out every write that the handler asks for, the row is in neither of these states
  -- afterwards, whatever else fails, provided that an agent that brings a sandbox up reports it as RUNNING,
  -- where it reports anything: no failure of a scheduler or an agent strands a sandbox on its way.
  pub handle-rests :
      (v : Verb) (s : SandboxState)
      → isnt_passing s ≡ true
      → IsDone (handle v s a).1
      → isnt_passing (final s (handle v s a).1) ≡ true
  unfolding handle
  handle-rests resume s p d = resume_sandbox-rests s p d
  handle-rests rollback s p d = rollback_sandbox-rests s p d
  handle-rests migrate s p d = migrate_sandbox-rests s p d

from_pausing : (s : SandboxState) → validate s paused_hot ≡ true → s ≡ pausing
unfolding validate transitions is_active
from_pausing pending e = absurd (cc)
from_pausing starting e = absurd (cc)
from_pausing running e = absurd (cc)
from_pausing pausing e = refl
from_pausing paused_hot e = absurd (cc)
from_pausing paused_warm e = absurd (cc)
from_pausing archived_cold e = absurd (cc)
from_pausing resuming e = absurd (cc)
from_pausing stopping e = absurd (cc)
from_pausing stopped e = absurd (cc)
from_pausing recycled e = absurd (cc)
from_pausing failed e = absurd (cc)

from_stopping : (s : SandboxState) → validate s stopped ≡ true → s ≡ stopping
unfolding validate transitions is_active
from_stopping pending e = absurd (cc)
from_stopping starting e = absurd (cc)
from_stopping running e = absurd (cc)
from_stopping pausing e = absurd (cc)
from_stopping paused_hot e = absurd (cc)
from_stopping paused_warm e = absurd (cc)
from_stopping archived_cold e = absurd (cc)
from_stopping resuming e = absurd (cc)
from_stopping stopping e = refl
from_stopping stopped e = absurd (cc)
from_stopping recycled e = absurd (cc)
from_stopping failed e = absurd (cc)

-- A pause of a sandbox in any state but PAUSING and a kill of one in any state but STOPPING, if they
-- succeed, write a transition that is not legal: their rows skip PAUSING and STOPPING.
pub skips_transit :
    (s : SandboxState) (a : Answers)
    → (pause_sandbox s a).0 ≡ 200
    → s ≢ pausing
    → (kill_sandbox s a).0 ≡ 204
    → s ≢ stopping
    → (¬ IsChained s (pause_sandbox s a).1) × (¬ IsChained s (kill_sandbox s a).1)
unfolding pause_sandbox kill_sandbox
skips_transit s a p n k m =
    (λ c. n (from_pausing s (pause_chained p c)), λ c. m (from_stopping s (kill_chained k c)))
  where
    pause_chained :
        (pause_sandbox s a).0 ≡ 200
        → IsChained s (pause_sandbox s a).1
        → validate s paused_hot ≡ true
    pause_chained p c = ground arith

    kill_chained :
        (kill_sandbox s a).0 ≡ 204 → IsChained s (kill_sandbox s a).1 → validate s stopped ≡ true
    kill_chained k c = ground arith
