-- ===== src/Lifecycle/Tests.antt =====
-- The lifecycle on concrete states and answers.
use embervm.Prelude.{true, ◌≡◌, refl, [], ◌∷◌, Option}
use embervm.Term.{running, pausing, paused_hot, failed, pending, starting}
use embervm.Lifecycle.{
  to_called, cas_called, run, call, to_state, cas, validate, transitions, is_active,
}
use embervm.Lifecycle.Paths.{Reaches, run-Reaches}
use embervm.Lifecycle.Writes.{Answers, migrate_sandbox}
use embervm.Lifecycle.Writes.Legal.{
  IsChained, IsDone, final, handle, handle-IsChained, handle-rests, isnt_passing, migrate,
}

-- A watchdog that saw RUNNING loses against a pause.
watchdog_loses : run running (to_called pausing ∷ cas_called running failed ∷ []) ≡ pausing
unfolding run call to_state cas validate transitions is_active
watchdog_loses = refl

run-Reaches_example : Reaches pending (run pending (to_called starting ∷ to_called paused_hot ∷ []))
run-Reaches_example = run-Reaches pending (to_called starting ∷ to_called paused_hot ∷ [])

-- The restore on the target fails, all else succeeds.
abbrev answers : Answers
answers = record {
  admitted = true;
  known = true;
  claimed = true;
  placed = true;
  moved = true;
  acted = Option.none;
  recorded = true;
  noted = true;
  paused = true;
  pause_recorded = true;
  warm_claimed = true;
  released = true;
  target_known = true;
  resume_claimed = true;
}

migration_fails : final running (handle migrate running answers).1 ≡ failed
unfolding handle migrate_sandbox
migration_fails = refl

handle-IsChained_example : IsChained running (handle migrate running answers).1
handle-IsChained_example = handle-IsChained answers tt migrate running

all-IsDone : IsDone (handle migrate running answers).1
unfolding handle migrate_sandbox
all-IsDone = (refl, (refl, (refl, (refl, (refl, tt)))))

handle-rests_example : isnt_passing (final running (handle migrate running answers).1) ≡ true
handle-rests_example = handle-rests answers tt migrate running refl all-IsDone
