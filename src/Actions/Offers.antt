-- ===== src/Actions/Offers.antt =====
-- What the pages offer against what the server accepts.
use embervm.Prelude.{true, false, Bool, ◌≡◌, text_eq, ◌||◌, refl}
use embervm.Term.{SandboxState, running, paused_hot}
use embervm.Lifecycle.{agree, state_eq, to_state, validate, transitions, is_active}
use embervm.Lifecycle.Verbs.{accepts, can_pause, hot_parent, rollback, fork_checkpoint}
use embervm.Lifecycle.Writes.{resume_sandbox, rollback_sandbox, migrate_sandbox}
use embervm.Api.Polling.{wire}
use embervm.Actions.{
  Control, verbs_of, overview_run, enabled, header_enables, row_enables, settings_enables,
  composer_enables, timeline_enables, resources_enables, palette_enables, is_running, paused_like,
  movable, timeline_fork, timeline_rollback, palette_pause, palette_resume, palette_snapshot,
}

-- The controls that look at the state and call a verb whose acceptance the state decides: all but those
-- of the timeline's rows and the palette, which do not look at it, and the Run of the exec card, whose
-- command the server passes on to the guest in every state.
unfoldable pub is_guarded : Control → Bool
is_guarded timeline_fork = false
is_guarded timeline_rollback = false
is_guarded palette_pause = false
is_guarded palette_resume = false
is_guarded palette_snapshot = false
is_guarded overview_run = false
is_guarded _ = true

-- The rows of the timeline offer a fork and a rollback in every state, and the server accepts either
-- exactly where the sandbox is RUNNING or PAUSED_HOT.
pub accepts-timeline :
    (s : SandboxState)
    → (enabled timeline_fork s ≡ true)
      × (enabled timeline_rollback s ≡ true)
      × (accepts fork_checkpoint s ≡ (state_eq s running || state_eq s paused_hot))
      × (accepts rollback s ≡ (state_eq s running || state_eq s paused_hot))
unfolding enabled header_enables row_enables settings_enables composer_enables timeline_enables
    resources_enables palette_enables verbs_of accepts is_guarded is_running paused_like movable
    wire text_eq can_pause hot_parent to_state validate transitions is_active resume_sandbox
    rollback_sandbox migrate_sandbox
accepts-timeline s = (
  refl,
  refl,
  agree (accepts fork_checkpoint) (λ t. state_eq t running || state_eq t paused_hot) refl s,
  agree (accepts rollback) (λ t. state_eq t running || state_eq t paused_hot) refl s,
)
