-- ===== src/Actions/Tests.antt =====
-- The controls in concrete states.
use embervm.Prelude.{true, ◌≡◌, ◌||◌, refl, text_eq}
use embervm.Term.{failed, running, paused_hot, recycled, resuming}
use embervm.Actions.Mutations.{resume_from_header, optimistic, offered, refetch_of}
use embervm.Actions.Mutations.Shown.{optimistic-validate}
use embervm.Lifecycle.{state_eq, validate}
use embervm.Lifecycle.Verbs.{accepts, fork_checkpoint, rollback}
use embervm.Actions.{
  enabled, header_enables, header_resume, timeline_fork, timeline_rollback, paused_like, is_running,
}
use embervm.Actions.Offers.{accepts-timeline}
use embervm.Api.Polling.{wire}

resume_failed : enabled header_resume failed ≡ true
unfolding enabled header_enables paused_like is_running text_eq wire
resume_failed = refl

accepts-timeline_example :
    (enabled timeline_fork recycled ≡ true)
    × (enabled timeline_rollback recycled ≡ true)
    × (accepts fork_checkpoint recycled
        ≡ (state_eq recycled running || state_eq recycled paused_hot))
    × (accepts rollback recycled ≡ (state_eq recycled running || state_eq recycled paused_hot))
accepts-timeline_example = accepts-timeline recycled

optimistic-validate_example :
    (validate paused_hot resuming ≡ true) × (refetch_of resume_from_header resuming ≡ 2000)
unfolding enabled header_enables paused_like is_running text_eq wire offered optimistic
optimistic-validate_example =
    optimistic-validate resume_from_header paused_hot resuming refl refl refl
