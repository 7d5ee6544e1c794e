-- ===== src/Actions.antt =====
-- Which verbs the console's pages offer for a sandbox in a state: the buttons and menu items of
-- web/src/pages/workspace/Workspace.tsx, SettingsTab.tsx, CheckpointsTab.tsx and OverviewTab.tsx, the
-- row menu of web/src/pages/Sandboxes.tsx and the items of web/src/components/palette.tsx. A verb is
-- offered where its control is there and not disabled by the state.
pub mod Offers
pub mod Mutations
pub mod Tests
use embervm.Prelude.{List, [], ◌∷◌, Bool, true, false, not, ◌||◌, ◌&&◌, codes, text_eq, has_prefix}
use embervm.Term.{SandboxState}
use embervm.Api.Polling.{wire}
use embervm.Lifecycle.Verbs.{
  Verb, pause, resume, snapshot, checkpoint, fork, fork_checkpoint, migrate, rollback, resize,
  restore_artifacts, exec, set_autoscale, accepts,
}

-- The controls, named for their page: the header and the row menu, the cards of the settings, the
-- composer and the rows of the timeline, the resize panel and the card that runs a command, and the
-- palette. The pages' questions before a kill, and what reads no state and calls no verb, are left out.
pub data Control : Type 0 where
  header_pause header_resume header_snapshot header_fork header_migrate : Control
  row_pause row_resume row_fork : Control
  settings_migrate settings_restore : Control
  composer_run composer_checkpoint composer_fork : Control
  timeline_fork timeline_rollback : Control
  apply_resize off_and_apply overview_run : Control
  palette_pause palette_resume palette_snapshot : Control

-- The verbs that the control calls, in order; the composer's command is taken to be run with a
-- checkpoint first, as its switch is set at the beginning.
unfoldable pub verbs_of : Control → List Verb
verbs_of header_pause = pause ∷ []
verbs_of header_resume = resume ∷ []
verbs_of header_snapshot = snapshot ∷ []
verbs_of header_fork = fork ∷ []
verbs_of header_migrate = migrate ∷ []
verbs_of row_pause = pause ∷ []
verbs_of row_resume = resume ∷ []
verbs_of row_fork = fork ∷ []
verbs_of settings_migrate = migrate ∷ []
verbs_of settings_restore = restore_artifacts ∷ []
verbs_of composer_run = checkpoint ∷ exec ∷ []
verbs_of composer_checkpoint = checkpoint ∷ []
verbs_of composer_fork = fork ∷ []
verbs_of timeline_fork = fork_checkpoint ∷ []
verbs_of timeline_rollback = rollback ∷ []
verbs_of apply_resize = resize ∷ []
verbs_of off_and_apply = set_autoscale ∷ resize ∷ []
verbs_of overview_run = exec ∷ []
verbs_of palette_pause = pause ∷ []
verbs_of palette_resume = resume ∷ []
verbs_of palette_snapshot = snapshot ∷ []

-- Whether the server accepts all of the verbs.
abbrev pub accepts_all : List Verb → SandboxState → Bool
accepts_all [] s = true
accepts_all (v ∷ vs) s = accepts v s && accepts_all vs s

-- `sb.state === "RUNNING"`
unfoldable pub is_running : SandboxState → Bool
unfolding wire text_eq
is_running s = text_eq (wire s) (codes "RUNNING")

-- `pausedLike`
unfoldable pub paused_like : SandboxState → Bool
unfolding wire text_eq
paused_like s =
    has_prefix (codes "PAUSED") (wire s)
    || text_eq (wire s) (codes "ARCHIVED_COLD")
    || text_eq (wire s) (codes "FAILED")

-- `movable`, and the negated condition of the header's menu item.
unfoldable pub movable : SandboxState → Bool
unfolding is_running wire text_eq
movable s = is_running s || text_eq (wire s) (codes "PAUSED_HOT")

-- Whether a page's control for the verb is there and not disabled, as far as the state decides:
-- `WorkspaceHeader`, `Row`, `SettingsTab` with its cards, `Composer`, `CheckpointRow`, the buttons
-- of `ResourcesPanel`, `ExecCard`, and the items of `CommandPalette` for the current sandbox.
unfoldable pub header_enables : Verb → SandboxState → Bool
unfolding is_running paused_like movable
header_enables pause s = is_running s
header_enables resume s = not (is_running s) && paused_like s
header_enables snapshot s = is_running s
header_enables fork s = is_running s
header_enables migrate s = movable s
header_enables _ s = false

unfoldable pub row_enables : Verb → SandboxState → Bool
unfolding is_running paused_like
row_enables pause s = is_running s
row_enables resume s = paused_like s
row_enables fork s = is_running s
row_enables _ s = false

unfoldable pub settings_enables : Verb → SandboxState → Bool
unfolding movable wire text_eq
settings_enables migrate s = movable s
settings_enables restore_artifacts s = text_eq (wire s) (codes "RECYCLED")
settings_enables _ s = false

unfoldable pub composer_enables : Verb → SandboxState → Bool
unfolding is_running
composer_enables checkpoint s = is_running s
composer_enables fork s = is_running s
composer_enables _ s = false

unfoldable pub timeline_enables : Verb → SandboxState → Bool
timeline_enables fork_checkpoint s = true
timeline_enables rollback s = true
timeline_enables _ s = false

unfoldable pub resources_enables : Verb → SandboxState → Bool
unfolding is_running
resources_enables resize s = is_running s
resources_enables set_autoscale s = is_running s
resources_enables _ s = false

unfoldable pub palette_enables : Verb → SandboxState → Bool
palette_enables pause s = true
palette_enables resume s = true
palette_enables snapshot s = true
palette_enables _ s = false

-- Whether the control is enabled.
unfoldable pub enabled : Control → SandboxState → Bool
unfolding header_enables row_enables settings_enables composer_enables timeline_enables
    resources_enables palette_enables
enabled header_pause s = header_enables pause s
enabled header_resume s = header_enables resume s
enabled header_snapshot s = header_enables snapshot s
enabled header_fork s = header_enables fork s
enabled header_migrate s = header_enables migrate s
enabled row_pause s = row_enables pause s
enabled row_resume s = row_enables resume s
enabled row_fork s = row_enables fork s
enabled settings_migrate s = settings_enables migrate s
enabled settings_restore s = settings_enables restore_artifacts s
enabled composer_run s = composer_enables checkpoint s
enabled composer_checkpoint s = composer_enables checkpoint s
enabled composer_fork s = composer_enables fork s
enabled timeline_fork s = timeline_enables fork_checkpoint s
enabled timeline_rollback s = timeline_enables rollback s
enabled apply_resize s = resources_enables resize s
enabled off_and_apply s = resources_enables set_autoscale s
enabled overview_run s = is_running s
enabled palette_pause s = palette_enables pause s
enabled palette_resume s = palette_enables resume s
enabled palette_snapshot s = palette_enables snapshot s
