-- ===== src/Actions/Mutations.antt =====
-- The uses of `useSandboxAction` of web/src/api/hooks.ts: what each shows before the server answers, and
-- what follows its answer, in web/src/pages/workspace/Workspace.tsx and SettingsTab.tsx,
-- web/src/pages/Sandboxes.tsx and web/src/components/palette.tsx.
pub mod Shown
use embervm.Prelude.{
  ℕ, if◌then◌else◌, String, Bool, true, false, not, ◌||◌, Option, none, some, some-injective, List,
  [], ◌∷◌, ◌++◌, get_or_else, get, ◌≡◌, refl, subst, ap, ◌∙◌, arith,
}
use embervm.Term.{SandboxState, pausing, resuming, World, listed}
use embervm.Term.Manager.{dispose_sandbox}
use embervm.Lifecycle.{validate, agree}
use embervm.Api.Polling.{refetch_interval}
use embervm.Actions.{
  Control, enabled, header_pause, header_resume, header_snapshot, header_fork, header_migrate,
  row_pause, row_resume, row_fork, settings_migrate, settings_restore, palette_pause,
  palette_resume, palette_snapshot,
}

pub data Mutation : Type 0 where
  pause_from_header resume_from_header snapshot_from_header fork_from_header : Mutation
  migrate_from_header kill_from_header : Mutation
  pause_from_row resume_from_row fork_from_row kill_from_row : Mutation
  migrate_from_settings restore_from_settings kill_from_settings : Mutation
  pause_from_palette resume_from_palette snapshot_from_palette autoscale_from_palette : Mutation

-- `optimistic`, the state that the cached sandbox gets at once.
unfoldable pub optimistic : Mutation → Option SandboxState
optimistic pause_from_header = some pausing
optimistic resume_from_header = some resuming
optimistic pause_from_row = some pausing
optimistic resume_from_row = some resuming
optimistic pause_from_palette = some pausing
optimistic resume_from_palette = some resuming
optimistic m = none

-- The sandbox that is answered.
pub record Answer : Type 0 where
  pub id : String
  pub node_id : Option String
  pub autoscale : Bool

pub data Place : Type 0 where
  sandboxes_page : Place
  sandbox_page : String → Place

pub data Toast : Type 0 where
  snapshot_taken : Toast
  migrated : (node : String) → Toast
  forked_to : (child parent : String) → Toast
  destroyed : String → Toast
  restored : String → Toast
  autoscale_set : Bool → Toast
  failed_to : Mutation → Toast

-- `dispose_terminals` asks the module of the terminals, which is imported when it is needed, to close the
-- sandbox's sessions.
pub data Effect : Type 0 where
  dispose_terminals : String → Effect
  show : Toast → Effect
  go : Place → Effect
  invalidate_sandboxes invalidate_nodes : Effect

-- `onSuccess` of the actions, for the sandbox `id`: those of Row, of the settings and of the palette, and
-- all of them, those of the header among them.
abbrev pub on_forked_row : Answer → List Effect
on_forked_row a = go (sandbox_page a.id) ∷ []

abbrev pub on_killed_row : String → List Effect
on_killed_row id = dispose_terminals id ∷ show (destroyed id) ∷ []

abbrev pub on_migrated_settings : Answer → List Effect
on_migrated_settings a = show (migrated (get_or_else a.node_id "?")) ∷ []

abbrev pub on_restored : Answer → List Effect
on_restored a = show (restored a.id) ∷ go (sandbox_page a.id) ∷ []

abbrev pub on_killed_settings : String → List Effect
on_killed_settings id = dispose_terminals id ∷ show (destroyed id) ∷ go sandboxes_page ∷ []

abbrev pub on_snapshot_palette : List Effect
on_snapshot_palette = show snapshot_taken ∷ []

abbrev pub on_autoscale_palette : Answer → List Effect
on_autoscale_palette a = show (autoscale_set a.autoscale) ∷ []

unfoldable pub on_success : Mutation → (id : String) → Answer → List Effect
on_success snapshot_from_header id a = show snapshot_taken ∷ []
on_success fork_from_header id a = go (sandbox_page a.id) ∷ show (forked_to a.id id) ∷ []
on_success migrate_from_header id a = show (migrated (get_or_else a.node_id "?")) ∷ []
on_success kill_from_header id a =
    dispose_terminals id ∷ show (destroyed id) ∷ go sandboxes_page ∷ []
on_success fork_from_row id a = on_forked_row a
on_success kill_from_row id a = on_killed_row id
on_success migrate_from_settings id a = on_migrated_settings a
on_success restore_from_settings id a = on_restored a
on_success kill_from_settings id a = on_killed_settings id
on_success snapshot_from_palette id a = on_snapshot_palette
on_success autoscale_from_palette id a = on_autoscale_palette a
on_success m id a = []

-- `onSuccess` or `onError` of the hook, apart from the cache, and `onSettled`; `none` is an error.
unfoldable pub settle : Mutation → (id : String) → Option Answer → List Effect
unfolding on_success
settle m id none = show (failed_to m) ∷ invalidate_sandboxes ∷ invalidate_nodes ∷ []
settle m id (some a) = on_success m id a ++ invalidate_sandboxes ∷ invalidate_nodes ∷ []

-- The actions of the list's rows.
abbrev pub is_from_row : Mutation → Bool
is_from_row pause_from_row = true
is_from_row resume_from_row = true
is_from_row fork_from_row = true
is_from_row kill_from_row = true
is_from_row m = false

-- In how many milliseconds the page with the control polls the sandbox again, if it shows the state:
-- `useSandboxes` of the list, and `useSandbox` of the workspace.
unfoldable pub refetch_of : Mutation → SandboxState → ℕ
unfolding refetch_interval
refetch_of m s = if is_from_row m then 5000 else refetch_interval (some s)

-- Whether the state lets the control of the mutation be offered; the question before a kill always is.
unfoldable pub offered : Mutation → SandboxState → Bool
unfolding enabled
offered pause_from_header s = enabled header_pause s
offered resume_from_header s = enabled header_resume s
offered snapshot_from_header s = enabled header_snapshot s
offered fork_from_header s = enabled header_fork s
offered migrate_from_header s = enabled header_migrate s
offered pause_from_row s = enabled row_pause s
offered resume_from_row s = enabled row_resume s
offered fork_from_row s = enabled row_fork s
offered migrate_from_settings s = enabled settings_migrate s
offered restore_from_settings s = enabled settings_restore s
offered pause_from_palette s = enabled palette_pause s
offered resume_from_palette s = enabled palette_resume s
offered snapshot_from_palette s = enabled palette_snapshot s
offered m s = true
