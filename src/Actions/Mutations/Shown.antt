-- ===== src/Actions/Mutations/Shown.antt =====
-- What the actions show before and after the server's answer, against the lifecycle and the terminals.
use embervm.Prelude.{
  if◌then◌else◌, Bool, true, false, not, ◌||◌, some, some-injective, text_eq, ◌≡◌, refl, subst,
}
use embervm.Term.{SandboxState, pausing, resuming}
use embervm.Lifecycle.{validate, agree, transitions, is_active}
use embervm.Api.Polling.{refetch_interval, wire, is_transit, is_settled}
use embervm.Actions.{
  enabled, header_pause, header_resume, row_pause, row_resume, header_enables, row_enables,
  is_running, paused_like,
}
use embervm.Actions.Mutations.{
  Mutation, pause_from_header, resume_from_header, pause_from_row, resume_from_row,
  pause_from_palette, resume_from_palette, snapshot_from_palette, autoscale_from_palette,
  optimistic, offered, refetch_of, is_from_row,
}

-- The palette offers its actions in every state.
abbrev pub is_from_palette : Mutation → Bool
is_from_palette pause_from_palette = true
is_from_palette resume_from_palette = true
is_from_palette snapshot_from_palette = true
is_from_palette autoscale_from_palette = true
is_from_palette m = false

implied : (a b : Bool) → (not a || b) ≡ true → a ≡ true → b ≡ true
implied true b h k = h
implied false b h k = absurd (cc)

shown_legal :
    (m : Mutation) (f : SandboxState → Bool) (s t u : SandboxState)
    → (not (f s) || validate s u) ≡ true
    → f s ≡ true
    → some u ≡ some t
    → refetch_of m u ≡ (if is_from_row m then 5000 else 2000)
    → (validate s t ≡ true) × (refetch_of m t ≡ (if is_from_row m then 5000 else 2000))
shown_legal m f s t u h k e p =
    subst (λ v. (validate s v ≡ true) × (refetch_of m v ≡ (if is_from_row m then 5000 else 2000)))
      (some-injective _ _ e) (implied (f s) (validate s u) h k, p)

-- Where a page other than the palette offers an action that shows a state before the server answers, this
-- state is a legal successor of the one that the sandbox is in, and while the page shows it, the sandbox
-- is polled again in 2 s from the workspace and in 5 s from the list.
pub optimistic-validate :
    (m : Mutation) (s t : SandboxState)
    → is_from_palette m ≡ false
    → offered m s ≡ true
    → optimistic m ≡ some t
    → (validate s t ≡ true) × (refetch_of m t ≡ (if is_from_row m then 5000 else 2000))
unfolding optimistic offered enabled header_enables row_enables is_running paused_like wire text_eq
    validate transitions is_active refetch_of refetch_interval is_transit is_settled
optimistic-validate pause_from_header s t p h e =
    shown_legal pause_from_header (enabled header_pause) s t pausing
      (agree (λ s. not (enabled header_pause s) || validate s pausing) (λ s. true) refl s) h e refl
optimistic-validate resume_from_header s t p h e =
    shown_legal resume_from_header (enabled header_resume) s t resuming
      (agree (λ s. not (enabled header_resume s) || validate s resuming) (λ s. true) refl s) h e
      refl
optimistic-validate pause_from_row s t p h e =
    shown_legal pause_from_row (enabled row_pause) s t pausing
      (agree (λ s. not (enabled row_pause s) || validate s pausing) (λ s. true) refl s) h e refl
optimistic-validate resume_from_row s t p h e =
    shown_legal resume_from_row (enabled row_resume) s t resuming
      (agree (λ s. not (enabled row_resume s) || validate s resuming) (λ s. true) refl s) h e refl
optimistic-validate pause_from_palette s t p h e = absurd (cc)
optimistic-validate resume_from_palette s t p h e = absurd (cc)
optimistic-validate m s t p h e = absurd (cc)
