-- ===== src/Workspace.antt =====
-- The frame of a sandbox's workspace, web/src/pages/workspace/Workspace.tsx: the tab of an address, the
-- banner and the pill of the guest's health, and `useConfirm` of web/src/components/ui.tsx, which asks
-- before the sandbox is killed.
pub mod Palette
pub mod Placement
pub mod Composer
pub mod TimeTravel
pub mod Tests
use embervm.Prelude.{
  ℕ, ◌*◌, max, ltb, Bool, true, false, not, ◌&&◌, ◌||◌, Option, none, some, List, [], ◌∷◌, ◌++◌,
  Text, codes, text_eq, ◌==◌, if◌then◌else◌, ◌≡◌, refl, String,
}
use embervm.Term.{
  SandboxState, pending, starting, running, pausing, paused_hot, paused_warm, archived_cold,
  resuming, stopping, stopped, recycled, failed,
}
use embervm.Files.{slash}
use embervm.Lifecycle.{agree}
use embervm.Api.Polling.{wire, is_transit}
use embervm.Actions.{is_running, paused_like, header_enables}
use embervm.Lifecycle.Verbs.{resume}

pub data TabValue : Type 0 where
  overview terminal files preview checkpoints settings : TabValue

-- `value` of a tab.
unfoldable pub value : TabValue → Text
value overview = codes "overview"
value terminal = codes "terminal"
value files = codes "files"
value preview = codes "preview"
value checkpoints = codes "checkpoints"
value settings = codes "settings"

-- `s.split("/")[0]`
abbrev pub first_part : Text → Text
first_part [] = []
first_part (c ∷ s) = if c == slash then [] else c ∷ first_part s

abbrev pub first_tab : List TabValue → Text → TabValue
first_tab [] raw = overview
first_tab (t ∷ ts) raw = if text_eq (value t) raw then t else first_tab ts raw

-- `tab`, for what the address has after the sandbox.
unfoldable pub tab_of : Option Text → TabValue
unfolding value
tab_of none = overview
tab_of (some rest) =
    first_tab (overview ∷ terminal ∷ files ∷ preview ∷ checkpoints ∷ settings ∷ [])
      (first_part rest)

-- What `onChange` of the tabs puts there.
unfoldable pub rest_of : TabValue → Text
unfolding value
rest_of overview = []
rest_of tab = value tab

-- `message[sb.state]` is there.
abbrev pub has_message : SandboxState → Bool
has_message paused_hot = true
has_message paused_warm = true
has_message archived_cold = true
has_message failed = true
has_message recycled = true
has_message stopped = true
has_message _ = false

-- `StateBanner`: no banner, a banner for a state that stays, with whether it can be resumed, and one that
-- asks to hold on.
pub data Banner : Type 0 where
  no_banner hold_on : Banner
  settled : (resumable : Bool) → Banner

unfoldable pub state_banner : SandboxState → Banner
unfolding is_running paused_like
state_banner s =
    if is_running s then no_banner else if has_message s then settled (paused_like s) else hold_on

-- A report of the guest's health; the pressures are in hundredths, as the kernel gives them.
pub record GuestHealth : Type 0 where
  pub ok : Bool
  pub seq : Option ℕ
  pub resumes : Option ℕ
  pub mem_total_kib : Option ℕ
  pub mem_available_kib : Option ℕ
  pub psi_mem_some10 : Option ℕ
  pub psi_cpu_some10 : Option ℕ

pub data Level : Type 0 where
  fine transit danger : Level

pub data Pill : Type 0 where
  no_pill guest_unreachable : Pill
  level : Level → Pill

abbrev or_zero : Option ℕ → ℕ
or_zero none = 0
or_zero (some n) = n

-- `psi`
abbrev psi : GuestHealth → ℕ
psi h = max (or_zero h.psi_mem_some10) (or_zero h.psi_cpu_some10)

-- More than 90 or 80 % of the memory is used where less than a tenth or a fifth is available.
abbrev level_of : (total : ℕ) → GuestHealth → Level
level_of total h =
    if ltb (10 * or_zero h.mem_available_kib) total || ltb 2500 (psi h)
    then danger
    else if ltb (5 * or_zero h.mem_available_kib) total || ltb 1000 (psi h)
    then transit
    else fine

unfoldable pub health_pill : SandboxState → (unreachable : Bool) → Option GuestHealth → Pill
unfolding is_running
health_pill s unreachable latest =
    if not (is_running s) then no_pill else if unreachable then guest_unreachable else elim latest [
      | none ↦ no_pill
      | some h ↦ elim h.mem_total_kib [
        | none ↦ no_pill
        | some total ↦ if not h.ok || total == 0 then no_pill else level (level_of total h)
      ]
    ]

-- `useConfirm`, with the functions that were called; `A` names them.
pub record Confirm (A : Type 0) : Type 0 where
  pub pending : Option A
  pub calls : List A

unfoldable pub ask : {A : Type 0} → Confirm A → A → Confirm A
ask c fn = record c { pending = some fn }

abbrev called : {A : Type 0} → Option A → List A → List A
called none calls = calls
called (some fn) calls = calls ++ fn ∷ []

unfoldable pub confirm : {A : Type 0} → Confirm A → Confirm A
confirm c = record c { pending = none; calls = called c.pending c.calls }

unfoldable pub close : {A : Type 0} → Confirm A → Confirm A
close c = record c { pending = none }

-- The address that choosing a tab makes shows that tab.
pub tab_of-rest_of : (tab : TabValue) → tab_of (some (rest_of tab)) ≡ tab
unfolding tab_of rest_of value text_eq
tab_of-rest_of overview = refl
tab_of-rest_of terminal = refl
tab_of-rest_of files = refl
tab_of-rest_of preview = refl
tab_of-rest_of checkpoints = refl
tab_of-rest_of settings = refl

abbrev pub holds_on : Banner → Bool
holds_on hold_on = true
holds_on _ = false

abbrev pub says_resumable : Banner → Bool
says_resumable (settled r) = r
says_resumable _ = false

-- The banner asks to hold on in exactly the states whose sandbox is asked for often, but for RUNNING; and
-- it speaks of resuming exactly where the header's button Resume is enabled.
pub state_banner-agrees :
    (s : SandboxState)
    → (holds_on (state_banner s) ≡ (is_transit (wire s) && not (is_running s)))
      × (says_resumable (state_banner s) ≡ header_enables resume s)
unfolding state_banner is_transit is_running paused_like header_enables wire text_eq
state_banner-agrees s = (
  agree (λ s. holds_on (state_banner s)) (λ s. is_transit (wire s) && not (is_running s)) refl s,
  agree (λ s. says_resumable (state_banner s)) (λ s. header_enables resume s) refl s,
)
