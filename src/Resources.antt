-- ===== src/Resources.antt =====
-- The resize panel of a workspace, `ResourcesPanel` of web/src/pages/workspace/OverviewTab.tsx: the sizes
-- that are set, the request that Apply sends, what an error shows, and the autoscale toggle with its
-- change of the query cache by hand.
pub mod Server
pub mod Requests
pub mod Retry
pub mod Toggle
pub mod Tests
use embervm.Prelude.{
  ℕ, ◌<◌, Bool, true, false, not, ◌&&◌, ◌||◌, Option, none, some, ltb, ◌==◌, ℤ, pos, negsuc,
  if◌then◌else◌,
}
use embervm.Term.{running}
use embervm.Lifecycle.{state_eq}
use embervm.Api.{Sandbox}

-- The state of the component. `cpu` is what the number field holds, an integer.
pub record Panel : Type 0 where
  pub mem : ℕ
  pub cpu : ℤ
  pub no_capacity : Bool
  pub toggle_supported : Bool

-- `x || y`, for a number that may be absent.
abbrev pub or_else : Option ℕ → ℕ → ℕ
or_else none y = y
or_else (some n) y = if n == 0 then y else n

-- `x ?? 0`
abbrev pub or_zero : Option ℕ → ℕ
or_zero none = 0
or_zero (some n) = n

unfoldable pub base : Sandbox → ℕ
base sb = or_else sb.base_memory_mib sb.memory_mib

unfoldable pub base_cpu : Sandbox → ℕ
base_cpu sb = or_else sb.base_vcpus 1

unfoldable pub max_mem : Sandbox → ℕ
max_mem sb = or_zero sb.max_memory_mib

unfoldable pub max_cpu : Sandbox → ℕ
max_cpu sb = or_zero sb.max_vcpus

unfoldable pub resizable : Sandbox → Bool
unfolding base base_cpu max_mem max_cpu
resizable sb = ltb (base sb) (max_mem sb) || ltb (base_cpu sb) (max_cpu sb)

-- The panel when it is mounted.
unfoldable pub mount : Sandbox → Panel
mount sb = record {
  mem = sb.memory_mib;
  cpu = pos sb.vcpus;
  no_capacity = false;
  toggle_supported = true;
}

abbrev pub same_number : ℤ → ℕ → Bool
same_number (pos m) n = m == n
same_number (negsuc m) n = false

-- `{ memory_mib: …, vcpus: … }`, each `none` where it is undefined.
unfoldable pub resize_body : Sandbox → Panel → Option ℕ × Option ℤ
resize_body sb p = (
  if not (p.mem == sb.memory_mib) then some p.mem else none,
  if not (same_number p.cpu sb.vcpus) then some p.cpu else none,
)

unfoldable pub dirty : Sandbox → Panel → Bool
dirty sb p = not (p.mem == sb.memory_mib) || not (same_number p.cpu sb.vcpus)

-- The controls: whether Apply is disabled, and whether the other ones are there.
unfoldable pub apply_disabled : Sandbox → Panel → Bool
unfolding dirty
apply_disabled sb p = not (dirty sb p) || not (state_eq sb.state running)

abbrev pub is_true? : Option Bool → Bool
is_true? none = false
is_true? (some b) = b

unfoldable pub has_off_and_apply : Sandbox → Panel → Bool
unfolding dirty
has_off_and_apply sb p = is_true? sb.autoscale && (dirty sb p && p.toggle_supported)

unfoldable pub has_toggle : Sandbox → Panel → Bool
unfolding dirty
has_toggle sb p = p.toggle_supported && not (dirty sb p)

unfoldable pub has_slider : Sandbox → Bool
unfolding base max_mem
has_slider sb = ltb (base sb) (max_mem sb)

unfoldable pub has_cpu_field : Sandbox → Bool
unfolding max_cpu
has_cpu_field sb = ltb 0 (max_cpu sb)

-- What `onError` looks at: whether the error is an `ApiError`, its status, and whether its message
-- includes "outside resize ceiling".
pub record Failure : Type 0 where
  pub is_api : Bool
  pub status : ℕ
  pub names_ceiling : Bool

-- `onSuccess`, also of the migration that retries; and `onError`, with whether it raises a toast.
unfoldable pub on_resized : Panel → Panel
on_resized p = record p { no_capacity = false }

unfoldable pub on_resize_error : Panel → Failure → Panel × Bool
on_resize_error p e =
    if e.is_api && (e.status == 409 && not e.names_ceiling)
    then (record p { no_capacity = true }, false)
    else (p, true)

-- `onError` of the toggle, with whether the error itself is shown.
unfoldable pub on_toggle_error : Panel → Failure → Panel × Bool
on_toggle_error p e =
    if e.is_api && (e.status == 404 || e.status == 405)
    then (record p { toggle_supported = false }, false)
    else (p, true)
