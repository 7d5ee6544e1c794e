-- ===== src/Resources/Server.antt =====
-- POST /v0/sandboxes/:id/resize and /autoscale, `resizeSandbox` and `setAutoscale` of
-- pkg/controlplane/server.go, up to the change of the row.
use embervm.Prelude.{
  ℕ, Bool, true, false, not, ◌&&◌, ◌||◌, Option, none, some, ◌==◌, ℤ, pos, is_zero, ltb_ℤ,
  if◌then◌else◌,
}
use embervm.Term.{running}
use embervm.Lifecycle.{state_eq}
use embervm.Api.{Sandbox}
use embervm.Resources.{or_zero, Failure}

-- The two numbers of the body; an absent one is 0.
pub record Body : Type 0 where
  pub memory_mib : ℤ
  pub vcpus : ℤ

abbrev pub of_option : Option ℤ → ℤ
of_option none = pos 0
of_option (some n) = n

abbrev pub bind : Option ℕ × Option ℤ → Body
bind b = record { memory_mib = pos (or_zero b.0); vcpus = of_option b.1 }

-- How the request ends. `no_capacity` is the scheduler's refusal, `node_error` any other failure: that no
-- answer comes, that the sandbox or its node is not found, or that the node or the store fails.
pub data Verdict : Type 0 where
  nothing_to_resize not_running memory_outside vcpus_outside : Verdict
  no_capacity node_error resized : Verdict

-- A dimension that is to change is refused outside [1, ceiling]; a ceiling of 0 refuses all.
abbrev pub outside : ℤ → ℕ → Bool
outside n ceiling = not (is_zero n) && (ceiling == 0 || ltb_ℤ n (pos 1) || ltb_ℤ (pos ceiling) n)

-- `fits` is what the scheduler answers, `moved` whether the node and the store do their part.
unfoldable pub resize_sandbox : (fits moved : Bool) → Sandbox → Body → Verdict
resize_sandbox fits moved sb b =
    if is_zero b.memory_mib && is_zero b.vcpus
    then nothing_to_resize
    else if not (state_eq sb.state running)
    then not_running
    else if outside b.memory_mib (or_zero sb.max_memory_mib)
    then memory_outside
    else if outside b.vcpus (or_zero sb.max_vcpus)
    then vcpus_outside
    else if not fits
    then no_capacity
    else if not moved
    then node_error
    else resized

-- The error that the console's client makes of the answer; `other` is that of any other failure.
unfoldable pub failure_of : (other : Failure) → Verdict → Option Failure
failure_of other nothing_to_resize =
    some (record { is_api = true; status = 400; names_ceiling = false })
failure_of other not_running = some (record { is_api = true; status = 409; names_ceiling = false })
failure_of other memory_outside =
    some (record { is_api = true; status = 409; names_ceiling = true })
failure_of other vcpus_outside = some (record { is_api = true; status = 409; names_ceiling = true })
failure_of other no_capacity = some (record { is_api = true; status = 409; names_ceiling = false })
failure_of other node_error = some other
failure_of other resized = none

abbrev is_true? : Option Bool → Bool
is_true? none = false
is_true? (some b) = b

-- `setAutoscale`: the status, and the row as it is answered.
unfoldable pub set_autoscale : (stored : Bool) → Sandbox → Bool → ℕ × Option Sandbox
set_autoscale stored sb on =
    if on && (or_zero sb.max_memory_mib == 0 && or_zero sb.max_vcpus == 0)
    then (409, none)
    else if (if on then is_true? sb.autoscale else not (is_true? sb.autoscale))
    then (200, some sb)
    else if stored
    then (200, some (record sb { autoscale = some on }))
    else (500, none)
