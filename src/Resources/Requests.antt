-- ===== src/Resources/Requests.antt =====
-- The requests of the panel against the server's checks, and what the errors show.
use embervm.Prelude.{
  subst, some-injective, ℕ, ◌≤◌, ◌<◌, Bool, true, false, not, none, some, ℤ, pos, negsuc,
  if◌then◌else◌, ◌≡◌, ◌≢◌, ◌↔◌, ◌⊎◌, inl, inr, refl, arith, is_zero, ◌==◌, ◌&&◌, ◌||◌,
}
use embervm.Term.{running}
use embervm.Lifecycle.{state_eq}
use embervm.Api.{Sandbox}
use embervm.Resources.{
  Panel, Failure, base, max_mem, max_cpu, has_slider, has_cpu_field, has_toggle, mount, resize_body,
  dirty, apply_disabled, same_number, on_resize_error, or_zero,
}
use embervm.Resources.Server.{
  bind, of_option, outside, Verdict, resize_sandbox, failure_of, nothing_to_resize, not_running,
  memory_outside, vcpus_outside, no_capacity, node_error, resized,
}

-- What the slider can be set to, besides the size that it begins with.
abbrev pub IsSlid : Sandbox → ℕ → Type 0
IsSlid sb v = (v ≡ sb.memory_mib) ⊎ ((has_slider sb ≡ true) × (base sb ≤ v) × (v ≤ max_mem sb))

-- A number of vCPUs within the bounds that the field names.
abbrev pub IsInside : Sandbox → ℤ → Type 0
IsInside sb (pos n) = (n ≡ sb.vcpus) ⊎ ((1 ≤ n) × (n ≤ max_cpu sb))
IsInside sb (negsuc n) = ⊥

memory_inside :
    (sb : Sandbox) (m : ℕ)
    → IsSlid sb m
    → outside
        (pos (or_zero (if not (m == sb.memory_mib) then some m else none)))
        (or_zero sb.max_memory_mib)
      ≡ false
unfolding has_slider max_mem
memory_inside sb m (inl e) = ground arith
memory_inside sb m (inr h) = ground arith

vcpus_inside :
    (sb : Sandbox) (c : ℤ)
    → IsInside sb c
    → outside
        (of_option (if not (same_number c sb.vcpus) then some c else none))
        (or_zero sb.max_vcpus)
      ≡ false
unfolding max_cpu
vcpus_inside sb (pos n) (inl e) = ground arith
vcpus_inside sb (pos n) (inr h) = ground arith
vcpus_inside sb (negsuc n) h = absurd h

-- A dirty panel asks for something.
something :
    (sb : Sandbox) (m : ℕ) (c : ℤ)
    → 1 ≤ m
    → IsInside sb c
    → (not (m == sb.memory_mib) || not (same_number c sb.vcpus)) ≡ true
    → (is_zero (pos (or_zero (if not (m == sb.memory_mib) then some m else none)))
        && is_zero (of_option (if not (same_number c sb.vcpus) then some c else none)))
      ≡ false
something sb m (pos n) b (inl e) d = ground arith
something sb m (pos n) b (inr h) d = ground arith
something sb m (negsuc n) b h d = absurd h

left_true : (a b : Bool) → (not a || b) ≡ false → a ≡ true
left_true true b e = refl
left_true false b e = absurd (cc)

-- While the sandbox is RUNNING, a panel whose memory is where the slider goes and whose number of vCPUs is
-- within the bounds that the field names, and that differs from the sandbox's size, sends a request that
-- passes all of the server's checks but the scheduler's: the answer depends on the capacity of the node
-- and on the node itself only.
pub resize_sandbox-resize_body :
    (fits moved : Bool) (sb : Sandbox) (p : Panel)
    → state_eq sb.state running ≡ true
    → 1 ≤ p.mem
    → IsSlid sb p.mem
    → IsInside sb p.cpu
    → apply_disabled sb p ≡ false
    → resize_sandbox fits moved sb (bind (resize_body sb p))
      ≡ (if not fits then no_capacity else if not moved then node_error else resized)
unfolding resize_sandbox resize_body apply_disabled dirty
resize_sandbox-resize_body fits moved sb p r b s i d =
    rw
      (
        resize_sandbox,
        something sb p.mem p.cpu b i (left_true _ _ d),
        r,
        memory_inside sb p.mem s,
        vcpus_inside sb p.cpu i,
      )
      refl

-- The panel shows that the node is out of budget for two of the server's refusals: the scheduler's, and
-- that the sandbox has stopped running since it was polled; for every other failure, if none of those
-- outside of the handler's checks has the status 409, it shows a toast.
pub no_capacity_iff :
    (p : Panel) (other : Failure) (v : Verdict) (e : Failure)
    → (other.is_api && other.status == 409) ≡ false
    → p.no_capacity ≡ false
    → failure_of other v ≡ some e
    → (((on_resize_error p e).0.no_capacity ≡ true) ↔ ((v ≡ no_capacity) ⊎ (v ≡ not_running)))
      × (((on_resize_error p e).1 ≡ false) ↔ ((v ≡ no_capacity) ⊎ (v ≡ not_running)))
unfolding failure_of on_resize_error
no_capacity_iff p other nothing_to_resize e g h k = ground arith
no_capacity_iff p other not_running e g h k = ground arith
no_capacity_iff p other memory_outside e g h k = ground arith
no_capacity_iff p other vcpus_outside e g h k = ground arith
no_capacity_iff p other no_capacity e g h k = ground arith
no_capacity_iff p other node_error e g h k =
    subst
      (λ (z : Failure).
        (((on_resize_error p z).0.no_capacity ≡ true)
          ↔ ((node_error ≡ no_capacity) ⊎ (node_error ≡ not_running)))
        × (((on_resize_error p z).1 ≡ false)
            ↔ ((node_error ≡ no_capacity) ⊎ (node_error ≡ not_running))))
      (some-injective _ _ k) (ground arith)
no_capacity_iff p other resized e g h k = ground arith

-- A number of vCPUs above the ceiling can be typed into the field and applied, and the server refuses it
-- with the error that names the ceiling.
pub vcpus_beyond_ceiling :
    (fits moved : Bool) (sb : Sandbox) (n : ℕ)
    → state_eq sb.state running ≡ true
    → has_cpu_field sb ≡ true
    → sb.vcpus ≤ max_cpu sb
    → max_cpu sb < n
    → let p = record (mount sb) { cpu = pos n } in
      (apply_disabled sb p ≡ false)
      × (resize_sandbox fits moved sb (bind (resize_body sb p)) ≡ vcpus_outside)
unfolding resize_sandbox resize_body apply_disabled dirty mount max_cpu has_cpu_field
vcpus_beyond_ceiling fits moved sb n r f v g = (rw r (ground arith), ground arith)

-- Once the size of a running sandbox is changed by somebody else, the autoscaler for one, the panel that
-- was mounted before takes its old size for a change of the user's: the toggle of the autoscaler is gone,
-- Apply is enabled, and it would ask for the old size.
pub stale_size :
    (sb now : Sandbox)
    → state_eq now.state running ≡ true
    → sb.memory_mib ≢ now.memory_mib
    → (has_toggle now (mount sb) ≡ false)
      × (apply_disabled now (mount sb) ≡ false)
      × ((resize_body now (mount sb)).0 ≡ some sb.memory_mib)
unfolding has_toggle apply_disabled dirty mount resize_body
stale_size sb now r n = rw r (ground arith)
