-- ===== src/Geometry/Server.antt =====
-- What POST /v0/sandboxes checks of a request's geometry: `createSandbox` of
-- pkg/controlplane/server.go up to the slot rounding, and `resolveGeometry` of defaults.go.
-- The database and the quota come after these checks and are not part of them.
use embervm.Prelude.{
  ℕ, ◌+◌, ◌-◌, ◌*◌, ◌/◌, Bool, true, false, not, ◌&&◌, ◌||◌, Option, none, some, ℤ, pos, pos_part,
  ltb_ℤ, is_zero, if◌then◌else◌, is_some,
}
use embervm.Geometry.{out_of_range, non_zero, positive, or_false}

-- The fields of `createSandboxBody` that are read here; an absent number is 0.
pub record Body : Type 0 where
  pub vcpus : ℤ
  pub memory_mib : ℤ
  pub data_disk_gib : ℤ
  pub max_vcpus : ℤ
  pub max_memory_mib : ℤ
  pub autoscale : Option Bool

pub record ElasticDefaults : Type 0 where
  pub disabled : Bool
  pub base_vcpus : ℤ
  pub base_memory_mib : ℤ
  pub data_disk_gib : ℤ
  pub max_vcpus : ℤ
  pub max_memory_mib : ℤ

pub data Outcome : Type 0 where
  accepted : Body → Outcome
  bad_request : Outcome

-- `if x <= 0 { x = d }`
abbrev pub or_default : ℤ → ℤ → ℤ
or_default x d = if positive x then x else d

-- `if x < low { x = low }`
abbrev pub at_least : ℤ → ℤ → ℤ
at_least x low = if ltb_ℤ x low then low else x

unfoldable pub with_defaults : ElasticDefaults → ElasticDefaults
with_defaults d =
    let base_vcpus : ℤ = or_default d.base_vcpus (pos 1) in
    let base_memory : ℤ = or_default d.base_memory_mib (pos 256) in
    record {
      disabled = d.disabled;
      base_vcpus = base_vcpus;
      base_memory_mib = base_memory;
      data_disk_gib = or_default d.data_disk_gib (pos 15);
      max_vcpus = at_least (or_default d.max_vcpus (pos 4)) base_vcpus;
      max_memory_mib = at_least (or_default d.max_memory_mib (pos 4096)) base_memory;
    }

-- The Go function `validateGeometry`, true where it returns no error.
unfoldable pub geometry_ok : Body → Bool
geometry_ok b =
    not (out_of_range b.vcpus 64)
    && not (out_of_range b.memory_mib 1048576)
    && not (out_of_range b.data_disk_gib 4096)

-- `validateCeilings`, true where it returns no error: the cases of memory, then those of vCPUs.
unfoldable pub ceiling_ok : (base max : ℤ) → ℕ → Bool
ceiling_ok base max bound =
    if non_zero max && is_zero base
    then false
    else not (non_zero max && (ltb_ℤ max base || ltb_ℤ (pos bound) max))

unfoldable pub ceilings_ok : Body → Bool
unfolding ceiling_ok
ceilings_ok b =
    ceiling_ok b.memory_mib b.max_memory_mib 1048576 && ceiling_ok b.vcpus b.max_vcpus 64

abbrev pub base_given : Body → Bool
base_given b = positive b.vcpus || positive b.memory_mib

abbrev pub max_given : Body → Bool
max_given b = positive b.max_vcpus || positive b.max_memory_mib

abbrev pub with_disk : ElasticDefaults → Body → Body
with_disk d b = record b {
  data_disk_gib = if is_zero b.data_disk_gib then d.data_disk_gib else b.data_disk_gib;
}

-- The three cases of the decision table, with `d` after `withDefaults`.
abbrev pub resolve_simple : ElasticDefaults → Body → Body
resolve_simple d b = record b {
  vcpus = d.base_vcpus;
  memory_mib = d.base_memory_mib;
  max_vcpus = if max_given b then b.max_vcpus else d.max_vcpus;
  max_memory_mib = if max_given b then b.max_memory_mib else d.max_memory_mib;
  autoscale = if is_some b.autoscale then b.autoscale else some true;
}

abbrev pub resolve_fixed : ElasticDefaults → Body → Body
resolve_fixed d b = record b {
  vcpus = if is_zero b.vcpus then d.base_vcpus else b.vcpus;
  memory_mib = if is_zero b.memory_mib then d.base_memory_mib else b.memory_mib;
}

-- The table over defaults that are filled in; `none` is the error of the case "base given, no
-- ceiling, autoscale true".
unfoldable pub resolve_with : ElasticDefaults → Body → Option Body
resolve_with d b =
    if d.disabled
    then some b
    else if not (base_given b)
    then some (with_disk d (resolve_simple d b))
    else if not (max_given b)
    then (if or_false b.autoscale then none else some (with_disk d (resolve_fixed d b)))
    else some (with_disk d b)

unfoldable pub resolve_geometry : Body → ElasticDefaults → Option Body
unfolding with_defaults resolve_with
resolve_geometry b d = resolve_with (with_defaults d) b

-- The Go function `roundUpToSlot`.
unfoldable pub round_up : ℕ → ℕ
round_up n = (n + 128 - 1) / 128 * 128

-- The ceiling after the rounding of `createSandbox`, for a base that is not negative.
unfoldable pub stored_ceiling : (base max : ℤ) → ℤ
unfolding round_up
stored_ceiling base max =
    if ltb_ℤ base max then pos (pos_part base + round_up (pos_part max - pos_part base)) else max

-- The part of `createSandbox` behind the resolution.
unfoldable pub finish : Body → Outcome
unfolding ceilings_ok stored_ceiling
finish b =
    if not (ceilings_ok b)
    then bad_request
    else if or_false b.autoscale && is_zero b.max_memory_mib && is_zero b.max_vcpus
    then bad_request
    else accepted (record b { max_memory_mib = stored_ceiling b.memory_mib b.max_memory_mib })

abbrev pub finish_resolved : Option Body → Outcome
finish_resolved none = bad_request
finish_resolved (some b) = finish b

unfoldable pub create_check : ElasticDefaults → Body → Outcome
unfolding geometry_ok resolve_geometry finish
create_check d b =
    if not (geometry_ok b) then bad_request else finish_resolved (resolve_geometry b d)

abbrev pub is_accepted : Outcome → Bool
is_accepted (accepted b) = true
is_accepted bad_request = false
