-- ===== src/Geometry.antt =====
-- Sandbox geometry: web/src/lib/geometry.ts, and the checks of the control plane that it mirrors,
-- pkg/controlplane/server.go and defaults.go. The numbers of a request are integers.
pub mod Slots
pub mod Server
pub mod Mirror
pub mod Exact
pub mod Dialog
pub mod Submit
pub mod Created
pub mod Reported
pub mod Tests
use embervm.Prelude.{
  ℕ, ◌+◌, ◌-◌, ◌*◌, ◌/◌, ◌%◌, ◌^◌, String, Bool, true, false, not, ◌&&◌, ◌||◌, Option, none, some,
  ℤ, pos, negsuc, pos_part, neg_part, ltb_ℤ, is_zero, leb, ◌==◌, if◌then◌else◌,
}

-- `TFn`: the English text or the Chinese one, by the current locale.
abbrev pub TFn : Type 0
TFn = String → String → String

abbrev pub hotplug_slot_mib : ℕ
hotplug_slot_mib = 128

abbrev pub max_vcpus_limit : ℕ
max_vcpus_limit = 64

abbrev pub max_memory_limit_mib : ℕ
max_memory_limit_mib = 2 ^ 20

abbrev pub max_disk_gib : ℕ
max_disk_gib = 4096

-- `Math.ceil(n / 128) * 128`
unfoldable pub round_up_to_slot : ℕ → ℕ
round_up_to_slot n =
    (if n % hotplug_slot_mib == 0 then n / hotplug_slot_mib else n / hotplug_slot_mib + 1)
    * hotplug_slot_mib

unfoldable pub effective_ceiling : ℕ → ℕ → ℕ
unfolding round_up_to_slot
effective_ceiling base max = if leb max base then base else base + round_up_to_slot (max - base)

-- `slotRoundingHint`, with the number that its text shows.
unfoldable pub slot_rounding_hint : ℕ → ℕ → Option ℕ
unfolding effective_ceiling
slot_rounding_hint base max =
    if leb max base
    then none
    else let eff : ℕ = effective_ceiling base max in if eff == max then none else some eff

pub record GeometryInput : Type 0 where
  pub vcpus : Option ℤ
  pub memory_mib : Option ℤ
  pub data_disk_gib : Option ℤ
  pub max_vcpus : Option ℤ
  pub max_memory_mib : Option ℤ
  pub autoscale : Option Bool

-- `x = 0` in a destructuring: an absent field counts as 0. An absent flag counts as false.
abbrev pub or_zero : Option ℤ → ℤ
or_zero none = pos 0
or_zero (some n) = n

abbrev pub or_false : Option Bool → Bool
or_false none = false
or_false (some b) = b

-- `n < 0 || n > bound`
abbrev pub out_of_range : ℤ → ℕ → Bool
out_of_range n bound = ltb_ℤ n (pos 0) || ltb_ℤ (pos bound) n

-- `n !== 0`, and `n > 0`.
abbrev pub non_zero : ℤ → Bool
non_zero n = not (is_zero n)

abbrev pub positive : ℤ → Bool
positive n = ltb_ℤ (pos 0) n

-- The rules of `validateGeometry` in the order of the code, over the defaulted fields.
unfoldable pub validate_fields :
    TFn → (vcpus memory disk max_vcpus max_memory : ℤ) → Bool → Option String
validate_fields t vcpus memory disk max_vcpus max_memory autoscale =
    if out_of_range vcpus max_vcpus_limit
    then some (t "vCPUs must be within 1–64" "vCPU 须在 1–64 之间")
    else if out_of_range memory max_memory_limit_mib
    then some (t "Memory must be within 1 MiB – 1 TiB" "内存须在 1 MiB – 1 TiB 之间")
    else if out_of_range disk max_disk_gib
    then some (t "Disk must be within 1–4096 GiB" "磁盘须在 1–4096 GiB 之间")
    else if non_zero max_memory && non_zero memory && ltb_ℤ max_memory memory
    then some (t "Memory ceiling must be ≥ base memory" "内存上限须不低于基础内存")
    else if non_zero max_memory && ltb_ℤ (pos max_memory_limit_mib) max_memory
    then some (t "Memory ceiling exceeds 1 TiB" "内存上限超过 1 TiB")
    else if non_zero max_vcpus && non_zero vcpus && ltb_ℤ max_vcpus vcpus
    then some (t "vCPU ceiling must be ≥ base vCPUs" "vCPU 上限须不低于基础 vCPU")
    else if non_zero max_vcpus && ltb_ℤ (pos max_vcpus_limit) max_vcpus
    then some (t "vCPU ceiling exceeds 64" "vCPU 上限超过 64")
    else if autoscale
        && (positive vcpus || positive memory)
        && not (positive max_vcpus || positive max_memory)
    then some (
        t
          "Autoscale needs a ceiling — set max memory/vCPUs, or leave the base empty for the platform default"
          "自动伸缩需要上限——请设置内存/vCPU 上限，或不填基础规格以使用平台默认")
    else none

unfoldable pub validate_geometry : GeometryInput → TFn → Option String
unfolding validate_fields
validate_geometry g t =
    validate_fields t (or_zero g.vcpus) (or_zero g.memory_mib) (or_zero g.data_disk_gib)
      (or_zero g.max_vcpus) (or_zero g.max_memory_mib) (or_false g.autoscale)
