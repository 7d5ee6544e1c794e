-- ===== src/Geometry/Slots.antt =====
-- The ceiling that is stored, and its 128 MiB slots.
use embervm.Prelude.{ℕ, ◌+◌, ◌-◌, ◌%◌, ◌≤◌, ◌<◌, some, ◌≡◌, ◌≢◌, ◌↔◌, arith}
use embervm.Geometry.{round_up_to_slot, effective_ceiling, slot_rounding_hint}

-- `roundUpToSlot` gives the least multiple of 128 that is not below `n`.
round_up_to_slot_bounds :
    (n : ℕ)
    → (n ≤ round_up_to_slot n) × (round_up_to_slot n < n + 128) × (round_up_to_slot n % 128 ≡ 0)
unfolding round_up_to_slot
round_up_to_slot_bounds n = ground arith

-- A ceiling on the base's grid of slots is kept.
pub effective_ceiling_of_grid :
    (base max : ℕ) → base ≤ max → (max - base) % 128 ≡ 0 → effective_ceiling base max ≡ max
unfolding effective_ceiling
effective_ceiling_of_grid base max h k = ground arith

effective_ceiling_above :
    (base max : ℕ)
    → base < max
    → (max ≤ effective_ceiling base max)
      × (effective_ceiling base max < max + 128)
      × ((effective_ceiling base max - base) % 128 ≡ 0)
unfolding effective_ceiling
effective_ceiling_above base max h = ground arith

-- Above the base the effective ceiling is not below the ceiling that was asked for, less than one
-- slot above it, a whole number of 128 MiB slots above the base, and its own effective ceiling.
pub effective_ceiling_bounds :
    (base max : ℕ)
    → base < max
    → (max ≤ effective_ceiling base max)
      × (effective_ceiling base max < max + 128)
      × ((effective_ceiling base max - base) % 128 ≡ 0)
      × (effective_ceiling base (effective_ceiling base max) ≡ effective_ceiling base max)
effective_ceiling_bounds base max h =
    let (low, high, grid) = effective_ceiling_above base max h in
    (low, high, grid, effective_ceiling_of_grid base _ (omega arith) grid)

-- The hint shows exactly when the ceiling is above the base and off the grid, with the effective
-- ceiling.
pub slot_rounding_hint_iff :
    (base max shown : ℕ)
    → (slot_rounding_hint base max ≡ some shown)
      ↔ ((base < max) × ((max - base) % 128 ≢ 0) × (shown ≡ effective_ceiling base max))
unfolding slot_rounding_hint
slot_rounding_hint_iff base max shown = ground arith
