-- ===== src/Geometry/Created.antt =====
-- What the dialog of web/src/components/createSandbox.tsx reports of the sandbox that the server has made,
-- with the geometry that the server has resolved.
use embervm.Prelude.{Bool, ◌||◌, ℤ, is_zero, if◌then◌else◌}
use embervm.Geometry.{positive, or_false}
use embervm.Geometry.Server.{Body}

-- The toast: from the memory up to the ceiling, and whether autoscale is said to be on; or both sizes.
pub data Created : Type 0 where
  up_to : (memory_mib max_memory_mib : ℤ) (autoscale : Bool) → Created
  fixed_at : (memory_mib vcpus : ℤ) → Created

-- `onSuccess`, for the sandbox with the geometry `b`.
unfoldable pub on_created : Body → Created
on_created b =
    if positive b.max_memory_mib || positive b.max_vcpus
    then up_to b.memory_mib (if is_zero b.max_memory_mib then b.memory_mib else b.max_memory_mib)
        (or_false b.autoscale)
    else fixed_at b.memory_mib b.vcpus
