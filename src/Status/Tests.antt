-- ===== src/Status/Tests.antt =====
-- The status on concrete sandboxes.
use embervm.Prelude.{some, ◌≡◌, refl}
use embervm.Term.{running, paused_warm}
use embervm.Status.{gauge, state_label, meta, mem_gauge}

label-warm : state_label paused_warm (λ en zh. en) ≡ "Paused · warm"
unfolding state_label meta
label-warm = refl

fill-half : (mem_gauge running 512 (some 256) (some 1024)).fill ≡ 51200
unfolding mem_gauge gauge
fill-half = refl
