-- ===== src/Dialog.antt =====
-- The dialog of web/src/components/ui.tsx, which ConfirmDialog and the drawer share: the state `open` of
-- its parent, whose `onClose` clears it, and the browser's dialog element. The element closes by itself
-- at Escape, and tells of every closing by an event that comes later.
pub mod Settled
pub mod Tests
use embervm.Prelude.{ℕ, suc, ◌-◌, ltb, Bool, true, false, not, ◌&&◌, List, [], ◌∷◌, if◌then◌else◌}

-- `closes` counts the events `close` that are still to come.
pub record World : Type 0 where
  pub is_open : Bool
  pub native : Bool
  pub closes : ℕ

abbrev pub initial : World
initial = record { is_open = false; native = false; closes = 0 }

-- `d.close()` and Escape, of an element that is open.
abbrev pub close_native : World → World
close_native w = record w { native = false; closes = suc w.closes }

-- The effect of `Dialog`, which runs when `props.open` has changed.
unfoldable pub effect : World → World
effect w =
    if w.is_open && not w.native
    then record w { native = true }
    else if not w.is_open && w.native
    then close_native w
    else w

abbrev pub differs : Bool → Bool → Bool
differs true b = not b
differs false b = b

-- The parent sets its state.
unfoldable pub set_open : Bool → World → World
unfolding effect
set_open b w = if differs b w.is_open then effect (record w { is_open = b }) else w

-- The parent opens or closes it; Escape; the button ✕ or a click on the backdrop; and an event `close`,
-- which calls `onClose` too.
pub data Event : Type 0 where
  shown hidden escaped dismissed delivered : Event

unfoldable pub step : World → Event → World
unfolding set_open
step w shown = set_open true w
step w hidden = set_open false w
step w escaped = if w.native then close_native w else w
step w dismissed = if w.native then set_open false w else w
step w delivered = if ltb 0 w.closes then set_open false (record w { closes = w.closes - 1 }) else w

unfoldable pub run : World → List Event → World
unfolding step
run w [] = w
run w (e ∷ es) = run (step w e) es
