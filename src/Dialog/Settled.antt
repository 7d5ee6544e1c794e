-- ===== src/Dialog/Settled.antt =====
-- The dialog element follows its parent's state.
use embervm.Prelude.{
  ℕ, zero, suc, ◌+◌, ◌≤◌, ltb, false, not, ◌&&◌, List, [], ◌∷◌, if◌then◌else◌, ◌≡◌, refl, arith,
}
use embervm.Dialog.{
  World, initial, effect, set_open, Event, shown, hidden, escaped, dismissed, delivered, step, run,
}

-- An element that is shown belongs to a parent that is open; and a parent that is open has its element
-- shown, or an event that will close it.
abbrev pub IsSettling : World → Type 0
IsSettling w =
    ((w.native && not w.is_open) ≡ false)
    × ((w.is_open && not w.native && not (ltb 0 w.closes)) ≡ false)

step-IsSettling : (w : World) (e : Event) → IsSettling w → IsSettling (step w e)
unfolding step set_open effect
step-IsSettling w shown h = (ground (arith, h), ground (arith, h))
step-IsSettling w hidden h = (ground (arith, h), ground (arith, h))
step-IsSettling w escaped h = (ground (arith, h), ground (arith, h))
step-IsSettling w dismissed h = (ground (arith, h), ground (arith, h))
step-IsSettling w delivered h = (ground (arith, h), ground (arith, h))

run-IsSettling : (w : World) (es : List Event) → IsSettling w → IsSettling (run w es)
unfolding run
run-IsSettling w [] h = h
run-IsSettling w (e ∷ es) h = run-IsSettling (step w e) es (step-IsSettling w e h)

-- Whatever happened, while no event of the element is still to come, the element is shown exactly while
-- its parent is open.
pub run-native :
    (es : List Event)
    → (run initial es).closes ≡ 0
    → (run initial es).native ≡ (run initial es).is_open
run-native es h = let (a, b) = run-IsSettling initial es (refl, refl) in ground (arith, a, b, h)

abbrev pub deliver : ℕ → World → World
deliver zero w = w
deliver (suc n) w = deliver n (step w delivered)

abbrev pub weight : World → ℕ
weight w = if ltb 0 w.closes then w.closes + (if w.native then 1 else 0) else 0

lighter : (n : ℕ) (w : World) → IsSettling w → weight w ≤ suc n → weight (step w delivered) ≤ n
unfolding step set_open effect
lighter n w h l = ground (arith, h, l)

deliver-settles : (n : ℕ) (w : World) → IsSettling w → weight w ≤ n → (deliver n w).closes ≡ 0
deliver-settles zero w h l = ground (arith, l)
deliver-settles (suc n) w h l =
    deliver-settles n (step w delivered) (step-IsSettling w delivered h) (lighter n w h l)

-- The events of the element come to an end: whatever happened, once one more was delivered than were still
-- to come, none is, although a delivery can close the element and so cause another.
pub deliver-run :
    (es : List Event) → let w = run initial es in (deliver (suc w.closes) w).closes ≡ 0
deliver-run es =
    let w : World = run initial es in
    deliver-settles (suc w.closes) w (run-IsSettling initial es (refl, refl)) (ground arith)
