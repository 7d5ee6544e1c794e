-- ===== src/SplitPane.antt =====
-- The two-pane split of web/src/components/split.tsx: the width of the left pane, how a drag and the
-- arrow keys change it, and what is kept of it for the next visit. Widths are whole pixels.
pub mod Tests
use embervm.Prelude.{
  ℕ, suc, ◌+◌, ◌-◌, ◌≤◌, min, max, leb, ◌==◌, Option, none, some, List, [], ◌∷◌, ◌++◌,
  if◌then◌else◌, ℤ, pos, negsuc, ◌≡◌, refl, ap, arith,
}

pub record Props : Type 0 where
  pub default_left : ℕ
  pub min_left : ℕ
  pub min_right : ℕ

abbrev pub default_props : Props
default_props = record { default_left = 280; min_left = 200; min_right = 380 }

-- `saved` is the number under the pane's key in localStorage.
pub record Pane : Type 0 where
  pub left_w : ℕ
  pub saved : Option ℕ

abbrev or_zero : Option ℕ → ℕ
or_zero none = 0
or_zero (some n) = n

-- `useState` at the first render; `Number(null)` is 0.
unfoldable pub initial : Props → Option ℕ → Pane
initial p stored =
    let saved : ℕ = or_zero stored in
    record { left_w = if leb p.min_left saved then saved else p.default_left; saved = stored }

-- `clientWidth ?? 1200`
abbrev pub total_of : Option ℕ → ℕ
total_of none = 1200
total_of (some n) = n

-- `clamp`; `min_left` not being negative, a difference below 0 counts as 0 here.
unfoldable pub clamp : Props → Option ℕ → ℕ → ℕ
clamp p width w = min (max w p.min_left) (max p.min_left (total_of width - p.min_right))

-- `commit`; a whole width is its own `Math.round`.
unfoldable pub commit : Props → Option ℕ → Pane → ℕ → Pane
commit p width s w = let v = clamp p width w in record { left_w = v; saved = some v }

-- A width moved by some pixels; `clamp` takes a width below 0 as it takes 0.
abbrev pub shift : ℕ → ℤ → ℕ
shift w (pos n) = w + n
shift w (negsuc n) = w - suc n

-- The `pointermove` events of one drag, by their distances from where it started; the window's width
-- comes with each.
unfoldable pub drag_from : Props → ℕ → Pane → List (Option ℕ × ℤ) → Pane
drag_from p start s [] = s
drag_from p start s ((width, dx) ∷ moves) =
    drag_from p start (commit p width s (shift start dx)) moves

unfoldable pub drag : Props → Pane → List (Option ℕ × ℤ) → Pane
drag p s moves = drag_from p s.left_w s moves

pub data Arrow : Type 0 where
  arrow_left arrow_right : Arrow

-- `onKeyDown`
unfoldable pub on_key_down : Props → Option ℕ → Pane → Arrow → Pane
on_key_down p width s arrow_left = commit p width s (shift s.left_w (negsuc 15))
on_key_down p width s arrow_right = commit p width s (shift s.left_w (pos 16))

drag_from-append :
    (p : Props) (start : ℕ) (s : Pane) (moves : List (Option ℕ × ℤ)) (width : Option ℕ) (dx : ℤ)
    → drag_from p start s (moves ++ (width, dx) ∷ []) ≡ commit p width s (shift start dx)
unfolding drag_from commit
drag_from-append p start s [] width dx = refl
drag_from-append p start s ((w, d) ∷ moves) width dx =
    drag_from-append p start (commit p w s (shift start d)) moves width dx

-- A drag ends at the width that its last position alone gives, whatever came between: the width at its
-- start moved by the distance, clamped.
pub drag-last :
    (p : Props) (s : Pane) (moves : List (Option ℕ × ℤ)) (width : Option ℕ) (dx : ℤ)
    → (drag p s (moves ++ (width, dx) ∷ [])).left_w ≡ clamp p width (shift s.left_w dx)
unfolding drag commit
drag-last p s moves width dx = ap (λ v. v.left_w) (drag_from-append p s.left_w s moves width dx)

-- However the width came about that is committed, the left pane keeps its minimal width, the right one
-- keeps its own where the window has room for both, and the next visit starts with the same width.
pub initial-commit :
    (p : Props) (width : Option ℕ) (s : Pane) (w : ℕ)
    → (p.min_left ≤ (commit p width s w).left_w)
      × ((commit p width s w).left_w ≤ max p.min_left (total_of width - p.min_right))
      × ((initial p (commit p width s w).saved).left_w ≡ (commit p width s w).left_w)
unfolding initial commit clamp
initial-commit p width s w = (omega arith, omega arith, ground arith)
