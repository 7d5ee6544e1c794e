-- ===== src/Charts.antt =====
-- The sparkline of web/src/components/charts.tsx: its scale, the trend that it names, its reference lines
-- and the point under the pointer; and the series of web/src/pages/workspace/OverviewTab.tsx that it draws.
-- A value is a whole number of some unit, of which `one` make 1, at most 10^9 of them. The ends of the
-- scale are given plus 1, so that they are not negative, and a position by its numerator and denominator.
pub mod Bounds
pub mod Nearest
pub mod Series
pub mod Gauges
pub mod Tests
use embervm.Prelude.{
  ℕ, suc, ◌+◌, ◌-◌, ◌*◌, min, max, ltb, leb, ◌==◌, Bool, true, false, not, ◌&&◌, ◌||◌, Option, none,
  some, List, [], ◌∷◌, length, get_elem?, ◌≤◌, ◌<◌, ◌≡◌, ◌↔◌, arith, keep, ℤ, pos, negsuc,
  if◌then◌else◌,
}

pub record SeriesPoint : Type 0 where
  pub at : ℕ
  pub value : ℕ

abbrev pub view_width : ℕ
view_width = 300

abbrev pub view_height : ℕ
view_height = 64

abbrev pub pad_y : ℕ
pad_y = 6

-- `m - n`
abbrev pub minus : ℕ → ℕ → ℤ
minus m n = if leb n m then pos (m - n) else negsuc (n - m - 1)

abbrev pub dist : ℕ → ℕ → ℕ
dist m n = (m - n) + (n - m)

abbrev pub last_of : SeriesPoint → List SeriesPoint → SeriesPoint
last_of p [] = p
last_of p (q ∷ ps) = last_of q ps

abbrev pub min_of : SeriesPoint → List SeriesPoint → ℕ
min_of p [] = p.value
min_of p (q ∷ ps) = min p.value (min_of q ps)

abbrev pub max_of : SeriesPoint → List SeriesPoint → ℕ
max_of p [] = p.value
max_of p (q ∷ ps) = max p.value (max_of q ps)

-- `a ?? b`
abbrev pub or_else : Option ℕ → ℕ → ℕ
or_else none b = b
or_else (some a) b = a

-- `lo` and `hi` plus 1.
pub record Scale : Type 0 where
  pub t0 : ℕ
  pub t_span : ℕ
  pub lo : ℕ
  pub hi : ℕ

-- `x`, as a fraction.
unfoldable pub x : Scale → ℕ → ℤ × ℕ
x s at = (minus (view_width * at) (view_width * s.t0), s.t_span)

module _ (one : ℕ) where
  -- The bottom of the scale where the values do not differ, plus 1.
  abbrev pub flat_lo : Option ℕ → ℕ → ℕ
  flat_lo none lo = lo
  flat_lo (some y_min) lo = max (y_min + one) lo

  -- `scale`, for the points `p ∷ ps`.
  unfoldable pub scale : SeriesPoint → List SeriesPoint → (y_min y_max : Option ℕ) → Scale
  scale p ps y_min y_max =
      let lo = or_else y_min (min_of p ps) in
      let hi = or_else y_max (max_of p ps) in
      let flat = leb hi lo in
      record {
        t0 = p.at;
        t_span = max 1 ((last_of p ps).at - p.at);
        lo = if flat then flat_lo y_min lo else lo + one;
        hi = if flat then lo + one + one else hi + one;
      }

  -- `y`, as a fraction.
  unfoldable pub y : Scale → ℕ → ℤ × ℕ
  y s v = (
    minus ((view_height - pad_y) * (s.hi - s.lo) + (view_height - 2 * pad_y) * s.lo)
        ((view_height - 2 * pad_y) * (v + one)),
    s.hi - s.lo,
  )

  -- Whether a reference line is drawn: `ry` is from half a unit above the pad to half a unit below it.
  unfoldable pub has_ref_line : Scale → ℕ → Bool
  has_ref_line s v =
      let span = s.hi - s.lo in
      not (ltb (105 * span + 104 * s.lo) (104 * (v + one)))
      && not (ltb (104 * (v + one) + span) (104 * s.lo))

pub data Trend : Type 0 where
  fall steady rise : Trend

-- The value that the last one is compared with.
abbrev pub previous : SeriesPoint → List SeriesPoint → SeriesPoint
previous p ps = elim (get_elem? (p ∷ ps) (length (p ∷ ps) - 13)) [ some q ↦ q | none ↦ p ]

-- `trend`: a change below 3 %, or none at all, is steady.
unfoldable pub trend : SeriesPoint → List SeriesPoint → Trend
trend p ps =
    let last = (last_of p ps).value in
    let prev = (previous p ps).value in
    if dist last prev == 0 || ltb (100 * dist last prev) (3 * prev)
    then steady
    else if ltb prev last
    then rise
    else fall

-- `|built.x(p.at) - fx|`, times what makes it whole, for a pointer `px` pixels from the left of a
-- rectangle of the given width.
unfoldable pub distance : Scale → (px width : ℕ) → SeriesPoint → ℕ
distance s px width p = dist (p.at * width) (s.t0 * width + px * s.t_span)

-- The loop of `onMove`, with `best` and `bestD`, which is none for Infinity.
unfoldable pub nearest_from :
    (SeriesPoint → ℕ) → SeriesPoint → Option ℕ → List SeriesPoint → SeriesPoint
nearest_from d best best_d [] = best
nearest_from d best none (p ∷ ps) = nearest_from d p (some (d p)) ps
nearest_from d best (some b) (p ∷ ps) =
    if ltb (d p) b then nearest_from d p (some (d p)) ps else nearest_from d best (some b) ps

unfoldable pub on_move : Scale → (px width : ℕ) → SeriesPoint → List SeriesPoint → SeriesPoint
unfolding distance nearest_from
on_move s px width p ps = nearest_from (distance s px width) p none (p ∷ ps)

-- The trend is steady exactly within 3 % of the earlier value, and names the direction of the change
-- otherwise.
pub trend_iff :
    (p : SeriesPoint) (ps : List SeriesPoint)
    → let last = (last_of p ps).value in
      let prev = (previous p ps).value in
      ((trend p ps ≡ rise) ↔ ((prev < last) × (103 * prev ≤ 100 * last)))
      × ((trend p ps ≡ fall) ↔ ((last < prev) × (100 * last ≤ 97 * prev)))
unfolding trend
trend_iff p ps = (ground arith, ground arith)
