-- ===== src/Charts/Bounds.antt =====
-- Where the sparkline draws its points.
use embervm.Prelude.{
  ℕ, ◌+◌, ◌-◌, ◌*◌, ◌≤◌, ◌<◌, leb, Bool, true, Option, none, some, List, [], ◌∷◌, All, All-imp,
  All-zip, ℤ, pos_part, neg_part, ◌≡◌, arith,
}
use embervm.Charts.{
  SeriesPoint, Scale, view_width, view_height, pad_y, last_of, min_of, max_of, scale, x, y,
}

-- A fraction that is not below `a` and not above `b`.
abbrev pub Within : ℕ → ℕ → ℤ × ℕ → Type 0
Within a b q = (neg_part q.0 ≡ 0) × (a * q.1 ≤ pos_part q.0) × (pos_part q.0 ≤ b * q.1)

-- The times do not go back.
abbrev pub Ascending : SeriesPoint → List SeriesPoint → Type 0
Ascending p [] = Unit
Ascending p (q ∷ ps) = (p.at ≤ q.at) × Ascending q ps

abbrev pub at_least : Option ℕ → ℕ → Bool
at_least none v = true
at_least (some m) v = leb m v

abbrev pub at_most : Option ℕ → ℕ → Bool
at_most none v = true
at_most (some m) v = leb v m

-- The values are in the part of the domain that is given.
abbrev pub InDomain : Option ℕ → Option ℕ → List SeriesPoint → Type 0
InDomain y_min y_max ps =
    All (λ (q : SeriesPoint). (at_least y_min q.value ≡ true) × (at_most y_max q.value ≡ true)) ps

first-le-last :
    (p : SeriesPoint) (ps : List SeriesPoint) → Ascending p ps → p.at ≤ (last_of p ps).at
first-le-last p [] a = omega arith
first-le-last p (q ∷ ps) a = omega (arith, a.0, first-le-last q ps a.1)

times :
    (p : SeriesPoint) (ps : List SeriesPoint)
    → Ascending p ps
    → All (λ (q : SeriesPoint). (p.at ≤ q.at) × (q.at ≤ (last_of p ps).at)) (p ∷ ps)
times p [] a = ((omega arith, omega arith), tt)
times p (q ∷ ps) a = (
  (omega arith, omega (arith, a.0, first-le-last q ps a.1)),
  All-imp (λ r k. (omega (arith, a.0, k.0), k.1)) (q ∷ ps) (times q ps a.1),
)

values :
    (p : SeriesPoint) (ps : List SeriesPoint)
    → All (λ (q : SeriesPoint). (min_of p ps ≤ q.value) × (q.value ≤ max_of p ps)) (p ∷ ps)
values p [] = ((omega arith, omega arith), tt)
values p (q ∷ ps) = (
  (omega arith, omega arith),
  All-imp (λ r k. (omega (arith, k.0), omega (arith, k.1))) (q ∷ ps) (values q ps),
)

x-Within : (s : Scale) (at : ℕ) → s.t0 ≤ at → at ≤ s.t0 + s.t_span → Within 0 view_width (x s at)
unfolding x
x-Within s at a b = ground arith

module _ (one : ℕ) where
  y-Within :
      (s : Scale) (v : ℕ)
      → s.lo ≤ v + one
      → v + one ≤ s.hi
      → Within pad_y (view_height - pad_y) (y one s v)
  unfolding y
  y-Within s v a b = ground arith

  -- A value between the least and the greatest, and in the domain, is on the scale.
  on_scale :
      (p : SeriesPoint) (ps : List SeriesPoint) (y_min y_max : Option ℕ) (v : ℕ)
      → (min_of p ps ≤ v) × (v ≤ max_of p ps)
      → (at_least y_min v ≡ true) × (at_most y_max v ≡ true)
      → ((scale one p ps y_min y_max).lo ≤ v + one) × (v + one ≤ (scale one p ps y_min y_max).hi)
  unfolding scale
  on_scale p ps none none v a b = (ground (arith, a), ground (arith, a))
  on_scale p ps (some m) none v a b = (ground (arith, a, b), ground (arith, a, b))
  on_scale p ps none (some n) v a b = (ground (arith, a, b), ground (arith, a, b))
  on_scale p ps (some m) (some n) v a b = (ground (arith, a, b), ground (arith, a, b))

  on_scales :
      (p : SeriesPoint) (ps : List SeriesPoint) (y_min y_max : Option ℕ)
      → InDomain y_min y_max (p ∷ ps)
      → let s = scale one p ps y_min y_max in
        All (λ (q : SeriesPoint). (s.lo ≤ q.value + one) × (q.value + one ≤ s.hi)) (p ∷ ps)
  on_scales p ps y_min y_max d =
      All-zip (λ q m k. on_scale p ps y_min y_max q.value m k) (p ∷ ps) (values p ps) d

  on_time :
      (p : SeriesPoint) (ps : List SeriesPoint) (y_min y_max : Option ℕ) (at : ℕ)
      → (p.at ≤ at) × (at ≤ (last_of p ps).at)
      → let s = scale one p ps y_min y_max in (s.t0 ≤ at) × (at ≤ s.t0 + s.t_span)
  unfolding scale
  on_time p ps y_min y_max at a = (a.0, ground (arith, a))

  not_empty :
      (p : SeriesPoint) (ps : List SeriesPoint) (y_min y_max : Option ℕ)
      → 0 < one
      → ((scale one p ps y_min y_max).lo < (scale one p ps y_min y_max).hi)
        × (0 < (scale one p ps y_min y_max).t_span)
  unfolding scale
  not_empty p ps none y_max o = (ground (arith, o), ground arith)
  not_empty p ps (some m) y_max o = (ground (arith, o), ground arith)

  -- A series whose times do not go back and whose values are in the part of the domain that is given is
  -- drawn inside the picture: each point is between the left and the right border and between the upper
  -- and the lower pad; and no scale is empty, so that nothing is divided by 0.
  pub scale-Within :
      (p : SeriesPoint) (ps : List SeriesPoint) (y_min y_max : Option ℕ)
      → 0 < one
      → Ascending p ps
      → InDomain y_min y_max (p ∷ ps)
      → let s = scale one p ps y_min y_max in
        (s.lo < s.hi)
        × (0 < s.t_span)
        × All
            (λ (q : SeriesPoint).
              Within 0 view_width (x s q.at) × Within pad_y (view_height - pad_y) (y one s q.value))
            (p ∷ ps)
  scale-Within p ps y_min y_max o a d =
      let (high, wide) = not_empty p ps y_min y_max o in
      (
        high,
        wide,
        All-zip
            (λ q t v. (
              x-Within (scale one p ps y_min y_max) q.at (on_time p ps y_min y_max q.at t).0
                  (on_time p ps y_min y_max q.at t).1,
              y-Within (scale one p ps y_min y_max) q.value v.0 v.1,
            ))
            (p ∷ ps) (times p ps a) (on_scales p ps y_min y_max d),
      )
