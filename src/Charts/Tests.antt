-- ===== src/Charts/Tests.antt =====
-- The sparkline on a concrete series.
use embervm.Prelude.{
  ℕ, length, ◌≤◌, ◌<◌, ◌-◌, Bool, true, false, none, some, List, [], ◌∷◌, All, ◌≡◌, refl, arith,
}
use embervm.Charts.{
  SeriesPoint, scale, x, y, view_width, view_height, pad_y, trend, rise, on_move, nearest_from,
  distance,
}
use embervm.Health.{answer, blank, capacity, add_sample}
use embervm.Health.Ring.{answers}
use embervm.Charts.Gauges.{gauges, last_shown, gauges-answers, length-gauges}
use embervm.Charts.Bounds.{Within, scale-Within}
use embervm.Charts.Nearest.{IsFirstNearest, on_move-IsFirstNearest}
use embervm.Charts.Series.{Sample, psi_mem, series, psi_max, psi_mem-Within}

abbrev point : ℕ → ℕ → SeriesPoint
point at value = record { at = at; value = value }

abbrev rest : List SeriesPoint
rest = point 2500 5 ∷ point 5000 8 ∷ []

rising : trend (point 0 4) rest ≡ rise
unfolding trend
rising = refl

middle : on_move (scale 1 (point 0 4) rest none none) 160 300 (point 0 4) rest ≡ point 2500 5
unfolding on_move nearest_from distance scale
middle = refl

scale-Within_example :
    let s = scale 1 (point 0 4) rest none (some 10) in
    (s.lo < s.hi)
    × (0 < s.t_span)
    × All
        (λ (q : SeriesPoint).
          Within 0 view_width (x s q.at) × Within pad_y (view_height - pad_y) (y 1 s q.value))
        (point 0 4 ∷ rest)
scale-Within_example =
    scale-Within 1 (point 0 4) rest none (some 10) (omega arith) (omega arith, (omega arith, tt))
      ((refl, refl), ((refl, refl), ((refl, refl), tt)))

on_move-IsFirstNearest_example :
    IsFirstNearest
      (distance (scale 1 (point 0 4) rest none none) 160 300)
      (on_move (scale 1 (point 0 4) rest none none) 160 300 (point 0 4) rest)
      (point 0 4 ∷ rest)
on_move-IsFirstNearest_example =
    on_move-IsFirstNearest (scale 1 (point 0 4) rest none none) 160 300 (point 0 4) rest

abbrev sample : ℕ → Bool → ℕ → Sample
sample at ok psi = record {
  at = at;
  health = record {
    ok = ok;
    mem_total_kib = some 524288;
    mem_available_kib = some 131072;
    psi_mem_some10 = some psi;
    psi_cpu_some10 = none;
    seq = none;
    resumes = none;
  };
}

abbrev samples : List Sample
samples = sample 100 true 1250 ∷ sample 2600 false 0 ∷ sample 5100 true 30 ∷ []

only_ok : psi_mem samples ≡ point 100 1250 ∷ point 5100 30 ∷ []
unfolding psi_mem series
only_ok = refl

psi_mem-samples :
    let s = scale 100 (point 100 1250) (point 5100 30 ∷ []) (some 0) (some (psi_max samples)) in
    All
      (λ (q : SeriesPoint).
        Within 0 view_width (x s q.at) × Within pad_y (view_height - pad_y) (y 100 s q.value))
      (point 100 1250 ∷ point 5100 30 ∷ [])
psi_mem-samples =
    psi_mem-Within samples (point 100 1250) (point 5100 30 ∷ [])
      (omega arith, (omega arith, (omega arith, tt))) only_ok

gauges-answers_example :
    let g =
      gauges
        (answer
          (some (sample 9 true 255))
          (answers blank (none ∷ some (sample 4 true 4) ∷ []))).snapshot in
    (g.memory_pressure ≡ last_shown g.memory_pressure_points)
    × (g.cpu_pressure ≡ last_shown g.cpu_pressure_points)
unfolding add_sample
gauges-answers_example =
    gauges-answers (none ∷ some (sample 4 true 4) ∷ []) (some (sample 9 true 255))
      (sample 9 true 255) refl refl

length-gauges_example :
    let g = gauges (answer none (answers blank (none ∷ some (sample 4 true 4) ∷ []))).snapshot in
    (length g.memory_points ≤ capacity)
    × (length g.memory_pressure_points ≤ capacity)
    × (length g.cpu_pressure_points ≤ capacity)
length-gauges_example = length-gauges (none ∷ some (sample 4 true 4) ∷ []) none
