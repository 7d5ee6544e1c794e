-- ===== src/Charts/Series.antt =====
-- The series of a sandbox's page, web/src/pages/workspace/OverviewTab.tsx: the pressures of `Gauges`, in
-- hundredths, and the effective memory of `ResourcesPanel`, in hundredths of a KiB, with its lines for the
-- base and the ceiling.
use embervm.Prelude.{
  ℕ, ◌-◌, ◌*◌, ◌≤◌, ◌<◌, max, ltb, ◌==◌, Bool, true, false, not, Option, none, some, List, [], ◌∷◌,
  ◌++◌, All, All-imp, if◌then◌else◌, Bool-cases, inl, inr, ◌≡◌, subst, arith,
}
use embervm.Api.{Sandbox}
use embervm.Health.{HealthSample}
use embervm.Workspace.{GuestHealth}
use embervm.Resources.{base, max_mem}
use embervm.Charts.{SeriesPoint, view_width, view_height, pad_y, scale, x, y, has_ref_line}
use embervm.Charts.Bounds.{Within, Ascending, InDomain, scale-Within}

abbrev pub Sample : Type 0
Sample = HealthSample GuestHealth

abbrev pub point_of : Sample → Option ℕ → List SeriesPoint → List SeriesPoint
point_of s none rest = rest
point_of s (some v) rest = record { at = s.at; value = v } ∷ rest

unfoldable pub series : List Sample → (Sample → Option ℕ) → List SeriesPoint
series [] pick = []
series (s ∷ ss) pick =
    let rest = series ss pick in if not s.health.ok then rest else point_of s (pick s) rest

abbrev pub or_zero : Option ℕ → ℕ
or_zero none = 0
or_zero (some n) = n

unfoldable pub psi_mem : List Sample → List SeriesPoint
unfolding series
psi_mem samples = series samples (λ s. some (or_zero s.health.psi_mem_some10))

unfoldable pub psi_cpu : List Sample → List SeriesPoint
unfolding series
psi_cpu samples = series samples (λ s. some (or_zero s.health.psi_cpu_some10))

abbrev pub greatest : List SeriesPoint → ℕ
greatest [] = 0
greatest (p ∷ ps) = max p.value (greatest ps)

-- `psiMax`, at least 10.
unfoldable pub psi_max : List Sample → ℕ
unfolding psi_mem psi_cpu
psi_max samples = max 1000 (max (greatest (psi_mem samples)) (greatest (psi_cpu samples)))

abbrev truthy : Option ℕ → Option ℕ
truthy none = none
truthy (some n) = if n == 0 then none else some (100 * n)

-- `memHistory`
unfoldable pub mem_history : List Sample → List SeriesPoint
unfolding series
mem_history samples = series samples (λ s. truthy s.health.mem_total_kib)

abbrev pub hundredths_of_kib : ℕ
hundredths_of_kib = 102400

-- The top of the chart of the effective memory, 6 % above the ceiling.
unfoldable pub mem_top : Sandbox → ℕ
unfolding max_mem
mem_top sb = 108544 * max (max_mem sb) sb.memory_mib

-- Its reference lines.
unfoldable pub ref_lines : Sandbox → List ℕ
unfolding base max_mem
ref_lines sb =
    (if ltb (base sb) (max_mem sb) then hundredths_of_kib * max_mem sb ∷ [] else [])
    ++ hundredths_of_kib * base sb ∷ []

-- The times of the samples do not go back.
abbrev pub InOrder : ℕ → List Sample → Type 0
InOrder t [] = Unit
InOrder t (s ∷ ss) = (t ≤ s.at) × InOrder s.at ss

abbrev AllAfter : ℕ → List SeriesPoint → Type 0
AllAfter t [] = Unit
AllAfter t (p ∷ ps) = (t ≤ p.at) × Ascending p ps

AllAfter-later : (t u : ℕ) (ps : List SeriesPoint) → t ≤ u → AllAfter u ps → AllAfter t ps
AllAfter-later t u [] l h = tt
AllAfter-later t u (p ∷ ps) l h = (omega (arith, l, h.0), h.1)

Ascending-cons : (p : SeriesPoint) (ps : List SeriesPoint) → AllAfter p.at ps → Ascending p ps
Ascending-cons p [] h = tt
Ascending-cons p (q ∷ ps) h = h

point_of-AllAfter :
    (s : Sample) (t : ℕ) (o : Option ℕ) (rest : List SeriesPoint)
    → t ≤ s.at
    → AllAfter s.at rest
    → AllAfter t (point_of s o rest)
point_of-AllAfter s t none rest l h = AllAfter-later t s.at rest l h
point_of-AllAfter s t (some v) rest l h =
    (l, Ascending-cons (record { at = s.at; value = v }) rest h)

series-AllAfter :
    (t : ℕ) (ss : List Sample) (pick : Sample → Option ℕ)
    → InOrder t ss
    → AllAfter t (series ss pick)
unfolding series
series-AllAfter t [] pick h = tt
series-AllAfter t (s ∷ ss) pick h =
    let ih : AllAfter s.at (series ss pick) = series-AllAfter s.at ss pick h.1 in
    either t (not s.health.ok) _ _ (AllAfter-later t s.at (series ss pick) h.0 ih)
      (point_of-AllAfter s t (pick s) (series ss pick) h.0 ih)
  where
    either :
        (t : ℕ) (b : Bool) (xs ys : List SeriesPoint)
        → AllAfter t xs
        → AllAfter t ys
        → AllAfter t (if b then xs else ys)
    either t true xs ys hx hy = hx
    either t false xs ys hx hy = hy

greatest-All : (ps : List SeriesPoint) → All (λ (q : SeriesPoint). q.value ≤ greatest ps) ps
greatest-All [] = tt
greatest-All (p ∷ ps) = (omega arith, All-imp (λ q k. omega (arith, k)) ps (greatest-All ps))

below_psi_max :
    (samples : List Sample) → InDomain (some 0) (some (psi_max samples)) (psi_mem samples)
unfolding psi_max
below_psi_max samples =
    All-imp (λ q k. (ground arith, ground (arith, k))) (psi_mem samples)
      (greatest-All (psi_mem samples))

from_start : (p : SeriesPoint) (ps : List SeriesPoint) → AllAfter 0 (p ∷ ps) → Ascending p ps
from_start p ps h = h.1

-- If the times of the samples do not go back, the chart of the memory pressure stays inside its picture,
-- whatever the reports are.
pub psi_mem-Within :
    (samples : List Sample) (p : SeriesPoint) (ps : List SeriesPoint)
    → InOrder 0 samples
    → psi_mem samples ≡ p ∷ ps
    → let s = scale 100 p ps (some 0) (some (psi_max samples)) in
      All
        (λ (q : SeriesPoint).
          Within 0 view_width (x s q.at) × Within pad_y (view_height - pad_y) (y 100 s q.value))
        (p ∷ ps)
unfolding psi_mem
psi_mem-Within samples p ps o e =
    let asc : Ascending p ps = from_start p ps (
      subst (λ qs. AllAfter 0 qs) e
        (series-AllAfter 0 samples (λ s. some (or_zero s.health.psi_mem_some10)) o)) in
    let dom : InDomain (some 0) (some (psi_max samples)) (p ∷ ps) =
      subst (λ qs. InDomain (some 0) (some (psi_max samples)) qs) e (below_psi_max samples) in
    (scale-Within 100 p ps (some 0) (some (psi_max samples)) (omega arith) asc dom).2

line-drawn :
    (v m : ℕ) (p : SeriesPoint) (ps : List SeriesPoint)
    → v ≤ m
    → 0 < m
    → has_ref_line hundredths_of_kib
        (scale hundredths_of_kib p ps (some 0) (some (108544 * m)))
        (hundredths_of_kib * v)
      ≡ true
unfolding has_ref_line scale
line-drawn v m p ps a b = ground (arith, a, b)

-- The lines of the base and of the ceiling are drawn, if the base is not above the ceiling or the present
-- size and not 0.
pub ref_lines-drawn :
    (sb : Sandbox) (p : SeriesPoint) (ps : List SeriesPoint)
    → 0 < base sb
    → base sb ≤ max (max_mem sb) sb.memory_mib
    → All
        (λ v.
          has_ref_line hundredths_of_kib
            (scale hundredths_of_kib p ps (some 0) (some (mem_top sb)))
            v
          ≡ true)
        (ref_lines sb)
unfolding ref_lines mem_top has_ref_line scale
ref_lines-drawn sb p ps a b = elim (Bool-cases (ltb (base sb) (max_mem sb))) [
  | inl e ↦ rw e (
    line-drawn (max_mem sb) _ p ps (omega arith) (omega (arith, a, b)),
    (line-drawn (base sb) _ p ps b (omega (arith, a, b)), tt),
  )
  | inr n ↦ rw n (line-drawn (base sb) _ p ps b (omega (arith, a, b)), tt)
]
