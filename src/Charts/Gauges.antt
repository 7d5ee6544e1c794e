-- ===== src/Charts/Gauges.antt =====
-- `Gauges` of web/src/pages/workspace/OverviewTab.tsx: the cards of a running sandbox, against the history
-- of reports that web/src/lib/health.ts keeps. Pressures are given in hundredths.
use embervm.Prelude.{
  ℕ, suc, ◌-◌, ◌==◌, ◌≤◌, ℤ, Bool, true, false, not, Option, none, some, some-injective, List, [],
  ◌∷◌, ◌++◌, get_last?, length, last_n, length-drop, if◌then◌else◌, ◌≡◌, refl, sym, subst, ap, ◌∙◌,
  arith,
}
use embervm.Term.{SandboxState}
use embervm.Actions.{is_running}
use embervm.Api.Format.{ByteUnit, fmt_kib, to_fixed_1}
use embervm.Health.{HealthSeries, capacity, answer, blank}
use embervm.Health.Ring.{answers, reports, snapshot-answers}
use embervm.Workspace.{GuestHealth}
use embervm.Charts.{SeriesPoint, minus}
use embervm.Charts.Series.{Sample, point_of, series, psi_mem, psi_cpu, psi_max, or_zero}

-- `1 - (mem_available_kib ?? 0) / mem_total_kib`, as a fraction, where there is a total that is not 0.
abbrev pub used : GuestHealth → Option (ℤ × ℕ)
used h = elim h.mem_total_kib [
  | none ↦ none
  | some total ↦
      if total == 0 then none else some (minus total (or_zero h.mem_available_kib), total)
]

abbrev with_point : Sample → Option (ℤ × ℕ) → List (ℕ × (ℤ × ℕ)) → List (ℕ × (ℤ × ℕ))
with_point s none rest = rest
with_point s (some v) rest = (s.at, v) ∷ rest

-- `mem`
unfoldable pub mem : List Sample → List (ℕ × (ℤ × ℕ))
mem [] = []
mem (s ∷ ss) =
    let rest = mem ss in if not s.health.ok then rest else with_point s (used s.health) rest

-- The line below the memory used.
pub data MemorySub : Type 0 where
  used_of : ℕ × ByteUnit → ℕ × ByteUnit → MemorySub
  guest_unreachable waiting : MemorySub

abbrev no_total : Bool → MemorySub
no_total unreachable = if unreachable then guest_unreachable else waiting

abbrev of_total : Bool → Option ℕ → Option ℕ → MemorySub
of_total unreachable none available = no_total unreachable
of_total unreachable (some total) available =
    if total == 0
    then no_total unreachable
    else used_of (fmt_kib (total - or_zero available)) (fmt_kib total)

abbrev memory_sub : Bool → Option Sample → MemorySub
memory_sub unreachable none = no_total unreachable
memory_sub unreachable (some s) =
    of_total unreachable s.health.mem_total_kib s.health.mem_available_kib

-- `v.toFixed(1)` of a pressure, in tenths.
abbrev pub tenths : ℕ → ℕ
tenths v = to_fixed_1 v 100

abbrev pressure : (GuestHealth → Option ℕ) → Option Sample → Option ℕ
pressure pick none = none
pressure pick (some s) = some (tenths (or_zero (pick s.health)))

-- The line below the CPU pressure: the resumes and the sequence number.
abbrev cpu_sub : GuestHealth → Option (ℕ × Option ℕ)
cpu_sub h = elim h.resumes [ none ↦ none | some n ↦ some (n, h.seq) ]

-- A number that is `none` is shown as a dash.
pub record Gauges : Type 0 where
  pub memory : Option (ℤ × ℕ)
  pub memory_line : MemorySub
  pub memory_points : List (ℕ × (ℤ × ℕ))
  pub memory_pressure : Option ℕ
  pub memory_pressure_points : List SeriesPoint
  pub cpu_pressure : Option ℕ
  pub cpu_line : Option (ℕ × Option ℕ)
  pub cpu_pressure_points : List SeriesPoint
  pub pressure_top : ℕ

unfoldable pub gauges : HealthSeries GuestHealth → Gauges
unfolding psi_mem psi_cpu psi_max mem fmt_kib
gauges h = record {
  memory = elim h.latest [ none ↦ none | some s ↦ used s.health ];
  memory_line = memory_sub h.unreachable h.latest;
  memory_points = mem h.samples;
  memory_pressure = pressure (λ h. h.psi_mem_some10) h.latest;
  memory_pressure_points = psi_mem h.samples;
  cpu_pressure = pressure (λ h. h.psi_cpu_some10) h.latest;
  cpu_line = elim h.latest [ none ↦ none | some s ↦ cpu_sub s.health ];
  cpu_pressure_points = psi_cpu h.samples;
  pressure_top = psi_max h.samples;
}

-- What is shown of a sandbox that is not running is a note.
unfoldable pub shown : SandboxState → HealthSeries GuestHealth → Option Gauges
unfolding gauges is_running
shown state h = if not (is_running state) then none else some (gauges h)

abbrev pub tenths_at : Option SeriesPoint → Option ℕ
tenths_at none = none
tenths_at (some p) = some (tenths p.value)

abbrev pub last_shown : List SeriesPoint → Option ℕ
last_shown ps = tenths_at (get_last? ps)

length-point_of :
    (s : Sample) (o : Option ℕ) (rest : List SeriesPoint)
    → length (point_of s o rest) ≤ suc (length rest)
length-point_of s none rest = omega arith
length-point_of s (some v) rest = omega arith

length-series :
    (samples : List Sample) (pick : Sample → Option ℕ)
    → length (series samples pick) ≤ length samples
unfolding series
length-series [] pick = omega arith
length-series (s ∷ ss) pick =
    ground (arith, length-series ss pick, length-point_of s (pick s) (series ss pick))

get_last?-point_of :
    (s : Sample) (o : Option ℕ) (rest : List SeriesPoint) (p : SeriesPoint)
    → get_last? rest ≡ some p
    → get_last? (point_of s o rest) ≡ some p
get_last?-point_of s none rest p h = h
get_last?-point_of s (some v) [] p h = absurd (cc)
get_last?-point_of s (some v) (q ∷ rest) p h = h

get_last?-live :
    (s : Sample) (b : Bool) (o : Option ℕ) (v : ℕ)
    → b ≡ true
    → o ≡ some v
    → get_last? (if not b then [] else point_of s o []) ≡ some (record { at = s.at; value = v })
get_last?-live s b o v k e = rw (k, e) refl

-- The last report's point, if it is live and has one, is the last of the series.
get_last?-series :
    (samples : List Sample) (pick : Sample → Option ℕ) (s : Sample) (v : ℕ)
    → get_last? samples ≡ some s
    → s.health.ok ≡ true
    → pick s ≡ some v
    → get_last? (series samples pick) ≡ some (record { at = s.at; value = v })
unfolding series
get_last?-series [] pick s v h k e = absurd (cc)
get_last?-series (t ∷ []) pick s v h k e =
    subst
      (λ (z : Sample). get_last? (series (z ∷ []) pick) ≡ some (record { at = s.at; value = v }))
      (sym (some-injective _ _ h)) (get_last?-live s s.health.ok (pick s) v k e)
get_last?-series (t ∷ u ∷ ss) pick s v h k e =
    either (not t.health.ok) (series (u ∷ ss) pick) (point_of t (pick t) (series (u ∷ ss) pick))
      (get_last?-series (u ∷ ss) pick s v h k e)
      (get_last?-point_of t (pick t) (series (u ∷ ss) pick) _
        (get_last?-series (u ∷ ss) pick s v h k e))
  where
    either :
        (b : Bool) (xs ys : List SeriesPoint)
        → get_last? xs ≡ some (record { at = s.at; value = v })
        → get_last? ys ≡ some (record { at = s.at; value = v })
        → get_last? (if b then xs else ys) ≡ some (record { at = s.at; value = v })
    either true xs ys a b = a
    either false xs ys a b = b

-- The number of a gauge is that of the last point, for the latest sample and what is picked of it.
pressure-last :
    (samples : List Sample) (pick : GuestHealth → Option ℕ) (o : Option Sample) (s : Sample)
    → o ≡ some s
    → get_last? samples ≡ some s
    → s.health.ok ≡ true
    → pressure pick o ≡ last_shown (series samples (λ s. some (or_zero (pick s.health))))
pressure-last samples pick none s e h k = absurd (cc)
pressure-last samples pick (some t) s e h k =
    ap (λ (z : Sample). some (tenths (or_zero (pick z.health)))) (some-injective _ _ e)
    ∙ sym
        (ap tenths_at (get_last?-series samples (λ s. some (or_zero (pick s.health))) s _ h k refl))

length-last_n : (n : ℕ) (samples : List Sample) → length (last_n n samples) ≤ n
length-last_n n samples = omega (arith, length-drop {0} (length samples - n) samples)

length-with_point :
    (s : Sample) (o : Option (ℤ × ℕ)) (rest : List (ℕ × (ℤ × ℕ)))
    → length (with_point s o rest) ≤ suc (length rest)
length-with_point s none rest = omega arith
length-with_point s (some v) rest = omega arith

length-mem : (samples : List Sample) → length (mem samples) ≤ length samples
unfolding mem
length-mem [] = omega arith
length-mem (s ∷ ss) = ground (arith, length-mem ss, length-with_point s (used s.health) (mem ss))

few-answers :
    (rs : List (Option Sample)) (r : Option Sample)
    → length (answer r (answers blank rs)).snapshot.samples ≤ capacity
few-answers rs r =
    let (samples, latest, unreachable) = snapshot-answers rs r in
    rw samples (length-last_n capacity (reports (rs ++ r ∷ [])))

-- After any answers to the polls of a new entry: if the report that is the latest is live, then the
-- numbers of both gauges of pressure are those of the last points of their charts.
pub gauges-answers :
    (rs : List (Option Sample)) (r : Option Sample) (s : Sample)
    → (answer r (answers blank rs)).snapshot.latest ≡ some s
    → s.health.ok ≡ true
    → let g = gauges (answer r (answers blank rs)).snapshot in
      (g.memory_pressure ≡ last_shown g.memory_pressure_points)
      × (g.cpu_pressure ≡ last_shown g.cpu_pressure_points)
unfolding gauges psi_mem psi_cpu
gauges-answers rs r s h k =
    let (samples, latest, unreachable) = snapshot-answers rs r in
    let last : get_last? (answer r (answers blank rs)).snapshot.samples ≡ some s =
      ap get_last? samples ∙ sym latest ∙ h in
    let all : List Sample = (answer r (answers blank rs)).snapshot.samples in
    (
      pressure-last all (λ h. h.psi_mem_some10) _ s h last k,
      pressure-last all (λ h. h.psi_cpu_some10) _ s h last k,
    )

-- After any answers to the polls of a new entry, whether the guest answered or not, none of the three
-- charts has more points than the history keeps reports, which are 240.
pub length-gauges :
    (rs : List (Option Sample)) (r : Option Sample)
    → let g = gauges (answer r (answers blank rs)).snapshot in
      (length g.memory_points ≤ capacity)
      × (length g.memory_pressure_points ≤ capacity)
      × (length g.cpu_pressure_points ≤ capacity)
unfolding gauges psi_mem psi_cpu
length-gauges rs r =
    let all : List Sample = (answer r (answers blank rs)).snapshot.samples in
    let few : length all ≤ capacity = few-answers rs r in
    (
      omega (arith, few, length-mem all),
      omega (arith, few, length-series all (λ s. some (or_zero s.health.psi_mem_some10))),
      omega (arith, few, length-series all (λ s. some (or_zero s.health.psi_cpu_some10))),
    )
