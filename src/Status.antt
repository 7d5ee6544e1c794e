-- ===== src/Status.antt =====
-- The status of a sandbox as the console shows it, web/src/components/status.tsx: the colour and label
-- of a state, the gauges of memory and vCPUs and the badge of autoscaling.
pub mod Tests
use embervm.Prelude.{
  ℕ, suc, ◌+◌, ◌-◌, ◌*◌, ◌≤◌, ◌<◌, min, max, ltb, String, Bool, true, false, Option, none, some,
  if◌then◌else◌, ◌≡◌, ◌↔◌, refl, arith,
}
use embervm.Term.{
  SandboxState, pending, starting, running, pausing, paused_hot, paused_warm, archived_cold,
  resuming, stopping, stopped, recycled, failed,
}

pub record Meta : Type 0 where
  pub color : String
  pub label : String
  pub zh : String

-- `STATE_META`, and `meta` of the states that the type has.
unfoldable pub meta : SandboxState → Meta
meta running = record { color = "var(--color-ok)"; label = "Running"; zh = "运行中" }
meta paused_hot = record { color = "var(--color-hot)"; label = "Paused · hot"; zh = "已暂停 · 热" }
meta paused_warm = record { color = "var(--color-warm)"; label = "Paused · warm"; zh = "已暂停 · 温" }
meta archived_cold = record {
  color = "var(--color-cold)";
  label = "Archived · cold";
  zh = "已归档 · 冷";
}
meta stopped = record { color = "var(--color-idle)"; label = "Stopped"; zh = "已停止" }
meta recycled = record { color = "var(--color-idle)"; label = "Recycled"; zh = "已回收" }
meta failed = record { color = "var(--color-danger)"; label = "Failed"; zh = "失败" }
meta pending = record { color = "var(--color-transit)"; label = "Pending"; zh = "等待中" }
meta starting = record { color = "var(--color-transit)"; label = "Starting"; zh = "启动中" }
meta resuming = record { color = "var(--color-transit)"; label = "Resuming"; zh = "恢复中" }
meta pausing = record { color = "var(--color-transit)"; label = "Pausing"; zh = "暂停中" }
meta stopping = record { color = "var(--color-transit)"; label = "Stopping"; zh = "停止中" }

unfoldable pub state_label : SandboxState → (String → String → String) → String
state_label state t = t (meta state).label (meta state).zh

-- What a gauge shows: the fill and the mark of the base in percent, both times `max`, so that they are
-- whole; the mark is drawn where `resizable`.
pub record Gauge : Type 0 where
  pub max_value : ℕ
  pub min_value : ℕ
  pub now : ℕ
  pub fill : ℕ
  pub base_mark : ℕ
  pub resizable : Bool
  pub color : String

-- `x && x > 0 ? x : y`
abbrev pub positive_or : Option ℕ → ℕ → ℕ
positive_or none y = y
positive_or (some n) y = if ltb 0 n then n else y

-- `MemGauge` and `CpuGauge`, whose numbers are computed alike.
unfoldable pub gauge : SandboxState → ℕ → Option ℕ → Option ℕ → Gauge
gauge state value base_value max_value =
    let top = positive_or max_value value in
    let base = positive_or base_value value in
    record {
      max_value = top;
      min_value = base;
      now = value;
      fill = max (3 * top) (min (100 * top) (value * 100));
      base_mark = min (100 * top) (base * 100);
      resizable = ltb base top;
      color = (meta state).color;
    }

unfoldable pub mem_gauge : SandboxState → ℕ → Option ℕ → Option ℕ → Gauge
mem_gauge state memory_mib base_mib max_mib = gauge state memory_mib base_mib max_mib

unfoldable pub cpu_gauge : SandboxState → ℕ → Option ℕ → Option ℕ → Gauge
cpu_gauge state vcpus base_vcpus max_vcpus = gauge state vcpus base_vcpus max_vcpus

-- `AutoscaleBadge`: its colour and its label in both languages.
unfoldable pub autoscale_badge : Bool → Bool → (String → String → String) → String × String
autoscale_badge is_on deferred t =
    if deferred
    then ("var(--color-warm)", t "autoscale · deferred" "自动伸缩 · 已推迟")
    else if is_on
    then ("var(--color-transit)", t "autoscale" "自动伸缩")
    else ("var(--color-idle)", t "manual" "手动")

-- The fill of every gauge is between 3 and 100 percent of its track, and the mark of the base is within
-- the track.
pub gauge-bounds :
    (state : SandboxState) (value : ℕ) (base_value max_value : Option ℕ)
    → let g = gauge state value base_value max_value in
      (3 * g.max_value ≤ g.fill) × (g.fill ≤ 100 * g.max_value) × (g.base_mark ≤ 100 * g.max_value)
unfolding gauge
gauge-bounds state value base_value max_value = (omega arith, omega arith, omega arith)
