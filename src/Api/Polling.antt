-- ===== src/Api/Polling.antt =====
-- How often the console asks for a sandbox again: `INTERVALS` and the `refetchInterval` of
-- `useSandbox` in web/src/api/hooks.ts.
use embervm.Prelude.{
  ℕ, Bool, ◌||◌, if◌then◌else◌, Option, none, some, Text, codes, text_eq, length, drop, ◌-◌, ◌≡◌,
  ◌↔◌, ◌⊎◌, arith,
}
use embervm.Term.{
  SandboxState, pending, starting, running, pausing, paused_hot, paused_warm, archived_cold,
  resuming, stopping, stopped, recycled, failed,
}

-- The string that stands for a state on the wire.
unfoldable pub wire : SandboxState → Text
wire pending = codes "PENDING"
wire starting = codes "STARTING"
wire running = codes "RUNNING"
wire pausing = codes "PAUSING"
wire paused_hot = codes "PAUSED_HOT"
wire paused_warm = codes "PAUSED_WARM"
wire archived_cold = codes "ARCHIVED_COLD"
wire resuming = codes "RESUMING"
wire stopping = codes "STOPPING"
wire stopped = codes "STOPPED"
wire recycled = codes "RECYCLED"
wire failed = codes "FAILED"

abbrev pub sandboxes_ms : ℕ
sandboxes_ms = 5000

abbrev pub sandbox_transit_ms : ℕ
sandbox_transit_ms = 2000

abbrev pub sandbox_settled_ms : ℕ
sandbox_settled_ms = 15000

-- `s.endsWith(t)`
abbrev pub has_suffix : Text → Text → Bool
has_suffix t s = text_eq (drop (length s - length t) s) t

-- `TRANSIT.test(st)` for the pattern /ING$|^PENDING$/.
unfoldable pub is_transit : Text → Bool
is_transit st = has_suffix (codes "ING") st || text_eq st (codes "PENDING")

-- `SETTLED.has(st)`
unfoldable pub is_settled : Text → Bool
is_settled st =
    text_eq st (codes "STOPPED") || text_eq st (codes "RECYCLED") || text_eq st (codes "FAILED")

-- `refetchInterval`, with the state of the sandbox if it is known.
unfoldable pub refetch_interval : Option SandboxState → ℕ
unfolding wire is_transit is_settled text_eq
refetch_interval known =
    let st : Text = elim known [ some s ↦ wire s | none ↦ codes "" ] in
    if is_transit st
    then sandbox_transit_ms
    else if is_settled st
    then sandbox_settled_ms
    else sandboxes_ms

-- The states that the comment on `sandboxTransit` calls about to change.
abbrev pub IsPassing : SandboxState → Type 0
IsPassing s = (s ≡ pending) ⊎ (s ≡ starting) ⊎ (s ≡ pausing) ⊎ (s ≡ resuming) ⊎ (s ≡ stopping)

-- A sandbox is polled every two seconds exactly while it is about to change or is running: the pattern
-- for the passing states matches "RUNNING" too.
pub refetch_interval_iff :
    (s : SandboxState) → (refetch_interval (some s) ≡ 2000) ↔ (IsPassing s ⊎ (s ≡ running))
unfolding refetch_interval wire is_transit is_settled text_eq
refetch_interval_iff pending = ground arith
refetch_interval_iff starting = ground arith
refetch_interval_iff running = ground arith
refetch_interval_iff pausing = ground arith
refetch_interval_iff paused_hot = ground arith
refetch_interval_iff paused_warm = ground arith
refetch_interval_iff archived_cold = ground arith
refetch_interval_iff resuming = ground arith
refetch_interval_iff stopping = ground arith
refetch_interval_iff stopped = ground arith
refetch_interval_iff recycled = ground arith
refetch_interval_iff failed = ground arith
