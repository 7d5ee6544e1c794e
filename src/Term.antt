-- ===== src/Term.antt =====
-- The terminal sessions of web/src/lib/term.ts. The module-level state, with the browser's sockets
-- and timers that it has created, is a `World`; the objects of type `Internal` live in a table,
-- since the map of sessions and the callbacks of sockets and timers share them.
pub mod Connect
pub mod Manager
pub mod Event
pub mod Invariant
pub mod Timers
pub mod Frame
pub mod Members
pub mod Reach
pub mod Tab
pub mod Tests
use embervm.Prelude.{
  ℕ, zero, suc, ◌+◌, ◌*◌, ◌^◌, String, Bool, true, false, Option, none, some, List, [], ◌∷◌, map,
  get, put, remove, get_or_else, update, ltb, if◌then◌else◌,
}

-- `SandboxState` of api/types.ts.
pub data SandboxState : Type 0 where
  pending starting running pausing paused_hot paused_warm archived_cold resuming stopping stopped
        recycled failed :
      SandboxState

pub data SessionStatus : Type 0 where
  connecting opened reconnecting closed : SessionStatus

-- `TermSession`. The id `sh-7` and the title `sh 7` are given by their numbers.
pub record TermSession : Type 0 where
  pub id : ℕ
  pub sandbox_id : String
  pub title : ℕ
  pub status : SessionStatus
  pub exit_code : Option ℕ

-- What is written to an xterm `Terminal`: bytes of the shell, or the line that reports its exit.
pub data Write : Type 0 where
  bytes : List ℕ → Write
  process_exited : ℕ → Write

-- `Internal`, with the parts of its `Terminal` that the code reads or changes.
pub record Internal : Type 0 where
  pub session : TermSession
  pub ws : Option ℕ
  pub user_closed : Bool
  pub shell_exited : Bool
  pub backoff_ms : ℕ
  pub retry_timer : Option ℕ
  pub cols : ℕ
  pub rows : ℕ
  pub written : List Write
  pub disposed : Bool

-- A socket that `wsFactory` made: the session whose callbacks it has, and the parts of its URL and
-- protocols.
pub record Socket : Type 0 where
  pub owner : ℕ
  pub sandbox_id : String
  pub cols : ℕ
  pub rows : ℕ
  pub token : String

-- A pending `setTimeout` of `scheduleReconnect`: whose it is, and its delay in units of
-- 1 / (100 * 2^53) ms.
pub record Timer : Type 0 where
  pub owner : ℕ
  pub delay : ℕ

-- What is sent through a socket, and the calls of its `close`.
pub data Sent : Type 0 where
  keys : (ws : ℕ) → List ℕ → Sent
  resize : (ws cols rows : ℕ) → Sent
  close_socket : (ws code : ℕ) (reason : String) → Sent

pub record World : Type 0 where
  pub heap : ℕ → Internal
  pub seq : ℕ
  pub by_sandbox : List (String × List ℕ)
  pub last_state : List (String × SandboxState)
  pub snapshots : List (String × List TermSession)
  pub token : Option String
  pub sockets : ℕ → Option Socket
  pub next_ws : ℕ
  pub timers : ℕ → Option Timer
  pub next_timer : ℕ
  pub sent : List Sent

abbrev pub max_sessions : ℕ
max_sessions = 6

abbrev pub backoff_min_ms : ℕ
backoff_min_ms = 500

abbrev pub backoff_max_ms : ℕ
backoff_max_ms = 8000

-- `bySandbox.get(sandboxId) ?? []`
abbrev pub listed : World → String → List ℕ
listed w sandbox_id = get_or_else (get sandbox_id w.by_sandbox) []

-- `i.f = …` for the object `r`.
abbrev pub modify : World → ℕ → (Internal → Internal) → World
modify w r f = record w { heap = update w.heap r (f (w.heap r)) }

abbrev pub set_status : SessionStatus → Internal → Internal
set_status status i = record i { session = record (i.session) { status = status } }

abbrev pub set_exit_code : Option ℕ → Internal → Internal
set_exit_code code i = record i { session = record (i.session) { exit_code = code } }

unfoldable pub publish : World → String → World
publish w sandbox_id = record w {
  snapshots = put sandbox_id (map (λ r. (w.heap r).session) (listed w sandbox_id)) w.snapshots;
}

-- A new `Internal`, as `newSession` returns it, at a terminal of 80 columns and 24 rows.
abbrev pub fresh : String → ℕ → Internal
fresh sandbox_id n = record {
  session = record {
    id = n;
    sandbox_id = sandbox_id;
    title = n;
    status = connecting;
    exit_code = none;
  };
  ws = none;
  user_closed = false;
  shell_exited = false;
  backoff_ms = backoff_min_ms;
  retry_timer = none;
  cols = 80;
  rows = 24;
  written = [];
  disposed = false;
}

-- The module when it is loaded, with the token that the browser holds.
abbrev pub loaded : Option String → World
loaded token = record {
  heap = fresh "";
  seq = 1;
  by_sandbox = [];
  last_state = [];
  snapshots = [];
  token = token;
  sockets = λ k. none;
  next_ws = 0;
  timers = λ k. none;
  next_timer = 0;
  sent = [];
}
