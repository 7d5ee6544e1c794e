-- ===== src/Term/Connect.antt =====
-- `connect` with the callbacks of its socket, and `scheduleReconnect` with its timer.
use embervm.Prelude.{
  ℕ, suc, ◌+◌, ◌*◌, ◌^◌, min, String, Bool, true, false, ◌||◌, Option, none, some, List, [], ◌∷◌,
  ◌++◌, get, update, is_some, ltb, ◌==◌, if◌then◌else◌, get_or_else,
}
use embervm.Term.{
  SandboxState, running, SessionStatus, connecting, opened, reconnecting, closed, bytes,
  process_exited, Internal, Timer, World, backoff_min_ms, backoff_max_ms, modify, set_status,
  set_exit_code, publish,
}

-- The new socket of the object `r`.
abbrev pub attach : World → ℕ → String → World
attach w r token = record w {
  sockets = update w.sockets w.next_ws (
      some (record {
        owner = r;
        sandbox_id = (w.heap r).session.sandbox_id;
        cols = (w.heap r).cols;
        rows = (w.heap r).rows;
        token = token;
      }));
  next_ws = suc w.next_ws;
  heap = update w.heap r (record (w.heap r) { ws = some w.next_ws });
}

abbrev pub status_of : Internal → SessionStatus
status_of i = if ltb backoff_min_ms i.backoff_ms then reconnecting else connecting

abbrev pub mark_connecting : Internal → Internal
mark_connecting i = set_status (status_of i) i

-- `connect` with this token.
unfoldable pub connect_with : World → ℕ → String → World
unfolding publish
connect_with w r token =
    attach (publish (modify w r mark_connecting) (w.heap r).session.sandbox_id) r token

unfoldable pub connect : World → ℕ → World
unfolding connect_with
connect w r = elim w.token [ none ↦ w | some token ↦ connect_with w r token ]

abbrev pub mark_open : Internal → Internal
mark_open i = set_status opened (record i { backoff_ms = backoff_min_ms })

-- `ws.onopen`
unfoldable pub on_open : World → ℕ → World
unfolding publish
on_open w r = publish (modify w r mark_open) (w.heap r).session.sandbox_id

-- The data of a message: bytes, or a text, of which it matters whether `JSON.parse` reads an object
-- of type "exit" from it, and the code in that object.
pub data Message : Type 0 where
  binary : List ℕ → Message
  exit_frame : Option ℕ → Message
  other_text : Message

abbrev pub add_bytes : List ℕ → Internal → Internal
add_bytes data' i = record i { written = i.written ++ bytes data' ∷ [] }

abbrev pub mark_exit : Option ℕ → Internal → Internal
mark_exit code i = set_exit_code (some (get_or_else code 0)) (record i { shell_exited = true })

-- `ws.onmessage`
unfoldable pub on_message : World → ℕ → Message → World
on_message w r (binary data') = modify w r (add_bytes data')
on_message w r (exit_frame code) = modify w r (mark_exit code)
on_message w r other_text = w

-- `Math.random()` is `random` / 2^53.
abbrev pub random_unit : ℕ
random_unit = 2 ^ 53

-- `Math.min(i.backoffMs * (Math.random() * 0.3 + 0.85), 8000)` in units of 1 / (100 * 2^53) ms.
unfoldable pub retry_delay : ℕ → ℕ → ℕ
retry_delay backoff random =
    min (backoff * (30 * random + 85 * random_unit)) (backoff_max_ms * (100 * random_unit))

abbrev pub new_timer : World → ℕ → ℕ → Timer
new_timer w r random = record { owner = r; delay = retry_delay (w.heap r).backoff_ms random }

-- `scheduleReconnect` behind its guard.
abbrev pub arm : World → ℕ → ℕ → World
arm w r random = record w {
  timers = update w.timers w.next_timer (some (new_timer w r random));
  next_timer = suc w.next_timer;
  heap = update w.heap r (record (w.heap r) {
    backoff_ms = min ((w.heap r).backoff_ms * 2) backoff_max_ms;
    retry_timer = some w.next_timer;
  });
}

unfoldable pub schedule_reconnect : World → ℕ → ℕ → World
unfolding retry_delay
schedule_reconnect w r random =
    let i : Internal = w.heap r in
    if is_some i.retry_timer || (i.user_closed || i.shell_exited) then w else arm w r random

-- `i.ws === ws`
abbrev pub is_current : Internal → ℕ → Bool
is_current i ws = elim i.ws [ none ↦ false | some k ↦ k == ws ]

-- The shell has exited, and the socket is gone.
abbrev pub report_exit : Internal → Internal
report_exit i =
    set_status closed
      (record i { written = i.written ++ process_exited (get_or_else i.session.exit_code 0) ∷ [] })

-- `ws.onclose` behind `i.ws = null`.
unfoldable pub detached : World → ℕ → ℕ → World
unfolding publish schedule_reconnect
detached w r random =
    let i : Internal = w.heap r in
    let sandbox_id : String = i.session.sandbox_id in
    if i.user_closed
    then w
    else if i.shell_exited
    then publish (modify w r report_exit) sandbox_id
    else schedule_reconnect (publish (modify w r (set_status reconnecting)) sandbox_id) r random

abbrev pub without_ws : Internal → Internal
without_ws i = record i { ws = none }

unfoldable pub lose : World → ℕ → ℕ → World
unfolding detached
lose w r random = detached (modify w r without_ws) r random

-- `ws.onclose` of the socket `ws` of the object `r`
unfoldable pub on_close : World → ℕ → ℕ → ℕ → World
unfolding lose
on_close w r ws random = if is_current (w.heap r) ws then lose w r random else w

-- `lastState.get(…) === "RUNNING"`
abbrev pub is_running : Option SandboxState → Bool
is_running none = false
is_running (some running) = true
is_running (some _) = false

-- The callback of the timer behind `i.retryTimer = null`.
unfoldable pub retry : World → ℕ → ℕ → World
unfolding connect schedule_reconnect
retry w r random =
    let i : Internal = w.heap r in
    if i.user_closed || (i.shell_exited || is_some i.ws)
    then w
    else if is_running (get i.session.sandbox_id w.last_state)
    then connect w r
    else schedule_reconnect w r random

abbrev pub without_timer : Internal → Internal
without_timer i = record i { retry_timer = none }

-- The callback of the timer of the object `r`, which is no longer pending.
unfoldable pub on_timer : World → ℕ → ℕ → World
unfolding retry
on_timer w r random = retry (modify w r without_timer) r random
