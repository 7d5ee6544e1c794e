-- ===== src/Term/Event.antt =====
-- Everything that can happen to the terminal sessions, one event at a time: the browser runs one
-- callback or one call of `TermManager` to its end before the next.
use embervm.Prelude.{
  ℕ, String, Bool, true, false, ◌&&◌, Option, none, some, List, [], ◌∷◌, ◌++◌, update,
  if◌then◌else◌,
}
use embervm.Term.{SandboxState, Internal, World, Sent, keys, resize, modify}
use embervm.Term.Connect.{on_open, Message, on_message, on_close, on_timer}
use embervm.Term.Manager.{open_session, restart, close, note_state, dispose_sandbox, dispose_all}

-- `term.onData` and `term.onResize` of the object `r`; `ready` tells whether the state of its socket
-- is OPEN.
abbrev pub socket_if_ready : Internal → Bool → Option ℕ
socket_if_ready i ready = if ready then i.ws else none

-- `i.ws.send(…)` if there is such a socket.
abbrev pub send_to : World → Option ℕ → (ℕ → Sent) → World
send_to w none message = w
send_to w (some ws) message = record w { sent = w.sent ++ message ws ∷ [] }

unfoldable pub on_data : World → ℕ → List ℕ → Bool → World
on_data w r data' ready = send_to w (socket_if_ready (w.heap r) ready) (λ ws. keys ws data')

-- The terminal has its new size when `onResize` runs.
abbrev pub set_size : ℕ → ℕ → Internal → Internal
set_size cols rows i = record i { cols = cols; rows = rows }

unfoldable pub on_resize : World → ℕ → (cols rows : ℕ) → Bool → World
on_resize w r cols rows ready =
    send_to (modify w r (set_size cols rows)) (socket_if_ready (w.heap r) ready)
      (λ ws. resize ws cols rows)

-- The callback that is attached to `term` for its keys: whether the key goes to the shell.
unfoldable pub custom_key : (meta ctrl : Bool) → (is_c is_v has_selection : Bool) → Bool
custom_key meta ctrl is_c is_v has_selection =
    if (if meta then true else ctrl) && (is_c && has_selection)
    then false
    else if (if meta then true else ctrl) && is_v
    then false
    else true

pub data Event : Type 0 where
  socket_opened : (ws : ℕ) → Event
  socket_message : (ws : ℕ) → Message → Event
  socket_closed : (ws random : ℕ) → Event
  timer_fired : (timer random : ℕ) → Event
  typed : (r : ℕ) → List ℕ → Bool → Event
  resized : (r cols rows : ℕ) → Bool → Event
  open_called : String → Event
  restart_called : String → ℕ → Event
  close_called : String → ℕ → Event
  state_noted : String → SandboxState → Event
  dispose_called : String → Event
  unauthorized : Event
  token_stored : Option String → Event

-- A callback of a socket that was made; of any other there is none.
abbrev pub at_socket : World → ℕ → (ℕ → World) → World
at_socket w ws handler = elim (w.sockets ws) [ none ↦ w | some s ↦ handler s.owner ]

-- A pending timer fires once; one that was cleared, or has fired, does not.
abbrev pub at_timer : World → ℕ → (World → ℕ → World) → World
at_timer w k handler = elim (w.timers k) [
  | none ↦ w
  | some t ↦ handler (record w { timers = update w.timers k none }) t.owner
]

unfoldable pub step : World → Event → World
unfolding on_open on_message on_close on_timer open_session restart close note_state dispose_sandbox
    dispose_all on_data on_resize
step w (socket_opened ws) = at_socket w ws (on_open w)
step w (socket_message ws message) = at_socket w ws (λ r. on_message w r message)
step w (socket_closed ws random) = at_socket w ws (λ r. on_close w r ws random)
step w (timer_fired k random) = at_timer w k (λ w1 r. on_timer w1 r random)
step w (typed r data' ready) = on_data w r data' ready
step w (resized r cols rows ready) = on_resize w r cols rows ready
step w (open_called sandbox_id) = (open_session w sandbox_id).0
step w (restart_called sandbox_id id) = restart w sandbox_id id
step w (close_called sandbox_id id) = close w sandbox_id id
step w (state_noted sandbox_id state) = note_state w sandbox_id state
step w (dispose_called sandbox_id) = dispose_sandbox w sandbox_id
step w unauthorized = dispose_all w
step w (token_stored token) = record w { token = token }

abbrev pub run : World → List Event → World
run w [] = w
run w (e ∷ es) = run (step w e) es
