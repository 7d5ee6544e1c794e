-- ===== src/Term/Manager.antt =====
-- The object `TermManager`.
use embervm.Prelude.{
  ℕ, suc, String, Bool, true, false, not, ◌&&◌, ◌||◌, Option, none, some, List, [], ◌∷◌, ◌++◌, get,
  put, remove, keys, update, is_some, leb, ◌==◌, if◌then◌else◌, get_or_else, length, find, keep,
}
use embervm.Term.{
  SandboxState, TermSession, Internal, Timer, World, Sent, close_socket, max_sessions,
  backoff_min_ms, listed, modify, set_exit_code, publish, fresh,
}
use embervm.Term.Connect.{connect, is_running, without_timer}

-- `TermManager.sessionsOf`
abbrev pub sessions_of : World → String → List TermSession
sessions_of w sandbox_id = get_or_else (get sandbox_id w.snapshots) []

-- `newSession` and the entry in the map.
abbrev pub enlist : World → String → World
enlist w sandbox_id = record w {
  heap = update w.heap w.seq (fresh sandbox_id w.seq);
  seq = suc w.seq;
  by_sandbox = put sandbox_id (listed w sandbox_id ++ w.seq ∷ []) w.by_sandbox;
}

-- `TermManager.open`; the result is the id of the session, or null.
unfoldable pub open_session : World → String → World × Option ℕ
unfolding connect publish
open_session w sandbox_id =
    if leb max_sessions (length (listed w sandbox_id))
    then (w, none)
    else (publish (connect (enlist w sandbox_id) w.seq) sandbox_id, some w.seq)

-- `list.find((x) => x.session.id === sessionId)`
abbrev pub find_session : World → String → ℕ → Option ℕ
find_session w sandbox_id id = find (λ r. (w.heap r).session.id == id) (listed w sandbox_id)

-- `TermManager.restart` on the object that was found.
abbrev pub reset : Internal → Internal
reset i =
    set_exit_code none
      (record i { shell_exited = false; user_closed = false; backoff_ms = backoff_min_ms })

unfoldable pub restart_found : World → ℕ → World
unfolding connect
restart_found w r =
    if is_some (w.heap r).ws || not (w.heap r).shell_exited then w else connect (modify w r reset) r

unfoldable pub restart : World → String → ℕ → World
unfolding restart_found
restart w sandbox_id id = elim (find_session w sandbox_id id) [
  | none ↦ w
  | some r ↦ restart_found w r
]

-- `if (t) clearTimeout(t)`
abbrev pub clear : (ℕ → Option Timer) → Option ℕ → ℕ → Option Timer
clear timers none = timers
clear timers (some k) = update timers k none

abbrev pub close_of : Option ℕ → String → List Sent
close_of none reason = []
close_of (some ws) reason = close_socket ws 1000 reason ∷ []

abbrev pub shut : Internal → Internal
shut i = record i { user_closed = true; disposed = true }

-- What `close` and `disposeSandbox` do to one session.
unfoldable pub retire : String → World → ℕ → World
retire reason w r = record w {
  heap = update w.heap r (shut (w.heap r));
  timers = clear w.timers (w.heap r).retry_timer;
  sent = w.sent ++ close_of (w.heap r).ws reason;
}

abbrev pub unlist : World → String → ℕ → World
unlist w sandbox_id r = record w {
  by_sandbox = put sandbox_id (keep (λ x. not (x == r)) (listed w sandbox_id)) w.by_sandbox;
}

unfoldable pub close_found : World → String → ℕ → World
unfolding retire publish
close_found w sandbox_id r = publish (unlist (retire "user closed" w r) sandbox_id r) sandbox_id

-- `TermManager.close`
unfoldable pub close : World → String → ℕ → World
unfolding close_found
close w sandbox_id id = elim (find_session w sandbox_id id) [
  | none ↦ w
  | some r ↦ close_found w sandbox_id r
]

-- One round of the loop of `noteState`.
abbrev pub cleared : World → ℕ → World
cleared w r = record w {
  timers = clear w.timers (w.heap r).retry_timer;
  heap = update w.heap r (without_timer (w.heap r));
}

abbrev pub is_idle : Internal → Bool
is_idle i = not (is_some i.ws) && (not i.user_closed && not i.shell_exited)

unfoldable pub revive : World → ℕ → World
unfolding connect
revive w0 r = let w : World = cleared w0 r in if is_idle (w.heap r) then connect w r else w

unfoldable pub revive_all : World → List ℕ → World
unfolding revive
revive_all w [] = w
revive_all w (r ∷ rs) = revive_all (revive w r) rs

-- `TermManager.noteState`
unfoldable pub note_state : World → String → SandboxState → World
unfolding revive_all
note_state w0 sandbox_id state =
    let w : World = record w0 { last_state = put sandbox_id state w0.last_state } in
    if not (is_running (get sandbox_id w0.last_state)) && is_running (some state)
    then revive_all w (listed w sandbox_id)
    else w

unfoldable pub retire_all : World → List ℕ → World
unfolding retire
retire_all w [] = w
retire_all w (r ∷ rs) = retire_all (retire "sandbox gone" w r) rs

abbrev pub forget : World → String → World
forget w sandbox_id = record w {
  by_sandbox = remove sandbox_id w.by_sandbox;
  last_state = remove sandbox_id w.last_state;
}

-- `TermManager.disposeSandbox`
unfoldable pub dispose_sandbox : World → String → World
unfolding retire_all publish
dispose_sandbox w sandbox_id =
    publish (forget (retire_all w (listed w sandbox_id)) sandbox_id) sandbox_id

unfoldable pub dispose_each : World → List String → World
unfolding dispose_sandbox
dispose_each w [] = w
dispose_each w (id ∷ ids) = dispose_each (dispose_sandbox w id) ids

-- `TermManager.disposeAll`, which is also the listener of "embervm:unauthorized"
unfoldable pub dispose_all : World → World
unfolding dispose_each
dispose_all w = dispose_each w (keys w.by_sandbox)
