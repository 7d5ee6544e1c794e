-- ===== src/Term/Reach.antt =====
-- The invariant of the terminal sessions over all events.
use embervm.Prelude.{
  ℕ, ◌<◌, String, not, ◌||◌, ◌&&◌, Option, none, some, List, [], ◌∷◌, update, get, put, keys,
  is_some, leb, ◌≡◌, refl, sym, arith, if-intro, All, All-imp, All-find, length,
}
use embervm.Term.{
  Sent, SandboxState, Socket, Timer, World, listed, modify, publish, loaded, max_sessions,
}
use embervm.Term.Connect.{connect, on_open, on_message, on_close, on_timer, is_running}
use embervm.Term.Manager.{
  enlist, open_session, reset, restart_found, restart, close_found, close, find_session, revive_all,
  revive, note_state, retire, retire_all, dispose_sandbox, dispose_each, dispose_all,
}
use embervm.Term.Event.{
  Event, socket_opened, socket_message, socket_closed, timer_fired, typed, resized, open_called,
  restart_called, close_called, state_noted, dispose_called, unauthorized, token_stored, at_socket,
  at_timer, socket_if_ready, send_to, set_size, on_data, on_resize, step, run,
}
use embervm.Term.Invariant.{TimersAgree, loaded-TimersAgree, modify-TimersAgree}
use embervm.Term.Timers.{
  connect-TimersAgree, on_open-TimersAgree, on_message-TimersAgree, on_close-TimersAgree,
  on_timer-TimersAgree, revive-TimersAgree, retire-TimersAgree, enlist-TimersAgree,
}
use embervm.Term.Frame.{
  Frame, Frame-trans, plain, connect-Frame, publish-Frame, modify-Frame, on_open-Frame,
  on_message-Frame, on_close-Frame, on_timer-Frame, revive_all-Frame, revive-Frame,
  restart_found-Frame,
}
use embervm.Term.Members.{
  IsMember, MembersAgree, loaded-MembersAgree, Frame-MembersAgree, enlist-MembersAgree,
  close_found-MembersAgree, dispose_sandbox-MembersAgree,
}

pub record IsValid (w : World) : Type 0 where
  pub timers : TimersAgree w
  pub sessions : MembersAgree w

by_Frame : {w w' : World} → Frame w w' → TimersAgree w' → IsValid w → IsValid w'
by_Frame f t v = record { timers = t; sessions = Frame-MembersAgree f v.sessions }

at_socket-intro :
    (P : World → Type 0) (w : World) (ws : ℕ) (handler : ℕ → World)
    → P w
    → ((s : Socket) → w.sockets ws ≡ some s → P (handler s.owner))
    → P (at_socket w ws handler)
at_socket-intro P w ws handler p f = by_socket (w.sockets ws) f
  where
    by_socket :
        (o : Option Socket)
        → ((s : Socket) → o ≡ some s → P (handler s.owner))
        → P (elim o [ none ↦ w | some s ↦ handler s.owner ])
    by_socket none g = p
    by_socket (some s) g = g s refl

at_timer-intro :
    (P : World → Type 0) (w : World) (k : ℕ) (handler : World → ℕ → World)
    → P w
    → ((t : Timer)
        → w.timers k ≡ some t
        → P (handler (record w { timers = update w.timers k none }) t.owner))
    → P (at_timer w k handler)
at_timer-intro P w k handler p f = by_timer (w.timers k) f
  where
    by_timer :
        (o : Option Timer)
        → ((t : Timer)
            → o ≡ some t
            → P (handler (record w { timers = update w.timers k none }) t.owner))
        → P (elim o [
          | none ↦ w
          | some t ↦ handler (record w { timers = update w.timers k none }) t.owner
        ])
    by_timer none g = p
    by_timer (some t) g = g t refl

retire_all-TimersAgree : (w : World) (rs : List ℕ) → TimersAgree w → TimersAgree (retire_all w rs)
unfolding retire_all
retire_all-TimersAgree w [] t = t
retire_all-TimersAgree w (r ∷ rs) t =
    retire_all-TimersAgree (retire "sandbox gone" w r) rs (retire-TimersAgree w t "sandbox gone" r)

dispose_sandbox-TimersAgree :
    (w : World) (s : String) → TimersAgree w → TimersAgree (dispose_sandbox w s)
unfolding dispose_sandbox publish
dispose_sandbox-TimersAgree w s t = retire_all-TimersAgree w (listed w s) t

module _ (w : World) (v : IsValid w) where
  restart_found-IsValid : (s : String) (r : ℕ) → IsMember w s r → IsValid (restart_found w r)
  unfolding restart_found
  restart_found-IsValid s r m =
      by_Frame (restart_found-Frame w r m.2)
        (if-intro TimersAgree (is_some (w.heap r).ws || not (w.heap r).shell_exited) (λ _. v.timers)
          λ _.
            connect-TimersAgree (modify w r reset)
              (modify-TimersAgree w v.timers r reset refl (sym m.2)) r m.0)
        v

  restart-IsValid : (s : String) (id : ℕ) → IsValid (restart w s id)
  unfolding restart
  restart-IsValid s id = by_found (find_session w s id) refl
    where
      by_found :
          (o : Option ℕ)
          → find_session w s id ≡ o
          → IsValid (elim o [ none ↦ w | some r ↦ restart_found w r ])
      by_found none e = v
      by_found (some r) e =
          restart_found-IsValid s r
            (All-find (IsMember w s) _ (listed w s) (v.sessions.members s) e).0

  close-IsValid : (s : String) (id : ℕ) → IsValid (close w s id)
  unfolding close close_found publish
  close-IsValid s id = by_found (find_session w s id) refl
    where
      by_found :
          (o : Option ℕ)
          → find_session w s id ≡ o
          → IsValid (elim o [ none ↦ w | some r ↦ close_found w s r ])
      by_found none e = v
      by_found (some r) e = record {
        timers = retire-TimersAgree w v.timers "user closed" r;
        sessions =
            close_found-MembersAgree w v.sessions s r
              (All-find (IsMember w s) _ (listed w s) (v.sessions.members s) e).0;
      }

  open_session-IsValid : (s : String) → IsValid (open_session w s).0
  unfolding open_session publish
  open_session-IsValid s =
      if-intro (λ (p : World × Option ℕ). IsValid p.0) (leb max_sessions (length (listed w s)))
        (λ _. v)
        λ e.
          let w1 : World = enlist w s in
          let t1 = enlist-TimersAgree w v.timers s in
          by_Frame (Frame-trans (connect-Frame w1 w.seq) (publish-Frame (connect w1 w.seq) s))
            (connect-TimersAgree w1 t1 w.seq (omega arith))
            (record { timers = t1; sessions = enlist-MembersAgree w v.sessions s (ground arith) })

  dispose_sandbox-IsValid : (s : String) → IsValid (dispose_sandbox w s)
  dispose_sandbox-IsValid s = record {
    timers = dispose_sandbox-TimersAgree w s v.timers;
    sessions = dispose_sandbox-MembersAgree w s v.sessions;
  }

  at_timer-IsValid : (k random : ℕ) → IsValid (at_timer w k (λ w1 r. on_timer w1 r random))
  at_timer-IsValid k random =
      at_timer-intro IsValid w k (λ w1 r. on_timer w1 r random) v
        λ t h.
          by_Frame
            (Frame-trans (plain refl refl refl)
              (on_timer-Frame (record w { timers = update w.timers k none }) t.owner random))
            (on_timer-TimersAgree w v.timers k random t h) v

revive_all-TimersAgree :
    (w : World) (rs : List ℕ)
    → TimersAgree w
    → All (λ r. r < w.seq) rs
    → TimersAgree (revive_all w rs)
unfolding revive_all
revive_all-TimersAgree w [] t h = t
revive_all-TimersAgree w (r ∷ rs) t h =
    revive_all-TimersAgree (revive w r) rs (revive-TimersAgree w t r h.0)
      (All-imp (λ q lt. omega (arith, (revive-Frame w r).numbers)) rs h.1)

note_state-IsValid :
    (w : World) (s : String) (state : SandboxState) → IsValid w → IsValid (note_state w s state)
unfolding note_state
note_state-IsValid w s state v =
    let w1 : World = record w { last_state = put s state w.last_state } in
    let noted : IsValid w1 = by_Frame (plain refl refl refl) v.timers v in
    if-intro IsValid (not (is_running (get s w.last_state)) && is_running (some state))
      (λ _.
        by_Frame (revive_all-Frame w1 (listed w s))
          (revive_all-TimersAgree w1 (listed w s) v.timers
            (All-imp (λ r m. m.0) (listed w s) (v.sessions.members s)))
          noted)
      λ _. noted

dispose_each-IsValid : (w : World) (ids : List String) → IsValid w → IsValid (dispose_each w ids)
unfolding dispose_each
dispose_each-IsValid w [] v = v
dispose_each-IsValid w (id ∷ ids) v =
    dispose_each-IsValid (dispose_sandbox w id) ids (dispose_sandbox-IsValid w v id)

send_to-IsValid :
    (w : World) → IsValid w → (o : Option ℕ) (message : ℕ → Sent) → IsValid (send_to w o message)
send_to-IsValid w v none message = v
send_to-IsValid w v (some ws) message = by_Frame (plain refl refl refl) v.timers v

pub step-IsValid : (w : World) (e : Event) → IsValid w → IsValid (step w e)
unfolding step dispose_all on_data on_resize
step-IsValid w (socket_opened ws) v = at_socket-intro IsValid w ws (on_open w) v λ s h.
    by_Frame (on_open-Frame w s.owner)
      (on_open-TimersAgree w v.timers s.owner (v.timers.made ws s h)) v
step-IsValid w (socket_message ws message) v =
    at_socket-intro IsValid w ws (λ r. on_message w r message) v
      λ s h.
        by_Frame (on_message-Frame w s.owner message)
          (on_message-TimersAgree w v.timers s.owner (v.timers.made ws s h) message) v
step-IsValid w (socket_closed ws random) v =
    at_socket-intro IsValid w ws (λ r. on_close w r ws random) v
      λ s h.
        by_Frame (on_close-Frame w s.owner ws random)
          (on_close-TimersAgree w v.timers s.owner ws random (v.timers.made ws s h)) v
step-IsValid w (timer_fired k random) v = at_timer-IsValid w v k random
step-IsValid w (typed r data' ready) v =
    send_to-IsValid w v (socket_if_ready (w.heap r) ready) (λ ws. Sent.keys ws data')
step-IsValid w (resized r cols rows ready) v =
    send_to-IsValid (modify w r (set_size cols rows))
      (by_Frame (modify-Frame w r (set_size cols rows) refl refl refl)
        (modify-TimersAgree w v.timers r (set_size cols rows) refl refl) v)
      (socket_if_ready (w.heap r) ready) (λ ws. Sent.resize ws cols rows)
step-IsValid w (open_called sandbox_id) v = open_session-IsValid w v sandbox_id
step-IsValid w (restart_called sandbox_id id) v = restart-IsValid w v sandbox_id id
step-IsValid w (close_called sandbox_id id) v = close-IsValid w v sandbox_id id
step-IsValid w (state_noted sandbox_id state) v = note_state-IsValid w sandbox_id state v
step-IsValid w (dispose_called sandbox_id) v = dispose_sandbox-IsValid w v sandbox_id
step-IsValid w unauthorized v = dispose_each-IsValid w (keys w.by_sandbox) v
step-IsValid w (token_stored token) v = by_Frame (plain refl refl refl) v.timers v

run-IsValid_from : (w : World) (es : List Event) → IsValid w → IsValid (run w es)
run-IsValid_from w [] v = v
run-IsValid_from w (e ∷ es) v = run-IsValid_from (step w e) es (step-IsValid w e v)

-- After every sequence of events, whatever sockets, timers, users and the sandbox's state do and in
-- whatever order: a pending reconnect timer belongs to an existing session that is not closed and
-- holds the timer's number, so no session has two and a closed one has none; an open session's timer
-- is pending; and a sandbox has at most six sessions, all of them existing, open and its own.
pub run-IsValid : (token : Option String) (es : List Event) → IsValid (run (loaded token) es)
run-IsValid token es =
    run-IsValid_from (loaded token) es
      (record { timers = loaded-TimersAgree token; sessions = loaded-MembersAgree token })
