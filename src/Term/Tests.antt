-- ===== src/Term/Tests.antt =====
-- The terminal sessions on concrete runs.
use embervm.Prelude.{String, Option, none, some, List, [], ◌∷◌, ◌≡◌, refl, map, get, put}
use embervm.Term.{running, paused_hot, opened, loaded}
use embervm.Term.Manager.{sessions_of}
use embervm.Term.Event.{
  Event, socket_opened, socket_closed, timer_fired, open_called, state_noted, step, run,
}
use embervm.Term.Reach.{IsValid, run-IsValid}

abbrev token : Option String
token = some "t"

-- A session is opened, loses its socket while the sandbox pauses, and comes back with it.
abbrev session : List Event
session =
    state_noted "a" running
    ∷ open_called "a"
    ∷ socket_opened 0
    ∷ state_noted "a" paused_hot
    ∷ socket_closed 0 0
    ∷ timer_fired 0 0
    ∷ open_called "b"
    ∷ state_noted "a" running
    ∷ socket_opened 2
    ∷ []

statuses : map (λ s. s.status) (sessions_of (run (loaded token) session) "a") ≡ opened ∷ []
unfolding step get put
statuses = refl

lost_waits : (run (loaded token) session).timers 1 ≡ none
unfolding step get put
lost_waits = refl

run-IsValid_example : IsValid (run (loaded token) session)
run-IsValid_example = run-IsValid token session
