-- ===== src/Shortcuts/Tests.antt =====
-- The shortcuts on concrete key presses; the subscribers are numbers.
use embervm.Prelude.{ℕ, String, get, false, none, List, [], ◌∷◌, ◌==◌, ◌≡◌, refl}
use embervm.Shortcuts.{
  World, Key, Event, subscribed, pressed, fired, run, loaded, on_key, emit, emit_if, clear_go,
  in_editable, go_map,
}
use embervm.Shortcuts.Armed.{IsArmed, run-IsArmed}

abbrev plain : String → Key
plain k = record { key = k; lower = k; meta = false; ctrl = false; alt = false; target = none }

abbrev history : List (Event ℕ)
history =
    subscribed "go:sandboxes" 7
    ∷ pressed (plain "g")
    ∷ pressed (plain "x")
    ∷ fired 1
    ∷ pressed (plain "g")
    ∷ fired 1
    ∷ []

run-IsArmed_example : IsArmed (run ◌==◌ loaded history)
run-IsArmed_example = run-IsArmed ◌==◌ history

abbrev ready : World ℕ
ready = record {
  listeners = ("go:sandboxes", 7 ∷ []) ∷ [];
  go_armed = false;
  go_timer = none;
  pending = [];
  next_timer = 1;
  calls = [];
}

calls-go : (on_key ◌==◌ (on_key ◌==◌ ready (plain "g")) (plain "s")).calls ≡ 7 ∷ []
unfolding on_key emit emit_if clear_go in_editable go_map get
calls-go = refl
