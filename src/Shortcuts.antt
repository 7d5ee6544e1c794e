-- ===== src/Shortcuts.antt =====
-- The global keyboard shortcuts of web/src/lib/shortcuts.ts: the bus of subscribers, the two-key `g`
-- sequence with its timer, and the listener that App installs. `H` is the type of the subscribers.
pub mod Armed
pub mod Tests
use embervm.Prelude.{
  ℕ, suc, String, Bool, true, false, not, ◌&&◌, ◌||◌, Option, none, some, List, [], ◌∷◌, ◌++◌, keep,
  ◌==◌, str_eq, if◌then◌else◌, get, put, ◌≡◌, refl,
}

-- What `inEditable` asks of the target of a key press; `none` for a target that is no HTMLElement.
pub record Target : Type 0 where
  pub tag_name : String
  pub is_content_editable : Bool
  pub in_xterm : Bool
  pub in_cm_editor : Bool

-- A key press. `lower` is `key.toLowerCase()`, which the browser computes.
pub record Key : Type 0 where
  pub key : String
  pub lower : String
  pub meta : Bool
  pub ctrl : Bool
  pub alt : Bool
  pub target : Option Target

-- `go_timer` keeps the number of a timer that has fired or was cleared, as the variable does;
-- `pending` lists the timers that have not, and `calls` the subscribers that were called, in order.
pub record World (H : Type 0) : Type 0 where
  pub listeners : List (String × List H)
  pub go_armed : Bool
  pub go_timer : Option ℕ
  pub pending : List ℕ
  pub next_timer : ℕ
  pub calls : List H

pub data Event (H : Type 0) : Type 0 where
  subscribed : String → H → Event H
  unsubscribed : String → H → Event H
  pressed : Key → Event H
  fired : ℕ → Event H

unfoldable pub in_editable : Option Target → Bool
in_editable none = false
in_editable (some el) =
    str_eq el.tag_name "INPUT"
    || str_eq el.tag_name "TEXTAREA"
    || str_eq el.tag_name "SELECT"
    || el.is_content_editable
    || el.in_xterm
    || el.in_cm_editor

-- `GO_MAP[k]`
unfoldable pub go_map : String → Option String
go_map k =
    if str_eq k "o"
    then some "go:overview"
    else if str_eq k "s"
    then some "go:sandboxes"
    else if str_eq k "n"
    then some "go:nodes"
    else if str_eq k "t"
    then some "go:templates"
    else if str_eq k "g"
    then some "go:storage"
    else none

abbrev pub has_id : List ℕ → ℕ → Bool
has_id [] n = false
has_id (m ∷ ms) n = m == n || has_id ms n

-- `clearTimeout`, and a timer that has fired.
abbrev pub cancel : List ℕ → ℕ → List ℕ
cancel ms n = keep (λ m. not (m == n)) ms

module _ {H : Type 0} (eq : H → H → Bool) where
  -- `set.add(fn)`, a Set that keeps the order of insertion.
  abbrev pub add : H → List H → List H
  add fn [] = fn ∷ []
  add fn (g ∷ set) = if eq g fn then g ∷ set else g ∷ add fn set

  abbrev pub or_empty : Option (List H) → List H
  or_empty none = []
  or_empty (some set) = set

  unfoldable pub on_shortcut : World H → String → H → World H
  on_shortcut w event fn = record w {
    listeners = put event (add fn (or_empty (get event w.listeners))) w.listeners;
  }

  -- The function that `onShortcut` returns.
  unfoldable pub off : World H → String → H → World H
  off w event fn = record w {
    listeners =
        put event (keep (λ g. not (eq g fn)) (or_empty (get event w.listeners))) w.listeners;
  }

  unfoldable pub emit : World H → String → World H
  emit w event = record w { calls = w.calls ++ or_empty (get event w.listeners) }

  unfoldable pub clear_go : World H → World H
  clear_go w = elim w.go_timer [ some n ↦ record w { pending = cancel w.pending n } | none ↦ w ]

  unfoldable pub emit_if : World H → Option String → World H
  emit_if w none = w
  emit_if w (some event) = emit w event

  -- `onKey`
  unfoldable pub on_key : World H → Key → World H
  on_key w e =
      if (e.meta || e.ctrl) && str_eq e.lower "k"
      then emit w "palette:open"
      else if e.meta || e.ctrl || e.alt
      then w
      else if in_editable e.target
      then w
      else if w.go_armed
      then emit_if (clear_go (record w { go_armed = false })) (go_map e.lower)
      else if str_eq e.key "g"
      then record w {
        go_armed = true;
        go_timer = some w.next_timer;
        pending = w.next_timer ∷ w.pending;
        next_timer = suc w.next_timer;
      }
      else if str_eq e.key "?"
      then emit w "help:open"
      else w

  -- The callback of the timer, if it is still pending.
  unfoldable pub on_fired : World H → ℕ → World H
  on_fired w n =
      if has_id w.pending n then record w { go_armed = false; pending = cancel w.pending n } else w

  unfoldable pub step : World H → Event H → World H
  step w (subscribed event fn) = on_shortcut w event fn
  step w (unsubscribed event fn) = off w event fn
  step w (pressed e) = on_key w e
  step w (fired n) = on_fired w n

  unfoldable pub run : World H → List (Event H) → World H
  run w [] = w
  run w (e ∷ es) = run (step w e) es

abbrev pub loaded : {H : Type 0} → World H
loaded = record {
  listeners = [];
  go_armed = false;
  go_timer = none;
  pending = [];
  next_timer = 1;
  calls = [];
}
