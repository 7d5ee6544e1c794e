-- ===== src/Toast.antt =====
-- The toast store of web/src/lib/toast.ts: the module-level queue, the counter of ids and the
-- dismissal timers that the store has started. `H` is the type of the callbacks of an action.
pub mod Invariant
pub mod Expiry
pub mod Tests
use embervm.Prelude.{
  ℕ, zero, suc, ◌+◌, ◌-◌, String, Bool, Option, none, some, List, [], ◌∷◌, ◌++◌, length, last_n,
  keep, not, ◌==◌, if◌then◌else◌, ◌≡◌, refl,
}

pub data Kind : Type 0 where
  success error info : Kind

pub record Action (H : Type 0) : Type 0 where
  pub label : String
  pub on_click : H

pub record Toast (H : Type 0) : Type 0 where
  pub id : ℕ
  pub kind : Kind
  pub title : String
  pub detail : Option String
  pub action : Option (Action H)

-- A `setTimeout(() => dismiss(id), ttl)` that has not fired.
pub record Timer : Type 0 where
  pub toast_id : ℕ
  pub ttl : ℕ

-- `published` counts the calls of `publish`, each of which runs every listener.
pub record Store (H : Type 0) : Type 0 where
  pub queue : List (Toast H)
  pub next_id : ℕ
  pub timers : List Timer
  pub published : ℕ

-- What can happen to the store after it is loaded. A timer that fires is named by its place among those
-- that are pending, the oldest first: a later one can be due before an earlier one, whose `ttl` is longer.
pub data Op (H : Type 0) : Type 0 where
  pushed : Kind → String → Option String → Option (Action H) → Op H
  dismissed : ℕ → Op H
  expired : ℕ → Op H

abbrev pub max_visible : ℕ
max_visible = 3

abbrev pub ttl_ms : ℕ
ttl_ms = 5000

abbrev pub error_ttl_ms : ℕ
error_ttl_ms = 8000

unfoldable pub ttl_of : Kind → ℕ
ttl_of error = error_ttl_ms
ttl_of _ = ttl_ms

abbrev pub timer_at : ℕ → List Timer → Option Timer
timer_at n [] = none
timer_at zero (t ∷ ts) = some t
timer_at (suc n) (t ∷ ts) = timer_at n ts

-- The pending timers without the one at a place.
abbrev pub others : ℕ → List Timer → List Timer
others n [] = []
others zero (t ∷ ts) = ts
others (suc n) (t ∷ ts) = t ∷ others n ts

module _ {H : Type 0} where
  abbrev pub has_id : ℕ → Toast H → Bool
  has_id id t = t.id == id

  unfoldable pub publish : Store H → Store H
  publish s = record s { published = suc s.published }

  -- `push`, with the fields of `Omit<Toast, "id">` one by one; the id is the result.
  unfoldable pub push : Store H → Kind → String → Option String → Option (Action H) → Store H × ℕ
  unfolding publish ttl_of
  push s kind title detail action =
      let toast : Toast H = record {
        id = s.next_id;
        kind = kind;
        title = title;
        detail = detail;
        action = action;
      } in
      let s1 : Store H = publish (record s {
        queue = last_n (max_visible - 1) s.queue ++ toast ∷ [];
        next_id = suc s.next_id;
      }) in
      (
        record s1 { timers = s1.timers ++ record { toast_id = toast.id; ttl = ttl_of kind } ∷ [] },
        toast.id,
      )

  unfoldable pub dismiss : Store H → ℕ → Store H
  unfolding publish
  dismiss s id =
      let queue : List (Toast H) = keep (λ t. not (t.id == id)) s.queue in
      let s1 : Store H = record s { queue = queue } in
      if length queue == length s.queue then s1 else publish s1

  -- The timer `t` fires, at the place `n`, if there is one.
  unfoldable pub fire : Store H → ℕ → Option Timer → Store H
  unfolding dismiss
  fire s n none = s
  fire s n (some t) = dismiss (record s { timers = others n s.timers }) t.toast_id

  unfoldable pub expire : Store H → ℕ → Store H
  unfolding fire
  expire s n = fire s n (timer_at n s.timers)

  -- The module's state when it is loaded.
  abbrev pub initial : Store H
  initial = record { queue = []; next_id = 1; timers = []; published = 0 }

  -- `toast.success`, `toast.error`, `toast.info`, `toast.action`, and `toastError(prefix)` applied
  -- to an error with this message.
  unfoldable pub raise_success : Store H → String → Option String → Store H × ℕ
  unfolding push
  raise_success s title detail = push s success title detail none

  unfoldable pub raise_error : Store H → String → Option String → Store H × ℕ
  unfolding push
  raise_error s title detail = push s error title detail none

  unfoldable pub raise_info : Store H → String → Option String → Store H × ℕ
  unfolding push
  raise_info s title detail = push s info title detail none

  unfoldable pub raise_action : Store H → Kind → String → Action H → Store H × ℕ
  unfolding push
  raise_action s kind title action = push s kind title none (some action)

  unfoldable pub toast_error : String → Store H → String → Store H
  unfolding raise_error
  toast_error prefix s message = (raise_error s prefix (some message)).0

  abbrev pub step : Store H → Op H → Store H
  step s (pushed kind title detail action) = (push s kind title detail action).0
  step s (dismissed id) = dismiss s id
  step s (expired n) = expire s n

  abbrev pub run : Store H → List (Op H) → Store H
  run s [] = s
  run s (op ∷ ops) = run (step s op) ops
