-- ===== src/Health.antt =====
-- The poller of guest health, web/src/lib/health.ts. `World` is the module-level map with the
-- browser's intervals, timeouts and pending requests. Entries live in a table, since the map and the
-- callbacks share them: a callback keeps its entry when the map has dropped it.
-- `H` is the type of a health report.
pub mod Ring
pub mod Reset
pub mod Tests
use embervm.Prelude.{
  ℕ, suc, ◌+◌, ◌-◌, String, Bool, true, false, Option, none, some, List, [], ◌∷◌, ◌++◌, length,
  drop, max, get, put, remove, update, keep, not, ◌==◌, if◌then◌else◌, get_last?, is_some,
  get_or_else, ◌||◌,
}

pub record HealthSample (H : Type 0) : Type 0 where
  pub at : ℕ
  pub health : H

pub record HealthSeries (H : Type 0) : Type 0 where
  pub samples : List (HealthSample H)
  pub latest : Option (HealthSample H)
  pub unreachable : Bool

-- `Entry`; listeners, intervals and timeouts are numbers.
pub record Entry (H : Type 0) : Type 0 where
  pub samples : List (HealthSample H)
  pub unreachable : Bool
  pub snapshot : HealthSeries H
  pub listeners : List ℕ
  pub timer : Option ℕ
  pub gc_timer : Option ℕ
  pub in_flight : Bool

-- An interval polls the entry `entry` for the sandbox `id`; a timeout drops what the map has at `id`
-- if `entry` has no listener.
pub record Task : Type 0 where
  pub id : String
  pub entry : ℕ

pub record World (H : Type 0) : Type 0 where
  pub heap : ℕ → Entry H
  pub next_entry : ℕ
  pub entries : List (String × ℕ)
  pub intervals : ℕ → Option Task
  pub timeouts : ℕ → Option Task
  pub next_task : ℕ
  pub hidden : Bool

-- `clearTimeout` or `clearInterval` of the task that an entry holds.
abbrev pub clear : (ℕ → Option Task) → Option ℕ → ℕ → Option Task
clear tasks none = tasks
clear tasks (some k) = update tasks k none

-- `listeners.delete(l)` and `listeners.add(l)` of a `Set`.
abbrev pub without : ℕ → List ℕ → List ℕ
without l ls = keep (λ x. not (x == l)) ls

abbrev pub join_set : ℕ → List ℕ → List ℕ
join_set l [] = l ∷ []
join_set l (x ∷ xs) = if x == l then x ∷ xs else x ∷ join_set l xs

abbrev pub is_empty : List ℕ → Bool
is_empty [] = true
is_empty (x ∷ xs) = false

abbrev pub capacity : ℕ
capacity = 240

module _ {H : Type 0} where
  abbrev pub empty : HealthSeries H
  empty = record { samples = []; latest = none; unreachable = false }

  abbrev pub blank : Entry H
  blank = record {
    samples = [];
    unreachable = false;
    snapshot = empty;
    listeners = [];
    timer = none;
    gc_timer = none;
    in_flight = false;
  }

  abbrev pub modify : World H → ℕ → (Entry H → Entry H) → World H
  modify w r f = record w { heap = update w.heap r (f (w.heap r)) }

  -- `publish`, apart from the calls of the listeners.
  abbrev pub publish : Entry H → Entry H
  publish e = record e {
    snapshot = record {
      samples = e.samples;
      latest = get_last? e.samples;
      unreachable = e.unreachable;
    };
  }

  -- `e.samples.slice(Math.max(0, e.samples.length - CAPACITY + 1))` and the push.
  unfoldable pub add_sample : List (HealthSample H) → HealthSample H → List (HealthSample H)
  add_sample samples s = drop (length samples + 1 - capacity) samples ++ s ∷ []

  -- `poll` up to its request: the new state, and whether a request is sent.
  unfoldable pub start_poll : World H → ℕ → World H × Bool
  start_poll w r =
      if (w.heap r).in_flight || w.hidden
      then (w, false)
      else (modify w r (λ e. record e { in_flight = true }), true)

  -- What a poll does with its answer: a report that arrives at the time `at`, or an error.
  abbrev pub succeed : HealthSample H → Entry H → Entry H
  succeed s e =
      publish
        (record e { samples = add_sample e.samples s; unreachable = false; in_flight = false })

  abbrev pub fail : Entry H → Entry H
  fail e = publish (record e { unreachable = true; in_flight = false })

  abbrev pub answer : Option (HealthSample H) → Entry H → Entry H
  answer (some s) e = succeed s e
  answer none e = fail e

  unfoldable pub finish_poll : World H → ℕ → Option (HealthSample H) → World H
  unfolding add_sample
  finish_poll w r result = modify w r (answer result)

  -- `entryFor`
  unfoldable pub entry_for : World H → String → World H × ℕ
  entry_for w id = elim (get id w.entries) [
    | some r ↦ (w, r)
    | none ↦ (
      record w {
        heap = update w.heap w.next_entry blank;
        next_entry = suc w.next_entry;
        entries = put id w.next_entry w.entries;
      },
      w.next_entry,
    )
  ]

  abbrev pub start_interval : World H → String → ℕ → World H
  start_interval w id r = record w {
    intervals = update w.intervals w.next_task (some (record { id = id; entry = r }));
    next_task = suc w.next_task;
    heap = update w.heap r (record (w.heap r) { timer = some w.next_task });
  }

  -- `subscribe` on the entry `r`.
  abbrev pub listen : World H → ℕ → ℕ → World H
  listen w r l = record w {
    timeouts = clear w.timeouts (w.heap r).gc_timer;
    heap =
        update w.heap r
          (record (w.heap r) { listeners = join_set l (w.heap r).listeners; gc_timer = none });
  }

  unfoldable pub subscribe_to : World H → String → ℕ → ℕ → World H
  unfolding start_poll
  subscribe_to w id r l =
      let w1 : World H = listen w r l in
      if is_some (w1.heap r).timer then w1 else start_interval (start_poll w1 r).0 id r

  -- `subscribe`; the result is the entry that the function which it returns unsubscribes from.
  unfoldable pub subscribe : World H → String → ℕ → World H × ℕ
  unfolding entry_for subscribe_to
  subscribe w id l = let (w1, r) = entry_for w id in (subscribe_to w1 id r l, r)

  abbrev pub set_timeout : World H → String → ℕ → World H
  set_timeout w id r = record w {
    timeouts = update w.timeouts w.next_task (some (record { id = id; entry = r }));
    next_task = suc w.next_task;
    intervals = clear w.intervals (w.heap r).timer;
    heap = update w.heap r (record (w.heap r) { timer = none; gc_timer = some w.next_task });
  }

  -- The function that `subscribe` returns.
  unfoldable pub unsubscribe : World H → String → ℕ → ℕ → World H
  unsubscribe w id r l =
      let w1 : World H = modify w r (λ e. record e { listeners = without l e.listeners }) in
      if is_empty (w1.heap r).listeners then set_timeout w1 id r else w1

  -- The timeout `k` fires, if it is pending.
  unfoldable pub collect : World H → ℕ → World H
  collect w k = elim (w.timeouts k) [
    | none ↦ w
    | some t ↦
        if is_empty (w.heap t.entry).listeners
        then record w { timeouts = update w.timeouts k none; entries = remove t.id w.entries }
        else record w { timeouts = update w.timeouts k none }
  ]

  -- The interval `k` fires, if it has not been cleared.
  unfoldable pub tick : World H → ℕ → World H
  unfolding start_poll
  tick w k = elim (w.intervals k) [ none ↦ w | some t ↦ (start_poll w t.entry).0 ]

  -- `resetHealthStore`, the loop over the values of the map and `entries.clear()`
  unfoldable pub stop_all : World H → List (String × ℕ) → World H
  stop_all w [] = w
  stop_all w ((id, r) ∷ rest) =
      stop_all
        (record w {
          intervals = clear w.intervals (w.heap r).timer;
          timeouts = clear w.timeouts (w.heap r).gc_timer;
        })
        rest

  unfoldable pub reset_health_store : World H → World H
  unfolding stop_all
  reset_health_store w = record (stop_all w w.entries) { entries = [] }

  -- What `useSandboxHealth` reads.
  unfoldable pub health_of : World H → String → HealthSeries H
  health_of w id = elim (get id w.entries) [ none ↦ empty | some r ↦ (w.heap r).snapshot ]

  abbrev pub loaded : World H
  loaded = record {
    heap = λ r. blank;
    next_entry = 0;
    entries = [];
    intervals = λ k. none;
    timeouts = λ k. none;
    next_task = 0;
    hidden = false;
  }

-- Everything that can happen to the store. An answer arrives for an entry with a request in flight.
pub data Event (H : Type 0) : Type 0 where
  subscribed : String → (listener : ℕ) → Event H
  unsubscribed : String → (entry listener : ℕ) → Event H
  ticked : (interval : ℕ) → Event H
  answered : (entry : ℕ) → Option (HealthSample H) → Event H
  collected : (timeout : ℕ) → Event H
  visibility : (hidden : Bool) → Event H
  unauthorized : Event H

module _ {H : Type 0} where
  unfoldable pub step : World H → Event H → World H
  unfolding subscribe unsubscribe tick finish_poll collect reset_health_store
  step w (subscribed id l) = (subscribe w id l).0
  step w (unsubscribed id r l) = unsubscribe w id r l
  step w (ticked k) = tick w k
  step w (answered r result) = if (w.heap r).in_flight then finish_poll w r result else w
  step w (collected k) = collect w k
  step w (visibility hidden) = record w { hidden = hidden }
  step w unauthorized = reset_health_store w

  abbrev pub run : World H → List (Event H) → World H
  run w [] = w
  run w (e ∷ es) = run (step w e) es
