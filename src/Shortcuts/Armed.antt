-- ===== src/Shortcuts/Armed.antt =====
-- The `g` sequence and its timer.
use embervm.Prelude.{
  ℕ, String, Bool, true, false, Option, none, some, List, [], ◌∷◌, ◌≡◌, refl, ap, ap₂, ◌∙◌, All,
  ◌++◌, get, append-nil, sym, ◌||◌, ◌&&◌, not, is_some, if-intro, arith, Option-cases, inl, inr,
  str_eq,
}
use embervm.Shortcuts.{
  World, Event, Key, subscribed, unsubscribed, pressed, fired, emit, emit_if, clear_go, on_key,
  on_fired, on_shortcut, off, step, run, loaded, go_map, cancel, has_id, in_editable, or_empty,
}

-- The timers that a state of the sequence has: its own while it is armed, none otherwise.
abbrev pub timers_of : Bool → Option ℕ → List ℕ
timers_of false t = []
timers_of true none = []
timers_of true (some n) = n ∷ []

abbrev pub IsArmed : {H : Type 0} → World H → Type 0
IsArmed w =
    (w.pending ≡ timers_of w.go_armed w.go_timer)
    × ((w.go_armed && not (is_some w.go_timer)) ≡ false)

cancel-own : (n : ℕ) → cancel (n ∷ []) n ≡ []
cancel-own n = ground arith

cancel-timers_of :
    (armed : Bool) (t : Option ℕ) (n : ℕ)
    → has_id (timers_of armed t) n ≡ true
    → cancel (timers_of armed t) n ≡ []
cancel-timers_of false t n h = refl
cancel-timers_of true none n h = refl
cancel-timers_of true (some m) n h = ground arith

module _ {H : Type 0} (eq : H → H → Bool) where
  emit_if-IsArmed : (w : World H) (event : Option String) → IsArmed w → IsArmed (emit_if eq w event)
  unfolding emit_if emit
  emit_if-IsArmed w none h = h
  emit_if-IsArmed w (some event) h = h

  -- The second key of the sequence.
  disarmed :
      (w : World H)
      → IsArmed w
      → w.go_armed ≡ true
      → (event : Option String)
      → IsArmed (emit_if eq (clear_go eq (record w { go_armed = false })) event)
  unfolding clear_go
  disarmed w h a event = emit_if-IsArmed _ event (elim (Option-cases w.go_timer) [
    | inl e ↦ absurd (cc (rw (a, e) at h.1))
    | inr (n, e) ↦ rw (e, h.0, a, e) (cancel-own n, refl)
  ])

  on_key-IsArmed : (w : World H) (e : Key) → IsArmed w → IsArmed (on_key eq w e)
  unfolding on_key emit
  on_key-IsArmed w e h =
      if-intro IsArmed ((e.meta || e.ctrl) && str_eq e.lower "k") (λ _. h)
        λ _.
          if-intro IsArmed (e.meta || e.ctrl || e.alt) (λ _. h)
            λ _.
              if-intro IsArmed (in_editable e.target) (λ _. h)
                λ _.
                  if-intro IsArmed w.go_armed (λ a. disarmed w h a (go_map e.lower))
                    λ n.
                      if-intro IsArmed (str_eq e.key "g") (λ _. (rw (h.0, n), refl))
                        λ _. if-intro IsArmed (str_eq e.key "?") (λ _. h) (λ _. h)

  on_fired-IsArmed : (w : World H) (n : ℕ) → IsArmed w → IsArmed (on_fired eq w n)
  unfolding on_fired
  on_fired-IsArmed w n h =
      if-intro IsArmed (has_id w.pending n)
        (λ i. (rw (h.0, cancel-timers_of w.go_armed w.go_timer n (rw h.0 at i)), refl)) (λ _. h)

  step-IsArmed : (w : World H) (e : Event H) → IsArmed w → IsArmed (step eq w e)
  unfolding step on_shortcut off
  step-IsArmed w (subscribed event fn) h = h
  step-IsArmed w (unsubscribed event fn) h = h
  step-IsArmed w (pressed e) h = on_key-IsArmed w e h
  step-IsArmed w (fired n) h = on_fired-IsArmed w n h

  run-IsArmed_from : (w : World H) (es : List (Event H)) → IsArmed w → IsArmed (run eq w es)
  unfolding run
  run-IsArmed_from w [] h = h
  run-IsArmed_from w (e ∷ es) h = run-IsArmed_from (step eq w e) es (step-IsArmed w e h)

  -- However keys are pressed and timers fire, the sequence has exactly one pending timer, its own, while
  -- it is armed, and no pending timer otherwise: a timer that an earlier `g` left never ends a later
  -- sequence.
  pub run-IsArmed : (es : List (Event H)) → IsArmed (run eq loaded es)
  run-IsArmed es = run-IsArmed_from loaded es (refl, refl)

  abbrev pub IsPlain : Key → Type 0
  IsPlain e = (e.meta ≡ false) × (e.ctrl ≡ false) × (e.alt ≡ false) × (in_editable e.target ≡ false)

  abbrev pub IsTyped : Key → Type 0
  IsTyped e = (in_editable e.target ≡ true) × (str_eq e.lower "k" ≡ false)

  abbrev pub press_all : World H → List Key → World H
  press_all w [] = w
  press_all w (e ∷ es) = press_all (on_key eq w e) es

  on_key_typed : (w : World H) (e : Key) → IsTyped e → on_key eq w e ≡ w
  unfolding on_key
  on_key_typed w e h = ground arith

  press_all_typed : (w : World H) (es : List Key) → All IsTyped es → press_all w es ≡ w
  press_all_typed w [] h = refl
  press_all_typed w (e ∷ es) h =
      ap (λ v. press_all v es) (on_key_typed w e h.0) ∙ press_all_typed w es h.1

  abbrev pub subscribers : List (String × List H) → Option String → List H
  subscribers m none = []
  subscribers m (some event) = or_empty eq (get event m)

  on_key-second :
      (w : World H) (e : Key)
      → w.go_armed ≡ true
      → IsPlain e
      → on_key eq w e ≡ emit_if eq (clear_go eq (record w { go_armed = false })) (go_map e.lower)
  unfolding on_key
  on_key-second w e a h = rw (h.0, h.1, h.2, h.3, a) refl

  emit_if-calls :
      (w : World H) (event : Option String)
      → ((emit_if eq w event).calls ≡ w.calls ++ subscribers w.listeners event)
        × ((emit_if eq w event).go_armed ≡ w.go_armed)
  unfolding emit_if emit
  emit_if-calls w none = (sym (append-nil w.calls), refl)
  emit_if-calls w (some event) = (refl, refl)

  clear_go-frame :
      (w : World H) (t : Option ℕ)
      → w.go_timer ≡ t
      → ((clear_go eq w).calls ≡ w.calls)
        × ((clear_go eq w).go_armed ≡ w.go_armed)
        × ((clear_go eq w).listeners ≡ w.listeners)
  unfolding clear_go
  clear_go-frame w none e = rw e (refl, refl, refl)
  clear_go-frame w (some n) e = rw e (refl, refl, refl)

  second_key :
      (w : World H) (e : Key)
      → w.go_armed ≡ true
      → IsPlain e
      → ((on_key eq w e).calls ≡ w.calls ++ subscribers w.listeners (go_map e.lower))
        × ((on_key eq w e).go_armed ≡ false)
  second_key w e a h =
      let v : World H = clear_go eq (record w { go_armed = false }) in
      let (calls, armed, heard) = clear_go-frame (record w { go_armed = false }) w.go_timer refl in
      let (said, quiet) = emit_if-calls v (go_map e.lower) in
      rw (on_key-second w e a h)
        (said ∙ ap₂ (λ c m. c ++ subscribers m (go_map e.lower)) calls heard, quiet ∙ armed)

  on_key-first :
      (w : World H) (e : Key)
      → w.go_armed ≡ false
      → IsPlain e
      → str_eq e.key "g" ≡ true
      → ((on_key eq w e).go_armed ≡ true)
        × ((on_key eq w e).calls ≡ w.calls)
        × ((on_key eq w e).listeners ≡ w.listeners)
  unfolding on_key
  on_key-first w e a h g = rw (h.0, h.1, h.2, h.3, a, g) (refl, refl, refl)

  -- A plain `g` where the sequence is not armed, then keys that are typed into fields, then a plain key:
  -- exactly the subscribers of the page that this key stands for are called, none for another key, and
  -- the sequence is over.
  pub go_sequence :
      (w : World H) (g k : Key) (typed : List Key)
      → w.go_armed ≡ false
      → IsPlain g
      → str_eq g.key "g" ≡ true
      → All IsTyped typed
      → IsPlain k
      → ((on_key eq (press_all (on_key eq w g) typed) k).calls
          ≡ w.calls ++ subscribers w.listeners (go_map k.lower))
        × ((on_key eq (press_all (on_key eq w g) typed) k).go_armed ≡ false)
  go_sequence w g k typed n p e t q =
      let v : World H = on_key eq w g in
      let (armed, calls, heard) = on_key-first w g n p e in
      let (called, over) = second_key v k armed q in
      rw (press_all_typed v typed t)
        (called ∙ ap₂ (λ c m. c ++ subscribers m (go_map k.lower)) calls heard, over)
