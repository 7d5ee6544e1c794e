-- ===== src/Toast/Expiry.antt =====
-- The order of the queue against the history of pushes, and the dismissal by timers.
use embervm.Prelude.{
  ℕ, zero, suc, ◌-◌, String, false, Option, none, some, some-injective, Bool-cases, ◌<◌, ◌≤◌, ◌≢◌,
  List, [], ◌∷◌, ◌++◌, length, last_n, keep, not, ◌==◌, ◌≡◌, refl, arith, All, All-append, All-drop,
  All-keep, All-imp, inl, inr, ◌⊎◌, last_n-drop-append, append_assoc, append-nil, last_n_of_le, ap,
  ◌∙◌, sym,
}
use embervm.Toast.Invariant.{IsSound, push-IsSound, initial-IsSound}
use embervm.Toast.{
  Kind, Action, Toast, Timer, Store, Op, pushed, dismissed, expired, step, run, max_visible, push,
  dismiss, expire, fire, initial, others, timer_at,
}

-- The arguments of one call of `push`.
pub record Request (H : Type 0) : Type 0 where
  pub kind : Kind
  pub title : String
  pub detail : Option String
  pub action : Option (Action H)

-- A timer that will dismiss the toast `id` is among `ts`.
abbrev Pending : ℕ → List Timer → Type 0
Pending id [] = ⊥
Pending id (t ∷ ts) = (t.toast_id ≡ id) ⊎ Pending id ts

Pending-append_left : (id : ℕ) (ts us : List Timer) → Pending id ts → Pending id (ts ++ us)
Pending-append_left id [] us h = absurd h
Pending-append_left id (t ∷ ts) us (inl e) = inl e
Pending-append_left id (t ∷ ts) us (inr h) = inr (Pending-append_left id ts us h)

Pending-append_last : (t : Timer) (ts : List Timer) → Pending t.toast_id (ts ++ t ∷ [])
Pending-append_last t [] = inl refl
Pending-append_last t (u ∷ ts) = inr (Pending-append_last t ts)

Pending-others :
    (id n : ℕ) (ts : List Timer) (t : Timer)
    → timer_at n ts ≡ some t
    → (id == t.toast_id) ≡ false
    → Pending id ts
    → Pending id (others n ts)
Pending-others id n [] t e k h = absurd h
Pending-others id zero (u ∷ ts) t e k (inl p) =
    let q : u.toast_id ≡ t.toast_id = ap (λ (v : Timer). v.toast_id) (some-injective _ _ e) in
    absurd (ground (arith, p, q, k))
Pending-others id zero (u ∷ ts) t e k (inr h) = h
Pending-others id (suc n) (u ∷ ts) t e k (inl p) = inl p
Pending-others id (suc n) (u ∷ ts) t e k (inr h) = inr (Pending-others id n ts t e k h)

length-others : (n : ℕ) (ts : List Timer) → n < length ts → suc (length (others n ts)) ≡ length ts
length-others n [] l = absurd (omega (arith, l))
length-others zero (t ∷ ts) l = refl
length-others (suc n) (t ∷ ts) l =
    let k : n < length ts = omega (arith, l) in omega (arith, length-others n ts k)

timer_at-some : (n : ℕ) (ts : List Timer) → n < length ts → timer_at n ts ≢ none
timer_at-some n [] l e = omega (arith, l)
timer_at-some zero (t ∷ ts) l e = absurd (cc e)
timer_at-some (suc n) (t ∷ ts) l e =
    let k : n < length ts = omega (arith, l) in timer_at-some n ts k e

-- An order in which `n` timers fire: the place of each among those that have not fired before.
abbrev pub IsOrder : ℕ → List ℕ → Type 0
IsOrder zero [] = Unit
IsOrder zero (m ∷ ns) = ⊥
IsOrder (suc n) [] = ⊥
IsOrder (suc n) (m ∷ ns) = (m ≤ n) × IsOrder n ns

module _ {H : Type 0} where
  abbrev pub push_all : Store H → List (Request H) → Store H
  push_all s [] = s
  push_all s (r ∷ rs) = push_all (push s r.kind r.title r.detail r.action).0 rs

  -- The toasts that a list of requests raises, numbered from `n`.
  abbrev pub numbered : ℕ → List (Request H) → List (Toast H)
  numbered n [] = []
  numbered n (r ∷ rs) =
      record { id = n; kind = r.kind; title = r.title; detail = r.detail; action = r.action }
      ∷ numbered (suc n) rs

  queue-push_all_from :
      (s : Store H) (rs : List (Request H))
      → last_n 3 (push_all s rs).queue ≡ last_n 3 (s.queue ++ numbered s.next_id rs)
  unfolding push
  queue-push_all_from s [] = rw append-nil
  queue-push_all_from s (r ∷ rs) =
      queue-push_all_from (push s r.kind r.title r.detail r.action).0 rs
      ∙ ap (last_n 3) (append_assoc (last_n 2 s.queue) _ _)
      ∙ last_n-drop-append 3 (length s.queue - 2) s.queue (numbered s.next_id (r ∷ rs))
          (omega arith) (omega arith)

  push_all-IsSound : (s : Store H) (rs : List (Request H)) → IsSound s → IsSound (push_all s rs)
  push_all-IsSound s [] v = v
  push_all-IsSound s (r ∷ rs) v =
      push_all-IsSound (push s r.kind r.title r.detail r.action).0 rs
        (push-IsSound s r.kind r.title r.detail r.action v)

  -- After any number of pushes and no dismissal, the queue is the last three toasts that were
  -- raised, in the order in which they were raised, numbered from 1.
  pub queue-push_all :
      (rs : List (Request H)) → (push_all initial rs).queue ≡ last_n max_visible (numbered 1 rs)
  queue-push_all rs =
      sym (last_n_of_le 3 _ (push_all-IsSound initial rs initial-IsSound).visible)
      ∙ queue-push_all_from initial rs

  -- Every toast of the queue has a timer of its own that has not fired.
  abbrev IsTimed : Store H → Type 0
  IsTimed s = All (λ t. Pending t.id s.timers) s.queue

  timers-dismiss : (s : Store H) (id : ℕ) → (dismiss s id).timers ≡ s.timers
  unfolding dismiss
  timers-dismiss s id = ground arith

  queue-dismiss :
      (s : Store H) (id : ℕ) → (dismiss s id).queue ≡ keep (λ t. not (t.id == id)) s.queue
  unfolding dismiss
  queue-dismiss s id = ground arith

  push-IsTimed :
      (s : Store H) (kind : Kind) (title : String) (detail : Option String)
      (action : Option (Action H))
      → IsTimed s
      → IsTimed (push s kind title detail action).0
  unfolding push
  push-IsTimed s kind title detail action h =
      All-append (λ t. Pending t.id _) (last_n 2 s.queue) _
        (All-imp (λ t p. Pending-append_left t.id s.timers _ p) (last_n 2 s.queue)
          (All-drop _ (length s.queue - 2) s.queue h))
        (Pending-append_last _ s.timers, tt)

  dismiss-IsTimed : (s : Store H) (id : ℕ) → IsTimed s → IsTimed (dismiss s id)
  dismiss-IsTimed s id h =
      rw (queue-dismiss s id, timers-dismiss s id)
        (All-keep (λ t. Pending t.id s.timers) _ s.queue h)

  -- Once a timer has fired, the toasts that are left wait for the other timers.
  All-Pending-others :
      (n : ℕ) (ts : List Timer) (t : Timer) (q : List (Toast H))
      → timer_at n ts ≡ some t
      → All (λ u. Pending u.id ts) q
      → All (λ u. Pending u.id (others n ts)) (keep (λ u. not (u.id == t.toast_id)) q)
  All-Pending-others n ts t [] e h = tt
  All-Pending-others n ts t (u ∷ q) e h = elim (Bool-cases (u.id == t.toast_id)) [
    | inl k ↦ rw k (All-Pending-others n ts t q e h.1)
    | inr k ↦ rw k (Pending-others u.id n ts t e k h.0, All-Pending-others n ts t q e h.1)
  ]

  fire-IsTimed :
      (s : Store H) (n : ℕ) (o : Option Timer)
      → timer_at n s.timers ≡ o
      → IsTimed s
      → IsTimed (fire s n o)
  unfolding fire
  fire-IsTimed s n none e h = h
  fire-IsTimed s n (some t) e h =
      rw
        (
          queue-dismiss (record s { timers = others n s.timers }) t.toast_id,
          timers-dismiss (record s { timers = others n s.timers }) t.toast_id,
        )
        (All-Pending-others n s.timers t s.queue e h)

  expire-IsTimed : (s : Store H) (n : ℕ) → IsTimed s → IsTimed (expire s n)
  unfolding expire
  expire-IsTimed s n h = fire-IsTimed s n (timer_at n s.timers) refl h

  step-IsTimed : (s : Store H) (op : Op H) → IsTimed s → IsTimed (step s op)
  step-IsTimed s (pushed kind title detail action) h = push-IsTimed s kind title detail action h
  step-IsTimed s (dismissed id) h = dismiss-IsTimed s id h
  step-IsTimed s (expired n) h = expire-IsTimed s n h

  run-IsTimed : (s : Store H) (ops : List (Op H)) → IsTimed s → IsTimed (run s ops)
  run-IsTimed s [] h = h
  run-IsTimed s (op ∷ ops) h = run-IsTimed (step s op) ops (step-IsTimed s op h)

  -- Timers fire one after the other, each at its place among those that are then pending.
  abbrev pub expire_all : List ℕ → Store H → Store H
  expire_all [] s = s
  expire_all (n ∷ ns) s = expire_all ns (expire s n)

  length-timers-fire :
      (s : Store H) (n : ℕ) (o : Option Timer)
      → timer_at n s.timers ≡ o
      → n < length s.timers
      → suc (length (fire s n o).timers) ≡ length s.timers
  unfolding fire
  length-timers-fire s n none e l = absurd (timer_at-some n s.timers l e)
  length-timers-fire s n (some t) e l =
      rw (timers-dismiss (record s { timers = others n s.timers }) t.toast_id)
        (length-others n s.timers l)

  length-timers-expire :
      (s : Store H) (n : ℕ)
      → n < length s.timers
      → suc (length (expire s n).timers) ≡ length s.timers
  unfolding expire
  length-timers-expire s n l = length-timers-fire s n (timer_at n s.timers) refl l

  Pending-none :
      (ts : List Timer) (q : List (Toast H)) → length ts ≡ 0 → All (λ t. Pending t.id ts) q → q ≡ []
  Pending-none ts [] e h = refl
  Pending-none [] (t ∷ q) e h = absurd h.0
  Pending-none (u ∷ ts) (t ∷ q) e h = absurd (omega arith)

  queue-expire_all_from :
      (n : ℕ) (ns : List ℕ) (s : Store H)
      → IsOrder n ns
      → length s.timers ≡ n
      → IsTimed s
      → (expire_all ns s).queue ≡ []
  queue-expire_all_from zero [] s o e h = Pending-none s.timers s.queue e h
  queue-expire_all_from zero (m ∷ ns) s o e h = absurd o
  queue-expire_all_from (suc n) [] s o e h = absurd o
  queue-expire_all_from (suc n) (m ∷ ns) s o e h =
      let l : m < length s.timers = omega (arith, o.0, e) in
      queue-expire_all_from n ns (expire s m) o.1 (omega (arith, length-timers-expire s m l, e))
        (expire-IsTimed s m h)

  -- However the store came about, once the timers that are pending have fired, in whatever order, and
  -- nothing was pushed meanwhile, no toast is left on the screen.
  pub queue-expire_all :
      (ops : List (Op H)) (order : List ℕ)
      → IsOrder (length (run initial ops).timers) order
      → (expire_all order (run initial ops)).queue ≡ []
  queue-expire_all ops order o =
      queue-expire_all_from (length (run initial ops).timers) order (run initial ops) o refl
        (run-IsTimed initial ops tt)
