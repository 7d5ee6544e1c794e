-- ===== src/Toast/Invariant.antt =====
-- What holds of the toast queue after every call of `push` and `dismiss` and every timer.
use embervm.Prelude.{
  ℕ, suc, ◌-◌, ◌≤◌, ◌<◌, String, Bool, Option, none, some, List, [], ◌∷◌, ◌++◌, length, last_n,
  drop, keep, not, ◌==◌, arith, All, All-append, All-drop, All-keep, All-imp, length-append,
  length-drop, length-keep, Bool-cases, inl, inr,
}
use embervm.Toast.{
  Op, pushed, dismissed, expired, step, run, Kind, Action, Toast, Timer, Store, max_visible, push,
  dismiss, expire, fire, initial, others, timer_at,
}

module _ {H : Type 0} where
  -- Later toasts have larger ids.
  abbrev pub IsAscending : List (Toast H) → Type 0
  IsAscending [] = Unit
  IsAscending (t ∷ ts) = All (λ u. t.id < u.id) ts × IsAscending ts

  abbrev IsBelow : ℕ → List (Toast H) → Type 0
  IsBelow n ts = All (λ t. t.id < n) ts

  pub record IsSound (s : Store H) : Type 0 where
    pub visible : length s.queue ≤ max_visible
    pub fresh : IsBelow s.next_id s.queue
    pub ascending : IsAscending s.queue

  IsAscending-append :
      (ts : List (Toast H)) (t : Toast H)
      → IsAscending ts
      → IsBelow t.id ts
      → IsAscending (ts ++ t ∷ [])
  IsAscending-append [] t h b = (tt, tt)
  IsAscending-append (u ∷ ts) t h b =
      (All-append (λ v. u.id < v.id) ts (t ∷ []) h.0 (b.0, tt), IsAscending-append ts t h.1 b.1)

  IsAscending-drop : (n : ℕ) (ts : List (Toast H)) → IsAscending ts → IsAscending (drop n ts)
  IsAscending-drop ℕ.zero ts h = h
  IsAscending-drop (suc n) [] h = h
  IsAscending-drop (suc n) (t ∷ ts) h = IsAscending-drop n ts h.1

  IsAscending-keep :
      (p : Toast H → Bool) (ts : List (Toast H)) → IsAscending ts → IsAscending (keep p ts)
  IsAscending-keep p [] h = h
  IsAscending-keep p (t ∷ ts) h = elim (Bool-cases (p t)) [
    | inl e ↦ rw e (All-keep (λ u. t.id < u.id) p ts h.0, IsAscending-keep p ts h.1)
    | inr e ↦ rw e (IsAscending-keep p ts h.1)
  ]

  pub push-IsSound :
      (s : Store H) (kind : Kind) (title : String) (detail : Option String)
      (action : Option (Action H))
      → IsSound s
      → IsSound (push s kind title detail action).0
  unfolding push
  push-IsSound s kind title detail action v = record {
    visible =
        omega (
          arith,
          length-append {0} (last_n 2 s.queue),
          length-drop {0} (length s.queue - 2) s.queue,
        );
    fresh =
        All-append (λ t. t.id < suc s.next_id) (last_n 2 s.queue) _
          (All-imp (λ t h. omega arith) _ (All-drop _ (length s.queue - 2) s.queue v.fresh))
          (omega arith, tt);
    ascending =
        IsAscending-append (last_n 2 s.queue) _
          (IsAscending-drop (length s.queue - 2) s.queue v.ascending)
          (All-drop _ (length s.queue - 2) s.queue v.fresh);
  }

  pub dismiss-IsSound : (s : Store H) (id : ℕ) → IsSound s → IsSound (dismiss s id)
  unfolding dismiss
  dismiss-IsSound s id v =
      let p : Toast H → Bool = λ t. not (t.id == id) in
      elim (Bool-cases (length (keep p s.queue) == length s.queue)) [
        | inl e ↦ rw e (kept p)
        | inr e ↦ rw e (kept p)
      ]
    where
      kept :
          (p : Toast H → Bool) {n : ℕ}
          → IsSound (record s { queue = keep p s.queue; published = n })
      kept p = record {
        visible = omega (arith, length-keep p s.queue, v.visible);
        fresh = All-keep (λ t. t.id < s.next_id) p s.queue v.fresh;
        ascending = IsAscending-keep p s.queue v.ascending;
      }

  fire-IsSound : (s : Store H) (n : ℕ) (o : Option Timer) → IsSound s → IsSound (fire s n o)
  unfolding fire
  fire-IsSound s n none v = v
  fire-IsSound s n (some t) v =
      dismiss-IsSound (record s { timers = others n s.timers }) t.toast_id
        (record { visible = v.visible; fresh = v.fresh; ascending = v.ascending })

  expire-IsSound : (s : Store H) (n : ℕ) → IsSound s → IsSound (expire s n)
  unfolding expire
  expire-IsSound s n v = fire-IsSound s n (timer_at n s.timers) v

  step-IsSound : (s : Store H) (op : Op H) → IsSound s → IsSound (step s op)
  step-IsSound s (pushed kind title detail action) v = push-IsSound s kind title detail action v
  step-IsSound s (dismissed id) v = dismiss-IsSound s id v
  step-IsSound s (expired n) v = expire-IsSound s n v

  run-IsSound_from : (s : Store H) (ops : List (Op H)) → IsSound s → IsSound (run s ops)
  run-IsSound_from s [] v = v
  run-IsSound_from s (op ∷ ops) v = run-IsSound_from (step s op) ops (step-IsSound s op v)

  pub initial-IsSound : IsSound initial
  initial-IsSound = record { visible = omega arith; fresh = tt; ascending = tt }

  -- After every sequence of pushes, dismissals and timers from the loaded module, at most three
  -- toasts are queued, in strictly ascending order of their ids, all of them below the next id.
  pub run-IsSound : (ops : List (Op H)) → IsSound (run initial ops)
  run-IsSound ops = run-IsSound_from initial ops initial-IsSound
