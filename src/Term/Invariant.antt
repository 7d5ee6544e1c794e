-- ===== src/Term/Invariant.antt =====
-- The retry timers: what holds of them in every world that can be reached.
use embervm.Prelude.{
  ℕ, ◌≤◌, ◌<◌, String, true, false, Option, none, some, update, ◌==◌, ◌≡◌, refl, arith, Bool-cases,
  inl, inr,
}
use embervm.Term.{Internal, Socket, Timer, World, modify, loaded}
use embervm.Term.Connect.{arm, new_timer, attach}

-- Timers, sockets and objects agree: a pending timer belongs to an existing object that is not
-- closed and holds its number; an open object's timer is pending; a number that an object holds is
-- that of no other object's timer; timers and sockets have existing owners.
pub record Agree (heap : ℕ → Internal) (seq : ℕ) (timers : ℕ → Option Timer) (next_timer : ℕ)
    (sockets : ℕ → Option Socket) : Type 0 where
  pub owned : (k : ℕ) (t : Timer) → timers k ≡ some t → t.owner < seq
  pub held : (k : ℕ) (t : Timer) → timers k ≡ some t → (heap t.owner).retry_timer ≡ some k
  pub alive : (k : ℕ) (t : Timer) → timers k ≡ some t → (heap t.owner).user_closed ≡ false
  pub waits :
      (r k : ℕ)
      → (heap r).user_closed ≡ false
      → (heap r).retry_timer ≡ some k
      → (t : Timer) × (timers k ≡ some t) × (t.owner ≡ r)
  pub own : (r k : ℕ) (t : Timer) → (heap r).retry_timer ≡ some k → timers k ≡ some t → t.owner ≡ r
  pub old : (r k : ℕ) → (heap r).retry_timer ≡ some k → k < next_timer
  pub unused : (k : ℕ) → next_timer ≤ k → timers k ≡ none
  pub made : (k : ℕ) (s : Socket) → sockets k ≡ some s → s.owner < seq

abbrev pub TimersAgree : World → Type 0
TimersAgree w = Agree w.heap w.seq w.timers w.next_timer w.sockets

pub loaded-TimersAgree : (token : Option String) → TimersAgree (loaded token)
loaded-TimersAgree token = record {
  owned = λ k t h. cc;
  held = λ k t h. cc;
  alive = λ k t h. cc;
  waits = λ r k c h. cc;
  own = λ r k t h e. cc;
  old = λ r k h. cc;
  unused = λ k h. refl;
  made = λ k s h. cc;
}

module _ (w : World) (v : TimersAgree w) where
  -- A change of an object that keeps its timer's number and whether it is closed.
  pub modify-TimersAgree :
      (r : ℕ) (f : Internal → Internal)
      → (f (w.heap r)).retry_timer ≡ (w.heap r).retry_timer
      → (f (w.heap r)).user_closed ≡ (w.heap r).user_closed
      → TimersAgree (modify w r f)
  modify-TimersAgree r f e c = record {
    owned = v.owned;
    held = λ k t h. ground (arith, v.held k t h);
    alive = λ k t h. ground (arith, v.alive k t h);
    waits = λ q k h e'. v.waits q k (ground arith) (ground arith);
    own = λ q k t h e'. ground (arith, v.own q k t);
    old = λ q k h. ground (arith, v.old q k);
    unused = v.unused;
    made = v.made;
  }

  pub attach-TimersAgree : (r : ℕ) (token : String) → r < w.seq → TimersAgree (attach w r token)
  attach-TimersAgree r token lt =
      let m = modify-TimersAgree r (λ i. record i { ws = some w.next_ws }) refl refl in
      record {
        owned = m.owned;
        held = m.held;
        alive = m.alive;
        waits = m.waits;
        own = m.own;
        old = m.old;
        unused = m.unused;
        made = λ k s h. ground (arith, v.made k s);
      }

  pub arm-TimersAgree :
      (r random : ℕ)
      → r < w.seq
      → (w.heap r).retry_timer ≡ none
      → (w.heap r).user_closed ≡ false
      → TimersAgree (arm w r random)
  arm-TimersAgree r random lt idle open' = record {
    owned = λ k t h. ground (arith, v.owned k t);
    held = λ k t h. ground (arith, v.held k t);
    alive = λ k t h. ground (arith, v.alive k t);
    waits = λ q k c h. elim (Bool-cases (r == q)) [
      | inl e ↦ (new_timer w r random, ground arith, ground arith)
      | inr e ↦
          let (t, there, own) = v.waits q k (rw e at c) (rw e at h) in
          (t, ground (arith, v.unused k), own)
    ];
    own = λ q k t h e. ground (arith, v.own q k t, v.old q k);
    old = λ q k h. ground (arith, v.old q k);
    unused = λ k h. ground (arith, v.unused k);
    made = v.made;
  }

  -- The timer `k` fires or is cleared, and the object that holds it forgets it.
  pub drop-TimersAgree :
      (r k : ℕ)
      → (w.heap r).retry_timer ≡ some k
      → TimersAgree (record w {
        timers = update w.timers k none;
        heap = update w.heap r (record (w.heap r) { retry_timer = none });
      })
  drop-TimersAgree r k e = record {
    owned = λ j t h. ground (arith, v.owned j t);
    held = λ j t h. ground (arith, v.held j t, v.own r k t);
    alive = λ j t h. ground (arith, v.alive j t);
    waits = λ q j c h. elim (Bool-cases (r == q)) [
      | inl same ↦ absurd (ground arith)
      | inr other ↦
          let (t, there, own) = v.waits q j (rw other at c) (rw other at h) in
          (t, ground (arith, v.own r k t), own)
    ];
    own = λ q j t h e'. ground (arith, v.own q j t);
    old = λ q j h. ground (arith, v.old q j);
    unused = λ j h. ground (arith, v.unused j);
    made = v.made;
  }

  -- An object is closed and its timer cleared.
  pub shut-TimersAgree :
      (r k : ℕ)
      → (w.heap r).retry_timer ≡ some k
      → TimersAgree (record w {
        timers = update w.timers k none;
        heap = update w.heap r (record (w.heap r) { user_closed = true; disposed = true });
      })
  shut-TimersAgree r k e = record {
    owned = λ j t h. ground (arith, v.owned j t);
    held = λ j t h. ground (arith, v.held j t, v.own r k t);
    alive = λ j t h. ground (arith, v.alive j t, v.held j t);
    waits = λ q j c h. elim (Bool-cases (r == q)) [
      | inl same ↦ absurd (ground arith)
      | inr other ↦
          let (t, there, own) = v.waits q j (rw other at c) (rw other at h) in
          (t, ground (arith, v.own r k t), own)
    ];
    own = λ q j t h e'. ground (arith, v.own q j t);
    old = λ q j h. ground (arith, v.old q j);
    unused = λ j h. ground (arith, v.unused j);
    made = v.made;
  }
