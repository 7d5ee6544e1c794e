-- ===== src/Term/Timers.antt =====
-- The callbacks and the calls keep the agreement of timers, sockets and objects.
use embervm.Prelude.{
  ℕ, ◌<◌, String, ◌||◌, Option, none, some, ◌++◌, update, get, is_some, ◌==◌, ◌≡◌, refl, sym, arith,
  Bool-cases, if-intro, inl, inr,
}
use embervm.Term.{Internal, Timer, World, modify, publish, set_status, reconnecting}
use embervm.Term.Connect.{
  mark_connecting, mark_open, add_bytes, mark_exit, without_ws, without_timer, connect_with,
  connect, on_open, Message, binary, exit_frame, other_text, on_message, schedule_reconnect,
  is_current, report_exit, detached, lose, on_close, is_running, retry, on_timer,
}
use embervm.Term.Manager.{shut, close_of, enlist, clear, retire, cleared, is_idle, revive}
use embervm.Term.Invariant.{
  TimersAgree, modify-TimersAgree, attach-TimersAgree, arm-TimersAgree, drop-TimersAgree,
  shut-TimersAgree,
}

module _ (w : World) (v : TimersAgree w) (r : ℕ) (lt : r < w.seq) where
  connect_with-TimersAgree : (token : String) → TimersAgree (connect_with w r token)
  unfolding connect_with publish
  connect_with-TimersAgree token =
      let w1 : World = modify w r mark_connecting in
      let w2 : World = publish w1 (w.heap r).session.sandbox_id in
      attach-TimersAgree w2 (modify-TimersAgree w v r mark_connecting refl refl) r token lt

  pub connect-TimersAgree : TimersAgree (connect w r)
  unfolding connect
  connect-TimersAgree = by_token w.token
    where
      by_token :
          (o : Option String)
          → TimersAgree (elim o [ none ↦ w | some token ↦ connect_with w r token ])
      by_token none = v
      by_token (some token) = connect_with-TimersAgree token

  schedule-TimersAgree : (random : ℕ) → TimersAgree (schedule_reconnect w r random)
  unfolding schedule_reconnect
  schedule-TimersAgree random =
      let i : Internal = w.heap r in
      elim (Bool-cases (is_some i.retry_timer || (i.user_closed || i.shell_exited))) [
        | inl e ↦ rw e v
        | inr e ↦ rw e (arm-TimersAgree w v r random lt (ground arith) (ground arith))
      ]

  pub on_open-TimersAgree : TimersAgree (on_open w r)
  unfolding on_open publish
  on_open-TimersAgree = modify-TimersAgree w v r mark_open refl refl

  pub on_message-TimersAgree : (message : Message) → TimersAgree (on_message w r message)
  unfolding on_message
  on_message-TimersAgree (binary data') = modify-TimersAgree w v r (add_bytes data') refl refl
  on_message-TimersAgree (exit_frame code) = modify-TimersAgree w v r (mark_exit code) refl refl
  on_message-TimersAgree other_text = v

module _ (w : World) (v : TimersAgree w) (r random : ℕ) (lt : r < w.seq) where
  detached-TimersAgree : TimersAgree (detached w r random)
  unfolding detached publish
  detached-TimersAgree =
      let sandbox_id : String = (w.heap r).session.sandbox_id in
      let lost : World = publish (modify w r (set_status reconnecting)) sandbox_id in
      if-intro TimersAgree (w.heap r).user_closed (λ _. v)
        λ _.
          if-intro TimersAgree (w.heap r).shell_exited
            (λ _. modify-TimersAgree w v r report_exit refl refl)
            λ _.
              schedule-TimersAgree lost
                (modify-TimersAgree w v r (set_status reconnecting) refl refl) r lt random

  retry-TimersAgree : TimersAgree (retry w r random)
  unfolding retry
  retry-TimersAgree =
      let i : Internal = w.heap r in
      if-intro TimersAgree (i.user_closed || (i.shell_exited || is_some i.ws)) (λ _. v)
        λ _.
          if-intro TimersAgree (is_running (get i.session.sandbox_id w.last_state))
            (λ _. connect-TimersAgree w v r lt) λ _. schedule-TimersAgree w v r lt random

module _ (w : World) (v : TimersAgree w) where
  pub on_close-TimersAgree : (r ws random : ℕ) → r < w.seq → TimersAgree (on_close w r ws random)
  unfolding on_close lose
  on_close-TimersAgree r ws random lt =
      if-intro TimersAgree (is_current (w.heap r) ws)
        (λ _.
          detached-TimersAgree (modify w r without_ws)
            (modify-TimersAgree w v r without_ws refl refl) r random lt)
        λ _. v

  -- The timer `k` has fired, and runs its callback.
  pub on_timer-TimersAgree :
      (k random : ℕ) (t : Timer)
      → w.timers k ≡ some t
      → TimersAgree (on_timer (record w { timers = update w.timers k none }) t.owner random)
  unfolding on_timer
  on_timer-TimersAgree k random t h =
      retry-TimersAgree _ (drop-TimersAgree w v t.owner k (v.held k t h)) t.owner random
        (v.owned k t h)

  pub cleared-TimersAgree : (r : ℕ) → TimersAgree (cleared w r)
  cleared-TimersAgree r = by_timer (w.heap r).retry_timer refl
    where
      by_timer :
          (o : Option ℕ)
          → (w.heap r).retry_timer ≡ o
          → TimersAgree (record w {
            timers = clear w.timers o;
            heap = update w.heap r (without_timer (w.heap r));
          })
      by_timer none e = modify-TimersAgree w v r without_timer (sym e) refl
      by_timer (some k) e = drop-TimersAgree w v r k e

  pub revive-TimersAgree : (r : ℕ) → r < w.seq → TimersAgree (revive w r)
  unfolding revive
  revive-TimersAgree r lt =
      if-intro TimersAgree (is_idle ((cleared w r).heap r))
        (λ _. connect-TimersAgree (cleared w r) (cleared-TimersAgree r) r lt)
        λ _. cleared-TimersAgree r

  pub retire-TimersAgree : (reason : String) (r : ℕ) → TimersAgree (retire reason w r)
  unfolding retire
  retire-TimersAgree reason r = by_timer (w.heap r).retry_timer refl
    where
      by_timer :
          (o : Option ℕ)
          → (w.heap r).retry_timer ≡ o
          → TimersAgree (record w {
            timers = clear w.timers o;
            heap = update w.heap r (shut (w.heap r));
            sent = w.sent ++ close_of (w.heap r).ws reason;
          })
      by_timer none e = record {
        owned = v.owned;
        held = λ k t h. ground (arith, v.held k t);
        alive = λ k t h. ground (arith, v.alive k t h, v.held k t h);
        waits = λ q k c h. elim (Bool-cases (r == q)) [
          | inl same ↦ absurd (ground arith)
          | inr other ↦ v.waits q k (rw other at c) (rw other at h)
        ];
        own = λ q k t h e'. ground (arith, v.own q k t);
        old = λ q k h. ground (arith, v.old q k);
        unused = v.unused;
        made = v.made;
      }
      by_timer (some k) e = shut-TimersAgree w v r k e

  pub enlist-TimersAgree : (sandbox_id : String) → TimersAgree (enlist w sandbox_id)
  enlist-TimersAgree sandbox_id = record {
    owned = λ k t h. omega (arith, v.owned k t h);
    held = λ k t h. ground (arith, v.held k t h, v.owned k t h);
    alive = λ k t h. ground (arith, v.alive k t h, v.owned k t h);
    waits = λ q k c h. elim (Bool-cases (w.seq == q)) [
      | inl e ↦ absurd (ground arith)
      | inr e ↦ v.waits q k (rw e at c) (rw e at h)
    ];
    own = λ q k t h e. ground (arith, v.own q k t);
    old = λ q k h. ground (arith, v.old q k);
    unused = v.unused;
    made = λ k s h. omega (arith, v.made k s h);
  }
