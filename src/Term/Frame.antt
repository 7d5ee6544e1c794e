-- ===== src/Term/Frame.antt =====
-- What the callbacks of sockets and timers, and the calls that make no session and close none, leave
-- as it is: the map of sessions, and of each object its number, its sandbox and whether it is closed.
use embervm.Prelude.{
  ℕ, String, false, not, ◌||◌, Option, none, some, List, [], ◌∷◌, get, is_some, ◌≡◌, refl, sym, ◌∙◌,
  arith, if-intro,
}
use embervm.Term.{Internal, World, modify, publish, set_status, reconnecting}
use embervm.Term.Connect.{
  mark_connecting, mark_open, add_bytes, mark_exit, without_ws, without_timer, arm, attach,
  connect_with, connect, on_open, Message, binary, exit_frame, other_text, on_message,
  schedule_reconnect, is_current, report_exit, detached, lose, on_close, is_running, retry,
  on_timer,
}
use embervm.Term.Manager.{cleared, is_idle, revive, revive_all, reset, restart_found}

pub record Frame (w w' : World) : Type 0 where
  pub lists : w'.by_sandbox ≡ w.by_sandbox
  pub numbers : w'.seq ≡ w.seq
  pub ids : (r : ℕ) → (w'.heap r).session.id ≡ (w.heap r).session.id
  pub homes : (r : ℕ) → (w'.heap r).session.sandbox_id ≡ (w.heap r).session.sandbox_id
  pub closings : (r : ℕ) → (w'.heap r).user_closed ≡ (w.heap r).user_closed

-- The same lists, numbers and objects.
abbrev pub plain :
    {w w' : World} → w'.by_sandbox ≡ w.by_sandbox → w'.seq ≡ w.seq → w'.heap ≡ w.heap → Frame w w'
plain a b h = record {
  lists = a;
  numbers = b;
  ids = λ r. λ i. (h i r).session.id;
  homes = λ r. λ i. (h i r).session.sandbox_id;
  closings = λ r. λ i. (h i r).user_closed;
}

pub Frame-trans : {u v w : World} → Frame u v → Frame v w → Frame u w
Frame-trans f g = record {
  lists = g.lists ∙ f.lists;
  numbers = g.numbers ∙ f.numbers;
  ids = λ r. g.ids r ∙ f.ids r;
  homes = λ r. g.homes r ∙ f.homes r;
  closings = λ r. g.closings r ∙ f.closings r;
}

module _ (w : World) where
  pub Frame-refl : Frame w w
  Frame-refl = plain refl refl refl

  pub modify-Frame :
      (r : ℕ) (f : Internal → Internal)
      → (f (w.heap r)).session.id ≡ (w.heap r).session.id
      → (f (w.heap r)).session.sandbox_id ≡ (w.heap r).session.sandbox_id
      → (f (w.heap r)).user_closed ≡ (w.heap r).user_closed
      → Frame w (modify w r f)
  modify-Frame r f a b c = record {
    lists = refl;
    numbers = refl;
    ids = λ q. ground arith;
    homes = λ q. ground arith;
    closings = λ q. ground arith;
  }

  pub publish-Frame : (sandbox_id : String) → Frame w (publish w sandbox_id)
  unfolding publish
  publish-Frame sandbox_id = plain refl refl refl

  attach-Frame : (r : ℕ) (token : String) → Frame w (attach w r token)
  attach-Frame r token = record {
    lists = refl;
    numbers = refl;
    ids = λ q. ground arith;
    homes = λ q. ground arith;
    closings = λ q. ground arith;
  }

  arm-Frame : (r random : ℕ) → Frame w (arm w r random)
  arm-Frame r random = record {
    lists = refl;
    numbers = refl;
    ids = λ q. ground arith;
    homes = λ q. ground arith;
    closings = λ q. ground arith;
  }

  cleared-Frame : (r : ℕ) → Frame w (cleared w r)
  cleared-Frame r = record {
    lists = refl;
    numbers = refl;
    ids = λ q. ground arith;
    homes = λ q. ground arith;
    closings = λ q. ground arith;
  }

module _ (w : World) where
  pub connect-Frame : (r : ℕ) → Frame w (connect w r)
  unfolding connect connect_with
  connect-Frame r = by_token w.token
    where
      by_token :
          (o : Option String) → Frame w (elim o [ none ↦ w | some token ↦ connect_with w r token ])
      by_token none = Frame-refl w
      by_token (some token) =
          let w1 : World = modify w r mark_connecting in
          let w2 : World = publish w1 (w.heap r).session.sandbox_id in
          Frame-trans (modify-Frame w r mark_connecting refl refl refl)
            (Frame-trans (publish-Frame w1 (w.heap r).session.sandbox_id) (attach-Frame w2 r token))

  schedule-Frame : (r random : ℕ) → Frame w (schedule_reconnect w r random)
  unfolding schedule_reconnect
  schedule-Frame r random =
      let i : Internal = w.heap r in
      if-intro (Frame w) (is_some i.retry_timer || (i.user_closed || i.shell_exited))
        (λ _. Frame-refl w) λ _. arm-Frame w r random

module _ (w : World) where
  -- A change of an object and a publication.
  change-Frame :
      (r : ℕ) (f : Internal → Internal) (sandbox_id : String)
      → Frame w (modify w r f)
      → Frame w (publish (modify w r f) sandbox_id)
  change-Frame r f sandbox_id h = Frame-trans h (publish-Frame (modify w r f) sandbox_id)

  pub on_open-Frame : (r : ℕ) → Frame w (on_open w r)
  unfolding on_open
  on_open-Frame r = change-Frame r mark_open _ (modify-Frame w r mark_open refl refl refl)

  pub on_message-Frame : (r : ℕ) (message : Message) → Frame w (on_message w r message)
  unfolding on_message
  on_message-Frame r (binary data') = modify-Frame w r (add_bytes data') refl refl refl
  on_message-Frame r (exit_frame code) = modify-Frame w r (mark_exit code) refl refl refl
  on_message-Frame r other_text = Frame-refl w

module _ (w : World) where
  detached-Frame : (r random : ℕ) → Frame w (detached w r random)
  unfolding detached
  detached-Frame r random =
      let sandbox_id : String = (w.heap r).session.sandbox_id in
      if-intro (Frame w) (w.heap r).user_closed (λ _. Frame-refl w)
        λ _.
          if-intro (Frame w) (w.heap r).shell_exited
            (λ _.
              change-Frame w r report_exit sandbox_id (modify-Frame w r report_exit refl refl refl))
            λ _.
              Frame-trans
                (change-Frame w r (set_status reconnecting) sandbox_id
                  (modify-Frame w r (set_status reconnecting) refl refl refl))
                (schedule-Frame (publish (modify w r (set_status reconnecting)) sandbox_id) r
                  random)

  retry-Frame : (r random : ℕ) → Frame w (retry w r random)
  unfolding retry
  retry-Frame r random =
      let i : Internal = w.heap r in
      if-intro (Frame w) (i.user_closed || (i.shell_exited || is_some i.ws)) (λ _. Frame-refl w)
        λ _.
          if-intro (Frame w) (is_running (get i.session.sandbox_id w.last_state))
            (λ _. connect-Frame w r) λ _. schedule-Frame w r random

module _ (w : World) where
  pub on_close-Frame : (r ws random : ℕ) → Frame w (on_close w r ws random)
  unfolding on_close lose
  on_close-Frame r ws random =
      if-intro (Frame w) (is_current (w.heap r) ws)
        (λ _.
          Frame-trans (modify-Frame w r without_ws refl refl refl)
            (detached-Frame (modify w r without_ws) r random))
        λ _. Frame-refl w

  pub on_timer-Frame : (r random : ℕ) → Frame w (on_timer w r random)
  unfolding on_timer
  on_timer-Frame r random =
      Frame-trans (modify-Frame w r without_timer refl refl refl)
        (retry-Frame (modify w r without_timer) r random)

  pub revive-Frame : (r : ℕ) → Frame w (revive w r)
  unfolding revive
  revive-Frame r =
      if-intro (Frame w) (is_idle ((cleared w r).heap r))
        (λ _. Frame-trans (cleared-Frame w r) (connect-Frame (cleared w r) r))
        λ _. cleared-Frame w r

  -- A session that is in the map is not closed.
  pub restart_found-Frame : (r : ℕ) → (w.heap r).user_closed ≡ false → Frame w (restart_found w r)
  unfolding restart_found
  restart_found-Frame r open' =
      if-intro (Frame w) (is_some (w.heap r).ws || not (w.heap r).shell_exited) (λ _. Frame-refl w)
        λ _.
          Frame-trans (modify-Frame w r reset refl refl (sym open'))
            (connect-Frame (modify w r reset) r)

pub revive_all-Frame : (w : World) (rs : List ℕ) → Frame w (revive_all w rs)
unfolding revive_all
revive_all-Frame w [] = Frame-refl w
revive_all-Frame w (r ∷ rs) = Frame-trans (revive-Frame w r) (revive_all-Frame (revive w r) rs)
