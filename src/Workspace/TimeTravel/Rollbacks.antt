-- ===== src/Workspace/TimeTravel/Rollbacks.antt =====
-- The rollbacks that the checkpoints tab sends, against the presses of the rows' buttons.
use embervm.Prelude.{
  ℕ, ◌||◌, not, Bool, true, false, Option, none, some, List, [], ◌∷◌, Text, if◌then◌else◌, ◌≡◌,
  refl, sym, subst, if-intro, is_some,
}
use embervm.Workspace.TimeTravel.{
  Effect, send, rollback, World, Event, polled, typed, tag_typed, toggled, submitted, executed,
  checkpoint_pressed, checkpoint_answered, fork_pressed, fork_answered, row_fork_pressed,
  row_fork_answered, rollback_asked, rollback_confirmed, rollback_closed, rollback_answered, mount,
  on_forked, on_checkpointed, confirm, on_rolled_back, step_toast, on_executed, run_words, step,
  run,
}
use embervm.Workspace.Composer.{submit, is_nil}

abbrev pub rollbacks : List Effect → List Text
rollbacks [] = []
rollbacks (send (rollback tag) ∷ es) = tag ∷ rollbacks es
rollbacks (e ∷ es) = rollbacks es

-- The checkpoints whose button `Roll back` was pressed, the last one first, on top of those before.
abbrev pub ask : {R : Type 0} → List Text → Event R → List Text
ask tags (rollback_asked tag) = tag ∷ tags
ask tags e = tags

abbrev pub asked : {R : Type 0} → List Text → List (Event R) → List Text
asked tags [] = tags
asked tags (e ∷ es) = asked (ask tags e) es

-- The first list is the second one without some of its members.
pub data IsSublist : List Text → List Text → Type 0 where
  nothing : IsSublist [] []
  left_out : {xs ys : List Text} (y : Text) → IsSublist xs ys → IsSublist xs (y ∷ ys)
  kept : {xs ys : List Text} (x : Text) → IsSublist xs ys → IsSublist (x ∷ xs) (x ∷ ys)

-- What was sent, and the target of the dialog that is open.
abbrev with_target : Option Text → List Text → List Text
with_target none xs = xs
with_target (some x) xs = x ∷ xs

nothing-IsSublist : (ys : List Text) → IsSublist [] ys
nothing-IsSublist [] = nothing
nothing-IsSublist (y ∷ ys) = left_out y (nothing-IsSublist ys)

tail-IsSublist : {x : Text} {xs ys : List Text} → IsSublist (x ∷ xs) ys → IsSublist xs ys
tail-IsSublist (left_out y h) = left_out y (tail-IsSublist h)
tail-IsSublist (kept x h) = left_out x h

without_target :
    (o : Option Text) (xs ys : List Text) → IsSublist (with_target o xs) ys → IsSublist xs ys
without_target none xs ys h = h
without_target (some x) xs ys h = tail-IsSublist h

abbrev is_about_dialog : {R : Type 0} → Event R → Bool
is_about_dialog (rollback_asked tag) = true
is_about_dialog rollback_confirmed = true
is_about_dialog rollback_closed = true
is_about_dialog e = false

module _ {R : Type 0} where
  abbrev outstanding : World R → List Text
  outstanding w = with_target w.rollback_target (rollbacks w.effects)

  if-outstanding :
      (b : Bool) (v w : World R) (xs : List Text)
      → outstanding v ≡ xs
      → outstanding w ≡ xs
      → outstanding (if b then v else w) ≡ xs
  if-outstanding true v w xs h k = h
  if-outstanding false v w xs h k = k

  on_forked-outstanding :
      (o : Option Text) (w : World R) → outstanding (on_forked o w) ≡ outstanding w
  on_forked-outstanding none w = refl
  on_forked-outstanding (some child) w = refl

  on_checkpointed-outstanding :
      (o : Option Text) (w : World R) → outstanding (on_checkpointed o w) ≡ outstanding w
  on_checkpointed-outstanding none w = refl
  on_checkpointed-outstanding (some tag) w = refl

  on_rolled_back-outstanding :
      (o : Option Text) (done : Bool) (w : World R)
      → outstanding (on_rolled_back o done w) ≡ outstanding w
  on_rolled_back-outstanding none done w = refl
  on_rolled_back-outstanding (some tag) true w = refl
  on_rolled_back-outstanding (some tag) false w = refl

  step_toast-outstanding :
      (o : Option Text) (w : World R) → outstanding (step_toast o w) ≡ outstanding w
  step_toast-outstanding none w = refl
  step_toast-outstanding (some tag) w = refl

  run_words-outstanding :
      (o : Option (List Text)) (w : World R) → outstanding (run_words o w) ≡ outstanding w
  run_words-outstanding none w = refl
  run_words-outstanding (some words) w = refl

  confirm-IsSublist :
      (o : Option Text) (w : World R) (ys : List Text)
      → o ≡ w.rollback_target
      → IsSublist (outstanding w) ys
      → IsSublist (outstanding (confirm o w)) ys
  confirm-IsSublist none w ys e h = h
  confirm-IsSublist (some tag) w ys e h =
      let sent : IsSublist (tag ∷ rollbacks w.effects) ys =
        subst (λ o. IsSublist (with_target o (rollbacks w.effects)) ys) (sym e) h in
      if-intro (λ (v : World R). IsSublist (outstanding v) ys) (is_nil tag)
        (λ _. tail-IsSublist sent) (λ _. sent)

  module _ (is_space : ℕ → Bool) (checkpoint_of : R → Option Text) where
    on_executed-outstanding :
        (o : Option R) (w : World R)
        → outstanding (on_executed is_space checkpoint_of o w) ≡ outstanding w
    on_executed-outstanding none w = refl
    on_executed-outstanding (some r) w = step_toast-outstanding (checkpoint_of r) _

    -- The steps that neither open, confirm nor close the dialog.
    step-outstanding :
        (w : World R) (e : Event R)
        → is_about_dialog e ≡ false
        → outstanding (step is_space checkpoint_of w e) ≡ outstanding w
    unfolding step
    step-outstanding w (polled running) h = refl
    step-outstanding w (typed s) h = refl
    step-outstanding w (tag_typed s) h = refl
    step-outstanding w (toggled b) h = refl
    step-outstanding w submitted h =
        if-outstanding w.execing w _ _ refl
          (run_words-outstanding (submit is_space w.cmdline w.running) w)
    step-outstanding w (executed r) h =
        if-outstanding w.execing _ w _ (on_executed-outstanding r (record w { execing = false }))
          refl
    step-outstanding w checkpoint_pressed h =
        if-outstanding (w.checkpointing || not w.running) w _ _ refl refl
    step-outstanding w (checkpoint_answered a) h =
        if-outstanding w.checkpointing _ w _
          (on_checkpointed-outstanding a (record w { checkpointing = false })) refl
    step-outstanding w fork_pressed h = if-outstanding (w.forking || not w.running) w _ _ refl refl
    step-outstanding w (fork_answered a) h =
        if-outstanding w.forking _ w _ (on_forked-outstanding a (record w { forking = false })) refl
    step-outstanding w (row_fork_pressed cp) h = if-outstanding w.row_forking w _ _ refl refl
    step-outstanding w (row_fork_answered a) h =
        if-outstanding w.row_forking _ w _
          (on_forked-outstanding a (record w { row_forking = false })) refl
    step-outstanding w (rollback_asked cp) h = absurd (cc)
    step-outstanding w rollback_confirmed h = absurd (cc)
    step-outstanding w rollback_closed h = absurd (cc)
    step-outstanding w (rollback_answered done) h = on_rolled_back-outstanding w.rolling done w

    step-IsSublist :
        (w : World R) (e : Event R) (tags : List Text)
        → IsSublist (outstanding w) tags
        → IsSublist (outstanding (step is_space checkpoint_of w e)) (ask tags e)
    unfolding step
    step-IsSublist w (rollback_asked tag) tags h =
        kept tag (without_target w.rollback_target _ tags h)
    step-IsSublist w rollback_closed tags h = without_target w.rollback_target _ tags h
    step-IsSublist w rollback_confirmed tags h =
        if-intro (λ (v : World R). IsSublist (outstanding v) tags) (is_some w.rolling) (λ _. h)
          (λ _. confirm-IsSublist w.rollback_target w tags refl h)
    step-IsSublist w e tags h = subst (λ xs. IsSublist xs tags) (sym (step-outstanding w e refl)) h

    run-IsSublist :
        (w : World R) (es : List (Event R)) (tags : List Text)
        → IsSublist (outstanding w) tags
        → IsSublist (rollbacks (run is_space checkpoint_of w es).effects) (asked tags es)
    unfolding run
    run-IsSublist w [] tags h = without_target w.rollback_target _ tags h
    run-IsSublist w (e ∷ es) tags h =
        run-IsSublist (step is_space checkpoint_of w e) es (ask tags e) (step-IsSublist w e tags h)

    -- In any course of events from the mounting of the tab on, the rollbacks that are sent are some of
    -- those whose button was pressed, each press for one at most, in the order of the presses.
    pub rollbacks-run-mount :
        (running : Bool) (es : List (Event R))
        → IsSublist
            (rollbacks (run is_space checkpoint_of (mount running) es).effects)
            (asked [] es)
    rollbacks-run-mount running es = run-IsSublist (mount running) es [] nothing
