-- ===== src/Workspace/TimeTravel.antt =====
-- The checkpoints tab, web/src/pages/workspace/CheckpointsTab.tsx: the composer, which runs a command with
-- a checkpoint before it, and the timeline with its rollbacks. `R` is the answer to a command, with the
-- tag of the checkpoint that was made; `is_space` is the white space of JavaScript.
pub mod Rollbacks
use embervm.Prelude.{
  ℕ, String, Bool, true, false, not, ◌&&◌, ◌||◌, Option, none, some, List, [], ◌∷◌, ◌++◌, Text,
  is_some, if◌then◌else◌,
}
use embervm.Workspace.Composer.{submit, trim, is_nil}

-- The requests of the tab; `fork` names a checkpoint where it starts from one.
pub data Request : Type 0 where
  exec : (words : List Text) → (with_checkpoint : Bool) → Request
  checkpoint : (tag : Option Text) → Request
  fork : (checkpoint : Option Text) → Request
  rollback : (checkpoint : Text) → Request

pub data Query : Type 0 where
  sandboxes checkpoints events : Query

pub data Toast : Type 0 where
  step_checkpointed : Text → Toast
  checkpointed : Text → Toast
  forked_to : Text → Toast
  rolled_back : Text → Toast
  exec_failed checkpoint_failed fork_failed rollback_failed : Toast

pub data Effect : Type 0 where
  send : Request → Effect
  invalidate : Query → Effect
  show : Toast → Effect
  navigate : Text → Effect

-- The states of `Composer` and `Timeline`, what is under way, and the effects, the newest first. `running`
-- is that the sandbox is, as the page was last told.
pub record World (R : Type 0) : Type 0 where
  pub running : Bool
  pub cmdline : Text
  pub with_checkpoint : Bool
  pub tag : Text
  pub result : Option R
  pub execing : Bool
  pub checkpointing : Bool
  pub forking : Bool
  pub row_forking : Bool
  pub rollback_target : Option Text
  pub rolling : Option Text
  pub effects : List Effect

pub data Event (R : Type 0) : Type 0 where
  polled : Bool → Event R
  typed : Text → Event R
  tag_typed : Text → Event R
  toggled : Bool → Event R
  submitted : Event R
  executed : Option R → Event R
  checkpoint_pressed : Event R
  checkpoint_answered : Option Text → Event R
  fork_pressed : Event R
  fork_answered : Option Text → Event R
  row_fork_pressed : Text → Event R
  row_fork_answered : Option Text → Event R
  rollback_asked : Text → Event R
  rollback_confirmed : Event R
  rollback_closed : Event R
  rollback_answered : Bool → Event R

module _ {R : Type 0} where
  abbrev pub mount : Bool → World R
  mount running = record {
    running = running;
    cmdline = [];
    with_checkpoint = true;
    tag = [];
    result = none;
    execing = false;
    checkpointing = false;
    forking = false;
    row_forking = false;
    rollback_target = none;
    rolling = none;
    effects = [];
  }

  abbrev pub note : Effect → World R → World R
  note e w = record w { effects = e ∷ w.effects }

  -- `invalidate`
  abbrev pub refresh : World R → World R
  refresh w = note (invalidate events) (note (invalidate checkpoints) w)

  -- `onSuccess` and `onError` of both forks.
  abbrev pub on_forked : Option Text → World R → World R
  on_forked none w = note (show fork_failed) w
  on_forked (some child) w = note (show (forked_to child)) (note (navigate child) w)

  abbrev pub on_checkpointed : Option Text → World R → World R
  on_checkpointed none w = note (show checkpoint_failed) w
  on_checkpointed (some tag) w = note (show (checkpointed tag)) (refresh (record w { tag = [] }))

  -- The button `Roll back` of the dialog: `rollback.mutate` and the target that is cleared.
  abbrev pub confirm : Option Text → World R → World R
  confirm none w = w
  confirm (some tag) w =
      if is_nil tag
      then record w { rollback_target = none }
      else record (note (send (rollback tag)) w) { rolling = some tag; rollback_target = none }

  abbrev pub on_rolled_back : Option Text → Bool → World R → World R
  on_rolled_back none done w = w
  on_rolled_back (some tag) done w =
      let w : World R = record w { rolling = none } in
      if done
      then note (show (rolled_back tag)) (refresh (note (invalidate sandboxes) w))
      else note (show rollback_failed) w

  abbrev pub step_toast : Option Text → World R → World R
  step_toast none w = w
  step_toast (some tag) w = note (show (step_checkpointed tag)) w

  abbrev pub run_words : Option (List Text) → World R → World R
  run_words none w = w
  run_words (some words) w = record (note (send (exec words w.with_checkpoint)) w) {
    execing = true;
  }

  module _ (is_space : ℕ → Bool) (checkpoint_of : R → Option Text) where
    abbrev pub on_executed : Option R → World R → World R
    on_executed none w = note (show exec_failed) w
    on_executed (some r) w = step_toast (checkpoint_of r) (refresh (record w { result = some r }))

    -- `tag.trim() || undefined`
    abbrev pub tag_of : Text → Option Text
    tag_of s = if is_nil (trim is_space s) then none else some (trim is_space s)

    unfoldable pub step : World R → Event R → World R
    unfolding submit trim
    step w (polled running) = record w { running = running }
    step w (typed s) = record w { cmdline = s }
    step w (tag_typed s) = record w { tag = s }
    step w (toggled b) = record w { with_checkpoint = b }
    step w submitted = if w.execing then w else run_words (submit is_space w.cmdline w.running) w
    step w (executed r) = if w.execing then on_executed r (record w { execing = false }) else w
    step w checkpoint_pressed =
        if w.checkpointing || not w.running
        then w
        else note (send (checkpoint (tag_of w.tag))) (record w { checkpointing = true })
    step w (checkpoint_answered a) =
        if w.checkpointing then on_checkpointed a (record w { checkpointing = false }) else w
    step w fork_pressed =
        if w.forking || not w.running
        then w
        else note (send (fork none)) (record w { forking = true })
    step w (fork_answered a) = if w.forking then on_forked a (record w { forking = false }) else w
    step w (row_fork_pressed cp) =
        if w.row_forking then w else note (send (fork (some cp))) (record w { row_forking = true })
    step w (row_fork_answered a) =
        if w.row_forking then on_forked a (record w { row_forking = false }) else w
    step w (rollback_asked cp) = record w { rollback_target = some cp }
    step w rollback_confirmed = if is_some w.rolling then w else confirm w.rollback_target w
    step w rollback_closed = record w { rollback_target = none }
    step w (rollback_answered done) = on_rolled_back w.rolling done w

    unfoldable pub run : World R → List (Event R) → World R
    unfolding step
    run w [] = w
    run w (e ∷ es) = run (step w e) es
