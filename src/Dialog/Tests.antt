-- ===== src/Dialog/Tests.antt =====
-- The dialog on concrete events.
use embervm.Prelude.{suc, List, [], ◌∷◌, ◌≡◌, refl}
use embervm.Dialog.{
  Event, shown, escaped, delivered, dismissed, initial, run, step, set_open, effect,
}
use embervm.Dialog.Settled.{deliver, deliver-run, run-native}

abbrev escape : List Event
escape = shown ∷ escaped ∷ delivered ∷ []

settled : (run initial escape).closes ≡ 0
unfolding run step set_open effect
settled = refl

run-native_example : (run initial escape).native ≡ (run initial escape).is_open
run-native_example = run-native escape settled

deliver-run_example :
    let w = run initial (shown ∷ escaped ∷ dismissed ∷ []) in (deliver (suc w.closes) w).closes ≡ 0
deliver-run_example = deliver-run (shown ∷ escaped ∷ dismissed ∷ [])
