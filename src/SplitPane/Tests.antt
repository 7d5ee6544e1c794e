-- ===== src/SplitPane/Tests.antt =====
-- The split pane on concrete widths.
use embervm.Prelude.{none, some, [], ◌∷◌, pos, ◌≡◌, refl}
use embervm.SplitPane.{default_props, Pane, clamp, commit, drag, drag_from}

abbrev start : Pane
start = record { left_w = 280; saved = none }

drag_back : (drag default_props start ((some 900, pos 900) ∷ (some 900, pos 0) ∷ [])).left_w ≡ 280
unfolding drag drag_from commit clamp
drag_back = refl
