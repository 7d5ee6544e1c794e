-- ===== src/Pages/Bars.antt =====
-- The bars of a node's resources, CapacityBar and OversellBar of web/src/components/ui.tsx. A width or a
-- position in percent is given times the bar's scale, so that it is whole.
use embervm.Prelude.{
  ℕ, ◌*◌, ◌≤◌, ◌<◌, min, max, ltb, leb, ◌==◌, Bool, true, not, ◌&&◌, Option, none, some,
  if◌then◌else◌, ◌≡◌, ◌↔◌, arith,
}

-- `scale` is what 1 % stands for; `fill` is none where no bar is drawn.
pub record CapacityBar : Type 0 where
  pub boundless : Bool
  pub scale : ℕ
  pub fill : Option ℕ
  pub hot : Bool

unfoldable pub capacity_bar : (used total : ℕ) → CapacityBar
capacity_bar used total =
    let boundless = total == 0 in
    let pct = if boundless then 0 else min (100 * total) (used * 100) in
    record {
      boundless = boundless;
      scale = total;
      fill = if boundless then none else some (max (if ltb 0 pct then 3 * total else 0) pct);
      hot = not boundless && leb (85 * total) pct;
    }

pub record OversellBar : Type 0 where
  pub scale : ℕ
  pub over_budget : Bool
  pub ceiling : ℕ
  pub used : ℕ
  pub base : ℕ
  pub capacity_tick : Option ℕ
  pub budget_tick : Option ℕ

unfoldable pub oversell_bar : (base used ceiling capacity budget : ℕ) → OversellBar
oversell_bar base used ceiling capacity budget =
    let domain = max ceiling (max used (max budget (max capacity 1))) in
    record {
      scale = domain;
      over_budget = ltb 0 budget && ltb budget ceiling;
      ceiling = min (100 * domain) (ceiling * 100);
      used = max (if ltb 0 used then 2 * domain else 0) (min (100 * domain) (used * 100));
      base = max (if ltb 0 base then 2 * domain else 0) (min (100 * domain) (base * 100));
      capacity_tick = if ltb 0 capacity then some (min (100 * domain) (capacity * 100)) else none;
      budget_tick =
          if ltb 0 budget && not (budget == capacity)
          then some (min (100 * domain) (budget * 100))
          else none;
    }

-- The layers of the oversell bar stay inside it; the bar is marked as over its budget exactly when the
-- ceiling's layer ends beyond the place of a budget that is not unlimited; and that is where the tick of
-- the budget is drawn, unless the budget is the capacity.
pub oversell_bar-layers :
    (base used ceiling capacity budget : ℕ)
    → let bar = oversell_bar base used ceiling capacity budget in
      (bar.base ≤ 100 * bar.scale)
      × (bar.used ≤ 100 * bar.scale)
      × (bar.ceiling ≤ 100 * bar.scale)
      × (0 < bar.scale)
      × (bar.over_budget ≡ (ltb 0 budget && ltb (budget * 100) bar.ceiling))
      × (bar.budget_tick
          ≡ (if ltb 0 budget && not (budget == capacity) then some (budget * 100) else none))
unfolding oversell_bar
oversell_bar-layers base used ceiling capacity budget =
    (ground arith, ground arith, ground arith, ground arith, ground arith, ground arith)

-- A bar is not drawn exactly for a capacity of 0, which is unlimited; else it is at most full, it is empty
-- exactly if nothing is used, and it is hot from 85 % on.
pub capacity_bar-fill :
    (used total : ℕ)
    → let bar = capacity_bar used total in
      ((bar.fill ≡ none) ↔ (total ≡ 0))
      × ((bar.hot ≡ true) ↔ ((0 < total) × (85 * total ≤ 100 * used)))
unfolding capacity_bar
capacity_bar-fill used total = (ground arith, ground arith)
