-- ===== src/Events/Timeline.antt =====
-- The order of the timeline.
use embervm.Prelude.{
  ℕ, String, Bool, true, false, ◌&&◌, List, [], ◌∷◌, ◌++◌, map, keep, length, leb-total, leb_trans,
  Sorted, sort-Sorted, count-sort, keep-sort, keep-sort-Sorted, ◌≡◌, refl, sym, ap, subst, ◌∙◌,
  both,
}
use embervm.Events.{SandboxEvent, Checkpoint, Item, checkpoint, event, newer, items}

abbrev pub is_event : Item → Bool
is_event (checkpoint cp) = false
is_event (event ev) = true

keep-events :
    (cps : List Checkpoint) (evs : List SandboxEvent)
    → keep is_event (map checkpoint cps ++ map event evs) ≡ map event evs
keep-events [] [] = refl
keep-events [] (ev ∷ evs) = ap (event ev ∷◌) (keep-events [] evs)
keep-events (cp ∷ cps) evs = keep-events cps evs

module _ (time : String → ℕ) where
  newer-total : (a b : Item) → newer time a b ≡ false → newer time b a ≡ true
  unfolding newer
  newer-total a b e = leb-total _ _ e

  newer_trans :
      (a b c : Item) → newer time a b ≡ true → newer time b c ≡ true → newer time a c ≡ true
  unfolding newer
  newer_trans a b c e f = leb_trans _ _ _ f e

  abbrev pub at_once : Item → Item → Bool
  at_once a b = newer time a b && newer time b a

  -- The timeline is in the order of time, newest first; it is the checkpoints and the events, each as
  -- often as it is there; what happened at the same time keeps its order, checkpoints before events;
  -- and events that come newest first keep their order among themselves.
  pub items-Sorted :
      (cps : List Checkpoint) (evs : List SandboxEvent)
      → Sorted (newer time) (map event evs)
      → let shown = items time cps evs in
        let given = map checkpoint cps ++ map event evs in
        Sorted (newer time) shown
        × ((p : Item → Bool) → length (keep p shown) ≡ length (keep p given))
        × ((it : Item) → keep (at_once it) shown ≡ keep (at_once it) given)
        × (keep is_event shown ≡ map event evs)
  unfolding items
  items-Sorted cps evs h =
      let given : List Item = map checkpoint cps ++ map event evs in
      (
        sort-Sorted (newer time) newer-total newer_trans given,
        λ p. count-sort (newer time) p given,
        λ it.
            keep-sort (newer time) (at_once it) given
              (λ a b e f. newer_trans a it b (both _ _ e).1 (both _ _ f).0),
        keep-sort-Sorted (newer time) is_event given
              (subst (Sorted (newer time)) (sym (keep-events cps evs)) h)
            ∙ keep-events cps evs,
      )
