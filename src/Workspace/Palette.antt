-- ===== src/Workspace/Palette.antt =====
-- The command palette, web/src/components/palette.tsx: what it has open, the subscriptions to the
-- shortcuts, the items that it offers and what choosing one does. `go_map` of Shortcuts gives the events
-- of the two-key sequences.
use embervm.Prelude.{
  ℕ, ltb, String, Bool, true, false, not, ◌&&◌, ◌||◌, Option, none, some, List, [], ◌∷◌, ◌++◌, find,
  str_eq, map, if◌then◌else◌, take,
}
use embervm.Api.{Sandbox}

-- What the items ask the server for.
pub data Request : Type 0 where
  pause resume snapshot : String → Request
  set_autoscale : String → (on : Bool) → Request

-- A place of the console.
pub data Place : Type 0 where
  overview sandboxes nodes templates storage : Place
  workspace terminal settings : String → Place

-- The state of the component, the place that is shown, and the requests that were sent.
pub record Palette : Type 0 where
  pub is_open : Bool
  pub help_open : Bool
  pub creating : Bool
  pub place : Place
  pub focus_resize : Bool
  pub requests : List Request

pub data Item : Type 0 where
  go : Place → Item
  create : Item
  send : Request → Item
  resize_this : String → Item
  keyboard_shortcuts : Item

abbrev positive : Option ℕ → Bool
positive none = false
positive (some n) = ltb 0 n

-- `currentElastic`
unfoldable pub current_elastic : Option Sandbox → Bool
current_elastic none = false
current_elastic (some sb) = positive sb.max_memory_mib || positive sb.max_vcpus

-- `current`
unfoldable pub current : List Sandbox → String → Option Sandbox
current list id = find (λ (sb : Sandbox). str_eq sb.id id) list

-- `current?.autoscale` as a condition.
abbrev is_autoscaled : Option Sandbox → Bool
is_autoscaled none = false
is_autoscaled (some sb) = elim sb.autoscale [ none ↦ false | some on ↦ on ]

-- The items of the group Actions for the current sandbox.
unfoldable pub actions : List Sandbox → Option String → List Item
unfolding current current_elastic
actions list none = []
actions list (some id) =
    (send (pause id)
      ∷ send (resume id)
      ∷ send (snapshot id)
      ∷ go (terminal id)
      ∷ resize_this id
      ∷ [])
    ++ (if current_elastic (current list id)
        then send (set_autoscale id (not (is_autoscaled (current list id)))) ∷ []
        else [])
    ++ go (settings id) ∷ []

-- All items, in order; `current_id` is what react-router's hook gives for the param `id`.
unfoldable pub items : (current_id : Option String) → List Sandbox → List Item
unfolding actions
items current_id list =
    (go overview ∷ go sandboxes ∷ go nodes ∷ go templates ∷ go storage ∷ create ∷ [])
    ++ actions list current_id
    ++ keyboard_shortcuts ∷ map (λ (sb : Sandbox). go (workspace sb.id)) (take 50 list)

abbrev same_place : Place → Place → Bool
same_place overview overview = true
same_place sandboxes sandboxes = true
same_place nodes nodes = true
same_place templates templates = true
same_place storage storage = true
same_place (workspace i) (workspace j) = str_eq i j
same_place (terminal i) (terminal j) = str_eq i j
same_place (settings i) (settings j) = str_eq i j
same_place _ _ = false

-- `nav`; the palette is closed when the place changes.
unfoldable pub nav : Palette → Place → Palette
nav p place = record p { place = place; is_open = same_place p.place place && p.is_open }

-- The subscriptions to the bus of shortcuts.
unfoldable pub on_event : Palette → String → Palette
unfolding nav
on_event p event =
    if str_eq event "palette:open"
    then record p { is_open = not p.is_open }
    else if str_eq event "help:open"
    then record p { help_open = true }
    else if str_eq event "go:overview"
    then nav p overview
    else if str_eq event "go:sandboxes"
    then nav p sandboxes
    else if str_eq event "go:nodes"
    then nav p nodes
    else if str_eq event "go:templates"
    then nav p templates
    else if str_eq event "go:storage"
    then nav p storage
    else p

-- `run` with the item's function.
unfoldable pub select : Palette → Item → Palette
unfolding nav
select p (go place) = nav (record p { is_open = false }) place
select p create = record p { is_open = false; creating = true }
select p (send r) = record p { is_open = false; requests = r ∷ p.requests }
select p (resize_this id) = record (nav (record p { is_open = false }) (workspace id)) {
  focus_resize = true;
}
select p keyboard_shortcuts = record p { is_open = false; help_open = true }
